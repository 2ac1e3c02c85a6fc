-- ===== src/Writer.antt =====
-- chunkstreamwriter.go: messages are cut into chunks.
--
-- `cs.currentMessage` is set before a message is written and read only until it is done: it is the
-- field `message` of `Output`. What the functions return beside the error is the count of the sink.
pub mod Headers
pub mod Loop
pub mod Whole
pub mod Ends
pub mod Announce
use gortmp.Base.{
  ℕ, zero, suc, ◌+◌, ◌-◌, ◌%◌, ◌^◌, min, Bool, true, false, ◌&&◌, not, List, [], ◌∷◌, ◌++◌,
}
use gortmp.Base.{Option, none, some, length, take, drop, ltb, leb, ◌==◌, if◌then◌else◌}
use gortmp.Base.Bytes.{of_be}
use gortmp.Wire.{Sink, Action, Outcome, ok, err, ◌>>=◌, ◌>>◌, Error, out_of_range}
use gortmp.Wire.{out_of_fuel, write_bytes, count_out}
use gortmp.Message.{Message, set_chunk_size}
use gortmp.Header.{Header, zero_header, extended_mark}
use gortmp.Header

pub data Priority : Type 0 where
  high medium low : Priority

pub record OutChunkStream : Type 0 where
  pub last_header : Option Header
  pub last_absolute_timestamp : ℕ
  pub message_queue : Priority

-- `&outChunkStream{messageQueue: queue}`
abbrev pub fresh_stream : Priority → OutChunkStream
fresh_stream queue = record {
  last_header = none;
  last_absolute_timestamp = 0;
  message_queue = queue;
}

-- The choice of the format, and with it of what stands in the timestamp field; `last` is what
-- `cs.lastHeader` holds once a delta that is not positive has cleared it.
choose_format : Header → Option Header → ℕ → ℕ → Header
choose_format header none timestamp delta = record header {
  fmt = Header.header_fmt_full;
  timestamp = timestamp;
}
choose_format header (some last) timestamp delta =
    if header.message_stream_id == last.message_stream_id
    then (if (header.message_type_id == last.message_type_id)
          && (header.message_length == last.message_length)
        then (if last.fmt == Header.header_fmt_full
            then record header { fmt = Header.header_fmt_same_length_and_stream; timestamp = delta }
            else if last.timestamp == delta
            then record header { fmt = Header.header_fmt_continuation }
            else record header {
              fmt = Header.header_fmt_same_length_and_stream;
              timestamp = delta;
            })
        else record header { fmt = Header.header_fmt_same_stream; timestamp = delta })
    else record header { fmt = Header.header_fmt_full; timestamp = timestamp }

-- The extended timestamp is that of the message, whatever the format.
extend : Header → ℕ → Header
extend header timestamp =
    if leb extended_mark header.timestamp
    then record header { extended_timestamp = timestamp; timestamp = extended_mark }
    else record header { extended_timestamp = 0 }

abbrev message_header : Message → Header
message_header msg = record zero_header {
  chunk_stream_id = msg.chunk_stream_id;
  message_length = msg.size;
  message_type_id = msg.type;
  message_stream_id = msg.stream_id;
}

unfoldable pub new_header : OutChunkStream → Message → Header × OutChunkStream
unfolding choose_format extend
new_header cs msg =
    let later = ltb cs.last_absolute_timestamp msg.timestamp in
    let delta = if later then msg.timestamp - cs.last_absolute_timestamp else 0 in
    let last : Option Header = if later then cs.last_header else none in
    let header =
      extend (choose_format (message_header msg) last msg.timestamp delta) msg.timestamp in
    (header, record cs { last_header = some header; last_absolute_timestamp = msg.timestamp })

-- What the writing of one message works on.
pub record Output : Type 0 where
  pub chunk_size : ℕ
  pub stream : OutChunkStream
  pub message : Message
  pub sink : Sink

abbrev pub continuation_header : Message → Header
continuation_header msg = record zero_header {
  chunk_stream_id = msg.chunk_stream_id;
  fmt = Header.header_fmt_continuation;
}

-- A chunk that is not the first of its message is known by the buffer being shorter than the size.
unfoldable pub next_header : OutChunkStream → Message → Header × OutChunkStream
next_header cs msg =
    if length msg.buf % 2 ^ 32 == msg.size then new_header cs msg else (continuation_header msg, cs)

-- An action of the sink alone.
abbrev resink : Output → Outcome Sink (Unit {0}) → Outcome Output (Unit {0})
resink s (ok _ k) = ok tt (record s { sink = k })
resink s (err e k) = err e (record s { sink = k })

abbrev on_sink : Action Sink (Unit {0}) → Action Output (Unit {0})
on_sink m s = resink s (m s.sink)

-- `binary.BigEndian.Uint32(Buf.Bytes())` for a message that sets the chunk size, and 0 otherwise.
pub announced_size : Message → Option ℕ
announced_size msg =
    if msg.type == set_chunk_size
    then (if leb 4 (length msg.buf) then some (of_be (take 4 msg.buf)) else none)
    else some 0

-- `io.CopyN(w, Buf, remain)`. A write that fails has counted what it wrote.
copy_out : ℕ → Action Output (Unit {0})
copy_out remain s =
    let bytes = take remain s.message.buf in
    let s' : Output = record s { message = record s.message { buf = drop remain s.message.buf } } in
    elim (write_bytes bytes s.sink) [
      | ok _ k ↦ ok tt (record s' { sink = record k { n = k.n + length bytes } })
      | err e k ↦ err e (record s' { sink = record k { n = k.n + s.sink.room } })
    ]

-- `if tmpChunkSize != 0 { csw.chunkSize = tmpChunkSize }`
adopt_size : ℕ → Action Output (Unit {0})
adopt_size size s = ok tt (record s { chunk_size = if size == 0 then s.chunk_size else size })

-- The payload of a chunk; there is no chunk size to read from a buffer that is too short for it.
emit_body : Option ℕ → Action Output (Unit {0})
emit_body none s = err out_of_range s
emit_body (some size) s =
    (do copy_out (min (length s.message.buf % 2 ^ 32) s.chunk_size); adopt_size size) s

-- `writeChunk` behind the choice of the header.
pub emit_chunk : Header → Action Output (Unit {0})
emit_chunk header s = (on_sink (Header.write header) >> emit_body (announced_size s.message)) s

pub write_chunk : Action Output (Unit {0})
write_chunk s =
    let (header, cs) = next_header s.stream s.message in
    emit_chunk header (record s { stream = cs })

-- `for msg.Buf.Len() > 0`, with fuel.
unfoldable pub write_message : ℕ → Action Output (Unit {0})
write_message zero s = if ltb 0 (length s.message.buf) then err out_of_fuel s else ok tt s
write_message (suc f) s = elim (ltb 0 (length s.message.buf)) [
  | false ↦ ok tt s
  | true ↦ (write_chunk >> write_message f) s
]
