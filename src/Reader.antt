-- ===== src/Reader.antt =====
-- chunkstreamreader.go: chunks are put together to messages.
--
-- `Session` is the reader with its connection and the calls of the handler that it has made, oldest
-- first. The count of the source is `inBytes`, the sum of what the calls of `readChunk` return; an
-- int64, it is not taken to wrap.
pub mod Progress
pub mod Payload
pub mod Step
pub mod Announced
pub mod Typed
use gortmp.Base.{ℕ, zero, suc, ◌+◌, ◌%◌, ◌^◌, Bool, true, List, [], ◌∷◌, ◌++◌}
use gortmp.Base.{Option, none, some, length, take, drop, ltb, leb, ◌==◌, if◌then◌else◌}
use gortmp.Base.Bytes.{of_be}
use gortmp.Wire.{Source, Action, Outcome, ok, err, Error, ◌>>=◌, ◌>>◌, eof, out_of_range}
use gortmp.Wire.{out_of_fuel, invalid_chunk_header}
use gortmp.Message.{Message, remain, set_chunk_size, window_acknowledgement_size}
use gortmp.Message.{cs_id_protocol_control, default_chunk_size, default_window_size}
use gortmp.Header.{Header, zero_header, read_base_header, read_header, real_timestamp}
use gortmp.Header

pub record InChunkStream : Type 0 where
  pub last_header : Option Header
  pub last_absolute_timestamp : ℕ
  pub current_message : Option Message

-- `&inChunkStream{id: csi}`; the field `id` is never read.
abbrev pub new_stream : InChunkStream
new_stream = record { last_header = none; last_absolute_timestamp = 0; current_message = none }

-- A call of the handler.
pub data Event : Type 0 where
  on_message : Message → Event
  on_window_full : ℕ → Event

pub record Session : Type 0 where
  pub chunk_size : ℕ
  pub window_size : ℕ
  pub chunk_streams : ℕ → Option InChunkStream
  pub source : Source
  pub events : List Event

-- `NewChunkStreamReader`, with the bytes that will come.
unfoldable pub new_chunk_stream_reader : List ℕ → Session
new_chunk_stream_reader bytes = record {
  chunk_size = default_chunk_size;
  window_size = default_window_size;
  chunk_streams = λ _. none;
  source = record { n = 0; rest = bytes };
  events = [];
}

abbrev pub update : (ℕ → Option InChunkStream) → ℕ → InChunkStream → ℕ → Option InChunkStream
update t i cs j = if i == j then some cs else t j

-- `csr.chunkStreams[csi]`, or a new stream.
abbrev pub stream_at : (ℕ → Option InChunkStream) → ℕ → InChunkStream
stream_at t csi = elim (t csi) [ none ↦ new_stream | some cs ↦ cs ]

abbrev set_stream : ℕ → InChunkStream → Session → Session
set_stream csi cs s = record s { chunk_streams = update s.chunk_streams csi cs }

abbrev pub emit : Event → Session → Session
emit e s = record s { events = s.events ++ (e ∷ []) }

-- `binary.BigEndian.Uint32(msg.Buf.Bytes())` panics if there are fewer than four bytes.
unfoldable pub handle_message : Message → Action Session (Unit {0})
handle_message msg s =
    if msg.chunk_stream_id == cs_id_protocol_control
    then (if msg.type == set_chunk_size
        then (if leb 4 (length msg.buf)
            then ok tt (emit (on_message msg) (record s { chunk_size = of_be (take 4 msg.buf) }))
            else err out_of_range s)
        else if msg.type == window_acknowledgement_size
        then (if leb 4 (length msg.buf)
            then ok tt (emit (on_message msg) (record s { window_size = of_be (take 4 msg.buf) }))
            else err out_of_range s)
        else ok tt (emit (on_message msg) s))
    else ok tt (emit (on_message msg) s)

-- A chunk whose header was completed: the header, the time, and the message that it continues.
pub record Chunk : Type 0 where
  pub header : Header
  pub time : ℕ
  pub message : Option Message

-- The switch on the format; `none` is ErrInvalidChunkHeader.
unfoldable pub complete : InChunkStream → Header → Option Chunk
complete cs header =
    if header.fmt == Header.header_fmt_full
    then some (record { header = header; time = header.timestamp; message = none })
    else elim cs.last_header [
      | none ↦ none
      | some last ↦
          if header.fmt == Header.header_fmt_same_stream
          then some (record {
            header = record header { message_stream_id = last.message_stream_id };
            time = (cs.last_absolute_timestamp + header.timestamp) % 2 ^ 32;
            message = none;
          })
          else if header.fmt == Header.header_fmt_same_length_and_stream
          then some (record {
            header = record header {
              message_stream_id = last.message_stream_id;
              message_length = last.message_length;
              message_type_id = last.message_type_id;
            };
            time = (cs.last_absolute_timestamp + header.timestamp) % 2 ^ 32;
            message = none;
          })
          else some (record {
            header = record header {
              message_stream_id = last.message_stream_id;
              message_length = last.message_length;
              message_type_id = last.message_type_id;
              timestamp = last.timestamp;
            };
            time = cs.last_absolute_timestamp;
            message = cs.current_message;
          })
    ]

-- The message that a chunk begins.
abbrev pub begun : ℕ → Header → ℕ → Message
begun csi header time = record {
  chunk_stream_id = csi;
  timestamp = real_timestamp header;
  size = header.message_length;
  type = header.message_type_id;
  stream_id = header.message_stream_id;
  buf = [];
  is_inbound = true;
  absolute_timestamp = time;
}

abbrev pub chunk_message : ℕ → Chunk → Message
chunk_message csi c = elim c.message [ none ↦ begun csi c.header c.time | some msg ↦ msg ]

-- `io.CopyN(message.Buf, r, n)`: what there is, and EOF if that is less than `n`.
abbrev taken : ℕ → Source → List ℕ
taken n src = take n src.rest

abbrev copied : ℕ → Source → Source
copied n src = record { n = src.n + length (taken n src); rest = drop n src.rest }

-- What follows the copying: the message is handled if this was its last chunk, and remembered if not.
finish : ℕ → InChunkStream → Message → Bool → Action Session (Unit {0})
finish csi cs msg last_chunk s =
    if last_chunk
    then elim (handle_message msg s) [
      | ok _ t ↦ ok tt (set_stream csi (record cs { current_message = none }) t)
      | err e t ↦ err e t
    ]
    else ok tt (set_stream csi (record cs { current_message = some msg }) s)

-- The stream after a copy that fell short. A message that was under way is shared with the stream,
-- and has got the bytes too.
abbrev interrupted : InChunkStream → Chunk → Message → InChunkStream
interrupted cs c msg = elim c.message [
  | none ↦ cs
  | some _ ↦ record cs { current_message = some msg }
]

-- The payload of a chunk.
pub read_payload : ℕ → InChunkStream → Chunk → Action Session (Unit {0})
read_payload csi cs c s =
    let begun_message = chunk_message csi c in
    let left = remain begun_message.size (some begun_message.buf) in
    let n = if ltb s.chunk_size left then s.chunk_size else left in
    let msg : Message = record begun_message { buf = begun_message.buf ++ taken n s.source } in
    let stream : InChunkStream = record cs {
      last_header = some c.header;
      last_absolute_timestamp = c.time;
    } in
    let t : Session = set_stream csi stream (record s { source = copied n s.source }) in
    if leb n (length s.source.rest)
    then finish csi stream msg (leb left s.chunk_size) t
    else err eof (set_stream csi (interrupted stream c msg) t)

-- The chunk stream is entered in the table before the header is read. The header's bytes are not
-- counted if it cannot be read.
read_message_header : ℕ → ℕ → Session → Outcome Session (Unit {0})
read_message_header vfmt csi s =
    let cs = stream_at s.chunk_streams csi in
    let t : Session = set_stream csi cs s in
    elim (read_header zero_header vfmt csi cs.last_header s.source) [
      | err e src ↦ err e (record t { source = record src { n = s.source.n } })
      | ok header src ↦ elim (complete cs header) [
        | none ↦ err invalid_chunk_header (record t { source = src })
        | some c ↦ read_payload csi cs c (record t { source = src })
      ]
    ]

pub read_chunk : Action Session (Unit {0})
read_chunk s = elim (read_base_header s.source) [
  | err e src ↦ err e (record s { source = src })
  | ok (vfmt, csi) src ↦ read_message_header vfmt csi (record s { source = src })
]

-- `if inBytes >= (inBytesPreWindow + int64(csr.windowSize))`: the session and `inBytesPreWindow`
-- behind it.
unfoldable pub check_window : ℕ → Session → Session × ℕ
check_window before s =
    if leb (before + s.window_size) s.source.n
    then (emit (on_window_full (s.source.n % 2 ^ 32)) s, s.source.n)
    else (s, before)

-- The loop of `ReadFrom`, with fuel; it only ends by an error.
unfoldable pub read_loop : ℕ → ℕ → Session → Error × Session
read_loop zero before s = (out_of_fuel, s)
read_loop (suc f) before s = elim (read_chunk s) [
  | err e t ↦ (e, t)
  | ok _ t ↦ read_loop f (check_window before t).1 (check_window before t).0
]

-- Each chunk takes a byte at least, so one round more than there are bytes is enough.
unfoldable pub read_from : Session → Error × Session
read_from s = read_loop (suc (length s.source.rest)) 0 s
