-- ===== src/Writer/Loop.antt =====
-- `writeChunk` and the loop of `writeMessage`, with the bytes that they write.
use gortmp.Base.{ℕ, ◌+◌, ◌%◌, ◌^◌, ◌≤◌, ◌<◌, ◌≡◌, ◌≢◌, min, arith}
use gortmp.Base.{List, ◌++◌, length, take, drop, length-append}
use gortmp.Base.{some, if◌then◌else◌, ◌==◌, take-min, drop-min}
use gortmp.Wire.{ok, ◌>>=◌}
use gortmp.Wire.Written.{filled, filled-append, Emits-fits, write_bytes_fits}
use gortmp.Header.{Header}
use gortmp.Header.Write.{encode, write-Emits}
use gortmp.Message.{Message, set_chunk_size}
use gortmp.Writer.{OutChunkStream, Output, write_chunk, next_header, copy_out}
use gortmp.Writer.{announced_size, emit_chunk, emit_body, adopt_size, on_sink, resink}

-- How many bytes of the buffer the next chunk has.
abbrev pub chunk_length : Output → ℕ
chunk_length s = min (length s.message.buf % 2 ^ 32) s.chunk_size

announced_none : (msg : Message) → msg.type ≢ set_chunk_size → announced_size msg ≡ some 0
unfolding announced_size
announced_none msg h = ground arith

copy_out_lem :
    (m : ℕ) (s : Output)
    → length (take m s.message.buf) ≤ s.sink.room
    → copy_out m s
      ≡ ok tt (record s {
        message = record s.message { buf = drop m s.message.buf };
        sink = filled s.sink (take m s.message.buf);
      })
unfolding copy_out
copy_out_lem m s h = rw (write_bytes_fits (take m s.message.buf) s.sink h, copy_out)

-- A chunk of a message that announces `size`, or 0.
pub emit_chunk_lem :
    (h : Header) (s : Output) (size : ℕ)
    → announced_size s.message ≡ some size
    → h.chunk_stream_id ≤ 65599
    → length (encode h ++ take (chunk_length s) s.message.buf) ≤ s.sink.room
    → emit_chunk h s
      ≡ ok tt (record s {
        chunk_size = if size == 0 then s.chunk_size else size;
        message = record s.message { buf = drop (chunk_length s) s.message.buf };
        sink = filled s.sink (encode h ++ take (chunk_length s) s.message.buf);
      })
unfolding emit_chunk emit_body adopt_size
emit_chunk_lem h s size p le fits =
    let body : List ℕ = take (chunk_length s) s.message.buf in
    let room : length (encode h) + length body ≤ s.sink.room =
      omega (arith, length-append (encode h) body) in
    rw (
      Emits-fits (encode h) s.sink (write-Emits h le) (omega arith),
      on_sink,
      resink,
      ◌>>=◌,
      emit_chunk,
      p,
      copy_out_lem (chunk_length s) (record s { sink = filled s.sink (encode h) }) (omega arith),
      filled-append s.sink (encode h) body,
    )

-- One chunk, with the header that was chosen and what it takes of the buffer.
pub write_chunk_lem :
    (s : Output) (h : Header) (cs : OutChunkStream)
    → next_header s.stream s.message ≡ (h, cs)
    → s.message.type ≢ set_chunk_size
    → h.chunk_stream_id ≤ 65599
    → length s.message.buf < 2 ^ 32
    → length (encode h ++ take s.chunk_size s.message.buf) ≤ s.sink.room
    → write_chunk s
      ≡ ok tt (record s {
        stream = cs;
        message = record s.message { buf = drop s.chunk_size s.message.buf };
        sink = filled s.sink (encode h ++ take s.chunk_size s.message.buf);
      })
unfolding write_chunk
write_chunk_lem s h cs e p le r fits =
    let front : take (chunk_length s) s.message.buf ≡ take s.chunk_size s.message.buf =
      take-min (length s.message.buf % 2 ^ 32) s.chunk_size s.message.buf (omega arith) in
    let back : drop (chunk_length s) s.message.buf ≡ drop s.chunk_size s.message.buf =
      drop-min (length s.message.buf % 2 ^ 32) s.chunk_size s.message.buf (omega arith) in
    rw (
      e,
      write_chunk,
      emit_chunk_lem h (record s { stream = cs }) 0 (announced_none s.message p) le (rw front fits),
      front,
      back,
    )
