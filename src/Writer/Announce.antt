-- ===== src/Writer/Announce.antt =====
-- A message that sets the chunk size, whole in one chunk.
use gortmp.Base.{ℕ, ◌%◌, ◌^◌, ◌≤◌, ◌<◌, ◌≡◌, refl, [], ◌++◌, some, length, arith}
use gortmp.Base.{take, drop, take-min, drop-min, take_all, drop_all, ap, ◌∙◌, ◌==◌, if◌then◌else◌}
use gortmp.Base.Bytes.{be_uint32}
use gortmp.Wire.{ok, ◌>>=◌}
use gortmp.Wire.Written.{filled}
use gortmp.Header.Write.{encode}
use gortmp.Message.{Message, set_chunk_size}
use gortmp.Writer.{Output, announced_size, new_header, write_chunk, write_message}
use gortmp.Writer.Loop.{emit_chunk_lem, chunk_length}
use gortmp.Writer.Whole.{write_message_more, write_message_done, next_header_first, new_header-id}

announced :
    (msg : Message) (size : ℕ)
    → msg.type ≡ set_chunk_size
    → msg.buf ≡ be_uint32 size
    → size < 2 ^ 32
    → announced_size msg ≡ some size
unfolding announced_size
announced msg size t b h = ground arith

-- For a message that announces the uint32 `size` in four bytes, a chunk size of at least four and a
-- writer with enough room: `writeMessage` writes it in one chunk and takes over the size, unless it
-- is 0, which leaves the chunk size as it is.
pub write_message_announces :
    (s : Output) (size : ℕ)
    → s.message.type ≡ set_chunk_size
    → s.message.buf ≡ be_uint32 size
    → s.message.size ≡ 4
    → size < 2 ^ 32
    → 4 ≤ s.chunk_size
    → s.message.chunk_stream_id ≤ 65599
    → length (encode (new_header s.stream s.message).0 ++ be_uint32 size) ≤ s.sink.room
    → write_message 5 s
      ≡ ok tt (record s {
        chunk_size = if size == 0 then s.chunk_size else size;
        stream = (new_header s.stream s.message).1;
        message = record s.message { buf = [] };
        sink = filled s.sink (encode (new_header s.stream s.message).0 ++ be_uint32 size);
      })
unfolding write_chunk
write_message_announces s size t b z h c i fits =
    let four : length s.message.buf ≡ 4 = ap length b in
    let n = length s.message.buf % 2 ^ 32 in
    let all_taken : take (chunk_length s) s.message.buf ≡ be_uint32 size =
      take-min n s.chunk_size s.message.buf (omega arith)
      ∙ take_all s.chunk_size s.message.buf (omega arith)
      ∙ b in
    let none_left : drop (chunk_length s) s.message.buf ≡ [] =
      drop-min n s.chunk_size s.message.buf (omega arith)
      ∙ drop_all s.chunk_size s.message.buf (omega arith) in
    rw
      (
        write_message_more 4 s (omega arith),
        next_header_first s.stream s.message (omega arith) (omega arith),
        emit_chunk_lem (new_header s.stream s.message).0
            (record s { stream = (new_header s.stream s.message).1 }) size
            (announced s.message size t b h) (rw (new_header-id s.stream s.message) i)
            (rw all_taken fits),
        ◌>>=◌,
        all_taken,
        none_left,
      )
      (write_message_done 4 _ refl)
