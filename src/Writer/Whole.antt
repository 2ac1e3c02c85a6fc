-- ===== src/Writer/Whole.antt =====
-- The loop of `writeMessage`: the chunks of a message, and that enough rounds are given.
use gortmp.Base.{ℕ, zero, suc, ◌+◌, ◌^◌, ◌≤◌, ◌<◌, ◌≡◌, ◌≢◌, refl, ap, arith}
use gortmp.Base.{List, [], ◌++◌, length, take, drop, length-append, length-drop}
use gortmp.Base.{true, false, ltb, append-nil, inl, inr}
use gortmp.Base.{nil_of_length, le-or-lt}
use gortmp.Wire.{ok, ◌>>=◌, ◌>>◌}
use gortmp.Wire.Written.{filled, filled-append, filled-nil}
use gortmp.Header.{Header}
use gortmp.Header.Write.{encode, base_bytes, message_bytes}
use gortmp.Message.{Message, set_chunk_size}
use gortmp.Writer.{OutChunkStream, Output, write_chunk, write_message, next_header, new_header}
use gortmp.Writer.{continuation_header}
use gortmp.Writer.Loop.{write_chunk_lem}

-- The chunks of what is left of a message, each with a continuation header.
unfoldable pub continuation_chunks : ℕ → ℕ → ℕ → List ℕ → List ℕ
continuation_chunks zero csi c bs = []
continuation_chunks (suc f) csi c bs = elim (ltb 0 (length bs)) [
  | false ↦ []
  | true ↦ (base_bytes 3 csi ++ take c bs) ++ continuation_chunks f csi c (drop c bs)
]

pub continuation_chunks_more :
    (f csi c : ℕ) (bs : List ℕ)
    → 0 < length bs
    → continuation_chunks (suc f) csi c bs
      ≡ (base_bytes 3 csi ++ take c bs) ++ continuation_chunks f csi c (drop c bs)
unfolding continuation_chunks
continuation_chunks_more f csi c bs h = ground arith

pub continuation_chunks_done :
    (f csi c : ℕ) (bs : List ℕ) → length bs ≡ 0 → continuation_chunks f csi c bs ≡ []
unfolding continuation_chunks
continuation_chunks_done zero csi c bs h = refl
continuation_chunks_done (suc f) csi c bs h = ground arith

pub write_message_more :
    (f : ℕ) (s : Output)
    → 0 < length s.message.buf
    → write_message (suc f) s ≡ (write_chunk >> write_message f) s
unfolding write_message
write_message_more f s h = ground arith

pub write_message_done :
    (f : ℕ) (s : Output) → length s.message.buf ≡ 0 → write_message f s ≡ ok tt s
unfolding write_message
write_message_done zero s h = ground arith
write_message_done (suc f) s h = ground arith

-- A message that does not change the chunk size, on a stream whose ID can be written.
pub record IsPlain (s : Output) : Type 0 where
  pub ordinary : s.message.type ≢ set_chunk_size
  pub id_below : s.message.chunk_stream_id ≤ 65599
  pub size_range : s.message.size < 2 ^ 32
  pub chunked : 0 < s.chunk_size

pub encode-continuation :
    (msg : Message) → encode (continuation_header msg) ≡ base_bytes 3 msg.chunk_stream_id
unfolding encode message_bytes
encode-continuation msg = append-nil (base_bytes 3 msg.chunk_stream_id)

next_header_continues :
    (cs : OutChunkStream) (msg : Message)
    → length msg.buf < msg.size
    → msg.size < 2 ^ 32
    → next_header cs msg ≡ (continuation_header msg, cs)
unfolding next_header
next_header_continues cs msg h r = ground arith

-- The chunk behind the first.
abbrev after_chunk : Output → Output
after_chunk s = record s {
  message = record s.message { buf = drop s.chunk_size s.message.buf };
  sink = filled s.sink (base_bytes 3 s.message.chunk_stream_id ++ take s.chunk_size s.message.buf);
}

write_chunk_continues :
    (s : Output)
    → IsPlain s
    → length s.message.buf < s.message.size
    → length (base_bytes 3 s.message.chunk_stream_id ++ take s.chunk_size s.message.buf)
      ≤ s.sink.room
    → write_chunk s ≡ ok tt (after_chunk s)
write_chunk_continues s p h fits = rw (
  write_chunk_lem s (continuation_header s.message) s.stream
      (next_header_continues s.stream s.message h p.size_range) p.ordinary p.id_below
      (omega (arith, p.size_range)) (rw (encode-continuation s.message) fits),
  encode-continuation s.message,
)

-- The bytes of the rest of a message.
abbrev rest_bytes : ℕ → Output → List ℕ
rest_bytes f s = continuation_chunks f s.message.chunk_stream_id s.chunk_size s.message.buf

-- A message of which `bytes` was the rest.
abbrev written_out : Output → List ℕ → Output
written_out s bytes = record s {
  message = record s.message { buf = [] };
  sink = filled s.sink bytes;
}

nothing_left :
    (f : ℕ) (s : Output)
    → length s.message.buf ≡ 0
    → write_message f s ≡ ok tt (written_out s (rest_bytes f s))
nothing_left f s e =
    rw
      (
        write_message_done f s e,
        continuation_chunks_done f s.message.chunk_stream_id s.chunk_size s.message.buf e,
        filled-nil s.sink,
      )
      (ap (λ xs. ok tt (record s { message = record s.message { buf = xs } }))
        (nil_of_length s.message.buf e))

-- The rest of a message whose first chunk is written, for a writer with enough room.
write_message_continues :
    (f : ℕ) (s : Output)
    → IsPlain s
    → length s.message.buf ≤ f
    → length s.message.buf < s.message.size
    → length (rest_bytes f s) ≤ s.sink.room
    → write_message f s ≡ ok tt (written_out s (rest_bytes f s))
write_message_continues zero s p hf h fits = nothing_left zero s (omega arith)
write_message_continues (suc f) s p hf h fits = elim (le-or-lt (length s.message.buf) 0) [
  | inl empty ↦ nothing_left (suc f) s (omega arith)
  | inr some_left ↦
      let bytes : List ℕ =
        base_bytes 3 s.message.chunk_stream_id ++ take s.chunk_size s.message.buf in
      let more = rest_bytes f (after_chunk s) in
      let split =
        continuation_chunks_more f s.message.chunk_stream_id s.chunk_size s.message.buf some_left in
      let fits' : length bytes + length more ≤ s.sink.room =
        omega (arith, ap length split, length-append bytes more) in
      let fewer = length-drop s.chunk_size s.message.buf in
      rw (
        write_message_more f s some_left,
        write_chunk_continues s p h (omega arith),
        ◌>>=◌,
        write_message_continues f (after_chunk s)
            (record {
              ordinary = p.ordinary;
              id_below = p.id_below;
              size_range = p.size_range;
              chunked = p.chunked;
            })
            (omega (arith, p.chunked)) (omega arith) (omega arith),
        split,
        filled-append s.sink bytes more,
      )
]

-- The bytes of a whole message: the first chunk has the header that `newHeader` chooses.
unfoldable pub message_chunks : Output → List ℕ
message_chunks s =
    let msg : Message = s.message in
    (encode (new_header s.stream msg).0 ++ take s.chunk_size msg.buf)
    ++ continuation_chunks (length msg.buf) msg.chunk_stream_id s.chunk_size
        (drop s.chunk_size msg.buf)

pub new_header-id :
    (cs : OutChunkStream) (msg : Message)
    → (new_header cs msg).0.chunk_stream_id ≡ msg.chunk_stream_id
unfolding new_header
new_header-id cs msg = ground arith

pub next_header_first :
    (cs : OutChunkStream) (msg : Message)
    → length msg.buf ≡ msg.size
    → msg.size < 2 ^ 32
    → next_header cs msg ≡ ((new_header cs msg).0, (new_header cs msg).1)
unfolding next_header
next_header_first cs msg e r = ground arith

-- For a message that does not set the chunk size, with all of its bytes unread and at least one, a
-- positive chunk size and a writer with enough room: `writeMessage` succeeds within one round more
-- than the message has bytes, writes exactly the message's chunks, leaves nothing unread, and the
-- stream is as `newHeader` left it.
pub write_message-message_chunks :
    (s : Output)
    → IsPlain s
    → length s.message.buf ≡ s.message.size
    → 0 < s.message.size
    → length (message_chunks s) ≤ s.sink.room
    → write_message (suc (length s.message.buf)) s
      ≡ ok tt (record s {
        stream = (new_header s.stream s.message).1;
        message = record s.message { buf = [] };
        sink = filled s.sink (message_chunks s);
      })
unfolding message_chunks
write_message-message_chunks s p whole some_bytes fits =
    let h : Header = (new_header s.stream s.message).0 in
    let bytes : List ℕ = encode h ++ take s.chunk_size s.message.buf in
    let t : Output = record s {
      stream = (new_header s.stream s.message).1;
      message = record s.message { buf = drop s.chunk_size s.message.buf };
      sink = filled s.sink bytes;
    } in
    let more = rest_bytes (length s.message.buf) t in
    let fits' : length bytes + length more ≤ s.sink.room =
      omega (arith, length-append bytes more) in
    let fewer = length-drop s.chunk_size s.message.buf in
    rw (
      write_message_more (length s.message.buf) s (omega arith),
      write_chunk_lem s h t.stream (next_header_first s.stream s.message whole p.size_range)
          p.ordinary (rw (new_header-id s.stream s.message) p.id_below)
          (omega (arith, p.size_range)) (omega arith),
      ◌>>=◌,
      write_message_continues (length s.message.buf) t
          (record {
            ordinary = p.ordinary;
            id_below = p.id_below;
            size_range = p.size_range;
            chunked = p.chunked;
          })
          (omega arith) (omega (arith, p.chunked)) (omega arith),
      filled-append s.sink bytes more,
    )
