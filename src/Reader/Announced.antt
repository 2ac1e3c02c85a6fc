-- ===== src/Reader/Announced.antt =====
-- What `readChunk` does with a message that sets the chunk size, whole in one chunk.
use gortmp.Base.{ℕ, ◌+◌, ◌^◌, ◌≤◌, ◌<◌, ◌≡◌, refl, ap, ◌∙◌, arith, true, false, length-append, leb}
use gortmp.Base.{List, [], ◌∷◌, ◌++◌, Option, some, none, ◌==◌, length, take, ltb, if◌then◌else◌}
use gortmp.Base.{take-length-append, drop-length-append}
use gortmp.Base.Bytes.{be_uint32, of_be}
use gortmp.Wire.{ok}
use gortmp.Message.{Message, set_chunk_size, remain}
use gortmp.Header.{Header, was_extended}
use gortmp.Header.Write.{encode}
use gortmp.Header.RoundTrip.{IsValid, carried}
use gortmp.Reader.{
  Session, InChunkStream, Chunk, on_message, read_chunk, read_payload, finish, handle_message,
  complete, chunk_message, stream_at, set_stream, update,
}
use gortmp.Reader.Payload.{
  Reading, behind, payload_state, messages_of-append, other_stream, remain_left,
}
use gortmp.Reader.Step.{read_chunk_lem}

of_be-be_uint32 : (size : ℕ) → size < 2 ^ 32 → of_be (be_uint32 size) ≡ size
of_be-be_uint32 size h = omega arith

handle_message-announced :
    (msg : Message) (size : ℕ) (s : Session)
    → msg.chunk_stream_id ≡ 2
    → msg.type ≡ set_chunk_size
    → msg.buf ≡ be_uint32 size
    → size < 2 ^ 32
    → handle_message msg s
      ≡ ok tt (record s { chunk_size = size; events = s.events ++ (on_message msg ∷ []) })
unfolding handle_message
handle_message-announced msg size s i t b h =
    let four : length msg.buf ≡ 4 = ap length b in
    let value : of_be (take 4 msg.buf) ≡ size =
      ap (λ bs. of_be (take 4 bs)) b ∙ of_be-be_uint32 size h in
    ground (arith, value)

module _ (csi n size : ℕ) (c : Chunk) (cs : InChunkStream) (rest : List ℕ) (s : Session) where
  abbrev msg : Message
  msg = chunk_message csi c

  abbrev whole : Message
  whole = record msg { buf = msg.buf ++ be_uint32 size }

  abbrev announced_state : Session
  announced_state =
      let t = payload_state csi cs (n + 4) rest s in
      let t' = set_stream csi (behind c cs.current_message) t in
      set_stream csi (behind c none)
        (record t' { chunk_size = size; events = s.events ++ (on_message whole ∷ []) })

  payload_announced :
      msg.buf ≡ []
      → msg.size ≡ 4
      → msg.chunk_stream_id ≡ 2
      → msg.type ≡ set_chunk_size
      → 4 ≤ s.chunk_size
      → size < 2 ^ 32
      → read_payload csi cs c (payload_state csi cs n (be_uint32 size ++ rest) s)
        ≡ ok tt announced_state
  unfolding read_payload finish
  payload_announced b z i t le h =
      let p = be_uint32 size in
      let nothing : length msg.buf ≡ 0 = ap length b in
      let rem = remain_left msg.size msg.buf (omega arith) (omega arith) in
      let left = remain msg.size (some msg.buf) in
      let amount : (if ltb s.chunk_size left then s.chunk_size else left) ≡ length p =
        ground (arith, rem) in
      let enough : leb (length p) (length (p ++ rest)) ≡ true =
        ground (arith, length-append p rest) in
      let is_last : leb left s.chunk_size ≡ true = ground (arith, rem) in
      rw
        (
          amount,
          take-length-append p rest,
          drop-length-append p rest,
          enough,
          is_last,
          finish,
          handle_message-announced whole size
              (set_stream csi (behind c cs.current_message) (payload_state csi cs (n + 4) rest s)) i
              t (ap (λ bs. bs ++ p) b) h,
        )
        refl

same_stream :
    (t : ℕ → Option InChunkStream) (i : ℕ) (cs : InChunkStream) → stream_at (update t i cs) i ≡ cs
same_stream t i cs = let d : (i == i) ≡ true = ground arith in rw (d, stream_at) refl

-- A chunk with such a message: the reader takes over the size, and the message is handed over.
pub read_chunk-announced :
    (s : Session) (old size : ℕ) (cs : InChunkStream) (base : ℕ → InChunkStream)
    (messages : List Message) (h : Header) (c : Chunk) (rest : List ℕ)
    → let csi : ℕ = h.chunk_stream_id in
      let msg : Message = chunk_message csi c in
      IsValid h
      → Reading s old csi cs base (encode h ++ (be_uint32 size ++ rest)) messages
      → (h.fmt ≡ 3 → was_extended cs.last_header ≡ false)
      → complete cs (carried h) ≡ some c
      → msg.buf ≡ []
      → msg.size ≡ 4
      → msg.chunk_stream_id ≡ 2
      → msg.type ≡ set_chunk_size
      → 4 ≤ old
      → size < 2 ^ 32
      → (t : Session) × (read_chunk s ≡ ok tt t)
        × Reading t size csi
            (behind c none)
            base
            rest
            (messages ++ (record msg { buf = msg.buf ++ be_uint32 size } ∷ []))
read_chunk-announced s old size cs base messages h c rest v g w e b z i t le r =
    let csi = h.chunk_stream_id in
    let cs' = stream_at s.chunk_streams csi in
    let m = whole csi 0 size c cs' rest s in
    let (n, step) =
      read_chunk_lem s h c (be_uint32 size ++ rest) v (λ f. rw (g.stream) (w f)) g.input
        (rw (g.stream) e) in
    let chunked = g.chunked in
    let now = behind c cs'.current_message in
    (
      announced_state csi n size c cs' rest s,
      step ∙ payload_announced csi n size c cs' rest s b z i t (omega arith) r,
      record {
        chunked = refl;
        stream = same_stream (update (update s.chunk_streams csi cs') csi now) csi (behind c none);
        input = refl;
        others = λ j d.
            other_stream (update (update s.chunk_streams csi cs') csi now) csi j (behind c none) d
            ∙ other_stream (update s.chunk_streams csi cs') csi j now d
            ∙ other_stream s.chunk_streams csi j cs' d
            ∙ g.others j d;
        calls = messages_of-append s.events (on_message m) ∙ ap (λ ms. ms ++ (m ∷ [])) g.calls;
      },
    )
