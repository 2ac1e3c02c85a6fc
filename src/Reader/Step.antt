-- ===== src/Reader/Step.antt =====
-- What `readChunk` does with a chunk whose header and payload are all there.
use gortmp.Base.{ℕ, ◌+◌, ◌^◌, ◌≤◌, ◌<◌, ◌≡◌, refl, ap, ◌∙◌, arith}
use gortmp.Base.{List, [], ◌∷◌, ◌++◌, some, none, false, length}
use gortmp.Base.{append_assoc}
use gortmp.Wire.{ok}
use gortmp.Message.{Message}
use gortmp.Header.{Header, was_extended}
use gortmp.Header.Write.{encode, base_bytes, message_bytes}
use gortmp.Header.RoundTrip.{
  IsValid, carried, read_base_header-base_bytes, read_header-message_bytes,
}
use gortmp.Reader.{Session, InChunkStream, Chunk, read_chunk, read_message_header}
use gortmp.Reader.{read_payload, complete, chunk_message, stream_at}
use gortmp.Reader.Payload.{
  Reading, behind, payload_state, whole, last_state, more_state, payload_last, payload_more,
  last-Reading, more-Reading, IsQuiet,
}

pub read_chunk_lem :
    (s : Session) (h : Header) (c : Chunk) (bs : List ℕ)
    → let csi : ℕ = h.chunk_stream_id in
      let cs : InChunkStream = stream_at s.chunk_streams csi in
      IsValid h
      → (h.fmt ≡ 3 → was_extended cs.last_header ≡ false)
      → s.source.rest ≡ encode h ++ bs
      → complete cs (carried h) ≡ some c
      → (n : ℕ) × (read_chunk s ≡ read_payload csi cs c (payload_state csi cs n bs s))
unfolding read_chunk read_message_header encode
read_chunk_lem s h c bs v w input e =
    let b : List ℕ = base_bytes h.fmt h.chunk_stream_id in
    let source : s.source ≡ record { n = s.source.n; rest = b ++ (message_bytes h ++ bs) } =
      ap (λ r. record { n = s.source.n; rest = r }) (input ∙ append_assoc b (message_bytes h) bs) in
    (
      s.source.n + length b + length (message_bytes h),
      rw
          (
            source,
            read_chunk,
            read_base_header-base_bytes h.fmt h.chunk_stream_id s.source.n (message_bytes h ++ bs)
                v.fmt_range v.id_above v.id_below,
            read_message_header,
            read_header-message_bytes h (stream_at s.chunk_streams h.chunk_stream_id).last_header
                (s.source.n + length b) bs v w,
            e,
          )
          refl,
    )

-- A chunk with all that is left of its message: the message is handed over.
pub read_chunk-last :
    (s : Session) (size : ℕ) (cs : InChunkStream) (base : ℕ → InChunkStream)
    (messages : List Message) (h : Header) (c : Chunk) (p rest : List ℕ)
    → let csi : ℕ = h.chunk_stream_id in
      let msg : Message = chunk_message csi c in
      IsValid h
      → Reading s size csi cs base (encode h ++ (p ++ rest)) messages
      → (h.fmt ≡ 3 → was_extended cs.last_header ≡ false)
      → complete cs (carried h) ≡ some c
      → IsQuiet msg.chunk_stream_id msg.type msg.size
      → msg.size < 2 ^ 32
      → length msg.buf + length p ≡ msg.size
      → length p ≤ size
      → (t : Session) × (read_chunk s ≡ ok tt t)
        × Reading t size csi
            (behind c none)
            base
            rest
            (messages ++ (record msg { buf = msg.buf ++ p } ∷ []))
read_chunk-last s size cs base messages h c p rest v g w e o r l le =
    let csi = h.chunk_stream_id in
    let cs' = stream_at s.chunk_streams csi in
    let (n, step) =
      read_chunk_lem s h c (p ++ rest) v (λ f. rw (g.stream) (w f)) g.input (rw (g.stream) e) in
    let q = g.chunked in
    let t = last_state csi n c cs' p rest s in
    let k = last-Reading csi n c cs' p rest s in
    (
      t,
      step ∙ payload_last csi n c cs' p rest s (omega arith) r (omega arith) (omega arith) o,
      record {
        chunked = k.chunked ∙ q;
        stream = k.stream;
        input = k.input;
        others = λ j n. k.others j n ∙ g.others j n;
        calls = k.calls ∙ ap (λ ms. ms ++ (whole csi n c cs' p rest s ∷ [])) g.calls;
      },
    )

-- A full chunk of a message of which more is left: the message is remembered.
pub read_chunk-more :
    (s : Session) (size : ℕ) (cs : InChunkStream) (base : ℕ → InChunkStream)
    (messages : List Message) (h : Header) (c : Chunk) (p rest : List ℕ)
    → let csi : ℕ = h.chunk_stream_id in
      let msg : Message = chunk_message csi c in
      IsValid h
      → Reading s size csi cs base (encode h ++ (p ++ rest)) messages
      → (h.fmt ≡ 3 → was_extended cs.last_header ≡ false)
      → complete cs (carried h) ≡ some c
      → msg.size < 2 ^ 32
      → length p ≡ size
      → length msg.buf + length p < msg.size
      → (t : Session) × (read_chunk s ≡ ok tt t)
        × Reading t size csi
            (behind c (some (record msg { buf = msg.buf ++ p })))
            base
            rest
            messages
read_chunk-more s size cs base messages h c p rest v g w e r l lt =
    let csi = h.chunk_stream_id in
    let cs' = stream_at s.chunk_streams csi in
    let (n, step) =
      read_chunk_lem s h c (p ++ rest) v (λ f. rw (g.stream) (w f)) g.input (rw (g.stream) e) in
    let q = g.chunked in
    let t = more_state csi n c cs' p rest s in
    let k = more-Reading csi n c cs' p rest s in
    (
      t,
      step ∙ payload_more csi n c cs' p rest s (omega arith) r (omega arith) (omega arith),
      record {
        chunked = k.chunked ∙ q;
        stream = k.stream;
        input = k.input;
        others = λ j n. k.others j n ∙ g.others j n;
        calls = k.calls ∙ g.calls;
      },
    )
