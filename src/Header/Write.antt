-- ===== src/Header/Write.antt =====
-- The bytes of a header, and that `write` writes them.
use gortmp.Base.{ℕ, ◌+◌, ◌-◌, ◌*◌, ◌%◌, ◌^◌, ◌≤◌, ◌<◌, ◌≡◌}
use gortmp.Base.{List, [], ◌∷◌, ◌++◌, leb, ◌==◌, if◌then◌else◌, arith, le→leb}
use gortmp.Base.Bytes.{be_uint16, be_uint24, be_uint32, le_uint32, bit_or_fields}
use gortmp.Wire.{Sink, err, unsupported_chunk_stream_id}
use gortmp.Wire.Written.{Emits, Emits-then, Emits-write_bytes, Emits-pure, Emits-if, Emits-if_true}
use gortmp.Header.{Header, extended_mark, write, write_base_header, write_fields, write_extended}
use gortmp.Header.{write_message_header}

-- A chunk stream ID takes one byte, two, or three.
unfoldable pub base_bytes : ℕ → ℕ → List ℕ
base_bytes fmt csi =
    if leb csi 63
    then (fmt * 64 % 256 + csi) ∷ []
    else if leb csi 319
    then (fmt * 64 % 256) ∷ ((csi - 64) % 256) ∷ []
    else (fmt * 64 % 256 + 1) ∷ be_uint16 ((csi - 64) % 2 ^ 16)

unfoldable pub field_bytes : Header → List ℕ
field_bytes h =
    if h.fmt == 0
    then be_uint24 h.timestamp
      ++ (be_uint24 h.message_length ++ ((h.message_type_id ∷ []) ++ le_uint32 h.message_stream_id))
    else if h.fmt == 1
    then be_uint24 h.timestamp ++ (be_uint24 h.message_length ++ (h.message_type_id ∷ []))
    else if h.fmt == 2
    then be_uint24 h.timestamp
    else []

unfoldable pub extended_bytes : Header → List ℕ
extended_bytes h = if leb extended_mark h.timestamp then be_uint32 h.extended_timestamp else []

unfoldable pub message_bytes : Header → List ℕ
message_bytes h = if h.fmt == 3 then [] else field_bytes h ++ extended_bytes h

unfoldable pub encode : Header → List ℕ
encode h = base_bytes h.fmt h.chunk_stream_id ++ message_bytes h

write_base_header-Emits :
    (h : Header)
    → h.chunk_stream_id ≤ 65599
    → Emits (write_base_header h) (base_bytes h.fmt h.chunk_stream_id)
unfolding write_base_header base_bytes
write_base_header-Emits h le =
    Emits-if (leb h.chunk_stream_id 63) _ _
      (λ e. rw (bit_or_fields h.fmt h.chunk_stream_id (ground arith)) (Emits-write_bytes _))
      λ _.
        Emits-if (leb h.chunk_stream_id 319) _ _
          (λ _. Emits-then (h.fmt * 64 % 256 ∷ []) _ (Emits-write_bytes _) (Emits-write_bytes _))
          λ _. Emits-if_true _ (le→leb h.chunk_stream_id 65599 le) (
            Emits-then (_ ∷ []) (be_uint16 ((h.chunk_stream_id - 64) % 2 ^ 16))
              (rw (bit_or_fields h.fmt 1 (omega arith)) (Emits-write_bytes _))
              (Emits-write_bytes _))

write_fields-Emits : (h : Header) → Emits (write_fields h) (field_bytes h)
unfolding write_fields field_bytes
write_fields-Emits h =
    Emits-if (h.fmt == 0) _ _
      (λ _. Emits-then (be_uint24 h.timestamp) _ (Emits-write_bytes _) (
        Emits-then (be_uint24 h.message_length) _ (Emits-write_bytes _)
          (Emits-then (h.message_type_id ∷ []) _ (Emits-write_bytes _) (Emits-write_bytes _))))
      λ _.
        Emits-if (h.fmt == 1) _ _
          (λ _.
            Emits-then (be_uint24 h.timestamp) _ (Emits-write_bytes _) (
              Emits-then (be_uint24 h.message_length) _ (Emits-write_bytes _)
                (Emits-write_bytes _)))
          λ _. Emits-if (h.fmt == 2) _ _ (λ _. Emits-write_bytes _) (λ _. Emits-pure)

write_extended-Emits : (h : Header) → Emits (write_extended h) (extended_bytes h)
unfolding write_extended extended_bytes
write_extended-Emits h =
    Emits-if (leb extended_mark h.timestamp) _ _ (λ _. Emits-write_bytes _) (λ _. Emits-pure)

write_message_header-Emits : (h : Header) → Emits (write_message_header h) (message_bytes h)
unfolding write_message_header message_bytes
write_message_header-Emits h =
    Emits-if (h.fmt == 3) _ _ (λ _. Emits-pure)
      (λ _.
        Emits-then (field_bytes h) (extended_bytes h) (write_fields-Emits h)
          (write_extended-Emits h))

-- For every header with a chunk stream ID of at most 65599, `write` writes exactly the bytes
-- `encode h` (of a continuation header only the base header, also where its timestamp is 0xffffff)
-- and counts them, if the writer takes them all; if not, it fails, the writer has got
-- the longest front of them that it takes, and no more than that is counted.
pub write-Emits : (h : Header) → h.chunk_stream_id ≤ 65599 → Emits (write h) (encode h)
unfolding write encode
write-Emits h le =
    Emits-then (base_bytes h.fmt h.chunk_stream_id) (message_bytes h) (write_base_header-Emits h le)
      (write_message_header-Emits h)

-- With a larger chunk stream ID nothing is written, and the call returns the error.
pub write_unsupported :
    (h : Header) (k : Sink)
    → 65599 < h.chunk_stream_id
    → write h k ≡ err unsupported_chunk_stream_id k
unfolding write write_base_header
write_unsupported h k lt = ground arith
