-- ===== src/Header/Typed.antt =====
-- What is read from bytes fits the fields of the header.
use gortmp.Base.{ℕ, ◌/◌, ◌%◌, ◌^◌, ◌≤◌, ◌<◌, arith, Option, ◌==◌}
use gortmp.Wire.Gives.{
  Gives, Gives-pure, Gives-bind, Gives-count, Gives-read_byte, Gives-read_full, Gives-if,
  of_be_uint24, of_be_uint32, of_le_uint32,
}
use gortmp.Header.{Header, zero_header, has_extended, read_uint24, read_base_header, read_header}
use gortmp.Header.{read_chunk_stream_id, read_fields, read_extended}

-- The fields have the widths that they have in a chunk.
pub record IsHeader (h : Header) : Type 0 where
  pub fmt : h.fmt < 4
  pub chunk_stream_id : h.chunk_stream_id ≤ 65599
  pub timestamp : h.timestamp < 2 ^ 24
  pub message_length : h.message_length < 2 ^ 24
  pub message_type_id : h.message_type_id < 256
  pub message_stream_id : h.message_stream_id < 2 ^ 32
  pub extended_timestamp : h.extended_timestamp < 2 ^ 32

-- The format and the chunk stream ID of a base header.
abbrev pub IsBase : ℕ × ℕ → Type 0
IsBase (fmt, csi) = (fmt < 4) × (csi ≤ 65599)

abbrev IsId : ℕ → Type 0
IsId csi = csi ≤ 65599

read_chunk_stream_id-IsId : (b : ℕ) → b < 64 → Gives IsId (read_chunk_stream_id b)
unfolding read_chunk_stream_id
read_chunk_stream_id-IsId b h =
    Gives-if (b == 0)
      (λ _. Gives-bind Gives-read_byte λ b₁ h₁. Gives-count 1 (Gives-pure IsId _ (omega arith)))
      (λ _.
        Gives-if (b == 1)
          (λ _. Gives-bind Gives-read_byte λ b₁ h₁.
            Gives-count 1
              (Gives-bind Gives-read_byte λ b₂ h₂. Gives-count 1 (Gives-pure IsId _ (omega arith))))
          (λ _. Gives-pure IsId b (omega arith)))

pub read_base_header-IsBase : Gives IsBase read_base_header
unfolding read_base_header
read_base_header-IsBase = Gives-bind Gives-read_byte λ b h. Gives-count 1 (
    Gives-bind (read_chunk_stream_id-IsId (b % 2 ^ 6) (omega arith))
      λ csi k. Gives-pure IsBase (b / 2 ^ 6, csi) (omega arith, k))

abbrev IsUint24 : ℕ → Type 0
IsUint24 v = v < 2 ^ 24

read_uint24-IsUint24 : Gives IsUint24 read_uint24
read_uint24-IsUint24 =
    Gives-bind (Gives-read_full 3) λ bs h. Gives-count 3 (Gives-pure IsUint24 _ (of_be_uint24 bs h))

read_fields-IsHeader : (h : Header) → IsHeader h → Gives IsHeader (read_fields h)
unfolding read_fields
read_fields-IsHeader h v =
    Gives-if (h.fmt == 0)
      (λ _. Gives-bind read_uint24-IsUint24 λ t ht. Gives-bind read_uint24-IsUint24 λ l hl.
        Gives-bind Gives-read_byte λ b hb. Gives-count 1 (
          Gives-bind (Gives-read_full 4) λ bs hs. Gives-count 4 (
            Gives-pure IsHeader _ (record {
              fmt = v.fmt;
              chunk_stream_id = v.chunk_stream_id;
              timestamp = ht;
              message_length = hl;
              message_type_id = hb;
              message_stream_id = of_le_uint32 bs hs;
              extended_timestamp = v.extended_timestamp;
            }))))
      (λ _.
        Gives-if (h.fmt == 1)
          (λ _. Gives-bind read_uint24-IsUint24 λ t ht. Gives-bind read_uint24-IsUint24 λ l hl.
            Gives-bind Gives-read_byte λ b hb. Gives-count 1 (
              Gives-pure IsHeader _ (record {
                fmt = v.fmt;
                chunk_stream_id = v.chunk_stream_id;
                timestamp = ht;
                message_length = hl;
                message_type_id = hb;
                message_stream_id = v.message_stream_id;
                extended_timestamp = v.extended_timestamp;
              })))
          (λ _.
            Gives-if (h.fmt == 2)
              (λ _. Gives-bind read_uint24-IsUint24 λ t ht. Gives-pure IsHeader _ (record {
                fmt = v.fmt;
                chunk_stream_id = v.chunk_stream_id;
                timestamp = ht;
                message_length = v.message_length;
                message_type_id = v.message_type_id;
                message_stream_id = v.message_stream_id;
                extended_timestamp = v.extended_timestamp;
              }))
              (λ _. Gives-pure IsHeader h v)))

-- A header with another extended timestamp.
with_extended :
    (h : Header) (t : ℕ) → t < 2 ^ 32 → IsHeader h → IsHeader (record h { extended_timestamp = t })
with_extended h t r v = record {
  fmt = v.fmt;
  chunk_stream_id = v.chunk_stream_id;
  timestamp = v.timestamp;
  message_length = v.message_length;
  message_type_id = v.message_type_id;
  message_stream_id = v.message_stream_id;
  extended_timestamp = r;
}

read_extended-IsHeader :
    (last : Option Header) (h : Header) → IsHeader h → Gives IsHeader (read_extended last h)
unfolding read_extended
read_extended-IsHeader last h v =
    Gives-if (has_extended h last)
      (λ _.
        Gives-bind (Gives-read_full 4)
          λ bs hs. Gives-count 4 (Gives-pure IsHeader _ (with_extended h _ (of_be_uint32 bs hs) v)))
      (λ _. Gives-pure IsHeader _ (with_extended h 0 (omega arith) v))

pub read_header-IsHeader :
    (vfmt csi : ℕ) (last : Option Header)
    → IsBase (vfmt, csi)
    → Gives IsHeader (read_header zero_header vfmt csi last)
unfolding read_header
read_header-IsHeader vfmt csi last (hf, hc) =
    Gives-bind
      (read_fields-IsHeader (record zero_header { fmt = vfmt; chunk_stream_id = csi })
        (record {
          fmt = hf;
          chunk_stream_id = hc;
          timestamp = omega arith;
          message_length = omega arith;
          message_type_id = omega arith;
          message_stream_id = omega arith;
          extended_timestamp = omega arith;
        }))
      λ h v. read_extended-IsHeader last h v
