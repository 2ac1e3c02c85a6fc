-- ===== src/Header/Input.antt =====
-- The reading functions on any input, well formed or not.
use gortmp.Base.{ℕ, ◌/◌, ◌%◌, ◌^◌, Option, ◌==◌}
use gortmp.Wire.{Source, Action, ◌>>=◌}
use gortmp.Wire.Takes.{Takes, Takes-pure, Takes-bind, Takes-read_byte, Takes-read_full, Takes-if}
use gortmp.Wire.Takes.{Takes-zero}
use gortmp.Header.{Header, has_extended, read_uint24}
use gortmp.Header.{read_base_header, read_chunk_stream_id, read_header, read_fields, read_extended}

read_chunk_stream_id-Takes : (b : ℕ) → Takes 0 (read_chunk_stream_id b)
unfolding read_chunk_stream_id
read_chunk_stream_id-Takes b = Takes-if (b == 0) (Takes-zero (Takes-read_byte λ b₁. Takes-pure _)) (
    Takes-if (b == 1)
      (Takes-zero (Takes-read_byte λ b₁. Takes-zero (Takes-read_byte λ b₂. Takes-pure _)))
      (Takes-pure b))

pub read_base_header-Takes : Takes 1 read_base_header
unfolding read_base_header
read_base_header-Takes =
    Takes-read_byte
      λ b. Takes-bind (read_chunk_stream_id-Takes (b % 2 ^ 6)) λ csi. Takes-pure (b / 2 ^ 6, csi)

-- A field of three bytes, and what is read behind it.
uint24-Takes :
    {A : Type 0} {f : ℕ → Action Source A} → ((v : ℕ) → Takes 0 (f v)) → Takes 0 (read_uint24 >>= f)
uint24-Takes w = Takes-bind (Takes-zero (Takes-read_full 3 λ bs. Takes-pure _)) w

read_fields-Takes : (h : Header) → Takes 0 (read_fields h)
unfolding read_fields
read_fields-Takes h =
    Takes-if (h.fmt == 0)
      (uint24-Takes λ t.
        uint24-Takes
          λ l. Takes-zero (Takes-read_byte λ b. Takes-zero (Takes-read_full 4 λ bs. Takes-pure _)))
      (Takes-if (h.fmt == 1)
        (uint24-Takes λ t. uint24-Takes λ l. Takes-zero (Takes-read_byte λ b. Takes-pure _))
        (Takes-if (h.fmt == 2) (uint24-Takes λ t. Takes-pure _) (Takes-pure _)))

read_extended-Takes : (last : Option Header) (h : Header) → Takes 0 (read_extended last h)
unfolding read_extended
read_extended-Takes last h =
    Takes-if (has_extended h last) (Takes-zero (Takes-read_full 4 λ bs. Takes-pure _))
      (Takes-pure _)

pub read_header-Takes :
    (h : Header) (vfmt csi : ℕ) (last : Option Header) → Takes 0 (read_header h vfmt csi last)
unfolding read_header
read_header-Takes h vfmt csi last =
    Takes-bind (read_fields-Takes (record h { fmt = vfmt; chunk_stream_id = csi }))
      (read_extended-Takes last)
