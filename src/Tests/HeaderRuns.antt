-- ===== src/Tests/HeaderRuns.antt =====
-- header.go on concrete headers; the first are those of header_test.go.
use gortmp.Base.{◌+◌, ◌-◌, ◌/◌, ◌%◌, ◌≡◌, refl, ◌↔◌, [], ◌∷◌, ◌++◌, some, none}
use gortmp.Base.{arith}
use gortmp.Wire.{Sink, ok}
use gortmp.Wire.Written.{Written}
use gortmp.Header.{Header, zero_header, read_base_header, write}
use gortmp.Header.Write.{
  encode, base_bytes, message_bytes, field_bytes, extended_bytes, write-Emits,
}
use gortmp.Header.RoundTrip.{IsValid, carried, read_whole, read_whole-write}
use gortmp.Header.Mismatch.{swapped, read_base_header-write-swapped, read_whole-write_payload}

abbrev full : Header
full = record {
  fmt = 0;
  chunk_stream_id = 3;
  timestamp = 0xffffff;
  message_length = 2;
  message_type_id = 3;
  message_stream_id = 4;
  extended_timestamp = 0x10000000;
}

abbrev wide : Header
wide = record full { chunk_stream_id = 320 }

full_bytes :
    encode full ≡ 3 ∷ 0xff ∷ 0xff ∷ 0xff ∷ 0 ∷ 0 ∷ 2 ∷ 3 ∷ 4 ∷ 0 ∷ 0 ∷ 0 ∷ 0x10 ∷ 0 ∷ 0 ∷ 0 ∷ []
unfolding encode base_bytes message_bytes field_bytes extended_bytes
full_bytes = refl

largest_id :
    read_base_header (record { n = 0; rest = 1 ∷ 0xff ∷ 0xff ∷ [] })
    ≡ ok (0, 65599) (record { n = 3; rest = [] })
unfolding read_base_header
largest_id = refl

full-IsValid : IsValid full
full-IsValid = omega arith

read_whole-write_example :
    (k : Sink) × (write full (record { n = 0; out = []; room = 16 }) ≡ ok tt k)
    × (read_whole none (record { n = 0; rest = k.out ++ (7 ∷ []) })
        ≡ ok (carried full) (record { n = k.n; rest = 7 ∷ [] }))
unfolding encode base_bytes message_bytes field_bytes extended_bytes
read_whole-write_example =
    read_whole-write full none 0 16 (7 ∷ []) full-IsValid (λ e. absurd (omega arith)) (omega arith)

-- A writer that takes three bytes.
abbrev small_sink : Sink
small_sink = record { n = 0; out = []; room = 3 }

write-Emits_example : Written small_sink (encode full) (write full small_sink)
write-Emits_example = write-Emits full (omega arith) small_sink

read_base_header-write-swapped_example :
    (k : Sink) × (write wide (record { n = 0; out = []; room = 20 }) ≡ ok tt k)
    × (read_base_header (record { n = 0; rest = k.out ++ [] })
        ≡ ok (0, swapped 320) (record { n = 3; rest = message_bytes wide ++ [] }))
    × ((swapped 320 ≡ 320) ↔ ((320 - 64) / 256 ≡ (320 - 64) % 256))
unfolding encode base_bytes message_bytes field_bytes extended_bytes
read_base_header-write-swapped_example =
    read_base_header-write-swapped wide 0 20 [] (omega arith) (omega arith) (omega arith)
      (omega arith)

-- A continuation header as newHeader makes it, with the fields that it does not write.
abbrev continued : Header
continued = record full { fmt = 3; timestamp = 40 }

read_whole-write_payload_example :
    (k : Sink) × (write continued (record { n = 0; out = []; room = 20 }) ≡ ok tt k)
    × (k.out ≡ base_bytes 3 3)
    × (read_whole (some full) (record { n = 0; rest = k.out ++ (0 ∷ 0 ∷ 0 ∷ 5 ∷ 9 ∷ []) })
        ≡ ok
            (record zero_header { fmt = 3; chunk_stream_id = 3; extended_timestamp = 5 })
            (record { n = k.n + 4; rest = 9 ∷ [] }))
unfolding encode base_bytes message_bytes field_bytes extended_bytes
read_whole-write_payload_example =
    read_whole-write_payload continued 0 20 0 0 0 5 full (9 ∷ []) refl (omega arith) (omega arith)
      (omega arith) (omega arith)
