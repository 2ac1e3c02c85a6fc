-- ===== src/Header/Mismatch.antt =====
-- Where the reader does not understand what the writer writes: chunk stream IDs of three bytes, and
-- continuation headers behind an extended timestamp.
use gortmp.Base.{ℕ, ◌+◌, ◌-◌, ◌*◌, ◌/◌, ◌%◌, ◌≤◌, ◌<◌, ◌≡◌, refl, ◌↔◌, List, [], ◌∷◌, ◌++◌}
use gortmp.Base.{some, length, arith, append-nil, append_assoc}
use gortmp.Base.Bytes.{of_be}
use gortmp.Wire.{Sink, ok, ◌>>=◌}
use gortmp.Wire.Written.{filled, Emits-fits}
use gortmp.Header.{Header, zero_header, read_base_header, read_header, write}
use gortmp.Header.Write.{base_bytes, message_bytes, encode, write-Emits}
use gortmp.Header.RoundTrip.{read_whole, read_base_header-base_bytes, read_base_header-swaps}

-- A chunk stream ID with its two bytes (after 64 is taken off) exchanged.
abbrev pub swapped : ℕ → ℕ
swapped csi = 64 + (csi - 64) / 256 + (csi - 64) % 256 * 256

-- For a header with a chunk stream ID from 320 to 65599 and a writer with enough room, `Write`
-- succeeds and the base header is read back with the two bytes of the ID exchanged; that is the ID
-- that was written exactly when the two bytes are equal.
pub read_base_header-write-swapped :
    (h : Header) (n room : ℕ) (rest : List ℕ)
    → h.fmt < 4
    → 320 ≤ h.chunk_stream_id
    → h.chunk_stream_id ≤ 65599
    → length (encode h) ≤ room
    → (k : Sink) × (write h (record { n = n; out = []; room = room }) ≡ ok tt k)
      × (read_base_header (record { n = n; rest = k.out ++ rest })
          ≡ ok
              (h.fmt, swapped h.chunk_stream_id)
              (record { n = n + 3; rest = message_bytes h ++ rest }))
      × ((swapped h.chunk_stream_id ≡ h.chunk_stream_id)
          ↔ ((h.chunk_stream_id - 64) / 256 ≡ (h.chunk_stream_id - 64) % 256))
unfolding encode
read_base_header-write-swapped h n room rest hf lo hi fits = (
  filled (record { n = n; out = []; room = room }) (encode h),
  Emits-fits (encode h) _ (write-Emits h hi) fits,
  rw (append_assoc (base_bytes h.fmt h.chunk_stream_id) (message_bytes h) rest)
      (read_base_header-swaps h.fmt h.chunk_stream_id n (message_bytes h ++ rest) hf lo hi),
  ((λ e. omega arith), (λ e. omega arith)),
)

read_header-payload :
    (csi n a b c d : ℕ) (last : Header) (payload : List ℕ)
    → 0 < last.extended_timestamp
    → read_header zero_header 3 csi (some last) (record { n = n; rest = a ∷ b ∷ c ∷ d ∷ payload })
      ≡ ok
          (record zero_header {
            fmt = 3;
            chunk_stream_id = csi;
            extended_timestamp = of_be (a ∷ b ∷ c ∷ d ∷ []);
          })
          (record { n = n + 4; rest = payload })
unfolding read_header
read_header-payload csi n a b c d last payload h = ground arith

continuation_bytes : (h : Header) → h.fmt ≡ 3 → message_bytes h ≡ []
unfolding message_bytes
continuation_bytes h e = ground arith

-- After a header with an extended timestamp above 0, on a chunk stream with an ID from 2 to 319 and
-- with enough room: Write succeeds for every continuation header (those of newHeader among them) and
-- writes no extended timestamp, but the reader takes the first four bytes of the payload behind it
-- for one: they are missing from what is left.
pub read_whole-write_payload :
    (h : Header) (n room a b c d : ℕ) (last : Header) (payload : List ℕ)
    → h.fmt ≡ 3
    → 2 ≤ h.chunk_stream_id
    → h.chunk_stream_id ≤ 319
    → 0 < last.extended_timestamp
    → length (encode h) ≤ room
    → (k : Sink) × (write h (record { n = n; out = []; room = room }) ≡ ok tt k)
      × (k.out ≡ base_bytes 3 h.chunk_stream_id)
      × (read_whole (some last) (record { n = n; rest = k.out ++ (a ∷ b ∷ c ∷ d ∷ payload) })
          ≡ ok
              (record zero_header {
                fmt = 3;
                chunk_stream_id = h.chunk_stream_id;
                extended_timestamp = of_be (a ∷ b ∷ c ∷ d ∷ []);
              })
              (record { n = k.n + 4; rest = payload }))
unfolding encode
read_whole-write_payload h n room a b c d last payload e lo hi x fits =
    let csi : ℕ = h.chunk_stream_id in
    let bytes : List ℕ = base_bytes 3 csi in
    (
      filled (record { n = n; out = []; room = room }) (encode h),
      Emits-fits (encode h) _ (write-Emits h (omega arith)) fits,
      rw (continuation_bytes h e, e, append-nil bytes) refl,
      rw
          (
            continuation_bytes h e,
            e,
            append-nil bytes,
            read_base_header-base_bytes 3 csi n (a ∷ b ∷ c ∷ d ∷ payload) (omega arith) lo hi,
            ◌>>=◌,
            read_header-payload csi (n + length bytes) a b c d last payload x,
          )
          refl,
    )
