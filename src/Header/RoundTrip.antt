-- ===== src/Header/RoundTrip.antt =====
-- What the reader makes of a header that the writer wrote.
use gortmp.Base.{ℕ, ◌+◌, ◌-◌, ◌*◌, ◌/◌, ◌%◌, ◌^◌, ◌≤◌, ◌<◌, ◌≡◌, false}
use gortmp.Base.{List, [], ◌++◌, Option, leb, ◌==◌, if◌then◌else◌, length, arith, ap}
use gortmp.Wire.{Source, Sink, Action, ok, ◌>>=◌}
use gortmp.Wire.Written.{filled, Emits-fits}
use gortmp.Header.{Header, extended_mark, zero_header, was_extended}
use gortmp.Header.{read_base_header, read_header, write}
use gortmp.Base.{append_assoc, length-append}
use gortmp.Header.Write.{
  base_bytes, field_bytes, extended_bytes, message_bytes, encode, write-Emits,
}

-- The bytes of a base header with one or two bytes are read back as they were meant.
pub read_base_header-base_bytes :
    (fmt csi n : ℕ) (rest : List ℕ)
    → fmt < 4
    → 2 ≤ csi
    → csi ≤ 319
    → read_base_header (record { n = n; rest = base_bytes fmt csi ++ rest })
      ≡ ok (fmt, csi) (record { n = n + length (base_bytes fmt csi); rest = rest })
unfolding read_base_header base_bytes
read_base_header-base_bytes fmt csi n rest hf lo hi = ground arith

-- With three bytes the reader takes the lower byte first, which the writer wrote last.
pub read_base_header-swaps :
    (fmt csi n : ℕ) (rest : List ℕ)
    → fmt < 4
    → 320 ≤ csi
    → csi ≤ 65599
    → read_base_header (record { n = n; rest = base_bytes fmt csi ++ rest })
      ≡ ok (fmt, 64 + (csi - 64) / 256 + (csi - 64) % 256 * 256) (record { n = n + 3; rest = rest })
unfolding read_base_header base_bytes
read_base_header-swaps fmt csi n rest hf lo hi = ground arith

-- A header that fits its fields, with a chunk stream ID of one or two bytes.
pub record IsValid (h : Header) : Type 0 where
  pub fmt_range : h.fmt < 4
  pub id_above : 2 ≤ h.chunk_stream_id
  pub id_below : h.chunk_stream_id ≤ 319
  pub timestamp_range : h.timestamp < 2 ^ 24
  pub length_range : h.message_length < 2 ^ 24
  pub stream_range : h.message_stream_id < 2 ^ 32
  pub extended_range : h.extended_timestamp < 2 ^ 32

-- What a chunk carries of its header; the other fields are 0.
abbrev pub carried : Header → Header
carried h = record {
  fmt = h.fmt;
  chunk_stream_id = h.chunk_stream_id;
  timestamp = if h.fmt == 3 then 0 else h.timestamp;
  message_length = if leb 2 h.fmt then 0 else h.message_length;
  message_type_id = if leb 2 h.fmt then 0 else h.message_type_id;
  message_stream_id = if h.fmt == 0 then h.message_stream_id else 0;
  extended_timestamp =
      if h.fmt == 3 then 0 else if leb extended_mark h.timestamp then h.extended_timestamp else 0;
}

module _ (h : Header) (last : Option Header) (n : ℕ) (rest : List ℕ) (v : IsValid h) where
  read_header-full :
      h.fmt ≡ 0
      → read_header zero_header h.fmt h.chunk_stream_id last
          (record { n = n; rest = message_bytes h ++ rest })
        ≡ ok (carried h) (record { n = n + length (message_bytes h); rest = rest })
  unfolding read_header message_bytes field_bytes extended_bytes
  read_header-full e = ground arith

  read_header-same_stream :
      h.fmt ≡ 1
      → read_header zero_header h.fmt h.chunk_stream_id last
          (record { n = n; rest = message_bytes h ++ rest })
        ≡ ok (carried h) (record { n = n + length (message_bytes h); rest = rest })
  unfolding read_header message_bytes field_bytes extended_bytes
  read_header-same_stream e = ground arith

  read_header-same_length :
      h.fmt ≡ 2
      → read_header zero_header h.fmt h.chunk_stream_id last
          (record { n = n; rest = message_bytes h ++ rest })
        ≡ ok (carried h) (record { n = n + length (message_bytes h); rest = rest })
  unfolding read_header message_bytes field_bytes extended_bytes
  read_header-same_length e = ground arith

  read_header-continuation :
      h.fmt ≡ 3
      → was_extended last ≡ false
      → read_header zero_header h.fmt h.chunk_stream_id last
          (record { n = n; rest = message_bytes h ++ rest })
        ≡ ok (carried h) (record { n = n + length (message_bytes h); rest = rest })
  unfolding read_header message_bytes field_bytes extended_bytes
  read_header-continuation e w = ground arith

-- The two calls by which `readChunk` reads a header.
abbrev pub read_whole : Option Header → Action Source Header
read_whole last = do (fmt, csi) ← read_base_header; read_header zero_header fmt csi last

module _ (h : Header) (last : Option Header) where
  pub read_header-message_bytes :
      (n : ℕ) (rest : List ℕ)
      → IsValid h
      → (h.fmt ≡ 3 → was_extended last ≡ false)
      → read_header zero_header h.fmt h.chunk_stream_id last
          (record { n = n; rest = message_bytes h ++ rest })
        ≡ ok (carried h) (record { n = n + length (message_bytes h); rest = rest })
  read_header-message_bytes n rest v w = ground (
    arith,
    read_header-full h last n rest v,
    read_header-same_stream h last n rest v,
    read_header-same_length h last n rest v,
    read_header-continuation h last n rest v,
    v.fmt_range,
  )

  read_whole-encode :
      (n : ℕ) (rest : List ℕ)
      → IsValid h
      → (h.fmt ≡ 3 → was_extended last ≡ false)
      → read_whole last (record { n = n; rest = encode h ++ rest })
        ≡ ok (carried h) (record { n = n + length (encode h); rest = rest })
  unfolding encode
  read_whole-encode n rest v w =
      let b : List ℕ = base_bytes h.fmt h.chunk_stream_id in
      rw
        (
          append_assoc b (message_bytes h) rest,
          read_base_header-base_bytes h.fmt h.chunk_stream_id n (message_bytes h ++ rest)
              v.fmt_range v.id_above v.id_below,
          ◌>>=◌,
          read_header-message_bytes (n + length b) rest v w,
          length-append b (message_bytes h),
        )
        (ap (λ m. ok (carried h) (record { n = m; rest = rest })) (omega arith))

-- A header that fits its fields, with a chunk stream ID from 2 to 319, that a writer with enough
-- room is given: `Write` succeeds, and the reader gets back the fields that its format carries and
-- 0 for the others, takes exactly the bytes written, and counts as many as the writer. For a
-- continuation header, which is written without its extended timestamp, there must have been no
-- last header on the stream or one without an extended timestamp, and then none is read.
pub read_whole-write :
    (h : Header) (last : Option Header) (n room : ℕ) (rest : List ℕ)
    → IsValid h
    → (h.fmt ≡ 3 → was_extended last ≡ false)
    → length (encode h) ≤ room
    → (k : Sink) × (write h (record { n = n; out = []; room = room }) ≡ ok tt k)
      × (read_whole last (record { n = n; rest = k.out ++ rest })
          ≡ ok (carried h) (record { n = k.n; rest = rest }))
read_whole-write h last n room rest v w fits = (
  filled (record { n = n; out = []; room = room }) (encode h),
  Emits-fits (encode h) _ (write-Emits h (omega (arith, v.id_below))) fits,
  read_whole-encode h last n rest v w,
)
