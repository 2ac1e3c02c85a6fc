-- ===== src/Handshake.antt =====
-- handshake.go: the digests of the handshake, and the server's response.
--
-- `hmac` is calculateHMACsha256, whose hash does not fail to take bytes; it is a parameter, message
-- first. The random bytes are arguments. A slice of bytes is a list; the buffers that the functions
-- are given have 1536 bytes.
pub mod Digest
pub mod Response
pub mod Exchange
pub mod Endings
pub mod Shaken
use gortmp.Base.{ℕ, ◌+◌, ◌-◌, ◌%◌, ◌^◌, List, [], ◌∷◌, ◌++◌, Bool, true, false, Option, none, some}
use gortmp.Base.{take, drop, length, ◌==◌, ◌&&◌, if◌then◌else◌}

abbrev pub handshake_size : ℕ
handshake_size = 1536

abbrev pub digest_length : ℕ
digest_length = 32

abbrev pub genuine_fms_key : List ℕ
genuine_fms_key =
    0x47 ∷ 0x65 ∷ 0x6e ∷ 0x75 ∷ 0x69 ∷ 0x6e ∷ 0x65 ∷ 0x20 ∷ 0x41 ∷ 0x64 ∷ 0x6f ∷ 0x62 ∷ 0x65 ∷ 0x20
    ∷ 0x46 ∷ 0x6c ∷ 0x61 ∷ 0x73 ∷ 0x68 ∷ 0x20 ∷ 0x4d ∷ 0x65 ∷ 0x64 ∷ 0x69 ∷ 0x61 ∷ 0x20 ∷ 0x53
    ∷ 0x65 ∷ 0x72 ∷ 0x76 ∷ 0x65 ∷ 0x72 ∷ 0x20 ∷ 0x30 ∷ 0x30 ∷ 0x31 ∷ 0xf0 ∷ 0xee ∷ 0xc2 ∷ 0x4a
    ∷ 0x80 ∷ 0x68 ∷ 0xbe ∷ 0xe8 ∷ 0x2e ∷ 0x00 ∷ 0xd0 ∷ 0xd1 ∷ 0x02 ∷ 0x9e ∷ 0x7e ∷ 0x57 ∷ 0x6e
    ∷ 0xec ∷ 0x5d ∷ 0x2d ∷ 0x29 ∷ 0x80 ∷ 0x6f ∷ 0xab ∷ 0x93 ∷ 0xb8 ∷ 0xe6 ∷ 0x36 ∷ 0xcf ∷ 0xeb
    ∷ 0x31 ∷ 0xae ∷ []

abbrev pub genuine_fp_key : List ℕ
genuine_fp_key =
    0x47 ∷ 0x65 ∷ 0x6e ∷ 0x75 ∷ 0x69 ∷ 0x6e ∷ 0x65 ∷ 0x20 ∷ 0x41 ∷ 0x64 ∷ 0x6f ∷ 0x62 ∷ 0x65 ∷ 0x20
    ∷ 0x46 ∷ 0x6c ∷ 0x61 ∷ 0x73 ∷ 0x68 ∷ 0x20 ∷ 0x50 ∷ 0x6c ∷ 0x61 ∷ 0x79 ∷ 0x65 ∷ 0x72 ∷ 0x20
    ∷ 0x30 ∷ 0x30 ∷ 0x31 ∷ 0xf0 ∷ 0xee ∷ 0xc2 ∷ 0x4a ∷ 0x80 ∷ 0x68 ∷ 0xbe ∷ 0xe8 ∷ 0x2e ∷ 0x00
    ∷ 0xd0 ∷ 0xd1 ∷ 0x02 ∷ 0x9e ∷ 0x7e ∷ 0x57 ∷ 0x6e ∷ 0xec ∷ 0x5d ∷ 0x2d ∷ 0x29 ∷ 0x80 ∷ 0x6f
    ∷ 0xab ∷ 0x93 ∷ 0xb8 ∷ 0xe6 ∷ 0x36 ∷ 0xcf ∷ 0xeb ∷ 0x31 ∷ 0xae ∷ []

-- `buf[lo:hi]`
abbrev pub slice : ℕ → ℕ → List ℕ → List ℕ
slice lo hi buf = take (hi - lo) (drop lo buf)

sum_from : ℕ → List ℕ → ℕ
sum_from sum [] = sum
sum_from sum (b ∷ bs) = sum_from ((sum + b) % 2 ^ 32) bs

pub sum_bytes : List ℕ → ℕ
sum_bytes = sum_from 0

pub get_digest_offset0 : List ℕ → ℕ
get_digest_offset0 buf = sum_bytes (slice 8 12 buf) % 728 + 12

pub get_digest_offset1 : List ℕ → ℕ
get_digest_offset1 buf = sum_bytes (slice 772 776 buf) % 728 + 776

-- Any scheme but 1 has the first offset.
pub get_digest_offset : List ℕ → ℕ → ℕ
get_digest_offset buf scheme =
    if scheme == 1 then get_digest_offset1 buf else get_digest_offset0 buf

-- The two calls of `copy` that leave the digest out.
abbrev pub without_digest : List ℕ → ℕ → List ℕ
without_digest buf offset = take offset buf ++ drop (offset + digest_length) buf

-- `copy(s1[s1off:], s1hash)`, for a hash of 32 bytes.
abbrev pub with_digest : List ℕ → ℕ → List ℕ → List ℕ
with_digest buf offset hash = take offset buf ++ (hash ++ drop (offset + digest_length) buf)

-- `bytes.Compare(…) == 0`
pub same_bytes : List ℕ → List ℕ → Bool
same_bytes [] [] = true
same_bytes [] (y ∷ ys) = false
same_bytes (x ∷ xs) [] = false
same_bytes (x ∷ xs) (y ∷ ys) = (x == y) && same_bytes xs ys

module _ (hmac : List ℕ → List ℕ → List ℕ) where
  -- Whether the digest at `offset` is that of the other bytes.
  unfoldable pub has_digest : List ℕ → ℕ → List ℕ → Bool
  has_digest buf offset key =
      same_bytes (slice offset (offset + digest_length) buf) (hmac (without_digest buf offset) key)

  -- `validateScheme` returns no error. There are schemes 0 and 1 only.
  unfoldable pub validate_scheme : List ℕ → ℕ → Bool
  validate_scheme buf scheme =
      if scheme == 0
      then has_digest buf (get_digest_offset0 buf) (take 30 genuine_fp_key)
      else if scheme == 1
      then has_digest buf (get_digest_offset1 buf) (take 30 genuine_fp_key)
      else false

  -- The scheme, and whether there was no error.
  unfoldable pub validate : List ℕ → ℕ × Bool
  validate buf =
      if validate_scheme buf 0
      then (0, true)
      else if validate_scheme buf 1
      then (1, true)
      else (0, false)

  -- S1: four zero bytes, the version, and random bytes, with the digest put in.
  unfoldable pub server_s1 : ℕ → List ℕ → List ℕ
  server_s1 scheme random =
      let s1 : List ℕ = 0 ∷ 0 ∷ 0 ∷ 0 ∷ 1 ∷ 2 ∷ 3 ∷ 4 ∷ random in
      let offset = get_digest_offset s1 scheme in
      with_digest s1 offset (hmac (without_digest s1 offset) (take 36 genuine_fms_key))

  -- S2: random bytes, and their hash by a key that is made of the client's digest.
  unfoldable pub server_s2 : ℕ → List ℕ → List ℕ → List ℕ
  server_s2 scheme c1 random =
      let offset = get_digest_offset c1 scheme in
      let c1hash = slice offset (offset + digest_length) c1 in
      random ++ hmac random (hmac c1hash (take 68 genuine_fms_key))

  -- The response to the client's bytes, with the random bytes of S1 and S2.
  unfoldable pub response : List ℕ → List ℕ → List ℕ → List ℕ
  response c1 random₁ random₂ =
      let (scheme, valid) = validate c1 in
      3 ∷ (server_s1 scheme random₁ ++ server_s2 scheme c1 random₂)
