-- ===== src/Handshake/Digest.antt =====
-- Where the digests stand, and that the digest of the response is right.
use gortmp.Base.{ℕ, zero, suc, ◌+◌, ◌-◌, ◌≤◌, ◌<◌, ◌≡◌, refl, sym, ap, ◌∙◌, arith}
use gortmp.Base.{List, [], ◌∷◌, ◌++◌, true, take, drop, length, ◌==◌}
use gortmp.Base.{length-take, length-drop, length-append, append_assoc, take-append_left, inl, inr}
use gortmp.Base.{take-length-append, drop-length-append, Bool-cases}
use gortmp.Handshake.{
  slice, get_digest_offset, get_digest_offset0, get_digest_offset1, without_digest, with_digest,
  same_bytes, has_digest, server_s1, genuine_fms_key,
}

-- In a buffer of 1536 bytes every digest lies whole within it, behind the bytes that give its place:
-- no slice of the handshake is out of range.
pub get_digest_offset_bounds :
    (buf : List ℕ) (scheme : ℕ)
    → (12 ≤ get_digest_offset buf scheme)
      × (get_digest_offset buf scheme + 32 < 1536)
      × (scheme ≡ 1 → 776 ≤ get_digest_offset buf scheme)
      × (scheme ≡ 0 → get_digest_offset buf scheme + 32 ≤ 772)
unfolding get_digest_offset get_digest_offset0 get_digest_offset1
get_digest_offset_bounds buf scheme = ground arith

same_bytes_refl : (xs : List ℕ) → same_bytes xs xs ≡ true
unfolding same_bytes
same_bytes_refl [] = refl
same_bytes_refl (x ∷ xs) = ground (arith, same_bytes_refl xs)

take-take : (n m : ℕ) (xs : List ℕ) → n ≤ m → take n (take m xs) ≡ take n xs
take-take zero m xs h = refl
take-take (suc n) zero xs h = absurd (omega arith)
take-take (suc n) (suc m) [] h = refl
take-take (suc n) (suc m) (x ∷ xs) h = ap (◌∷◌ x) (take-take n m xs (omega arith))

-- A piece of the front does not see what is put behind the front.
piece_of_front :
    (lo n off : ℕ) (xs ys : List ℕ)
    → lo + n ≤ off
    → off ≤ length xs
    → take n (drop lo (take off xs ++ ys)) ≡ take n (drop lo xs)
piece_of_front zero n off xs ys h l =
    take-append_left n (take off xs) ys (omega (arith, length-take off xs))
    ∙ take-take n off xs (omega arith)
piece_of_front (suc lo) n zero xs ys h l = absurd (omega arith)
piece_of_front (suc lo) n (suc off) [] ys h l = absurd (omega arith)
piece_of_front (suc lo) n (suc off) (x ∷ xs) ys h l =
    piece_of_front lo n off xs ys (omega arith) (omega arith)

-- A buffer with a digest put in at a place where it fits.
module _ (buf hash : List ℕ) (off : ℕ) (hl : length hash ≡ 32) (fits : off + 32 ≤ length buf) where
  front-length : length (take off buf) ≡ off
  front-length = omega (arith, length-take off buf)

  take-put_in : (ys : List ℕ) → take off (take off buf ++ ys) ≡ take off buf
  take-put_in ys =
      ap (λ n. take n (take off buf ++ ys)) (sym front-length)
      ∙ take-length-append (take off buf) ys

  drop-put_in : (ys : List ℕ) → drop off (take off buf ++ ys) ≡ ys
  drop-put_in ys =
      ap (λ n. drop n (take off buf ++ ys)) (sym front-length)
      ∙ drop-length-append (take off buf) ys

  behind_digest : (ys : List ℕ) → drop (off + 32) (take off buf ++ (hash ++ ys)) ≡ ys
  behind_digest ys =
      ap (λ n. drop n (take off buf ++ (hash ++ ys)))
        (omega (arith, length-append (take off buf) hash, front-length))
      ∙ ap (drop (length (take off buf ++ hash))) (sym (append_assoc (take off buf) hash ys))
      ∙ drop-length-append (take off buf ++ hash) ys

  without-with : without_digest (with_digest buf off hash) off ≡ without_digest buf off
  without-with =
      ap (λ xs. xs ++ drop (off + 32) (with_digest buf off hash)) (take-put_in _)
      ∙ ap (λ xs. take off buf ++ xs) (behind_digest (drop (off + 32) buf))

  slice-with : slice off (off + 32) (with_digest buf off hash) ≡ hash
  slice-with =
      let width : off + 32 - off ≡ 32 = omega arith in
      ap (λ n. take n (drop off (with_digest buf off hash))) width
      ∙ ap (take 32) (drop-put_in _)
      ∙ ap (λ n. take n (hash ++ drop (off + 32) buf)) (sym hl)
      ∙ take-length-append hash _

  -- The digest does not move by being put in: its place depends on bytes before it.
  offset-with :
      (scheme : ℕ)
      → off ≡ get_digest_offset buf scheme
      → get_digest_offset (with_digest buf off hash) scheme ≡ off
  unfolding get_digest_offset get_digest_offset0 get_digest_offset1
  offset-with scheme e = elim (Bool-cases (scheme == 1)) [
    | inl one ↦ ground (arith, piece_of_front 772 4 off buf (hash ++ drop (off + 32) buf))
    | inr not_one ↦ ground (arith, piece_of_front 8 4 off buf (hash ++ drop (off + 32) buf))
  ]

module _ (hmac : List ℕ → List ℕ → List ℕ)
    (digests : (msg key : List ℕ) → length (hmac msg key) ≡ 32) where
  -- For an hmac with digests of 32 bytes, every scheme and 1528 random bytes, S1 has 1536 bytes and
  -- carries, at the place that it gives itself, the digest of its other bytes by the server's key.
  pub has_digest-server_s1 :
      (scheme : ℕ) (random : List ℕ)
      → length random ≡ 1528
      → let s1 : List ℕ = server_s1 hmac scheme random in
        (length s1 ≡ 1536)
        × (has_digest hmac s1 (get_digest_offset s1 scheme) (take 36 genuine_fms_key) ≡ true)
  unfolding server_s1 has_digest
  has_digest-server_s1 scheme random l =
      let s1 : List ℕ = 0 ∷ 0 ∷ 0 ∷ 0 ∷ 1 ∷ 2 ∷ 3 ∷ 4 ∷ random in
      let off = get_digest_offset s1 scheme in
      let hash = hmac (without_digest s1 off) (take 36 genuine_fms_key) in
      let size : length s1 ≡ 1536 = omega (arith, l) in
      let bounds = get_digest_offset_bounds s1 scheme in
      let hl : length hash ≡ 32 = digests _ _ in
      let fits : off + 32 ≤ length s1 = omega (arith, bounds.1) in
      (
        omega (
          arith,
          length-append (take off s1) (hash ++ drop (off + 32) s1),
          length-append hash (drop (off + 32) s1),
          length-take off s1,
          length-drop (off + 32) s1,
        ),
        rw
            (
              offset-with s1 hash off hl fits scheme refl,
              slice-with s1 hash off hl fits,
              without-with s1 hash off hl fits,
            )
            (same_bytes_refl hash),
      )
