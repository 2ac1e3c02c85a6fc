-- ===== src/Handshake/Response.antt =====
-- The response of `SHandshake` as a client sees it.
use gortmp.Base.{ℕ, ◌+◌, ◌≡◌, refl, sym, ap, ◌∙◌, arith, List, [], ◌∷◌, ◌++◌, true, take}
use gortmp.Base.{length, length-append, take-length-append, drop-length-append, drop, take_all}
use gortmp.Handshake.{
  slice, get_digest_offset, has_digest, server_s1, server_s2, response, validate, genuine_fms_key,
}
use gortmp.Handshake.Digest.{has_digest-server_s1}

module _ (hmac : List ℕ → List ℕ → List ℕ)
    (digests : (msg key : List ℕ) → length (hmac msg key) ≡ 32) where
  length-server_s2 :
      (scheme : ℕ) (c1 random : List ℕ)
      → length random ≡ 1504
      → length (server_s2 hmac scheme c1 random) ≡ 1536
  unfolding server_s2
  length-server_s2 scheme c1 random l =
      let offset = get_digest_offset c1 scheme in
      let key = hmac (slice offset (offset + 32) c1) (take 68 genuine_fms_key) in
      omega (arith, length-append random (hmac random key), digests random key)

  -- For an hmac with digests of 32 bytes, all bytes of the client and 1528 and 1504 random bytes:
  -- the response is the byte 3 and twice 1536 bytes; the first of these carry, at the place that
  -- they give themselves by the scheme found for the client, the digest of their other bytes by the
  -- server's key.
  pub has_digest-response :
      (c1 random₁ random₂ : List ℕ)
      → length random₁ ≡ 1528
      → length random₂ ≡ 1504
      → let bytes : List ℕ = response hmac c1 random₁ random₂ in
        let s1 : List ℕ = slice 1 1537 bytes in
        (slice 0 1 bytes ≡ 3 ∷ [])
        × (length bytes ≡ 3073)
        × (has_digest hmac s1 (get_digest_offset s1 (validate hmac c1).0) (take 36 genuine_fms_key)
            ≡ true)
  unfolding response
  has_digest-response c1 random₁ random₂ l₁ l₂ =
      let scheme = (validate hmac c1).0 in
      let s1 = server_s1 hmac scheme random₁ in
      let s2 = server_s2 hmac scheme c1 random₂ in
      let (size, digest) = has_digest-server_s1 hmac digests scheme random₁ l₁ in
      let first : take 1536 (s1 ++ s2) ≡ s1 =
        ap (λ n. take n (s1 ++ s2)) (sym size) ∙ take-length-append s1 s2 in
      (
        refl,
        omega (arith, size, length-append s1 s2, length-server_s2 scheme c1 random₂ l₂),
        rw first digest,
      )

  -- With random bytes as many, the last 1536 bytes of the response end with the hash of their others
  -- by a key that is made of the client's digest.
  pub response-server_s2 :
      (c1 random₁ random₂ : List ℕ)
      → length random₁ ≡ 1528
      → length random₂ ≡ 1504
      → let s2 : List ℕ = slice 1537 3073 (response hmac c1 random₁ random₂) in
        let offset : ℕ = get_digest_offset c1 (validate hmac c1).0 in
        let key : List ℕ = hmac (slice offset (offset + 32) c1) (take 68 genuine_fms_key) in
        drop 1504 s2 ≡ hmac (take 1504 s2) key
  unfolding response server_s2
  response-server_s2 c1 random₁ random₂ l₁ l₂ =
      let scheme = (validate hmac c1).0 in
      let s1 = server_s1 hmac scheme random₁ in
      let s2 = server_s2 hmac scheme c1 random₂ in
      let offset = get_digest_offset c1 scheme in
      let key = hmac (slice offset (offset + 32) c1) (take 68 genuine_fms_key) in
      let (size, digest) = has_digest-server_s1 hmac digests scheme random₁ l₁ in
      let last : take 1536 (drop 1536 (s1 ++ s2)) ≡ s2 =
        ap (λ n. take 1536 (drop n (s1 ++ s2))) (sym size)
        ∙ ap (take 1536) (drop-length-append s1 s2)
        ∙ take_all 1536 s2 (omega (arith, length-server_s2 scheme c1 random₂ l₂)) in
      let front : take 1504 (random₂ ++ hmac random₂ key) ≡ random₂ =
        ap (λ n. take n (random₂ ++ hmac random₂ key)) (sym l₂)
        ∙ take-length-append random₂ (hmac random₂ key) in
      let back : drop 1504 (random₂ ++ hmac random₂ key) ≡ hmac random₂ key =
        ap (λ n. drop n (random₂ ++ hmac random₂ key)) (sym l₂)
        ∙ drop-length-append random₂ (hmac random₂ key) in
      ap (drop 1504) last ∙ back ∙ ap (λ xs. hmac xs key) (sym (ap (take 1504) last ∙ front))
