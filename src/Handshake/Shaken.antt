-- ===== src/Handshake/Shaken.antt =====
-- What `SHandshake` does on every input, for every writer and all random bytes.
use gortmp.Base.{ℕ, ◌≤◌, ◌≡◌, inl, inr, refl, arith, Bool, List, [], ◌∷◌, Option, none, some}
use gortmp.Base.{length, take, drop, le-or-lt}
use gortmp.Wire.{Sink, eof, read_byte}
use gortmp.Wire.Read.{read_full_enough, read_full_short}
use gortmp.Wire.Takes.{short_read-cases}
use gortmp.Handshake.{response}
use gortmp.Handshake.Response.{has_digest-response, response-server_s2}
use gortmp.Handshake.Exchange.{NetConn, no_s1_bytes, no_s2_bytes, respond, s_handshake}
use gortmp.Handshake.Endings.{Shaken, IsAnswer, no_client, no_random, answered, exchange-Exchanged}

module _ (hmac : List ℕ → List ℕ → List ℕ)
    (digests : (msg key : List ℕ) → length (hmac msg key) ≡ 32) (random₁ random₂ : Option (List ℕ))
    (filled₁ : (xs : List ℕ) → random₁ ≡ some xs → length xs ≡ 1528)
    (filled₂ : (xs : List ℕ) → random₂ ≡ some xs → length xs ≡ 1504) (response_first : Bool)
    (far : ℕ) where
  response-IsAnswer :
      (c1 bytes₁ bytes₂ : List ℕ)
      → random₁ ≡ some bytes₁
      → random₂ ≡ some bytes₂
      → IsAnswer hmac c1 (response hmac c1 bytes₁ bytes₂)
  response-IsAnswer c1 bytes₁ bytes₂ e₁ e₂ =
      let (type, size, digest) =
        has_digest-response hmac digests c1 bytes₁ bytes₂ (filled₁ bytes₁ e₁) (filled₂ bytes₂ e₂) in
      record {
        type = type;
        size = size;
        digest = digest;
        answer =
            response-server_s2 hmac digests c1 bytes₁ bytes₂ (filled₁ bytes₁ e₁)
              (filled₂ bytes₂ e₂);
      }

  respond-Shaken :
      (n c0 : ℕ) (bs : List ℕ) (sink : Sink) (r₁ r₂ : Option (List ℕ))
      → random₁ ≡ r₁
      → random₂ ≡ r₂
      → 1536 ≤ length bs
      → Shaken hmac response_first random₁ random₂
          (record { source = record { n = n; rest = c0 ∷ bs }; sink = sink })
          (respond hmac response_first far r₁ r₂
            (take 1536 bs)
            (record { source = record { n = n; rest = drop 1536 bs }; sink = sink }))
  unfolding respond
  respond-Shaken n c0 bs sink none r₂ e₁ e₂ enough =
      no_random no_s1_bytes _ (inl (refl, e₁)) (omega arith) refl refl
  respond-Shaken n c0 bs sink (some b₁) none e₁ e₂ enough =
      no_random no_s2_bytes _ (inr (refl, e₂)) (omega arith) refl refl
  respond-Shaken n c0 bs sink (some b₁) (some b₂) e₁ e₂ enough =
      let conn : NetConn = record { source = record { n = n; rest = drop 1536 bs }; sink = sink } in
      let bytes = response hmac (take 1536 bs) b₁ b₂ in
      let answer = response-IsAnswer (take 1536 bs) b₁ b₂ e₁ e₂ in
      answered bytes (omega arith) answer
        (exchange-Exchanged response_first far bytes conn answer.size)

  at_client_bytes :
      (n : ℕ) (rest : List ℕ) (sink : Sink)
      → Shaken hmac response_first random₁ random₂
          (record { source = record { n = n; rest = rest }; sink = sink })
          (s_handshake hmac response_first far random₁ random₂
            (record { source = record { n = n; rest = rest }; sink = sink }))
  unfolding s_handshake read_byte
  at_client_bytes n [] sink = no_client eof _ (omega arith) (inl refl) refl refl
  at_client_bytes n (c0 ∷ bs) sink = elim (le-or-lt 1536 (length bs)) [
    | inl enough ↦
        rw (read_full_enough 1536 (record { n = n; rest = bs }) enough, s_handshake)
          (respond-Shaken n c0 bs sink random₁ random₂ refl refl enough)
    | inr short ↦
        rw (read_full_short 1536 (record { n = n; rest = bs }) short, s_handshake)
          (no_client _ _ (omega arith) (short_read-cases bs) refl refl)
  ]

-- For an HMAC with digests of 32 bytes and random bytes that come in full or not at all, for every
-- client, writer and order of the two goroutines: with fewer than 1537 bytes of the client
-- SHandshake returns EOF or an unexpected EOF, and without random bytes their error, and nothing is
-- written; else the response is made that a client accepts (as `IsAnswer` says). If 1536 bytes more
-- come and there is room for the response, SHandshake succeeds, has taken exactly 3073 bytes and
-- written exactly the response. If not, it returns EOF or the error of the writer, the first one that
-- a goroutine ends with; what is written then is a front of the response: the whole of it where only
-- the second to end has an error and that is EOF, as much as there is room for where the writer
-- fails, and some front where EOF comes first; and where the writer fails first, only a front of the
-- 1536 bytes may have been skipped.
pub s_handshake-Shaken :
    (hmac : List ℕ → List ℕ → List ℕ) (random₁ random₂ : Option (List ℕ)) (response_first : Bool)
    (far : ℕ) (conn : NetConn)
    → ((msg key : List ℕ) → length (hmac msg key) ≡ 32)
    → ((xs : List ℕ) → random₁ ≡ some xs → length xs ≡ 1528)
    → ((xs : List ℕ) → random₂ ≡ some xs → length xs ≡ 1504)
    → Shaken hmac response_first random₁ random₂ conn
        (s_handshake hmac response_first far random₁ random₂ conn)
s_handshake-Shaken hmac random₁ random₂ response_first far conn digests filled₁ filled₂ =
    at_client_bytes hmac digests random₁ random₂ filled₁ filled₂ response_first far conn.source.n
      conn.source.rest conn.sink
