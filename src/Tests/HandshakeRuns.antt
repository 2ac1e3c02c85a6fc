-- ===== src/Tests/HandshakeRuns.antt =====
-- handshake.go with an hmac that is the same for all messages.
use gortmp.Base.{ℕ, zero, suc, ◌+◌, ◌≤◌, ◌<◌, ◌≡◌, refl, List, [], ◌∷◌, true, some, subst, length}
use gortmp.Handshake.{get_digest_offset}
use gortmp.Handshake.Digest.{get_digest_offset_bounds}
use gortmp.Handshake.Exchange.{NetConn, s_handshake}
use gortmp.Handshake.Endings.{Shaken}
use gortmp.Handshake.Shaken.{s_handshake-Shaken}

abbrev repeated : ℕ → ℕ → List ℕ
repeated zero b = []
repeated (suc n) b = b ∷ repeated n b

abbrev hmac : List ℕ → List ℕ → List ℕ
hmac msg key = repeated 32 7

abbrev one : ℕ
one = 1

get_digest_offset_bounds_example :
    (12 ≤ get_digest_offset (repeated 1536 1) 1)
    × (get_digest_offset (repeated 1536 1) 1 + 32 < 1536)
    × (one ≡ 1 → 776 ≤ get_digest_offset (repeated 1536 1) 1)
    × (one ≡ 0 → get_digest_offset (repeated 1536 1) 1 + 32 ≤ 772)
get_digest_offset_bounds_example = get_digest_offset_bounds (repeated 1536 1) 1

-- A client that sends all its bytes, of type 3, and a writer with room for the response.
abbrev conn : NetConn
conn = record {
  source = record { n = 0; rest = 3 ∷ repeated 3072 1 };
  sink = record { n = 0; out = []; room = 4096 };
}

filled :
    (n b k : ℕ)
    → length (repeated n b) ≡ k
    → (xs : List ℕ) → some (repeated n b) ≡ some xs
    → length xs ≡ k
filled n b k e xs same = let p : repeated n b ≡ xs = cc in subst (λ ys. length ys ≡ k) p e

s_handshake-Shaken_example :
    Shaken hmac true
      (some (repeated 1528 2))
      (some (repeated 1504 3))
      conn
      (s_handshake hmac true 0 (some (repeated 1528 2)) (some (repeated 1504 3)) conn)
s_handshake-Shaken_example =
    s_handshake-Shaken hmac (some (repeated 1528 2)) (some (repeated 1504 3)) true 0 conn
      (λ msg key. refl) (filled 1528 2 1528 refl) (filled 1504 3 1504 refl)
