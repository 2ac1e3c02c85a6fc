-- ===== src/Wire/Read.antt =====
-- What the reading primitives do on an input that begins with known bytes, and on any input.
use gortmp.Base.{ℕ, zero, suc, ◌≤◌, ◌<◌, ◌≡◌, refl, List, [], ◌∷◌, ◌++◌, some, none, arith}
use gortmp.Base.{length, take, drop}
use gortmp.Wire.{Source, ok, err, split_exact, read_full, short_read}

pub split_exact-append : (xs ys : List ℕ) → split_exact (length xs) (xs ++ ys) ≡ some (xs, ys)
unfolding split_exact
split_exact-append [] ys = refl
split_exact-append (x ∷ xs) ys = ground (arith, split_exact-append xs ys)

-- Enough input: the next `k` bytes.
pub split_exact_enough :
    (k : ℕ) (xs : List ℕ) → k ≤ length xs → split_exact k xs ≡ some (take k xs, drop k xs)
unfolding split_exact
split_exact_enough zero xs h = refl
split_exact_enough (suc k) [] h = absurd (omega arith)
split_exact_enough (suc k) (x ∷ xs) h = ground (arith, split_exact_enough k xs (omega arith))

pub split_exact_short : (k : ℕ) (xs : List ℕ) → length xs < k → split_exact k xs ≡ none
unfolding split_exact
split_exact_short zero xs h = absurd (omega arith)
split_exact_short (suc k) [] h = refl
split_exact_short (suc k) (x ∷ xs) h = ground (arith, split_exact_short k xs (omega arith))

pub read_full_enough :
    (k : ℕ) (s : Source)
    → k ≤ length s.rest
    → read_full k s ≡ ok (take k s.rest) (record s { rest = drop k s.rest })
unfolding read_full
read_full_enough k s h = rw (split_exact_enough k s.rest h, read_full)

pub read_full_short :
    (k : ℕ) (s : Source)
    → length s.rest < k
    → read_full k s ≡ err (short_read s.rest) (record s { rest = [] })
unfolding read_full
read_full_short k s h = rw (split_exact_short k s.rest h, read_full)
