-- ===== src/Base/Maps.antt =====
-- Maps from numbers to numbers, as lists of entries with the newest first.
use Prim.Native.Nat.{ℕ}
use mathlib.Core.Path.{◌≡◌}
use mathlib.Core.List.{List, [], ◌∷◌}
use mathlib.Core.Option.{Option, none, some}
use native.Mathlib.Omega.{arith}
use gortmp.Base.Tests.{◌==◌, if◌then◌else◌}

unfoldable pub lookup : ℕ → List (ℕ × ℕ) → Option ℕ
lookup k [] = none
lookup k ((j, v) ∷ m) = if j == k then some v else lookup k m

-- Every entry of the key goes.
unfoldable pub remove : ℕ → List (ℕ × ℕ) → List (ℕ × ℕ)
remove k [] = []
remove k ((j, v) ∷ m) = if j == k then remove k m else (j, v) ∷ remove k m

pub lookup-remove :
    (k j : ℕ) (m : List (ℕ × ℕ)) → lookup j (remove k m) ≡ (if j == k then none else lookup j m)
unfolding lookup remove
lookup-remove k j [] = ground arith
lookup-remove k j ((i, v) ∷ m) = ground (arith, lookup-remove k j m)
