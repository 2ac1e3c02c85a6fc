-- ===== src/Base/Bytes.antt =====
-- Fixed-width integers as bytes, as `encoding/binary` writes and reads them. A byte is a number
-- below 256; `% 256` is the conversion to `byte`.
use gortmp.Base.Tests.{◌==◌}
use Prim.Native.Nat.{ℕ, zero, suc, ◌+◌, ◌*◌, ◌/◌, ◌%◌, ◌^◌, ◌<◌, bit_or}
use mathlib.Core.Path.{◌≡◌, refl}
use mathlib.Core.Bool.{Bool, true, ◌&&◌}
use mathlib.Core.List.{List, [], ◌∷◌, foldl}
use native.Mathlib.Omega.{arith}

abbrev pub IsByte : ℕ → Type 0
IsByte b = b < 256

-- `binary.BigEndian.PutUint32`, and its last three bytes, `tmpBuf[1:]`.
abbrev pub be_uint32 : ℕ → List ℕ
be_uint32 v = (v / 2 ^ 24 % 256) ∷ (v / 2 ^ 16 % 256) ∷ (v / 2 ^ 8 % 256) ∷ (v % 256) ∷ []

abbrev pub be_uint24 : ℕ → List ℕ
be_uint24 v = (v / 2 ^ 16 % 256) ∷ (v / 2 ^ 8 % 256) ∷ (v % 256) ∷ []

abbrev pub be_uint16 : ℕ → List ℕ
be_uint16 v = (v / 2 ^ 8 % 256) ∷ (v % 256) ∷ []

-- `binary.Write(w, binary.LittleEndian, v)` for a uint32.
abbrev pub le_uint32 : ℕ → List ℕ
le_uint32 v = (v % 256) ∷ (v / 2 ^ 8 % 256) ∷ (v / 2 ^ 16 % 256) ∷ (v / 2 ^ 24 % 256) ∷ []

-- `binary.BigEndian.Uint32` of four bytes (or of fewer after leading zeros).
abbrev pub of_be : List ℕ → ℕ
of_be = foldl (λ acc b. acc * 256 + b) 0

-- `binary.LittleEndian.Uint32`.
abbrev pub of_le : List ℕ → ℕ
of_le [] = 0
of_le (b ∷ bs) = b + 256 * of_le bs

-- Whether the two high bits and the six low bits of every byte below `n` are joined to that byte.
joins : ℕ → Bool
joins zero = true
joins (suc byte) = joins byte && bit_or (byte / 64 * 64) (byte % 64) == byte

joined_upto : (n byte : ℕ) → byte < n → joins n ≡ true → bit_or (byte / 64 * 64) (byte % 64) ≡ byte
unfolding joins
joined_upto zero byte below yes_all = absurd (omega arith)
joined_upto (suc n) byte below yes_all = ground (arith, joined_upto n byte)

joined : (x : ℕ) → x < 256 → bit_or (x / 64 * 64) (x % 64) ≡ x
unfolding joins
joined x h = joined_upto 256 x h refl

-- `(fmt << 6) | low` is a sum: the two bit fields do not meet.
pub bit_or_fields : (fmt low : ℕ) → low < 64 → bit_or (fmt * 64 % 256) low ≡ fmt * 64 % 256 + low
bit_or_fields fmt low h =
    let x : ℕ = fmt * 64 % 256 + low in
    let hi : x / 64 * 64 ≡ fmt * 64 % 256 = omega arith in
    let lo : x % 64 ≡ low = omega arith in rw (hi, lo) at (joined x (omega arith))
