-- ===== src/Wire/Gives.antt =====
-- What it means that an action gives values of a kind when its input is made of bytes, and the rules
-- by which the reading functions are shown to do so.
use gortmp.Base.{
  ℕ, zero, suc, ◌^◌, ◌<◌, ◌≡◌, refl, arith, inl, inr, List, [], ◌∷◌, Bool, true, false,
}
use gortmp.Base.{All, length, take, drop, length-take, le-or-lt, if◌then◌else◌}
use gortmp.Base.Bytes.{IsByte, of_be, of_le}
use gortmp.Wire.{
  Source, Outcome, Action, ok, err, Error, ◌>>=◌, ◌>>◌, pure, read_byte, read_full, count_in,
}
use gortmp.Wire.Read.{read_full_enough, read_full_short}

pub data Given {A : Type 0} (P : A → Type 0) : Outcome Source A → Type 0 where
  given : (a : A) (s' : Source) → P a → All IsByte s'.rest → Given P (ok a s')
  refused : (e : Error) (s' : Source) → All IsByte s'.rest → Given P (err e s')

abbrev pub Gives : {A : Type 0} → (A → Type 0) → Action Source A → Type 0
Gives P m = (s : Source) → All IsByte s.rest → Given P (m s)

pub Gives-pure : {A : Type 0} (P : A → Type 0) (a : A) → P a → Gives P (pure {A = A} a)
Gives-pure P a p s bytes = given a s p bytes

bound :
    {A B : Type 0} {P : A → Type 0} {Q : B → Type 0} (o : Outcome Source A)
    (f : A → Action Source B)
    → Given P o
    → ((a : A) → P a → Gives Q (f a))
    → Given Q (elim o [ ok a s' ↦ f a s' | err e s' ↦ err e s' ])
bound _ f (given a s' p bytes) g = g a p s' bytes
bound _ f (refused e s' bytes) g = refused e s' bytes

pub Gives-bind :
    {A B : Type 0} {P : A → Type 0} {Q : B → Type 0} {m : Action Source A} {f : A → Action Source B}
    → Gives P m
    → ((a : A) → P a → Gives Q (f a))
    → Gives Q (m >>= f)
Gives-bind {m = m} {f = f} g g' s bytes = bound (m s) f (g s bytes) g'

-- A count does not change what is read.
pub Gives-count :
    {B : Type 0} {Q : B → Type 0} (k : ℕ) {m : Action Source B}
    → Gives Q m
    → Gives Q (count_in k >> m)
Gives-count k g s bytes = g _ bytes

read_byte-Given :
    (n : ℕ) (xs : List ℕ) → All IsByte xs → Given IsByte (read_byte (record { n = n; rest = xs }))
unfolding read_byte
read_byte-Given n [] bytes = refused _ _ tt
read_byte-Given n (b ∷ bs) bytes = given b _ bytes.0 bytes.1

pub Gives-read_byte : Gives IsByte read_byte
Gives-read_byte s bytes = read_byte-Given s.n s.rest bytes

pub take-IsByte : (k : ℕ) (xs : List ℕ) → All IsByte xs → All IsByte (take k xs)
take-IsByte zero xs bytes = tt
take-IsByte (suc k) [] bytes = tt
take-IsByte (suc k) (x ∷ xs) bytes = (bytes.0, take-IsByte k xs bytes.1)

pub drop-IsByte : (k : ℕ) (xs : List ℕ) → All IsByte xs → All IsByte (drop k xs)
drop-IsByte zero xs bytes = bytes
drop-IsByte (suc k) [] bytes = tt
drop-IsByte (suc k) (x ∷ xs) bytes = drop-IsByte k xs bytes.1

-- So many bytes.
abbrev pub AreBytes : ℕ → List ℕ → Type 0
AreBytes k bs = (length bs ≡ k) × All IsByte bs

pub Gives-read_full : (k : ℕ) → Gives (AreBytes k) (read_full k)
Gives-read_full k s bytes = elim (le-or-lt k (length s.rest)) [
  | inl enough ↦ rw (read_full_enough k s enough) (
      given (take k s.rest) _ (omega (arith, length-take k s.rest), take-IsByte k s.rest bytes)
        (drop-IsByte k s.rest bytes))
  | inr short ↦ rw (read_full_short k s short) (refused _ _ tt)
]

pub Gives-if :
    (b : Bool) {A : Type 0} {P : A → Type 0} {m m' : Action Source A}
    → (b ≡ true → Gives P m)
    → (b ≡ false → Gives P m')
    → Gives P (if b then m else m')
Gives-if true g g' = g refl
Gives-if false g g' = g' refl

pub of_be_uint24 : (bs : List ℕ) → AreBytes 3 bs → of_be (0 ∷ bs) < 2 ^ 24
of_be_uint24 [] h = absurd (omega (arith, h.0))
of_be_uint24 (a ∷ []) h = absurd (omega (arith, h.0))
of_be_uint24 (a ∷ b ∷ []) h = absurd (omega (arith, h.0))
of_be_uint24 (a ∷ b ∷ c ∷ []) (l, (x, (y, (z, u)))) = omega arith
of_be_uint24 (a ∷ b ∷ c ∷ d ∷ bs) h = absurd (omega (arith, h.0))

pub of_be_uint32 : (bs : List ℕ) → AreBytes 4 bs → of_be bs < 2 ^ 32
of_be_uint32 [] h = absurd (omega (arith, h.0))
of_be_uint32 (a ∷ []) h = absurd (omega (arith, h.0))
of_be_uint32 (a ∷ b ∷ []) h = absurd (omega (arith, h.0))
of_be_uint32 (a ∷ b ∷ c ∷ []) h = absurd (omega (arith, h.0))
of_be_uint32 (a ∷ b ∷ c ∷ d ∷ []) (l, (x, (y, (z, (w, u))))) = omega arith
of_be_uint32 (a ∷ b ∷ c ∷ d ∷ e ∷ bs) h = absurd (omega (arith, h.0))

pub of_le_uint32 : (bs : List ℕ) → AreBytes 4 bs → of_le bs < 2 ^ 32
of_le_uint32 [] h = absurd (omega (arith, h.0))
of_le_uint32 (a ∷ []) h = absurd (omega (arith, h.0))
of_le_uint32 (a ∷ b ∷ []) h = absurd (omega (arith, h.0))
of_le_uint32 (a ∷ b ∷ c ∷ []) h = absurd (omega (arith, h.0))
of_le_uint32 (a ∷ b ∷ c ∷ d ∷ []) (l, (x, (y, (z, (w, u))))) = omega arith
of_le_uint32 (a ∷ b ∷ c ∷ d ∷ e ∷ bs) h = absurd (omega (arith, h.0))
