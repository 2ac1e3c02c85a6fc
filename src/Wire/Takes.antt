-- ===== src/Wire/Takes.antt =====
-- What it means that an action reads from its input and counts what it read, and the rules by which
-- the reading functions are shown to do so.
use gortmp.Base.{ℕ, ◌+◌, ◌≤◌, ◌≡◌, refl, inl, inr, ◌⊎◌}
use gortmp.Base.{arith, List, [], ◌∷◌, Bool, true, false, if◌then◌else◌, length, take, drop}
use gortmp.Base.{length-drop, le-or-lt}
use gortmp.Wire.{Source, Outcome, Action, ok, err, Error, eof, unexpected_eof, ◌>>=◌, ◌>>◌, pure}
use gortmp.Wire.{read_byte, read_full, count_in, short_read}
use gortmp.Wire.Read.{read_full_enough, read_full_short}

-- Of the input `s`: at least `lo` bytes were taken and the count rose by as many as were taken; or
-- the input came to its end, and no byte was counted that was not there.
pub data Took {A : Type 0} (lo : ℕ) (s : Source) : Outcome Source A → Type 0 where
  took :
      (a : A) (s' : Source)
      → s'.n + length s'.rest ≡ s.n + length s.rest
      → s.n + lo ≤ s'.n
      → Took lo s (ok a s')
  ended :
      (e : Error) (s' : Source)
      → (e ≡ eof) ⊎ (e ≡ unexpected_eof)
      → s'.rest ≡ []
      → s.n ≤ s'.n
      → s'.n ≤ s.n + length s.rest
      → Took lo s (err e s')

abbrev pub Takes : {A : Type 0} → ℕ → Action Source A → Type 0
Takes lo m = (s : Source) → Took lo s (m s)

pub Takes-pure : {A : Type 0} (a : A) → Takes 0 (pure {A = A} a)
Takes-pure a s = took a s refl (omega arith)

-- What was taken before the rest of the action.
Took-before :
    {A : Type 0} {s t : Source} {lo : ℕ} {o : Outcome Source A}
    → t.n + length t.rest ≡ s.n + length s.rest
    → s.n + lo ≤ t.n
    → Took 0 t o
    → Took lo s o
Took-before e h (took a s' e' h') = took a s' (omega arith) (omega arith)
Took-before e h (ended x s' k r h' l) = ended x s' k r (omega arith) (omega arith)

bound :
    {A B : Type 0} {lo : ℕ} {s : Source} {o : Outcome Source A} (f : A → Action Source B)
    → Took lo s o
    → ((a : A) → Takes 0 (f a))
    → Took lo s (elim o [ ok a s' ↦ f a s' | err e s' ↦ err e s' ])
bound f (took a s' e h) w = Took-before e h (w a s')
bound f (ended x s' k r h l) w = ended x s' k r h l

pub Takes-bind :
    {A B : Type 0} {lo : ℕ} {m : Action Source A} {f : A → Action Source B}
    → Takes lo m
    → ((a : A) → Takes 0 (f a))
    → Takes lo (m >>= f)
Takes-bind {f = f} w w' s = bound f (w s) w'

byte_taken :
    {A : Type 0} (f : ℕ → Action Source A) (n : ℕ) (xs : List ℕ)
    → ((b : ℕ) → Takes 0 (f b))
    → Took 1
        (record { n = n; rest = xs })
        ((read_byte >>= λ b. (count_in 1 >> f b)) (record { n = n; rest = xs }))
unfolding read_byte
byte_taken f n [] w =
    ended eof (record { n = n; rest = [] }) (inl refl) refl (omega arith) (omega arith)
byte_taken f n (b ∷ bs) w =
    Took-before {t = record { n = n + 1; rest = bs }} (omega arith) (omega arith) (w b _)

-- `ReadByte` and `n += 1`.
pub Takes-read_byte :
    {A : Type 0} {f : ℕ → Action Source A}
    → ((b : ℕ) → Takes 0 (f b))
    → Takes 1 (read_byte >>= λ b. (count_in 1 >> f b))
Takes-read_byte {f = f} w s = byte_taken f s.n s.rest w

pub short_read-cases : (xs : List ℕ) → (short_read xs ≡ eof) ⊎ (short_read xs ≡ unexpected_eof)
short_read-cases [] = inl refl
short_read-cases (x ∷ xs) = inr refl

-- `io.ReadFull` of `k` bytes and `n += k`.
pub Takes-read_full :
    {A : Type 0} (k : ℕ) {f : List ℕ → Action Source A}
    → ((bs : List ℕ) → Takes 0 (f bs))
    → Takes k (read_full k >>= λ bs. (count_in k >> f bs))
Takes-read_full k {f = f} w s = elim (le-or-lt k (length s.rest)) [
  | inl enough ↦
      rw (read_full_enough k s enough, ◌>>=◌)
        (Took-before {t = record { n = s.n + k; rest = drop k s.rest }}
          (omega (arith, length-drop k s.rest)) (omega arith) (w (take k s.rest) _))
  | inr short ↦
      rw (read_full_short k s short, ◌>>=◌)
        (ended _ (record s { rest = [] }) (short_read-cases s.rest) refl (omega arith)
          (omega arith))
]

pub Takes-if :
    (b : Bool) {A : Type 0} {lo : ℕ} {m m' : Action Source A}
    → Takes lo m
    → Takes lo m'
    → Takes lo (if b then m else m')
Takes-if true w w' = w
Takes-if false w w' = w'

Took-less : {A : Type 0} {s : Source} {lo : ℕ} {o : Outcome Source A} → Took lo s o → Took 0 s o
Took-less (took a s' e h) = took a s' e (omega arith)
Took-less (ended e s' k r h l) = ended e s' k r h l

pub Takes-zero : {A : Type 0} {lo : ℕ} {m : Action Source A} → Takes lo m → Takes 0 m
Takes-zero w s = Took-less (w s)
