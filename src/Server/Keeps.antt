-- ===== src/Server/Keeps.antt =====
-- Rules for a property of the world that actions keep, also where they fail.
use gortmp.Base.{ap, ℕ, ◌≡◌, Bool, true, false, Option, none, some, if◌then◌else◌}
use gortmp.Server.{World, Act, Ending, ok, failed, left_by, ◌>>=◌, catch, world, pure, fail, Fault}

pub record Keeps (P : World → Type 0) {A : Type 0} (m : Act A) : Type 0 where
  pub keep : (w : World) → P w → P (left_by (m w))

module _ (P : World → Type 0) where
  pub Keeps-bind :
      {A B : Type 0} (m : Act A) (k : A → Act B)
      → Keeps P m
      → ((a : A) → Keeps P (k a))
      → Keeps P (m >>= k)
  Keeps-bind {A} {B} m k first next = record { keep = λ w p. go (m w) (first.keep w p) }
    where
      go :
          (e : Ending A)
          → P (left_by e)
          → P (left_by {A = B} (elim e [ ok a w' ↦ k a w' | failed f w' ↦ failed f w' ]))
      go (ok a w') q = (next a).keep w' q
      go (failed f w') q = q

  pub Keeps-catch :
      {A : Type 0} (m : Act A) (k : Fault → Act A)
      → Keeps P m
      → ((f : Fault) → Keeps P (k f))
      → Keeps P (catch m k)
  Keeps-catch {A} m k first next = record { keep = λ w p. go (m w) (first.keep w p) }
    where
      go :
          (e : Ending A)
          → P (left_by e)
          → P (left_by {A = A} (elim e [ ok a w' ↦ ok a w' | failed f w' ↦ k f w' ]))
      go (ok a w') q = q
      go (failed f w') q = (next f).keep w' q

  pub Keeps-if :
      {A : Type 0} (b : Bool) (m m' : Act A)
      → Keeps P m
      → Keeps P m'
      → Keeps P (if b then m else m')
  Keeps-if true m m' keep keep' = keep
  Keeps-if false m m' keep keep' = keep'

  pub Keeps-option :
      {A : Type 0} (x : Option ℕ) (m : Act A) (k : ℕ → Act A)
      → Keeps P m
      → ((n : ℕ) → Keeps P (k n))
      → Keeps P (elim x [ none ↦ m | some n ↦ k n ])
  Keeps-option none m k keep keep' = keep
  Keeps-option (some n) m k keep keep' = keep' n

  -- What is read off the world first.
  pub Keeps-read :
      {A B : Type 0} (f : World → B) (k : B → Act A)
      → ((b : B) → Keeps P (k b))
      → Keeps P (λ w. k (f w) w)
  Keeps-read f k next = record { keep = λ w p. (next (f w)).keep w p }

  pub Keeps-pure : {A : Type 0} (a : A) → Keeps P (pure a)
  Keeps-pure a = record { keep = λ w p. p }

  pub Keeps-fail : {A : Type 0} (f : Fault) → Keeps P (fail {A = A} f)
  Keeps-fail f = record { keep = λ w p. p }

  pub Keeps-world : Keeps P world
  Keeps-world = record { keep = λ w p. p }

-- The rules by which `search` goes through a do block.
pub ruleset keeps =
    (Keeps-if, Keeps-bind, Keeps-catch, Keeps-option, Keeps-pure, Keeps-fail, Keeps-world)

-- What follows an action that succeeds.
pub bind_ok :
    {A B : Type 0} (m : Act A) (k : A → Act B) (w w' : World) (a : A)
    → m w ≡ ok a w'
    → (m >>= k) w ≡ k a w'
bind_ok {A} {B} m k w w' a e =
    ap
      (λ (x : Ending A). elim x as (λ _. Ending B) [ ok a w' ↦ k a w' | failed f w' ↦ failed f w' ])
      e

pub catch_ok :
    {A : Type 0} (m : Act A) (k : Fault → Act A) (w w' : World) (a : A)
    → m w ≡ ok a w'
    → catch m k w ≡ ok a w'
catch_ok {A} m k w w' a e =
    ap (λ (x : Ending A). elim x as (λ _. Ending A) [ ok a w' ↦ ok a w' | failed f w' ↦ k f w' ]) e

pub catch_failed :
    {A : Type 0} (m : Act A) (k : Fault → Act A) (w w' : World) (f : Fault)
    → m w ≡ failed f w'
    → catch m k w ≡ k f w'
catch_failed {A} m k w w' f e =
    ap (λ (x : Ending A). elim x as (λ _. Ending A) [ ok a w' ↦ ok a w' | failed f w' ↦ k f w' ]) e
