-- ===== src/Server/Service/Sums.antt =====
-- Sums over the phases of all connections, and what a move changes in them.
use gortmp.Base.{ℕ, zero, suc, ◌+◌, ◌≡◌, refl, ap, arith, subst}
use gortmp.Base.{List, [], ◌∷◌, ◌++◌, All, Option, none, some, ◌==◌, if◌then◌else◌}
use gortmp.Wire.{Error}
use gortmp.Server.Service.{Phase, shaking, phase_at, set_phase}
use gortmp.Server.Service.Lives.{IsPhase, reported}

abbrev pub sum_of : (Phase → ℕ) → List Phase → ℕ
sum_of f [] = 0
sum_of f (p ∷ ps) = f p + sum_of f ps

-- How often the handler was told that connection `i` has ended.
abbrev pub times_told : ℕ → List (ℕ × Option Error) → ℕ
times_told i [] = 0
times_told i ((j, e) ∷ cs) = (if i == j then 1 else 0) + times_told i cs

abbrev pub reported_at : Option Phase → ℕ
reported_at none = 0
reported_at (some p) = reported p

pub sum_of-append :
    (f : Phase → ℕ) (ps : List Phase) (p : Phase) → sum_of f (ps ++ (p ∷ [])) ≡ sum_of f ps + f p
sum_of-append f [] p = omega arith
sum_of-append f (q ∷ ps) p = omega (arith, sum_of-append f ps p)

pub sum_of-set_phase :
    (f : Phase → ℕ) (i : ℕ) (p q : Phase) (ps : List Phase)
    → phase_at i ps ≡ some p
    → sum_of f (set_phase i q ps) + f p ≡ sum_of f ps + f q
sum_of-set_phase f i p q [] e = absurd (cc)
sum_of-set_phase f zero p q (x ∷ ps) e = let same : x ≡ p = cc in omega (arith, ap f same)
sum_of-set_phase f (suc i) p q (x ∷ ps) e = omega (arith, sum_of-set_phase f i p q ps e)

pub at-IsPhase :
    (i : ℕ) (p : Phase) (ps : List Phase) → phase_at i ps ≡ some p → All IsPhase ps → IsPhase p
at-IsPhase i p [] e v = absurd (cc)
at-IsPhase zero p (x ∷ ps) e v = let same : x ≡ p = cc in subst IsPhase same v.0
at-IsPhase (suc i) p (x ∷ ps) e v = at-IsPhase i p ps e v.1

pub set-IsPhase :
    (i : ℕ) (q : Phase) (ps : List Phase)
    → IsPhase q
    → All IsPhase ps
    → All IsPhase (set_phase i q ps)
set-IsPhase i q [] h v = tt
set-IsPhase zero q (x ∷ ps) h v = (h, v.1)
set-IsPhase (suc i) q (x ∷ ps) h v = (v.0, set-IsPhase i q ps h v.1)

pub append-IsPhase :
    (ps : List Phase) (q : Phase) → IsPhase q → All IsPhase ps → All IsPhase (ps ++ (q ∷ []))
append-IsPhase [] q h v = (h, tt)
append-IsPhase (x ∷ ps) q h v = (v.0, append-IsPhase ps q h v.1)

pub phase_at-append :
    (i : ℕ) (ps : List Phase)
    → reported_at (phase_at i (ps ++ (shaking ∷ []))) ≡ reported_at (phase_at i ps)
phase_at-append zero [] = refl
phase_at-append (suc i) [] = refl
phase_at-append zero (x ∷ ps) = refl
phase_at-append (suc i) (x ∷ ps) = phase_at-append i ps

-- The reports of connection `j`, after `i` has moved.
pub phase_at-set_phase :
    (i j : ℕ) (p q : Phase) (k : ℕ) (ps : List Phase)
    → phase_at i ps ≡ some p
    → reported q ≡ reported p + k
    → reported_at (phase_at j (set_phase i q ps))
      ≡ reported_at (phase_at j ps) + (if j == i then k else 0)
phase_at-set_phase i j p q k [] e t = absurd (cc)
phase_at-set_phase zero zero p q k (x ∷ ps) e t =
    let same : x ≡ p = cc in omega (arith, ap reported same)
phase_at-set_phase zero (suc j) p q k (x ∷ ps) e t = ground arith
phase_at-set_phase (suc i) zero p q k (x ∷ ps) e t = ground arith
phase_at-set_phase (suc i) (suc j) p q k (x ∷ ps) e t =
    let later = phase_at-set_phase i j p q k ps e t in ground arith

pub times_told-append :
    (i j : ℕ) (e : Option Error) (cs : List (ℕ × Option Error))
    → times_told j (cs ++ ((i, e) ∷ [])) ≡ times_told j cs + (if j == i then 1 else 0)
times_told-append i j e [] = omega arith
times_told-append i j e ((k, x) ∷ cs) = omega (arith, times_told-append i j e cs)
