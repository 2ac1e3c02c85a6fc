-- ===== src/Starvation/Window.antt =====
-- The reports against the ticks that they are about.
use gortmp.Base.{ℕ, zero, suc, ◌-◌, ◌≤◌, ◌<◌, ◌^◌, ◌≡◌, refl, sym, ap, ◌∙◌, arith, min}
use gortmp.Base.{List, [], ◌∷◌, true, false, ◌==◌, if◌then◌else◌, length, take, take_all, All}
use gortmp.Base.{some, le-or-lt, inl, inr, length-take, ltb, take-min}
use gortmp.Message.{video_type}
use gortmp.Media.Stream.{add64, sub64}
use gortmp.Starvation.{
  Report, Event, tagged, closed, ticked, drop_back, trim, history_limit, add_from, report,
  milliseconds, divide64,
}

-- What a tick sees: the timestamp of the last video tag, and the milliseconds since the tick before.
pub record Sample : Type 0 where
  pub timestamp : ℕ
  pub elapsed : ℕ

-- The samples of a run, up to the end of the channel; before the first video tag the timestamp is `ts`.
abbrev pub samples : ℕ → List Event → List Sample
samples ts [] = []
samples ts (tagged tag ∷ es) = samples (if tag.type == video_type then tag.timestamp else ts) es
samples ts (closed ∷ es) = []
samples ts (ticked ns ∷ es) = record { timestamp = ts; elapsed = milliseconds ns } ∷ samples ts es

-- The elapsed time of the `n` newest samples.
abbrev pub elapsed_in : ℕ → List Sample → ℕ
elapsed_in zero ss = 0
elapsed_in (suc n) [] = 0
elapsed_in (suc n) (s ∷ ss) = add64 s.elapsed (elapsed_in n ss)

-- The timestamp `n` samples before the newest one.
abbrev pub timestamp_at : ℕ → List Sample → ℕ
timestamp_at n [] = 0
timestamp_at zero (s ∷ ss) = s.timestamp
timestamp_at (suc n) (s ∷ ss) = timestamp_at n ss

-- The time that the `n` newest samples took less what the stream advanced in them.
abbrev pub lag : ℕ → List Sample → ℕ
lag n ss = sub64 (elapsed_in n ss) (sub64 (timestamp_at 0 ss) (timestamp_at n ss))

-- A sum of `n` delays, and their mean: the division does not panic.
abbrev pub said : ℕ → ℕ → Report
said n sum = record { sum = sum; len = n; starvation = some (divide64 sum n) }

-- The report on the samples seen, newest first: all but the first count, and at most 25.
abbrev pub expected : List Sample → Report
expected ss = let n = min (length ss - 1) history_limit in said n (lag n ss)

-- A report for each tick but the first, given the samples before, newest first.
abbrev pub expected_all : List Sample → List Sample → List Report
expected_all seen [] = []
expected_all [] (s ∷ ss) = expected_all (s ∷ []) ss
expected_all (r ∷ seen) (s ∷ ss) = expected (s ∷ r ∷ seen) ∷ expected_all (s ∷ r ∷ seen) ss

-- How far the stream fell behind the clock from each sample to the next.
unfoldable pub delays : List Sample → List ℕ
delays [] = []
delays (s ∷ []) = []
delays (s ∷ r ∷ rest) = sub64 s.elapsed (sub64 s.timestamp r.timestamp) ∷ delays (r ∷ rest)

-- Both times are those of an int64.
abbrev pub IsSample : Sample → Type 0
IsSample s = (s.timestamp < 2 ^ 32) × (s.elapsed < 2 ^ 64)

telescopes :
    (acc e rest ts tr tn : ℕ)
    → rest < 2 ^ 64
    → ts < 2 ^ 32
    → tr < 2 ^ 32
    → tn < 2 ^ 32
    → add64 (add64 acc (sub64 e (sub64 ts tr))) (sub64 rest (sub64 tr tn))
      ≡ add64 acc (sub64 (add64 e rest) (sub64 ts tn))
telescopes acc e rest ts tr tn hr hs hp hn = omega arith

elapsed_in-lt : (n : ℕ) (ss : List Sample) → elapsed_in n ss < 2 ^ 64
elapsed_in-lt zero ss = omega arith
elapsed_in-lt (suc n) [] = omega arith
elapsed_in-lt (suc n) (s ∷ ss) = omega arith

timestamp_at-lt : (n : ℕ) (ss : List Sample) → All IsSample ss → timestamp_at n ss < 2 ^ 32
timestamp_at-lt zero [] v = omega arith
timestamp_at-lt (suc n) [] v = omega arith
timestamp_at-lt zero (s ∷ ss) v = v.0.0
timestamp_at-lt (suc n) (s ∷ ss) v = timestamp_at-lt n ss v.1

add_from-delays :
    (n acc : ℕ) (s : Sample) (ss : List Sample)
    → All IsSample (s ∷ ss)
    → n ≤ length ss
    → acc < 2 ^ 64
    → add_from acc (take n (delays (s ∷ ss)))
      ≡ add64 acc (sub64 (elapsed_in n (s ∷ ss)) (sub64 s.timestamp (timestamp_at n (s ∷ ss))))
unfolding delays add_from
add_from-delays zero acc s ss v le h = let small = v.0.0 in omega arith
add_from-delays (suc n) acc s [] v le h = absurd (omega arith)
add_from-delays (suc n) acc s (r ∷ ss) v le h =
    add_from-delays n (add64 acc (sub64 s.elapsed (sub64 s.timestamp r.timestamp))) r ss v.1
      (omega arith) (omega arith)
    ∙ telescopes acc s.elapsed (elapsed_in n (r ∷ ss)) s.timestamp r.timestamp
        (timestamp_at n (r ∷ ss)) (elapsed_in-lt n (r ∷ ss)) v.0.0 v.1.0.0
        (timestamp_at-lt n (r ∷ ss) v.1)

length-delays : (s : Sample) (ss : List Sample) → length (delays (s ∷ ss)) ≡ length ss
unfolding delays
length-delays s [] = refl
length-delays s (r ∷ ss) = ap suc (length-delays r ss)

-- The list of at most 25 keeps its newest members.
drop_back-take : (n : ℕ) (xs : List ℕ) → length xs ≡ suc n → drop_back xs ≡ take n xs
unfolding drop_back
drop_back-take n [] h = absurd (omega arith)
drop_back-take zero (x ∷ []) h = refl
drop_back-take (suc n) (x ∷ []) h = absurd (omega arith)
drop_back-take zero (x ∷ y ∷ rest) h = absurd (omega arith)
drop_back-take (suc n) (x ∷ y ∷ rest) h =
    ap (λ ys. x ∷ ys) (drop_back-take n (y ∷ rest) (omega arith))

take-take : (n : ℕ) (xs : List ℕ) → take n (take (suc n) xs) ≡ take n xs
take-take zero xs = refl
take-take (suc n) [] = refl
take-take (suc n) (x ∷ xs) = ap (λ ys. x ∷ ys) (take-take n xs)

pub trim-take :
    (x : ℕ) (xs : List ℕ) → trim (x ∷ take history_limit xs) ≡ take history_limit (x ∷ xs)
unfolding trim
trim-take x xs = elim (le-or-lt history_limit (length xs)) [
  | inl le ↦
      let n : length (take history_limit xs) ≡ history_limit =
        omega (arith, length-take history_limit xs) in
      let big : ltb history_limit (length (x ∷ take history_limit xs)) ≡ true = ground arith in
      rw big (
        drop_back-take history_limit (x ∷ take history_limit xs) (omega arith)
        ∙ take-take history_limit (x ∷ xs))
  | inr lt ↦
      let n = length-take history_limit xs in
      let small : ltb history_limit (length (x ∷ take history_limit xs)) ≡ false = ground arith in
      rw small (
        ap (λ ys. x ∷ ys) (take_all history_limit xs (omega arith))
        ∙ sym (take_all history_limit (x ∷ xs) (omega arith)))
]

report-said :
    (history : List ℕ)
    → 0 < length history
    → report history ≡ said (length history) (add_from 0 history)
report-said history h =
    let some_delays : (length history == 0) ≡ false = ground arith in rw some_delays refl

pub report-expected :
    (s r : Sample) (seen : List Sample)
    → let ss : List Sample = s ∷ r ∷ seen in
      All IsSample ss → report (take history_limit (delays ss)) ≡ expected ss
report-expected s r seen v =
    let n = min (suc (length seen)) history_limit in
    let newest = take n (delays (s ∷ r ∷ seen)) in
    let same = length-delays s (r ∷ seen) in
    let long : length newest ≡ n = omega (arith, length-take n (delays (s ∷ r ∷ seen))) in
    let total : add_from 0 newest ≡ lag n (s ∷ r ∷ seen) =
      add_from-delays n 0 s (r ∷ seen) v (omega arith) (omega arith) ∙ (omega arith) in
    let least : n ≡ min (length (s ∷ r ∷ seen) - 1) history_limit =
      ap (λ k. min k history_limit) (omega arith) in
    ap report (sym (take-min (suc (length seen)) history_limit (delays (s ∷ r ∷ seen)) same))
    ∙ report-said newest (omega arith)
    ∙ ap (λ k. said k (add_from 0 newest)) long
    ∙ ap (said n) total
    ∙ ap (λ k. said k (lag k (s ∷ r ∷ seen))) least
