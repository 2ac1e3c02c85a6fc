-- ===== src/Wire/Written.antt =====
-- What it means that an action writes given bytes: all of them and it succeeds, or as many as there
-- is room for and it fails. The rule for a sequence of such actions.
use gortmp.Base.{ℕ, ◌+◌, ◌-◌, ◌≤◌, ◌<◌, ◌≡◌, refl, sym, ap, ◌∙◌, subst, inl, inr, arith}
use gortmp.Base.{List, [], ◌++◌, append-nil, append_assoc, length, take, length-append}
use gortmp.Base.{Bool, true, false, if◌then◌else◌, take-append_left, take-append_right, le-or-lt}
use gortmp.Wire.{Sink, Outcome, Action, ok, err, short_write, write_bytes, count_out, pure}
use gortmp.Wire.{◌>>=◌, ◌>>◌}

-- The sink after `bs` was written and counted.
abbrev pub filled : Sink → List ℕ → Sink
filled k bs = record { n = k.n + length bs; out = k.out ++ bs; room = k.room - length bs }

-- A failed write: the room is used up by a front of `bs`, of which at most the whole was counted.
pub record CutOff (k k' : Sink) (bs : List ℕ) : Type 0 where
  pub too_long : k.room < length bs
  pub front : k'.out ≡ k.out ++ take k.room bs
  pub used_up : k'.room ≡ 0
  pub counted : k'.n ≤ k.n + k.room

pub data Written (k : Sink) (bs : List ℕ) : Outcome Sink (Unit {0}) → Type 0 where
  whole : length bs ≤ k.room → Written k bs (ok tt (filled k bs))
  cut : (k' : Sink) → CutOff k k' bs → Written k bs (err short_write k')

abbrev pub Emits : Action Sink (Unit {0}) → List ℕ → Type 0
Emits m bs = (k : Sink) → Written k bs (m k)

pub filled-append : (k : Sink) (bs cs : List ℕ) → filled (filled k bs) cs ≡ filled k (bs ++ cs)
filled-append k bs cs = ground (arith, length-append bs cs, append_assoc k.out bs cs)

-- After `bs` was written whole, what is then written follows it.
after_whole :
    (k : Sink) (bs cs : List ℕ) {o : Outcome Sink (Unit {0})}
    → length bs ≤ k.room
    → Written (filled k bs) cs o
    → Written k (bs ++ cs) o
after_whole k bs cs h (whole h') =
    subst (λ s. Written k (bs ++ cs) (ok tt s)) (sym (filled-append k bs cs))
      (whole (omega (arith, length-append bs cs)))
after_whole k bs cs h (cut k' c) = cut k' (record {
  too_long = omega (arith, c.too_long, length-append bs cs);
  front =
      c.front
      ∙ append_assoc k.out bs (take (k.room - length bs) cs)
      ∙ ap (λ xs. k.out ++ xs) (sym (take-append_right k.room bs cs h));
  used_up = c.used_up;
  counted = omega (arith, c.counted);
})

in_turn :
    (k : Sink) (bs cs : List ℕ) (m : Action Sink (Unit {0})) {o : Outcome Sink (Unit {0})}
    → Written k bs o
    → Emits m cs
    → Written k (bs ++ cs) (elim o [ ok _ s ↦ m s | err e s ↦ err e s ])
in_turn k bs cs m (whole h) w = after_whole k bs cs h (w (filled k bs))
in_turn k bs cs m (cut k' c) w = cut k' (record {
  too_long = omega (arith, c.too_long, length-append bs cs);
  front =
      c.front
      ∙ ap (λ xs. k.out ++ xs) (sym (take-append_left k.room bs cs (omega (arith, c.too_long))));
  used_up = c.used_up;
  counted = c.counted;
})

pub Emits-then :
    {m m' : Action Sink (Unit {0})} (bs cs : List ℕ)
    → Emits m bs
    → Emits m' cs
    → Emits (m >> m') (bs ++ cs)
Emits-then {m' = m'} bs cs w w' k = in_turn k bs cs m' (w k) w'

-- Both ends of a write.
pub write_bytes_fits :
    (bs : List ℕ) (k : Sink)
    → length bs ≤ k.room
    → write_bytes bs k ≡ ok tt (record k { out = k.out ++ bs; room = k.room - length bs })
unfolding write_bytes
write_bytes_fits bs k h = ground arith

pub write_bytes_cut :
    (bs : List ℕ) (k : Sink)
    → k.room < length bs
    → write_bytes bs k ≡ err short_write (record k { out = k.out ++ take k.room bs; room = 0 })
unfolding write_bytes
write_bytes_cut bs k h = ground arith

-- A write followed by the count of what it wrote.
pub Emits-write_bytes : (bs : List ℕ) → Emits (write_bytes bs >> count_out (length bs)) bs
Emits-write_bytes bs k = elim (le-or-lt (length bs) k.room) [
  | inl fits ↦ rw (write_bytes_fits bs k fits, ◌>>=◌) (whole fits)
  | inr long ↦
      rw (write_bytes_cut bs k long, ◌>>=◌)
        (cut _ (record { too_long = long; front = refl; used_up = refl; counted = omega arith }))
]

pub filled-nil : (k : Sink) → filled k [] ≡ k
filled-nil k = ground (arith, append-nil k.out)

-- An action that does nothing.
pub Emits-pure : Emits (pure tt) []
Emits-pure k = subst (λ s. Written k [] (ok tt s)) (filled-nil k) (whole (omega arith))

-- A choice of actions writes the choice of their bytes.
pub Emits-if :
    (b : Bool) {m m' : Action Sink (Unit {0})} (bs cs : List ℕ)
    → (b ≡ true → Emits m bs)
    → (b ≡ false → Emits m' cs)
    → Emits (if b then m else m') (if b then bs else cs)
Emits-if true bs cs w w' = w refl
Emits-if false bs cs w w' = w' refl

pub Emits-if_true :
    {b : Bool} {m : Action Sink (Unit {0})} (m' : Action Sink (Unit {0})) {bs : List ℕ}
    → b ≡ true
    → Emits m bs
    → Emits (if b then m else m') bs
Emits-if_true {m} m' {bs} e w = subst (λ c. Emits (if c then m else m') bs) (sym e) w

Written-fits :
    (k : Sink) (bs : List ℕ) {o : Outcome Sink (Unit {0})}
    → Written k bs o
    → length bs ≤ k.room
    → o ≡ ok tt (filled k bs)
Written-fits k bs (whole h) fits = refl
Written-fits k bs (cut k' c) fits = absurd (omega (arith, c.too_long))

-- With enough room the result is known.
pub Emits-fits :
    {m : Action Sink (Unit {0})} (bs : List ℕ) (k : Sink)
    → Emits m bs
    → length bs ≤ k.room
    → m k ≡ ok tt (filled k bs)
Emits-fits bs k w fits = Written-fits k bs (w k) fits
