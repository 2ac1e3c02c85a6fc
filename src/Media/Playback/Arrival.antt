-- ===== src/Media/Playback/Arrival.antt =====
-- What has arrived at a media buffer, and what left it, step by step.
use gortmp.Base.{ℕ, zero, suc, ◌^◌, ◌≤◌, ◌<◌, ◌≡◌, refl, sym, ap, ◌∙◌, subst, arith, inl, inr}
use gortmp.Base.{List, [], ◌∷◌, ◌++◌, take, drop, length, append-nil, take-append_left}
use gortmp.Base.{Bool, true, false, if◌then◌else◌, Bool-cases, length-append}
use mathlib.Core.List.{Sublistᴰ}
use gortmp.Media.{FlvTag}
use gortmp.Media.Buffer.{MediaBuffer, new_media_buffer, fits, push, tag_in, closed, wanted}
use gortmp.Media.Buffer
use gortmp.Media.Buffer.Accounts.{
  total, total-append, IsBalanced, step-IsBalanced, step_in_order, admitted, step-max_size, IsSmall,
}
use gortmp.Media.Stream.{MediaStream, subscribed, fresh}
use gortmp.Media.Stream
use gortmp.Media.Playback.{Playback, Event, streams, arrives, gets, receive, step}
use gortmp.Media.Playback.Channel.{grown, step-Grows}

total-take : (n : ℕ) (ts : List FlvTag) → total (take n ts) ≤ total ts
total-take zero ts = omega arith
total-take (suc n) [] = omega arith
total-take (suc n) (t ∷ ts) = omega (arith, total-take n ts)

-- The next of a list that is taken piece by piece.
take-suc :
    {A : Type 0} (n : ℕ) (xs ys : List A) (x : A)
    → drop n xs ≡ x ∷ ys
    → (take (suc n) xs ≡ take n xs ++ (x ∷ [])) × (n < length xs)
take-suc zero [] ys x e = absurd (cc)
take-suc zero (z ∷ zs) ys x e = let same : z ≡ x = cc in (ap (λ y. y ∷ []) same, omega arith)
take-suc (suc n) [] ys x e = absurd (cc)
take-suc (suc n) (z ∷ zs) ys x e =
    let (t, l) = take-suc n zs ys x e in (ap (λ ts. z ∷ ts) t, omega arith)

skip_last : {xs ys : List FlvTag} (t : FlvTag) → Sublistᴰ xs ys → Sublistᴰ xs (ys ++ (t ∷ []))
skip_last t Sublistᴰ.slnil = Sublistᴰ.cons Sublistᴰ.slnil
skip_last t (Sublistᴰ.cons s) = Sublistᴰ.cons (skip_last t s)
skip_last t (Sublistᴰ.cons-cons e s) = Sublistᴰ.cons-cons e (skip_last t s)

keep_last :
    {xs ys : List FlvTag} (t : FlvTag) → Sublistᴰ xs ys → Sublistᴰ (xs ++ (t ∷ [])) (ys ++ (t ∷ []))
keep_last t Sublistᴰ.slnil = Sublistᴰ.cons-cons refl Sublistᴰ.slnil
keep_last t (Sublistᴰ.cons s) = Sublistᴰ.cons (keep_last t s)
keep_last t (Sublistᴰ.cons-cons e s) = Sublistᴰ.cons-cons e (keep_last t s)

abbrev pub sent : Playback → List FlvTag
sent p = (p.stream.channels p.channel).sent

-- What left the buffer or is in it, against what arrived.
pub record InOrder (p : Playback) : Type 0 where
  pub selected : Sublistᴰ (p.buffer.out ++ p.buffer.tags) (take p.received (sent p))
  pub known : p.received ≤ length (sent p)

-- The same, where nothing was dropped.
pub record Lossless (max_size : ℕ) (p : Playback) : Type 0 where
  pub exact : p.buffer.out ++ p.buffer.tags ≡ take p.received (sent p)
  pub balanced : IsBalanced p.buffer
  pub same_max : p.buffer.max_size ≡ max_size

buffer_quiet :
    (mb : MediaBuffer) (e : Buffer.Event)
    → admitted mb e ≡ []
    → (Buffer.step mb e).out ++ (Buffer.step mb e).tags ≡ mb.out ++ mb.tags
buffer_quiet mb e none =
    step_in_order mb e ∙ ap (λ xs. (mb.out ++ mb.tags) ++ xs) none ∙ append-nil (mb.out ++ mb.tags)

-- The tags that have arrived stay the same when more are sent.
pub arrived_before :
    (p : Playback) (e : Stream.Event)
    → p.received ≤ length (sent p)
    → (take p.received (sent (step p (streams e))) ≡ take p.received (sent p))
      × (p.received ≤ length (sent (step p (streams e))))
      × (total (sent p) ≤ total (sent (step p (streams e))))
unfolding step
arrived_before p e h = elim (step-Grows e p.stream p.channel) [
  | grown more e' ↦ (
    ap (take p.received) e' ∙ take-append_left p.received (sent p) more h,
    omega (arith, ap (λ (xs : List FlvTag). length xs) e', length-append (sent p) more),
    omega (arith, ap total e', total-append (sent p) more),
  )
]

-- A tag that arrives at a running buffer.
module _ (p : Playback) (tag : FlvTag) (rest : List FlvTag) (running : p.buffer.stopped ≡ false)
    (next : drop p.received (sent p) ≡ tag ∷ rest) where
  tag-InOrder : InOrder p → InOrder (receive (tag ∷ rest) p)
  unfolding receive
  tag-InOrder o =
      let (more, lt) = take-suc p.received (sent p) rest tag next in
      let moved = step_in_order p.buffer (tag_in tag) in
      elim (Bool-cases (fits p.buffer tag)) [
        | inl e ↦
            let let_in : admitted p.buffer (tag_in tag) ≡ tag ∷ [] = ground arith in
            record { selected = rw (moved, let_in, more) (keep_last tag o.selected); known = lt }
        | inr e ↦
            let left_out : admitted p.buffer (tag_in tag) ≡ [] = ground arith in
            record {
              selected =
                  rw (moved, left_out, append-nil (p.buffer.out ++ p.buffer.tags), more)
                    (skip_last tag o.selected);
              known = lt;
            }
      ]

  tag-Lossless :
      (max_size : ℕ)
      → max_size ≤ 2 ^ 31
      → total (sent p) < max_size
      → Lossless max_size p
      → Lossless max_size (receive (tag ∷ rest) p)
  unfolding receive
  tag-Lossless max_size narrow small l =
      let (more, lt) = take-suc p.received (sent p) rest tag next in
      let moved = step_in_order p.buffer (tag_in tag) in
      let arrived = total-take (suc p.received) (sent p) in
      let sum = ap total more ∙ total-append (take p.received (sent p)) (tag ∷ []) in
      let held = ap total l.exact in
      let held' = total-append p.buffer.out p.buffer.tags in
      let counted = l.balanced.counted in
      let same = l.same_max in
      let room : fits p.buffer tag ≡ true = ground arith in
      let let_in : admitted p.buffer (tag_in tag) ≡ tag ∷ [] = ground arith in
      record {
        exact =
            moved
            ∙ ap (λ xs. (p.buffer.out ++ p.buffer.tags) ++ xs) let_in
            ∙ ap (λ xs. xs ++ (tag ∷ [])) l.exact
            ∙ sym more;
        balanced = step-IsBalanced p.buffer (tag_in tag) (omega arith) l.balanced;
        same_max = step-max_size p.buffer (tag_in tag) ∙ same;
      }

-- A property of both branches of a test.
by_test :
    (P : Playback → Type 0) (b : Bool) (p q : Playback)
    → P p
    → (b ≡ false → P q)
    → P (if b then p else q)
by_test P true p q here there = here
by_test P false p q here there = there refl

receive_cases :
    (P : Playback → Type 0) (p : Playback) (waiting : List FlvTag)
    → drop p.received (sent p) ≡ waiting
    → P p
    → ((tag : FlvTag) (rest : List FlvTag)
        → drop p.received (sent p) ≡ tag ∷ rest
        → P (receive (tag ∷ rest) p))
    → P (record p { buffer = Buffer.step p.buffer closed })
    → P (receive waiting p)
unfolding receive
receive_cases P p (tag ∷ rest) e same tags ends = tags tag rest e
receive_cases P p [] e same tags ends =
    by_test P (p.stream.channels p.channel).closed _ p ends (λ _. same)

-- What can arrive at a buffer: nothing, a tag, or the end.
pub arrives_cases :
    (P : Playback → Type 0) (p : Playback)
    → P p
    → ((tag : FlvTag) (rest : List FlvTag)
        → p.buffer.stopped ≡ false
        → drop p.received (sent p) ≡ tag ∷ rest
        → P (receive (tag ∷ rest) p))
    → P (record p { buffer = Buffer.step p.buffer closed })
    → P (step p arrives)
unfolding step
arrives_cases P p same tags ends =
    let waiting = drop p.received (sent p) in
    by_test P p.buffer.stopped p (receive waiting p) same
      (λ running. receive_cases P p waiting refl same (λ tag rest d. tags tag rest running d) ends)

pub step-InOrder : (p : Playback) (e : Event) → InOrder p → InOrder (step p e)
unfolding step
step-InOrder p (streams e) o =
    let (taken, known, size) = arrived_before p e o.known in
    record {
      selected = subst (Sublistᴰ (p.buffer.out ++ p.buffer.tags)) (sym taken) o.selected;
      known = known;
    }
step-InOrder p arrives o =
    arrives_cases InOrder p o (λ tag rest running d. tag-InOrder p tag rest running d o)
      (record {
        selected =
            subst (λ xs. Sublistᴰ xs (take p.received (sent p)))
              (sym (buffer_quiet p.buffer closed refl)) o.selected;
        known = o.known;
      })
step-InOrder p gets o = record {
  selected =
      subst (λ xs. Sublistᴰ xs (take p.received (sent p))) (sym (buffer_quiet p.buffer wanted refl))
        o.selected;
  known = o.known;
}

quiet-Lossless :
    (max_size : ℕ) (p : Playback) (e : Buffer.Event)
    → admitted p.buffer e ≡ []
    → IsSmall p.buffer.max_size e
    → Lossless max_size p
    → Lossless max_size (record p { buffer = Buffer.step p.buffer e })
quiet-Lossless max_size p e none small l = record {
  exact = buffer_quiet p.buffer e none ∙ l.exact;
  balanced = step-IsBalanced p.buffer e small l.balanced;
  same_max = step-max_size p.buffer e ∙ l.same_max;
}

pub step-Lossless :
    (max_size : ℕ) (p : Playback) (e : Event)
    → max_size ≤ 2 ^ 31
    → total (sent p) < max_size
    → InOrder p
    → Lossless max_size p
    → Lossless max_size (step p e)
unfolding step
step-Lossless max_size p (streams e) narrow small o l =
    let (taken, known, size) = arrived_before p e o.known in
    record { exact = l.exact ∙ sym taken; balanced = l.balanced; same_max = l.same_max }
step-Lossless max_size p arrives narrow small o l =
    arrives_cases (Lossless max_size) p l
      (λ tag rest running d. tag-Lossless p tag rest running d max_size narrow small l)
      (quiet-Lossless max_size p closed refl tt l)
step-Lossless max_size p gets narrow small o l = quiet-Lossless max_size p wanted refl tt l
