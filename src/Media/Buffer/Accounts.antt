-- ===== src/Media/Buffer/Accounts.antt =====
-- The size that the buffer keeps is that of its tags, and tags leave in the order they came.
use gortmp.Base.{ℕ, ◌+◌, ◌^◌, ◌≤◌, ◌<◌, ◌≡◌, refl, sym, ap, ◌∙◌, List, [], ◌∷◌, ◌++◌, arith}
use gortmp.Base.{Bool, All, append_assoc, append-nil, true, false, if◌then◌else◌}
use gortmp.Media.{FlvTag}
use gortmp.Media.Buffer.{
  MediaBuffer, Event, tag_in, closed, wanted, fits, push, step, run, send_front,
}

abbrev pub total : List FlvTag → ℕ
total [] = 0
total (t ∷ ts) = t.size + total ts

pub total-append : (ts us : List FlvTag) → total (ts ++ us) ≡ total ts + total us
total-append [] us = omega arith
total-append (t ∷ ts) us = omega (arith, total-append ts us)

-- The buffer holds no more than its maximum, and knows how much.
pub record IsBalanced (mb : MediaBuffer) : Type 0 where
  pub counted : mb.size ≡ total mb.tags
  pub bounded : mb.size ≤ mb.max_size
  pub narrow : mb.max_size < 2 ^ 32

-- A tag whose size cannot make the sum wrap.
abbrev pub IsSmall : ℕ → Event → Type 0
IsSmall max_size (tag_in tag) = tag.size + max_size < 2 ^ 32
IsSmall max_size closed = Unit {0}
IsSmall max_size wanted = Unit {0}

sent-IsBalanced :
    (mb : MediaBuffer) (ts : List FlvTag)
    → mb.tags ≡ ts
    → IsBalanced mb
    → IsBalanced (send_front mb ts)
sent-IsBalanced mb [] e b = b
sent-IsBalanced mb (t ∷ ts) e b =
    let counted : mb.size ≡ t.size + total ts = b.counted ∙ ap total e in
    record {
      counted = omega (arith, b.bounded, b.narrow);
      bounded = omega (arith, b.bounded, b.narrow);
      narrow = b.narrow;
    }

pushed-IsBalanced :
    (mb : MediaBuffer) (tag : FlvTag)
    → tag.size + mb.max_size < 2 ^ 32
    → IsBalanced mb
    → IsBalanced (push mb tag)
unfolding push
pushed-IsBalanced mb tag h b = ground (arith, total-append mb.tags (tag ∷ []))

pub step-max_size : (mb : MediaBuffer) (e : Event) → (step mb e).max_size ≡ mb.max_size
unfolding step
step-max_size mb (tag_in tag) = ground arith
step-max_size mb closed = ground arith
step-max_size mb wanted = ground arith

-- A stopped loop does nothing.
unless {ℓ} :
    (P : MediaBuffer → Type ℓ) (b : Bool) (mb mb' : MediaBuffer)
    → P mb
    → P mb'
    → P (if b then mb else mb')
unless P true mb mb' p p' = p
unless P false mb mb' p p' = p'

pub step-IsBalanced :
    (mb : MediaBuffer) (e : Event) → IsSmall mb.max_size e → IsBalanced mb → IsBalanced (step mb e)
unfolding step
step-IsBalanced mb (tag_in tag) h b =
    unless IsBalanced mb.stopped mb (push mb tag) b (pushed-IsBalanced mb tag h b)
step-IsBalanced mb closed h b =
    unless IsBalanced mb.stopped mb (record mb { stopped = true }) b
      (record { counted = b.counted; bounded = b.bounded; narrow = b.narrow })
step-IsBalanced mb wanted h b =
    unless IsBalanced mb.stopped mb (send_front mb mb.tags) b (sent-IsBalanced mb mb.tags refl b)

-- Whatever comes in and is asked for, in any order: from a balanced buffer, if no tag's size can make
-- the sum wrap, the size stays the sum of the sizes of the tags held, and at most the maximum.
pub run-IsBalanced :
    (mb : MediaBuffer) (es : List Event)
    → All (IsSmall mb.max_size) es
    → IsBalanced mb
    → IsBalanced (run mb es)
unfolding run
run-IsBalanced mb [] h b = b
run-IsBalanced mb (e ∷ es) h b =
    run-IsBalanced (step mb e) es (rw (step-max_size mb e) h.1) (step-IsBalanced mb e h.0 b)

-- The tags that the buffer lets in: those that fit when they come, while the loop runs.
abbrev pub admitted : MediaBuffer → Event → List FlvTag
admitted mb (tag_in tag) = if mb.stopped then [] else (if fits mb tag then tag ∷ [] else [])
admitted mb closed = []
admitted mb wanted = []

abbrev all_admitted : MediaBuffer → List Event → List FlvTag
all_admitted mb [] = []
all_admitted mb (e ∷ es) = admitted mb e ++ all_admitted (step mb e) es

sent_in_order :
    (mb : MediaBuffer) (ts : List FlvTag)
    → mb.tags ≡ ts
    → (send_front mb ts).out ++ (send_front mb ts).tags ≡ mb.out ++ mb.tags
sent_in_order mb [] e = refl
sent_in_order mb (t ∷ ts) e = append_assoc mb.out (t ∷ []) ts ∙ ap (λ xs. mb.out ++ xs) (sym e)

pub step_in_order :
    (mb : MediaBuffer) (e : Event)
    → (step mb e).out ++ (step mb e).tags ≡ (mb.out ++ mb.tags) ++ admitted mb e
unfolding step
step_in_order mb (tag_in tag) =
    ground (arith, append-nil (mb.out ++ mb.tags), append_assoc mb.out mb.tags (tag ∷ []))
step_in_order mb closed = ground (arith, append-nil (mb.out ++ mb.tags))
step_in_order mb wanted = rw (append-nil (mb.out ++ mb.tags)) (
    unless (λ m. m.out ++ m.tags ≡ mb.out ++ mb.tags) mb.stopped mb (send_front mb mb.tags) refl
      (sent_in_order mb mb.tags refl))

-- For every buffer and sequence of events: the tags sent, followed by those still held, are those of
-- the start followed by the tags let in, in the order they came. None is lost, repeated or overtaken.
run_in_order :
    (mb : MediaBuffer) (es : List Event)
    → (run mb es).out ++ (run mb es).tags ≡ (mb.out ++ mb.tags) ++ all_admitted mb es
unfolding run
run_in_order mb [] = sym (append-nil (mb.out ++ mb.tags))
run_in_order mb (e ∷ es) =
    run_in_order (step mb e) es
    ∙ rw (
      step_in_order mb e,
      append_assoc (mb.out ++ mb.tags) (admitted mb e) (all_admitted (step mb e) es),
    )
