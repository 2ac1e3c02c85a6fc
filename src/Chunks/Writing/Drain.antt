-- ===== src/Chunks/Writing/Drain.antt =====
-- No call of `Send` is left behind: once the writer is closed, all of them return.
use gortmp.Base.{ℕ, zero, suc, ◌≤◌, ◌≡◌, refl, ap, ◌∙◌, true, false, List, [], ◌∷◌, some}
use gortmp.Base.{if◌then◌else◌, arith, ltb, length}
use gortmp.Wire.{Sink, closed_chunk_stream}
use gortmp.Chunks.Writing.{
  Call, Writing, without, waits, answer, Step, closes, gives_up, returns, Reach, later,
}
use gortmp.Chunks.Writing.Order.{count}
use gortmp.Chunks.Writing.Once.{answered, call_ids, reach-IsOrderly}

length-without : (i : ℕ) (cs : List Call) → length (without i cs) ≤ length cs
unfolding without
length-without i [] = omega arith
length-without i (c ∷ cs) = ground (arith, length-without i cs)

length-without-first : (c : Call) (cs : List Call) → length (without c.id (c ∷ cs)) ≤ length cs
unfolding without
length-without-first c cs = ground (arith, length-without c.id cs)

-- Steps from `t` on, in which nobody calls `Send` anew.
pub data Leads (t : Writing) : Writing → Type 0 where
  here : Leads t t
  further :
      {u u' : Writing} → Leads t u → u.panicked ≡ false → Step u u' → u'.next ≡ u.next → Leads t u'

-- Where the steps from `t` lead: the loop has returned, and each call made until `t` has returned
-- once.
pub record IsDrained (sink : Sink) (t t' : Writing) : Type 0 where
  pub way : Leads t t'
  pub reached : Reach sink t'
  pub returned : t'.returned ≡ true
  pub none_wait : t'.waiting ≡ []
  pub answered_once : (i : ℕ) → count i (answered t'.answers) ≡ (if ltb i t.next then 1 else 0)

first-waits : (c : Call) (cs : List Call) → waits c.id (c ∷ cs) ≡ true
unfolding waits
first-waits c cs = ground arith

next_kept : (t t' : Writing) → Leads t t' → t'.next ≡ t.next
next_kept t _ here = refl
next_kept t t' (further {u} way alive s same) = same ∙ next_kept t u way

drained :
    (sink : Sink) (start t : Writing)
    → Leads start t
    → Reach sink t
    → t.returned ≡ true
    → t.waiting ≡ []
    → IsDrained sink start t
drained sink start t way r over none_left = record {
  way = way;
  reached = r;
  returned = over;
  none_wait = none_left;
  answered_once = λ i.
      let once = (reach-IsOrderly sink t r).once i in
      let zero : count i (call_ids t.waiting) ≡ 0 = rw none_left refl in
      let same = next_kept start t way in ground arith;
}

-- One call after the other gives up.
give_up_all :
    (n : ℕ) (sink : Sink) (start t : Writing) (cs : List Call)
    → t.waiting ≡ cs
    → length cs ≤ n
    → Leads start t
    → Reach sink t
    → t.panicked ≡ false
    → t.closed ≡ true
    → t.returned ≡ true
    → (t' : Writing) × IsDrained sink start t'
unfolding answer
give_up_all n sink start t [] e le way r alive shut over = (t, drained sink start t way r over e)
give_up_all zero sink start t (c ∷ cs) e le way r alive shut over = absurd (omega arith)
give_up_all (suc n) sink start t (c ∷ cs) e le way r alive shut over =
    let w : waits c.id t.waiting ≡ true = rw e (first-waits c cs) in
    let t₁ = answer c.id (some closed_chunk_stream) t in
    give_up_all n sink start t₁ (without c.id (c ∷ cs)) (ap (without c.id) e)
      (let h = length-without-first c cs in omega arith)
      (further way alive (gives_up c.id shut w) refl) (later r alive (gives_up c.id shut w)) alive
      shut over

-- From every state that the loop and its callers come to without a panic, steps lead on in which
-- nobody calls Send anew (Close, the return of the loop, and that the callers that wait give up), to
-- a state where the loop has returned, nobody waits, and each call of Send made so far has returned
-- exactly once.
pub reach-IsDrained :
    (sink : Sink) (t : Writing)
    → Reach sink t
    → t.panicked ≡ false
    → (t' : Writing) × IsDrained sink t t'
reach-IsDrained sink t r alive =
    let t₁ : Writing = record t { closed = true } in
    let t₂ : Writing = record t₁ { returned = true } in
    give_up_all (length t.waiting) sink t t₂ t.waiting refl (omega arith)
      (further (further here alive closes refl) alive (returns refl) refl)
      (later (later r alive closes) alive (returns refl)) alive refl refl
