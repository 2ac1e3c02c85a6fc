-- ===== src/Chunks/Writing/Order.antt =====
-- The messages of one queue are written in the order in which they were sent, and each call of `Send`
-- returns once.
use gortmp.Base.{
  ℕ, suc, ◌+◌, ◌≤◌, ◌<◌, ◌≡◌, refl, sym, ap, Bool, true, false, List, [], ◌∷◌, ◌++◌, some, ◌==◌,
}
use gortmp.Base.{if◌then◌else◌, arith, Bool-cases, inl, inr}
use gortmp.Writer.{Priority}
use gortmp.Chunks.Writing.{Call, Op, wrote, created, same_queue, first_of, without, waits}

-- Numbers that rise, from `lo` on and below `hi`.
abbrev pub Rising : ℕ → ℕ → List ℕ → Type 0
Rising lo hi [] = lo ≤ hi
Rising lo hi (x ∷ xs) = (lo ≤ x) × Rising (suc x) hi xs

abbrev pub drop_id : ℕ → List ℕ → List ℕ
drop_id i [] = []
drop_id i (x ∷ xs) = if x == i then drop_id i xs else x ∷ drop_id i xs

abbrev pub count : ℕ → List ℕ → ℕ
count i [] = 0
count i (x ∷ xs) = (if x == i then 1 else 0) + count i xs

-- The calls on a queue that wait, and those that were written.
abbrev pub waiting_on : Priority → List Call → List ℕ
waiting_on q [] = []
waiting_on q (c ∷ cs) = if same_queue q c.queue then c.id ∷ waiting_on q cs else waiting_on q cs

abbrev pub written_on : Priority → List Op → List ℕ
written_on q [] = []
written_on q (wrote c ∷ ops) =
    if same_queue q c.queue then c.id ∷ written_on q ops else written_on q ops
written_on q (created p ∷ ops) = written_on q ops

Rising-lower : (lo lo' hi : ℕ) (xs : List ℕ) → lo ≤ lo' → Rising lo' hi xs → Rising lo hi xs
Rising-lower lo lo' hi [] le r = omega (arith, le, r)
Rising-lower lo lo' hi (x ∷ xs) le r = (let h = r.0 in omega arith, r.1)

Rising-bounds : (lo hi : ℕ) (xs : List ℕ) → Rising lo hi xs → lo ≤ hi
Rising-bounds lo hi [] r = r
Rising-bounds lo hi (x ∷ xs) r =
    let h = r.0 in let k = Rising-bounds (suc x) hi xs r.1 in omega arith

pub Rising-higher : (lo hi : ℕ) (xs : List ℕ) → Rising lo hi xs → Rising lo (suc hi) xs
Rising-higher lo hi [] r = omega (arith, r)
Rising-higher lo hi (x ∷ xs) r = (r.0, Rising-higher (suc x) hi xs r.1)

pub Rising-append-one :
    (lo hi : ℕ) (xs : List ℕ) → Rising lo hi xs → Rising lo (suc hi) (xs ++ (hi ∷ []))
Rising-append-one lo hi [] r = (r, omega arith)
Rising-append-one lo hi (x ∷ xs) r = (r.0, Rising-append-one (suc x) hi xs r.1)

Rising-drop_one :
    (lo x hi : ℕ) (b : Bool) (xs ys : List ℕ)
    → lo ≤ x
    → Rising (suc x) hi ys
    → Rising lo hi (if b then ys else x ∷ ys)
Rising-drop_one lo x hi true xs ys le r = Rising-lower lo (suc x) hi ys (omega (arith, le)) r
Rising-drop_one lo x hi false xs ys le r = (le, r)

Rising-drop_id : (i lo hi : ℕ) (xs : List ℕ) → Rising lo hi xs → Rising lo hi (drop_id i xs)
Rising-drop_id i lo hi [] r = r
Rising-drop_id i lo hi (x ∷ xs) r =
    Rising-drop_one lo x hi (x == i) xs (drop_id i xs) r.0 (Rising-drop_id i (suc x) hi xs r.1)

pub Rising-append-drop_id :
    (i lo hi : ℕ) (ws xs : List ℕ) → Rising lo hi (ws ++ xs) → Rising lo hi (ws ++ drop_id i xs)
Rising-append-drop_id i lo hi [] xs r = Rising-drop_id i lo hi xs r
Rising-append-drop_id i lo hi (w ∷ ws) xs r = (r.0, Rising-append-drop_id i (suc w) hi ws xs r.1)

-- Nothing to drop among later numbers.
pub drop_id-Rising : (i lo hi : ℕ) (xs : List ℕ) → i < lo → Rising lo hi xs → drop_id i xs ≡ xs
drop_id-Rising i lo hi [] lt r = refl
drop_id-Rising i lo hi (x ∷ xs) lt r =
    let h = r.0 in
    let other : (x == i) ≡ false = ground arith in
    rw (other) (ap (λ ys. x ∷ ys) (drop_id-Rising i (suc x) hi xs (omega arith) r.1))

pub Rising-tail :
    (lo hi : ℕ) (ws xs : List ℕ) → Rising lo hi (ws ++ xs) → (lo' : ℕ) × Rising lo' hi xs
Rising-tail lo hi [] xs r = (lo, r)
Rising-tail lo hi (w ∷ ws) xs r = Rising-tail (suc w) hi ws xs r.1

pub waiting_on-without :
    (q : Priority) (i : ℕ) (cs : List Call)
    → waiting_on q (without i cs) ≡ drop_id i (waiting_on q cs)
unfolding without
waiting_on-without q i [] = refl
waiting_on-without q i (c ∷ cs) = ground (arith, waiting_on-without q i cs)

pub waiting_on-append :
    (q : Priority) (c : Call) (cs : List Call)
    → waiting_on q (cs ++ (c ∷ []))
      ≡ waiting_on q cs ++ (if same_queue q c.queue then c.id ∷ [] else [])
waiting_on-append q c [] = ground arith
waiting_on-append q c (d ∷ cs) = ground (arith, waiting_on-append q c cs)

pub written_on-append :
    (q : Priority) (c : Call) (ops : List Op)
    → written_on q (ops ++ (wrote c ∷ []))
      ≡ written_on q ops ++ (if same_queue q c.queue then c.id ∷ [] else [])
written_on-append q c [] = ground arith
written_on-append q c (wrote d ∷ ops) = ground (arith, written_on-append q c ops)
written_on-append q c (created p ∷ ops) = written_on-append q c ops

pub written_on-append-created :
    (q : Priority) (p : ℕ) (ops : List Op)
    → written_on q (ops ++ (created p ∷ [])) ≡ written_on q ops
written_on-append-created q p [] = refl
written_on-append-created q p (wrote d ∷ ops) = ground (arith, written_on-append-created q p ops)
written_on-append-created q p (created p' ∷ ops) = written_on-append-created q p ops

-- The call that is served is the first one that waits on its queue.
pub record IsFirst (q : Priority) (c : Call) (cs : List Call) : Type 0 where
  pub rest : List ℕ
  pub first : waiting_on q cs ≡ c.id ∷ rest
  pub queue : same_queue q c.queue ≡ true
  pub waiting : waits c.id cs ≡ true

here-IsFirst :
    (q : Priority) (c : Call) (cs : List Call) → same_queue q c.queue ≡ true → IsFirst q c (c ∷ cs)
unfolding waits
here-IsFirst q c cs e = record {
  rest = waiting_on q cs;
  first = rw e refl;
  queue = e;
  waiting = ground arith;
}

later-IsFirst :
    (q : Priority) (c d : Call) (cs : List Call)
    → same_queue q d.queue ≡ false
    → IsFirst q c cs
    → IsFirst q c (d ∷ cs)
unfolding waits
later-IsFirst q c d cs e f = record {
  rest = f.rest;
  first = rw e f.first;
  queue = f.queue;
  waiting = ground (arith, f.waiting);
}

some-injective : (c d : Call) → some c ≡ some d → c ≡ d
some-injective c d e = cc

pub first_of-IsFirst :
    (q : Priority) (c : Call) (cs : List Call) → first_of q cs ≡ some c → IsFirst q c cs
unfolding first_of
first_of-IsFirst q c [] e = absurd (cc)
first_of-IsFirst q c (d ∷ cs) e =
    let next = first_of-IsFirst q c cs in
    elim (Bool-cases (same_queue q d.queue)) [
      | inl y ↦
          let same : d ≡ c = some-injective d c (ground arith) in
          rw (sym same) (here-IsFirst q d cs y)
      | inr n ↦ later-IsFirst q c d cs n (next (ground arith))
    ]
