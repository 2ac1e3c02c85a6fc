-- ===== src/Loopback/Rounds.antt =====
-- Rounds of the loop of `ReadFrom`: each reads a chunk and looks at the window.
use gortmp.Base.{ℕ, zero, suc, ◌+◌, ◌≡◌, refl, ◌∙◌, List, arith, append-nil}
use gortmp.Base.{Bool, true, false, if◌then◌else◌, leb, length, ◌≤◌, ◌%◌, ◌^◌}
use gortmp.Base.{ap}
use gortmp.Wire.{Source, Error, Outcome, ok, err}
use gortmp.Message.{Message}
use gortmp.Reader.{
  Session, InChunkStream, on_window_full, read_chunk, check_window, read_loop, emit,
}
use gortmp.Reader.Progress.{Progress, moved, over, read_chunk-Progress, window_source}
use gortmp.Reader.Payload.{Reading, messages_of-append}
use gortmp.Loopback.{read_rounds}

pub read_rounds_more :
    (k before : ℕ) (s t u : Session) {b : ℕ}
    → read_chunk s ≡ ok tt t
    → read_rounds k (check_window before t).1 (check_window before t).0 ≡ ok b u
    → read_rounds (suc k) before s ≡ ok b u
unfolding read_rounds
read_rounds_more k before s t u e e' = rw (e, read_rounds) e'

pub read_rounds_one :
    (before : ℕ) (s t : Session)
    → read_chunk s ≡ ok tt t
    → read_rounds 1 before s ≡ ok (check_window before t).1 (check_window before t).0
unfolding read_rounds
read_rounds_one before s t e = rw (e, read_rounds) refl

-- What follows a chunk, by what it returned.
by_chunk :
    {A B : Type 0} (k : Session → A) (l : Session → B) (err_a : Error → Session → A)
    (err_b : Error → Session → B) (P : A → Type 0) (Q : B → Type 0) (o : Outcome Session (Unit {0}))
    → ((e : Error) (t : Session) → P (err_a e t) → Q (err_b e t))
    → ((t : Session) → P (k t) → Q (l t))
    → P (elim o as (λ _. A) [ err e t ↦ err_a e t | ok _ t ↦ k t ])
    → Q (elim o as (λ _. B) [ err e t ↦ err_b e t | ok _ t ↦ l t ])
by_chunk k l err_a err_b P Q (err e t) failed more p = failed e t p
by_chunk k l err_a err_b P Q (ok _ t) failed more p = more t p

-- Rounds of the loop, and then the others.
pub read_loop-rounds :
    (k f before b : ℕ) (s t : Session)
    → read_rounds k before s ≡ ok b t
    → read_loop (k + f) before s ≡ read_loop f b t
unfolding read_rounds read_loop
read_loop-rounds zero f before b s t e =
    let z : 0 + f ≡ f = omega arith in
    let same : before ≡ b = cc in let same' : s ≡ t = cc in rw (z, same, same') refl
read_loop-rounds (suc k) f before b s t e =
    let z : suc k + f ≡ suc (k + f) = omega arith in
    rw z (
      by_chunk _ _ _ _ (λ o. o ≡ ok b t) (λ r. r ≡ read_loop f b t) (read_chunk s)
        (λ x u p. absurd (cc))
        (λ u p. read_loop-rounds k f (check_window before u).1 b (check_window before u).0 t p) e)

pub read_rounds-add :
    (k l before b b' : ℕ) (s t u : Session)
    → read_rounds k before s ≡ ok b t
    → read_rounds l b t ≡ ok b' u
    → read_rounds (k + l) before s ≡ ok b' u
unfolding read_rounds
read_rounds-add zero l before b b' s t u e e' =
    let z : 0 + l ≡ l = omega arith in
    let same : before ≡ b = cc in let same' : s ≡ t = cc in rw (z, same, same') e'
read_rounds-add (suc k) l before b b' s t u e e' =
    let z : suc k + l ≡ suc (k + l) = omega arith in
    rw z (
      by_chunk _ _ _ _ (λ o. o ≡ ok b t) (λ o. o ≡ ok b' u) (read_chunk s) (λ x v p. absurd (cc))
        (λ v p.
          read_rounds-add k l (check_window before v).1 b b' (check_window before v).0 t u p e')
        e)

-- Each round takes a byte at least.
took_one :
    (k before b n size : ℕ) (t : Session) (o : Outcome Session (Unit {0}))
    → Progress 1 n size o
    → ((before' : ℕ) (v : Session)
        → read_rounds k before' v ≡ ok b t
        → k + length t.source.rest ≤ length v.source.rest)
    → elim o as (λ _. Outcome Session ℕ) [
      | err e u ↦ err e u
      | ok _ u ↦ read_rounds k (check_window before u).1 (check_window before u).0
    ]
      ≡ ok b t
    → suc k + length t.source.rest ≤ size
took_one k before b n size t _ (moved u c lt) more e =
    let rest = more (check_window before u).1 (check_window before u).0 e in
    let same : length (check_window before u).0.source.rest ≡ length u.source.rest =
      ap (λ (r : Source). length r.rest) (window_source before u) in
    omega (arith, c, lt)
took_one k before b n size t _ (over x u c lt) more e = absurd (cc)

pub read_rounds-length :
    (k before b : ℕ) (s t : Session)
    → read_rounds k before s ≡ ok b t
    → k + length t.source.rest ≤ length s.source.rest
unfolding read_rounds
read_rounds-length zero before b s t e = let same : s ≡ t = cc in rw same (omega arith)
read_rounds-length (suc k) before b s t e =
    took_one k before b s.source.n (length s.source.rest) t (read_chunk s) (read_chunk-Progress s)
      (λ before' v p. read_rounds-length k before' b v t p) e

window_cases :
    (full : Bool) (n before : ℕ) (s : Session) {size csi : ℕ} {cs : InChunkStream}
    {base : ℕ → InChunkStream} {rest : List ℕ} {messages : List Message}
    → Reading s size csi cs base rest messages
    → let next : Session × ℕ =
        if full then (emit (on_window_full n) s, s.source.n) else (s, before) in
      Reading next.0 size csi cs base rest messages
window_cases true n before s r = record {
  chunked = r.chunked;
  stream = r.stream;
  others = r.others;
  input = r.input;
  calls = messages_of-append s.events (on_window_full n) ∙ append-nil _ ∙ r.calls;
}
window_cases false n before s r = r

-- A full window is a call of the handler and changes nothing else.
pub check_window-Reading :
    (before : ℕ) (s : Session) {size csi : ℕ} {cs : InChunkStream} {base : ℕ → InChunkStream}
    {rest : List ℕ} {messages : List Message}
    → Reading s size csi cs base rest messages
    → Reading (check_window before s).0 size csi cs base rest messages
unfolding check_window
check_window-Reading before s r =
    window_cases (leb (before + s.window_size) s.source.n) (s.source.n % 2 ^ 32) before s r
