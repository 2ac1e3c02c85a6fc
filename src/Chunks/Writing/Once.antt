-- ===== src/Chunks/Writing/Once.antt =====
-- In every state that the writing loop comes to: order, and one return for each call.
use gortmp.Base.{
  ℕ, suc, ◌+◌, ◌<◌, ◌≡◌, sym, Bool, true, false, List, [], ◌∷◌, ◌++◌, Option, none, some, ◌==◌,
}
use gortmp.Base.{if◌then◌else◌, arith, ltb, append_assoc, append-nil, Bool-cases, inl, inr}
use gortmp.Wire.{Sink, Outcome, Error, invalid_chunk_stream_id}
use gortmp.Message.{Message}
use gortmp.Writer.{Priority, OutChunkStream}
use gortmp.Chunks.{Sender}
use gortmp.Chunks.Writing.{
  Call, wrote, Writing, start, same_queue, without, waits, answer, enter, call, create, finish,
  write_on, write, error_of, Step, calls, creates, writes, closes, gives_up, returns, Reach,
  started, later,
}
use gortmp.Chunks.Writing.Order.{
  Rising, Rising-higher, Rising-append-one, Rising-append-drop_id, Rising-tail, drop_id,
  drop_id-Rising, count, waiting_on, written_on, waiting_on-without, waiting_on-append,
  written_on-append, written_on-append-created, IsFirst, first_of-IsFirst,
}

abbrev pub answered : List (ℕ × Option Error) → List ℕ
answered [] = []
answered ((i, e) ∷ rs) = i ∷ answered rs

abbrev pub call_ids : List Call → List ℕ
call_ids [] = []
call_ids (c ∷ cs) = c.id ∷ call_ids cs

count-answered :
    (i j : ℕ) (e : Option Error) (rs : List (ℕ × Option Error))
    → count i (answered (rs ++ ((j, e) ∷ []))) ≡ count i (answered rs) + (if j == i then 1 else 0)
count-answered i j e [] = ground arith
count-answered i j e ((k, e') ∷ rs) = ground (arith, count-answered i j e rs)

count-call_ids :
    (i : ℕ) (c : Call) (cs : List Call)
    → count i (call_ids (cs ++ (c ∷ []))) ≡ count i (call_ids cs) + (if c.id == i then 1 else 0)
count-call_ids i c [] = ground arith
count-call_ids i c (d ∷ cs) = ground (arith, count-call_ids i c cs)

count-without :
    (i j : ℕ) (cs : List Call)
    → count i (call_ids (without j cs)) ≡ (if j == i then 0 else count i (call_ids cs))
unfolding without
count-without i j [] = ground arith
count-without i j (d ∷ cs) = ground (arith, count-without i j cs)

count-waits : (j : ℕ) (cs : List Call) → waits j cs ≡ true → 0 < count j (call_ids cs)
unfolding waits
count-waits j [] w = absurd (cc)
count-waits j (d ∷ cs) w = ground (arith, count-waits j cs)

-- The messages of one queue, those that were written and then those that wait, have the numbers of
-- their calls in rising order; each call so far either waits or has returned once.
pub record IsOrderly (t : Writing) : Type 0 where
  pub rising : (q : Priority) → Rising 0 t.next (written_on q t.log ++ waiting_on q t.waiting)
  pub once :
      (i : ℕ)
      → count i (answered t.answers) + count i (call_ids t.waiting)
        ≡ (if ltb i t.next then 1 else 0)

start-IsOrderly : (sink : Sink) → IsOrderly (start sink)
start-IsOrderly sink = record { rising = λ q. omega arith; once = λ i. ground arith }

one-answer :
    (t : Writing) (i j : ℕ) (e : Option Error)
    → IsOrderly t
    → waits j t.waiting ≡ true
    → count i (answered (t.answers ++ ((j, e) ∷ []))) + count i (call_ids (without j t.waiting))
      ≡ (if ltb i t.next then 1 else 0)
one-answer t i j e o w = ground (
  arith,
  count-answered i j e t.answers,
  count-without i j t.waiting,
  o.once i,
  o.once j,
  count-waits j t.waiting w,
)

answer-IsOrderly :
    (t : Writing) (i : ℕ) (e : Option Error)
    → IsOrderly t
    → waits i t.waiting ≡ true
    → IsOrderly (answer i e t)
unfolding answer
answer-IsOrderly t i e o w = record {
  rising = λ q.
      rw (waiting_on-without q i t.waiting) (
        Rising-append-drop_id i 0 t.next (written_on q t.log) (waiting_on q t.waiting)
          (o.rising q));
  once = λ j. one-answer t j i e o w;
}

waiting_more :
    (b : Bool) (n i : ℕ) (ws xs : List ℕ)
    → Rising 0 n (ws ++ xs)
    → Rising 0 (suc n) (ws ++ (xs ++ (if b then n ∷ [] else [])))
waiting_more true n i ws xs r =
    rw (sym (append_assoc ws xs (n ∷ []))) (Rising-append-one 0 n (ws ++ xs) r)
waiting_more false n i ws xs r = rw (append-nil xs) (Rising-higher 0 n (ws ++ xs) r)

enter-IsOrderly :
    (msg : Message) (x : Option OutChunkStream) (t : Writing)
    → IsOrderly t
    → IsOrderly (enter msg x t)
unfolding enter
enter-IsOrderly msg none t o = record {
  rising = λ q. Rising-higher 0 t.next _ (o.rising q);
  once = λ i.
      ground (arith, count-answered i t.next (some invalid_chunk_stream_id) t.answers, o.once i);
}
enter-IsOrderly msg (some cs) t o = record {
  rising = λ q.
      rw
        (waiting_on-append q (record { id = t.next; queue = cs.message_queue; message = msg })
          t.waiting)
        (waiting_more (same_queue q cs.message_queue) t.next t.next (written_on q t.log)
          (waiting_on q t.waiting) (o.rising q));
  once = λ i. ground (
    arith,
    count-call_ids i (record { id = t.next; queue = cs.message_queue; message = msg }) t.waiting,
    o.once i,
  );
}

same_queue-path : (q q' r : Priority) → same_queue q r ≡ true → same_queue q' r ≡ true → q ≡ q'
same_queue-path q q' r e e' = ground arith

-- The first call of a queue goes from those that wait to those that were written.
written_next :
    (i n : ℕ) (ws xs rest : List ℕ)
    → xs ≡ i ∷ rest
    → Rising 0 n (ws ++ xs)
    → Rising 0 n ((ws ++ (i ∷ [])) ++ drop_id i xs)
written_next i n ws xs rest e r =
    let r' : Rising 0 n (ws ++ (i ∷ rest)) = rw (sym e) r in
    let (lo, t) = Rising-tail 0 n ws (i ∷ rest) r' in
    let gone : drop_id i xs ≡ rest =
      rw e (ground (arith, drop_id-Rising i (suc i) n rest (omega arith) t.1)) in
    rw (gone, append_assoc ws (i ∷ []) rest) r'

finish-Rising :
    (q q' : Priority) (c : Call) (t : Writing)
    → IsOrderly t
    → IsFirst q c t.waiting
    → Rising 0 t.next
        (written_on q' (t.log ++ (wrote c ∷ [])) ++ waiting_on q' (without c.id t.waiting))
finish-Rising q q' c t o f =
    rw (written_on-append q' c t.log, waiting_on-without q' c.id t.waiting)
      (elim (Bool-cases (same_queue q' c.queue)) [
        | inl y ↦
            let same : q' ≡ q = same_queue-path q' q c.queue y f.queue in
            let first : waiting_on q' t.waiting ≡ c.id ∷ f.rest = rw same f.first in
            rw y (
              written_next c.id t.next (written_on q' t.log) (waiting_on q' t.waiting) f.rest first
                (o.rising q'))
        | inr n ↦
            rw (n, append-nil (written_on q' t.log))
              (Rising-append-drop_id c.id 0 t.next (written_on q' t.log) (waiting_on q' t.waiting)
                (o.rising q'))
      ])

finish-IsOrderly :
    (q : Priority) (c : Call) (r : Outcome Sender (Unit {0})) (t : Writing)
    → IsOrderly t
    → IsFirst q c t.waiting
    → IsOrderly (finish c r t)
unfolding finish answer
finish-IsOrderly q c r t o f = record {
  rising = λ q'. finish-Rising q q' c t o f;
  once = λ i. one-answer t i c.id (error_of r) o f.waiting;
}

write_on-IsOrderly :
    (q : Priority) (c : Call) (x : Option OutChunkStream) (t : Writing)
    → IsOrderly t
    → IsFirst q c t.waiting
    → IsOrderly (write_on c x t)
unfolding write_on
write_on-IsOrderly q c none t o f = o
write_on-IsOrderly q c (some cs) t o f = finish-IsOrderly q c _ t o f

Step-IsOrderly : (t t' : Writing) → IsOrderly t → Step t t' → IsOrderly t'
unfolding call create write
Step-IsOrderly t _ o (calls msg) =
    enter-IsOrderly msg (t.writer.chunk_streams msg.chunk_stream_id) t o
Step-IsOrderly t _ o (creates p) = record {
  rising = λ q. rw (written_on-append-created q p t.log) (o.rising q);
  once = o.once;
}
Step-IsOrderly t _ o (writes q c run e) =
    write_on-IsOrderly q c (t.writer.chunk_streams c.message.chunk_stream_id) t o
      (first_of-IsFirst q c t.waiting e)
Step-IsOrderly t _ o closes = record { rising = o.rising; once = o.once }
Step-IsOrderly t _ o (gives_up i shut w) = answer-IsOrderly t i _ o w
Step-IsOrderly t _ o (returns shut) = record { rising = o.rising; once = o.once }

-- However calls of Send, CreateChunkStream and Close and the rounds of WriteTo interleave, from a
-- new writer on: the messages of one queue are written in the order in which Send was called, and
-- those that still wait were sent later; and each call of Send either waits or has returned exactly
-- once.
pub reach-IsOrderly : (sink : Sink) (t : Writing) → Reach sink t → IsOrderly t
reach-IsOrderly sink _ started = start-IsOrderly sink
reach-IsOrderly sink t' (later {t} r alive s) = Step-IsOrderly t t' (reach-IsOrderly sink t r) s
