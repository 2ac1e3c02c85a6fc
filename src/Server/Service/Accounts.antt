-- ===== src/Server/Service/Accounts.antt =====
-- The counters of the server against its connections.
use gortmp.Base.{ℕ, ◌+◌, ◌%◌, ◌^◌, ◌≡◌, refl, sym, ◌∙◌, ap, arith, subst}
use gortmp.Base.{List, [], ◌∷◌, All, Option, none, some}
use gortmp.Server.Service.{
  Phase, shaking, Move, Effect, nothing, handshake_failed, left, on_close, move, Service,
  new_service, apply, phase_at, set_phase, moved, tick, Event, accepts, moves, takes_in, gives_out,
  ticks, step, run,
}
use gortmp.Server.Service.Lives.{IsPhase, counted, failed_count, reported, Keeps, OnMove}
use gortmp.Server.Service.Moves.{move-Keeps}
use gortmp.Server.Service.Sums.{
  sum_of, times_told, reported_at, sum_of-append, sum_of-set_phase, at-IsPhase, set-IsPhase,
  append-IsPhase, phase_at-append, phase_at-set_phase, times_told-append,
}

-- The bytes that came in and went out.
abbrev pub total_in : List Event → ℕ
total_in [] = 0
total_in (takes_in n ∷ es) = n + total_in es
total_in (e ∷ es) = total_in es

abbrev pub total_out : List Event → ℕ
total_out [] = 0
total_out (gives_out n ∷ es) = n + total_out es
total_out (e ∷ es) = total_out es

pub record IsAccounted (bytes_in bytes_out : ℕ) (s : Service) : Type 0 where
  pub phases : All IsPhase s.phases
  pub connections : s.counters.connections ≡ sum_of counted s.phases % 2 ^ 64
  pub handshake_fails : s.counters.handshake_fails ≡ sum_of failed_count s.phases % 2 ^ 64
  pub told : (i : ℕ) → times_told i s.closes ≡ reported_at (phase_at i s.phases)
  pub received : s.counters.bytes_in ≡ bytes_in % 2 ^ 64
  pub sent : s.counters.bytes_out ≡ bytes_out % 2 ^ 64

-- A move of connection `i` from `p` to `q`.
module _ (bytes_in bytes_out i : ℕ) (p q : Phase) (s : Service)
    (found : phase_at i s.phases ≡ some p) (v : IsAccounted bytes_in bytes_out s) where
  abbrev after : Effect → Service
  after e = apply i e (record s { phases = set_phase i q s.phases })

  same_sum :
      (f : Phase → ℕ)
      → f q ≡ f p
      → sum_of f s.phases % 2 ^ 64 ≡ sum_of f (set_phase i q s.phases) % 2 ^ 64
  same_sum f e = ap (λ n. n % 2 ^ 64) (omega (arith, e, sum_of-set_phase f i p q s.phases found))

  quietly_told :
      reported q ≡ reported p
      → (j : ℕ) → times_told j s.closes ≡ reported_at (phase_at j (set_phase i q s.phases))
  quietly_told e j =
      let known = v.told j in
      let now = phase_at-set_phase i j p q 0 s.phases found (omega (arith, e)) in ground arith

  apply-IsAccounted : (e : Effect) → Keeps p q e → IsAccounted bytes_in bytes_out (after e)
  unfolding apply
  apply-IsAccounted nothing k = record {
    phases = set-IsPhase i q s.phases k.is_phase v.phases;
    connections = v.connections ∙ same_sum counted (omega (arith, k.counts));
    handshake_fails = v.handshake_fails ∙ same_sum failed_count (omega (arith, k.failures));
    told = quietly_told (omega (arith, k.told));
    received = v.received;
    sent = v.sent;
  }
  apply-IsAccounted handshake_failed k = record {
    phases = set-IsPhase i q s.phases k.is_phase v.phases;
    connections = v.connections ∙ same_sum counted (omega (arith, k.counts));
    handshake_fails =
        let sums = sum_of-set_phase failed_count i p q s.phases found in
        let c = k.failures in let known = v.handshake_fails in omega arith;
    told = quietly_told (omega (arith, k.told));
    received = v.received;
    sent = v.sent;
  }
  apply-IsAccounted left k = record {
    phases = set-IsPhase i q s.phases k.is_phase v.phases;
    connections =
        let sums = sum_of-set_phase counted i p q s.phases found in
        let c = k.counts in let known = v.connections in omega arith;
    handshake_fails = v.handshake_fails ∙ same_sum failed_count (omega (arith, k.failures));
    told = quietly_told (omega (arith, k.told));
    received = v.received;
    sent = v.sent;
  }
  apply-IsAccounted (on_close e) k = record {
    phases = set-IsPhase i q s.phases k.is_phase v.phases;
    connections = v.connections ∙ same_sum counted (omega (arith, k.counts));
    handshake_fails = v.handshake_fails ∙ same_sum failed_count (omega (arith, k.failures));
    told = λ j.
        let known = v.told j in
        let now = phase_at-set_phase i j p q 1 s.phases found k.told in
        omega (arith, times_told-append i j e s.closes, known, now);
    received = v.received;
    sent = v.sent;
  }

moved-IsAccounted :
    (bytes_in bytes_out i : ℕ) (p : Phase) (s : Service) (o : Option (Phase × Effect))
    → phase_at i s.phases ≡ some p
    → IsAccounted bytes_in bytes_out s
    → OnMove p o
    → IsAccounted bytes_in bytes_out (moved i o s)
moved-IsAccounted bytes_in bytes_out i p s none found v k = v
moved-IsAccounted bytes_in bytes_out i p s (some (q, e)) found v k =
    apply-IsAccounted bytes_in bytes_out i p q s found v e k

at_phase :
    (bytes_in bytes_out i : ℕ) (m : Move) (s : Service) (o : Option Phase)
    → phase_at i s.phases ≡ o
    → IsAccounted bytes_in bytes_out s
    → IsAccounted bytes_in bytes_out (elim o [ none ↦ s | some p ↦ moved i (move m p) s ])
at_phase bytes_in bytes_out i m s none found v = v
at_phase bytes_in bytes_out i m s (some p) found v =
    moved-IsAccounted bytes_in bytes_out i p s (move m p) found v
      (move-Keeps m p (at-IsPhase i p s.phases found v.phases))

-- A tick changes the rates only.
tick-IsAccounted :
    (bytes_in bytes_out now : ℕ) (last : Option ℕ) (s : Service)
    → IsAccounted bytes_in bytes_out s
    → IsAccounted bytes_in bytes_out (record s { counters = tick now last s.counters })
unfolding tick
tick-IsAccounted bytes_in bytes_out now none s v = record {
  phases = v.phases;
  connections = v.connections;
  handshake_fails = v.handshake_fails;
  told = v.told;
  received = v.received;
  sent = v.sent;
}
tick-IsAccounted bytes_in bytes_out now (some last) s v = record {
  phases = v.phases;
  connections = v.connections;
  handshake_fails = v.handshake_fails;
  told = v.told;
  received = v.received;
  sent = v.sent;
}

same_totals :
    {a a' b b' : ℕ} (s : Service) → a ≡ a' → b ≡ b' → IsAccounted a b s → IsAccounted a' b' s
same_totals {a = a} {a' = a'} {b = b} {b' = b'} s e e' v =
    subst (λ x. IsAccounted a' x s) e' (subst (λ x. IsAccounted x b s) e v)

step-IsAccounted :
    (bytes_in bytes_out : ℕ) (s : Service) (e : Event)
    → IsAccounted bytes_in bytes_out s
    → IsAccounted (bytes_in + total_in (e ∷ [])) (bytes_out + total_out (e ∷ [])) (step s e)
unfolding step
step-IsAccounted bytes_in bytes_out s accepts v =
    let known = v.connections in
    let sums = sum_of-append counted s.phases shaking in
    same_totals (step s accepts) (omega arith) (omega arith) (record {
      phases = append-IsPhase s.phases shaking tt v.phases;
      connections = omega arith;
      handshake_fails =
          v.handshake_fails
          ∙ ap (λ n. n % 2 ^ 64) (omega (arith, sum_of-append failed_count s.phases shaking));
      told = λ i. v.told i ∙ sym (phase_at-append i s.phases);
      received = v.received;
      sent = v.sent;
    })
step-IsAccounted bytes_in bytes_out s (moves i m) v =
    same_totals (step s (moves i m)) (omega arith) (omega arith)
      (at_phase bytes_in bytes_out i m s (phase_at i s.phases) refl v)
step-IsAccounted bytes_in bytes_out s (takes_in n) v =
    let known = v.received in
    record {
      phases = v.phases;
      connections = v.connections;
      handshake_fails = v.handshake_fails;
      told = v.told;
      received = omega arith;
      sent = v.sent ∙ ap (λ b. b % 2 ^ 64) (omega arith);
    }
step-IsAccounted bytes_in bytes_out s (gives_out n) v =
    let known = v.sent in
    record {
      phases = v.phases;
      connections = v.connections;
      handshake_fails = v.handshake_fails;
      told = v.told;
      received = v.received ∙ ap (λ b. b % 2 ^ 64) (omega arith);
      sent = omega arith;
    }
step-IsAccounted bytes_in bytes_out s (ticks now) v =
    same_totals (step s (ticks now)) (omega arith) (omega arith)
      (tick-IsAccounted bytes_in bytes_out now s.counters.last_tick s v)

total-cons :
    (e : Event) (es : List Event)
    → (total_in (e ∷ es) ≡ total_in (e ∷ []) + total_in es)
      × (total_out (e ∷ es) ≡ total_out (e ∷ []) + total_out es)
total-cons accepts es = (omega arith, omega arith)
total-cons (moves i m) es = (omega arith, omega arith)
total-cons (takes_in n) es = (omega arith, omega arith)
total-cons (gives_out n) es = (omega arith, omega arith)
total-cons (ticks now) es = (omega arith, omega arith)

run_from-IsAccounted :
    (es : List Event) (bytes_in bytes_out : ℕ) (s : Service)
    → IsAccounted bytes_in bytes_out s
    → IsAccounted (bytes_in + total_in es) (bytes_out + total_out es) (run s es)
unfolding run
run_from-IsAccounted [] bytes_in bytes_out s v = same_totals s (omega arith) (omega arith) v
run_from-IsAccounted (e ∷ es) bytes_in bytes_out s v =
    let sums = total-cons e es in
    same_totals (run (step s e) es) (omega arith) (omega arith) (
      run_from-IsAccounted es (bytes_in + total_in (e ∷ [])) (bytes_out + total_out (e ∷ []))
        (step s e) (step-IsAccounted bytes_in bytes_out s e v))

-- Of a new server, however accepted connections, the goroutines of each, the bytes that come and go and
-- the ticks interleave: the count of connections is that of the connections that are in the handshake
-- or have not been counted down, and the count of failed handshakes that of those that failed; the
-- handler has been told of the end of a connection once if its waiter has come so far, and else
-- never; a loop has returned exactly if the waiter has heard of it, so both have when the handler
-- is told, and the net connection and the writer are closed from the first one on that the waiter has
-- answered; and the bytes counted are those that came and went. Counts are taken modulo 2 ^ 64.
pub run-IsAccounted :
    (es : List Event) → IsAccounted (total_in es) (total_out es) (run new_service es)
run-IsAccounted es = same_totals (run new_service es) (omega arith) (omega arith) (
    run_from-IsAccounted es 0 0 new_service (record {
      phases = tt;
      connections = refl;
      handshake_fails = refl;
      told = λ i. refl;
      received = refl;
      sent = refl;
    }))
