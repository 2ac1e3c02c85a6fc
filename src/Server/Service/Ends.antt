-- ===== src/Server/Service/Ends.antt =====
-- No connection is stuck: whatever its goroutines do, it comes to its end.
use gortmp.Base.{ℕ, zero, suc, ◌+◌, ◌≤◌, ◌<◌, ◌≡◌, refl, subst, arith, List, Bool, true, false}
use gortmp.Base.{Option, none, some}
use gortmp.Wire.{Error}
use gortmp.Server.Service.{
  Loop, runs, offers, returned, Waiter, selects, closes, selects_again, reports, counts_down,
  finished, Life, Phase, shaking, failing, refused, alive, Move, shaken, gives_up, read_ends,
  write_ends, read_stops, write_stops, receives_read, receives_write, continues, Effect, move, live,
  receive_read, receive_write, continue_from, Event, phase_at, run, new_service,
}
use gortmp.Server.Service.Sums.{at-IsPhase}
use gortmp.Server.Service.Accounts.{run-IsAccounted}
use gortmp.Server.Service.Lives.{IsPhase, IsLife, OnMove, counted, has_returned}
use gortmp.Server.Service.Moves.{move-Keeps}
use gortmp.Server.Service.Ranks.{rank, Lowers, move-Lowers}

-- What the server's goroutines do by themselves. The end of the handshake and of a loop that nothing
-- has stopped come from the other side.
abbrev pub is_own : Move → Bool
is_own (shaken e) = false
is_own (read_ends e) = false
is_own (write_ends e) = false
is_own _ = true

abbrev pub is_possible : Option (Phase × Effect) → Bool
is_possible none = false
is_possible (some x) = true

-- In the handshake, and as long as both loops run that the waiter selects from.
abbrev pub waits_for_peer : Phase → Bool
waits_for_peer shaking = true
waits_for_peer (alive l) = elim l.waiter [
  | selects ↦ elim l.reading [ runs ↦ (elim l.writing [ runs ↦ true | _ ↦ false ]) | _ ↦ false ]
  | _ ↦ false
]
waits_for_peer _ = false

-- Whichever moves are made, the connection is counted no more at the end; until then the server
-- itself has a move, or it waits for the other side.
pub data Ends : Phase → Type 0 where
  over : {p : Phase} → counted p ≡ 0 → Ends p
  goes_on :
      {p : Phase} (m : Move)
      → is_own m ≡ true
      → is_possible (move m p) ≡ true
      → ((m' : Move) (q : Phase) (e : Effect) → move m' p ≡ some (q, e) → Ends q)
      → Ends p
  waits :
      {p : Phase}
      → waits_for_peer p ≡ true
      → ((m : Move) (q : Phase) (e : Effect) → move m p ≡ some (q, e) → Ends q)
      → Ends p

-- What there is to do now.
data Goes (p : Phase) : Type 0 where
  is_over : counted p ≡ 0 → Goes p
  can : (m : Move) → is_own m ≡ true → is_possible (move m p) ≡ true → Goes p
  must_wait : waits_for_peer p ≡ true → Goes p

abbrev life : Loop → Loop → Waiter → Bool → Bool → Life
life r w wt n d = record {
  reading = r;
  writing = w;
  waiter = wt;
  net_closed = n;
  writer_closed = d;
}

-- At the second select one loop has returned, and the other offers its error or can stop.
again-Goes :
    (r w : Loop) (e : Option Error) (n d : Bool)
    → n ≡ true
    → d ≡ true
    → has_returned r + has_returned w ≡ 1
    → Goes (alive (life r w (selects_again e) n d))
unfolding move live receive_read receive_write
again-Goes returned runs e n d hn hd h = can (write_stops none) refl (rw hd refl)
again-Goes returned (offers x) e n d hn hd h = can receives_write refl refl
again-Goes runs returned e n d hn hd h = can (read_stops none) refl (rw hn refl)
again-Goes (offers x) returned e n d hn hd h = can receives_read refl refl
again-Goes returned returned e n d hn hd h = absurd (omega arith)
again-Goes runs runs e n d hn hd h = absurd (omega arith)
again-Goes runs (offers x) e n d hn hd h = absurd (omega arith)
again-Goes (offers x) runs e n d hn hd h = absurd (omega arith)
again-Goes (offers x) (offers y) e n d hn hd h = absurd (omega arith)

live-Goes :
    (r w : Loop) (wt : Waiter) (n d : Bool)
    → IsLife (life r w wt n d)
    → Goes (alive (life r w wt n d))
unfolding move live receive_read receive_write continue_from
live-Goes (offers x) w selects n d v = can receives_read refl refl
live-Goes runs (offers x) selects n d v = can receives_write refl refl
live-Goes runs runs selects n d v = must_wait refl
live-Goes runs returned selects n d v = let loops = v.loops in absurd (omega arith)
live-Goes returned w selects n d v = let loops = v.loops in absurd (omega arith)
live-Goes r w (closes e) n d v = can continues refl refl
live-Goes r w (selects_again e) n d v = again-Goes r w e n d v.net v.writer v.loops
live-Goes r w (reports e) n d v = can continues refl refl
live-Goes r w counts_down n d v = can continues refl refl
live-Goes r w finished n d v = is_over refl

phase-Goes : (p : Phase) → IsPhase p → Goes p
unfolding move
phase-Goes shaking v = must_wait refl
phase-Goes failing v = can gives_up refl refl
phase-Goes refused v = is_over refl
phase-Goes (alive l) v = live-Goes l.reading l.writing l.waiter l.net_closed l.writer_closed v

-- A move leads to a point of a connection's life that is nearer to the end.
nearer :
    (p : Phase)
    → IsPhase p
    → (m : Move) (q : Phase) (e : Effect) → move m p ≡ some (q, e)
    → IsPhase q × (rank q < rank p)
nearer p v m q e moved =
    ((subst (OnMove p) moved (move-Keeps m p v)).is_phase, subst (Lowers p) moved (move-Lowers m p))

goes-Ends :
    (p : Phase)
    → Goes p
    → ((m : Move) (q : Phase) (e : Effect) → move m p ≡ some (q, e) → Ends q)
    → Ends p
goes-Ends p (is_over h) after = over h
goes-Ends p (can m own h) after = goes_on m own h after
goes-Ends p (must_wait h) after = waits h after

phase-Ends : (n : ℕ) (p : Phase) → IsPhase p → rank p ≤ n → Ends p
phase-Ends zero p v le =
    goes-Ends p (phase-Goes p v)
      λ m q e moved. let near = (nearer p v m q e moved).1 in absurd (omega arith)
phase-Ends (suc n) p v le =
    goes-Ends p (phase-Goes p v) λ m q e moved.
      let (valid, near) = nearer p v m q e moved in phase-Ends n q valid (omega arith)

-- Of a new server, whatever accepted connections, the goroutines of each, bytes and ticks have done:
-- from where a connection is, every sequence of moves comes to an end, and as long as the server
-- counts the connection, either one of its own goroutines has a move that is possible, or the
-- connection waits for the other side, which it does only in the handshake and as long as both of
-- its loops run and the waiter has heard of neither.
pub run-Ends :
    (es : List Event) (i : ℕ) (p : Phase) → phase_at i (run new_service es).phases ≡ some p → Ends p
run-Ends es i p found =
    phase-Ends (rank p) p
      (at-IsPhase i p (run new_service es).phases found (run-IsAccounted es).phases) (omega arith)
