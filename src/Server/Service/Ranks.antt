-- ===== src/Server/Service/Ranks.antt =====
-- How far a connection is from its end: every move brings it nearer.
use gortmp.Base.{ℕ, ◌+◌, ◌<◌, arith, Bool, true, false, Option, none, some}
use gortmp.Wire.{Error}
use gortmp.Server.Service.{
  Loop, runs, offers, returned, Waiter, selects, closes, selects_again, reports, counts_down,
  finished, Life, Phase, shaking, failing, refused, alive, Move, shaken, gives_up, read_ends,
  write_ends, read_stops, write_stops, receives_read, receives_write, continues, Effect, move, live,
  receive_read, receive_write, continue_from,
}

abbrev loop_rank : Loop → ℕ
loop_rank runs = 2
loop_rank (offers e) = 1
loop_rank returned = 0

abbrev waiter_rank : Waiter → ℕ
waiter_rank selects = 5
waiter_rank (closes e) = 4
waiter_rank (selects_again e) = 3
waiter_rank (reports e) = 2
waiter_rank counts_down = 1
waiter_rank finished = 0

abbrev pub rank : Phase → ℕ
rank shaking = 10
rank failing = 1
rank refused = 0
rank (alive l) = loop_rank l.reading + loop_rank l.writing + waiter_rank l.waiter

abbrev pub Lowers : Phase → Option (Phase × Effect) → Type 0
Lowers p none = Unit {0}
Lowers p (some (q, e)) = rank q < rank p

abbrev life : Loop → Loop → Waiter → Bool → Bool → Life
life r w wt n d = record {
  reading = r;
  writing = w;
  waiter = wt;
  net_closed = n;
  writer_closed = d;
}

read-Lowers :
    (r w : Loop) (wt : Waiter) (n d : Bool)
    → Lowers (alive (life r w wt n d)) (move receives_read (alive (life r w wt n d)))
unfolding move live receive_read
read-Lowers runs w wt n d = tt
read-Lowers returned w wt n d = tt
read-Lowers (offers e) w selects n d = omega arith
read-Lowers (offers e) w (closes x) n d = tt
read-Lowers (offers e) w (selects_again x) n d = omega arith
read-Lowers (offers e) w (reports x) n d = tt
read-Lowers (offers e) w counts_down n d = tt
read-Lowers (offers e) w finished n d = tt

write-Lowers :
    (r w : Loop) (wt : Waiter) (n d : Bool)
    → Lowers (alive (life r w wt n d)) (move receives_write (alive (life r w wt n d)))
unfolding move live receive_write
write-Lowers r runs wt n d = tt
write-Lowers r returned wt n d = tt
write-Lowers r (offers e) selects n d = omega arith
write-Lowers r (offers e) (closes x) n d = tt
write-Lowers r (offers e) (selects_again x) n d = omega arith
write-Lowers r (offers e) (reports x) n d = tt
write-Lowers r (offers e) counts_down n d = tt
write-Lowers r (offers e) finished n d = tt

continue-Lowers :
    (r w : Loop) (wt : Waiter) (n d : Bool)
    → Lowers (alive (life r w wt n d)) (move continues (alive (life r w wt n d)))
unfolding move live continue_from
continue-Lowers r w selects n d = tt
continue-Lowers r w (closes e) n d = omega arith
continue-Lowers r w (selects_again e) n d = tt
continue-Lowers r w (reports e) n d = omega arith
continue-Lowers r w counts_down n d = omega arith
continue-Lowers r w finished n d = tt

-- A loop that ends, by itself or because of what is closed.
ends-Lowers :
    (e : Option Error) (r w : Loop) (wt : Waiter) (n d : Bool)
    → let l : Life = life r w wt n d in
      Lowers (alive l) (move (read_ends e) (alive l))
      × Lowers (alive l) (move (write_ends e) (alive l))
unfolding move live
ends-Lowers e runs runs wt n d = (omega arith, omega arith)
ends-Lowers e runs (offers x) wt n d = (omega arith, tt)
ends-Lowers e runs returned wt n d = (omega arith, tt)
ends-Lowers e (offers y) runs wt n d = (tt, omega arith)
ends-Lowers e (offers y) (offers x) wt n d = (tt, tt)
ends-Lowers e (offers y) returned wt n d = (tt, tt)
ends-Lowers e returned runs wt n d = (tt, omega arith)
ends-Lowers e returned (offers x) wt n d = (tt, tt)
ends-Lowers e returned returned wt n d = (tt, tt)

read_stops-Lowers :
    (e : Option Error) (r w : Loop) (wt : Waiter) (n d : Bool)
    → Lowers (alive (life r w wt n d)) (move (read_stops e) (alive (life r w wt n d)))
unfolding move live
read_stops-Lowers e r w wt false d = tt
read_stops-Lowers e r w wt true d = (ends-Lowers e r w wt true d).0

write_stops-Lowers :
    (e : Option Error) (r w : Loop) (wt : Waiter) (n d : Bool)
    → Lowers (alive (life r w wt n d)) (move (write_stops e) (alive (life r w wt n d)))
unfolding move live
write_stops-Lowers e r w wt n false = tt
write_stops-Lowers e r w wt n true = (ends-Lowers e r w wt n true).1

alive-Lowers : (m : Move) (l : Life) → Lowers (alive l) (move m (alive l))
unfolding move live
alive-Lowers (shaken none) l = tt
alive-Lowers (shaken (some e)) l = tt
alive-Lowers gives_up l = tt
alive-Lowers (read_ends e) l =
    (ends-Lowers e l.reading l.writing l.waiter l.net_closed l.writer_closed).0
alive-Lowers (write_ends e) l =
    (ends-Lowers e l.reading l.writing l.waiter l.net_closed l.writer_closed).1
alive-Lowers (read_stops e) l =
    read_stops-Lowers e l.reading l.writing l.waiter l.net_closed l.writer_closed
alive-Lowers (write_stops e) l =
    write_stops-Lowers e l.reading l.writing l.waiter l.net_closed l.writer_closed
alive-Lowers receives_read l = read-Lowers l.reading l.writing l.waiter l.net_closed l.writer_closed
alive-Lowers receives_write l =
    write-Lowers l.reading l.writing l.waiter l.net_closed l.writer_closed
alive-Lowers continues l = continue-Lowers l.reading l.writing l.waiter l.net_closed l.writer_closed

pub move-Lowers : (m : Move) (p : Phase) → Lowers p (move m p)
unfolding move
move-Lowers m (alive l) = alive-Lowers m l
move-Lowers (shaken none) shaking = omega arith
move-Lowers (shaken (some e)) shaking = omega arith
move-Lowers gives_up failing = omega arith
move-Lowers gives_up shaking = tt
move-Lowers (read_ends e) shaking = tt
move-Lowers (write_ends e) shaking = tt
move-Lowers (read_stops e) shaking = tt
move-Lowers (write_stops e) shaking = tt
move-Lowers receives_read shaking = tt
move-Lowers receives_write shaking = tt
move-Lowers continues shaking = tt
move-Lowers (shaken none) failing = tt
move-Lowers (shaken (some e)) failing = tt
move-Lowers (read_ends e) failing = tt
move-Lowers (write_ends e) failing = tt
move-Lowers (read_stops e) failing = tt
move-Lowers (write_stops e) failing = tt
move-Lowers receives_read failing = tt
move-Lowers receives_write failing = tt
move-Lowers continues failing = tt
move-Lowers (shaken none) refused = tt
move-Lowers (shaken (some e)) refused = tt
move-Lowers gives_up refused = tt
move-Lowers (read_ends e) refused = tt
move-Lowers (write_ends e) refused = tt
move-Lowers (read_stops e) refused = tt
move-Lowers (write_stops e) refused = tt
move-Lowers receives_read refused = tt
move-Lowers receives_write refused = tt
move-Lowers continues refused = tt
