-- ===== src/Server/Service/Moves.antt =====
-- What each move of a connection's goroutines does.
use gortmp.Base.{◌≡◌, refl, arith, Bool, true, false, Option, none, some}
use gortmp.Wire.{Error}
use gortmp.Server.Service.{
  Loop, runs, offers, returned, Waiter, selects, closes, selects_again, reports, counts_down,
  finished, Life, Phase, shaking, failing, refused, alive, Move, shaken, gives_up, read_ends,
  write_ends, read_stops, write_stops, receives_read, receives_write, continues, nothing, move,
  live, receive_read, receive_write, continue_from,
}
use gortmp.Server.Service.Lives.{IsLife, IsPhase, counted, reported, Keeps, OnMove}

abbrev life : Loop → Loop → Waiter → Bool → Bool → Life
life r w wt n d = record {
  reading = r;
  writing = w;
  waiter = wt;
  net_closed = n;
  writer_closed = d;
}

-- A move inside a connection that the server does not see.
quiet-Keeps :
    (l l' : Life)
    → IsLife l'
    → counted (alive l') ≡ counted (alive l)
    → reported (alive l') ≡ reported (alive l)
    → Keeps (alive l) (alive l') nothing
quiet-Keeps l l' v c t = record {
  is_phase = v;
  counts = omega (arith, c);
  failures = refl;
  told = omega (arith, t);
}

read-Keeps :
    (r w : Loop) (wt : Waiter) (n d : Bool)
    → IsLife (life r w wt n d)
    → OnMove (alive (life r w wt n d)) (move receives_read (alive (life r w wt n d)))
unfolding move live receive_read
read-Keeps runs w wt n d v = tt
read-Keeps returned w wt n d v = tt
read-Keeps (offers e) w selects n d v =
    let loops = v.loops in
    quiet-Keeps _ _ (record { loops = omega arith; net = v.net; writer = v.writer }) refl refl
read-Keeps (offers e) w (closes x) n d v = tt
read-Keeps (offers e) w (selects_again x) n d v =
    let loops = v.loops in
    quiet-Keeps _ _ (record { loops = omega arith; net = v.net; writer = v.writer }) refl refl
read-Keeps (offers e) w (reports x) n d v = tt
read-Keeps (offers e) w counts_down n d v = tt
read-Keeps (offers e) w finished n d v = tt

write-Keeps :
    (r w : Loop) (wt : Waiter) (n d : Bool)
    → IsLife (life r w wt n d)
    → OnMove (alive (life r w wt n d)) (move receives_write (alive (life r w wt n d)))
unfolding move live receive_write
write-Keeps r runs wt n d v = tt
write-Keeps r returned wt n d v = tt
write-Keeps r (offers e) selects n d v =
    let loops = v.loops in
    quiet-Keeps _ _ (record { loops = omega arith; net = v.net; writer = v.writer }) refl refl
write-Keeps r (offers e) (closes x) n d v = tt
write-Keeps r (offers e) (selects_again x) n d v =
    let loops = v.loops in
    quiet-Keeps _ _ (record { loops = omega arith; net = v.net; writer = v.writer }) refl refl
write-Keeps r (offers e) (reports x) n d v = tt
write-Keeps r (offers e) counts_down n d v = tt
write-Keeps r (offers e) finished n d v = tt

continue-Keeps :
    (r w : Loop) (wt : Waiter) (n d : Bool)
    → IsLife (life r w wt n d)
    → OnMove (alive (life r w wt n d)) (move continues (alive (life r w wt n d)))
unfolding move live continue_from
continue-Keeps r w selects n d v = tt
continue-Keeps r w (closes e) n d v = record {
  is_phase = record { loops = v.loops; net = refl; writer = refl };
  counts = refl;
  failures = refl;
  told = refl;
}
continue-Keeps r w (selects_again e) n d v = tt
continue-Keeps r w (reports e) n d v = record {
  is_phase = record { loops = v.loops; net = v.net; writer = v.writer };
  counts = refl;
  failures = refl;
  told = refl;
}
continue-Keeps r w counts_down n d v = record {
  is_phase = record { loops = v.loops; net = v.net; writer = v.writer };
  counts = refl;
  failures = refl;
  told = refl;
}
continue-Keeps r w finished n d v = tt

-- A loop that ends waits for the waiter; nothing else changes.
read_ends-Keeps :
    (e : Option Error) (r w : Loop) (wt : Waiter) (n d : Bool)
    → IsLife (life r w wt n d)
    → OnMove (alive (life r w wt n d)) (move (read_ends e) (alive (life r w wt n d)))
unfolding move live
read_ends-Keeps e runs w wt n d v =
    quiet-Keeps _ _ (record { loops = v.loops; net = v.net; writer = v.writer }) refl refl
read_ends-Keeps e (offers x) w wt n d v = tt
read_ends-Keeps e returned w wt n d v = tt

write_ends-Keeps :
    (e : Option Error) (r w : Loop) (wt : Waiter) (n d : Bool)
    → IsLife (life r w wt n d)
    → OnMove (alive (life r w wt n d)) (move (write_ends e) (alive (life r w wt n d)))
unfolding move live
write_ends-Keeps e r runs wt n d v =
    quiet-Keeps _ _ (record { loops = v.loops; net = v.net; writer = v.writer }) refl refl
write_ends-Keeps e r (offers x) wt n d v = tt
write_ends-Keeps e r returned wt n d v = tt

-- The same where the loop stops, which needs what it uses to be closed.
read_stops-Keeps :
    (e : Option Error) (r w : Loop) (wt : Waiter) (n d : Bool)
    → IsLife (life r w wt n d)
    → OnMove (alive (life r w wt n d)) (move (read_stops e) (alive (life r w wt n d)))
unfolding move live
read_stops-Keeps e r w wt false d v = tt
read_stops-Keeps e runs w wt true d v =
    quiet-Keeps _ _ (record { loops = v.loops; net = v.net; writer = v.writer }) refl refl
read_stops-Keeps e (offers x) w wt true d v = tt
read_stops-Keeps e returned w wt true d v = tt

write_stops-Keeps :
    (e : Option Error) (r w : Loop) (wt : Waiter) (n d : Bool)
    → IsLife (life r w wt n d)
    → OnMove (alive (life r w wt n d)) (move (write_stops e) (alive (life r w wt n d)))
unfolding move live
write_stops-Keeps e r w wt n false v = tt
write_stops-Keeps e r runs wt n true v =
    quiet-Keeps _ _ (record { loops = v.loops; net = v.net; writer = v.writer }) refl refl
write_stops-Keeps e r (offers x) wt n true v = tt
write_stops-Keeps e r returned wt n true v = tt

alive-Keeps : (m : Move) (l : Life) → IsLife l → OnMove (alive l) (move m (alive l))
unfolding move live
alive-Keeps (shaken none) l v = tt
alive-Keeps (shaken (some e)) l v = tt
alive-Keeps gives_up l v = tt
alive-Keeps (read_ends e) l v =
    read_ends-Keeps e l.reading l.writing l.waiter l.net_closed l.writer_closed v
alive-Keeps (write_ends e) l v =
    write_ends-Keeps e l.reading l.writing l.waiter l.net_closed l.writer_closed v
alive-Keeps (read_stops e) l v =
    read_stops-Keeps e l.reading l.writing l.waiter l.net_closed l.writer_closed v
alive-Keeps (write_stops e) l v =
    write_stops-Keeps e l.reading l.writing l.waiter l.net_closed l.writer_closed v
alive-Keeps receives_read l v =
    read-Keeps l.reading l.writing l.waiter l.net_closed l.writer_closed v
alive-Keeps receives_write l v =
    write-Keeps l.reading l.writing l.waiter l.net_closed l.writer_closed v
alive-Keeps continues l v =
    continue-Keeps l.reading l.writing l.waiter l.net_closed l.writer_closed v

pub move-Keeps : (m : Move) (p : Phase) → IsPhase p → OnMove p (move m p)
unfolding move
move-Keeps m (alive l) v = alive-Keeps m l v
move-Keeps (shaken none) shaking v = record {
  is_phase = record { loops = refl; net = refl; writer = refl };
  counts = refl;
  failures = refl;
  told = refl;
}
move-Keeps (shaken (some e)) shaking v = record {
  is_phase = tt;
  counts = refl;
  failures = refl;
  told = refl;
}
move-Keeps gives_up failing v = record {
  is_phase = tt;
  counts = refl;
  failures = refl;
  told = refl;
}
move-Keeps gives_up shaking v = tt
move-Keeps (read_ends e) shaking v = tt
move-Keeps (write_ends e) shaking v = tt
move-Keeps (read_stops e) shaking v = tt
move-Keeps (write_stops e) shaking v = tt
move-Keeps receives_read shaking v = tt
move-Keeps receives_write shaking v = tt
move-Keeps continues shaking v = tt
move-Keeps (shaken none) failing v = tt
move-Keeps (shaken (some e)) failing v = tt
move-Keeps (read_ends e) failing v = tt
move-Keeps (write_ends e) failing v = tt
move-Keeps (read_stops e) failing v = tt
move-Keeps (write_stops e) failing v = tt
move-Keeps receives_read failing v = tt
move-Keeps receives_write failing v = tt
move-Keeps continues failing v = tt
move-Keeps (shaken none) refused v = tt
move-Keeps (shaken (some e)) refused v = tt
move-Keeps gives_up refused v = tt
move-Keeps (read_ends e) refused v = tt
move-Keeps (write_ends e) refused v = tt
move-Keeps (read_stops e) refused v = tt
move-Keeps (write_stops e) refused v = tt
move-Keeps receives_read refused v = tt
move-Keeps receives_write refused v = tt
move-Keeps continues refused v = tt
