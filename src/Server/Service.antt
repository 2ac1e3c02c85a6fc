-- ===== src/Server/Service.antt =====
-- The life of the connections of a server: `server.handle` with the handshake, the three goroutines of
-- `NewConn`, and the counters of the server.
--
-- Connections are numbered in the order in which they are accepted. Each move of a goroutine is one
-- event; events of different goroutines come in any order. A move that is not possible, such as to
-- receive what nobody sends, changes nothing. What the connections do in between is in the other modules
-- of Server. The counters are int64, kept as their 64 bits; the two reads of a counter in a tick are
-- taken as one, and a rate is kept as what it is the quotient of.
pub mod Lives
pub mod Moves
pub mod Sums
pub mod Accounts
pub mod Ranks
pub mod Ends
use gortmp.Base.{
  ℕ, zero, suc, ◌+◌, ◌%◌, ◌^◌, List, [], ◌∷◌, ◌++◌, if◌then◌else◌, Bool, true, false, Option, none,
  some,
}
use gortmp.Wire.{Error}
use gortmp.Handshake.Exchange.{HandshakeError}
use gortmp.Media.Stream.{Span, add64, sub64}

-- `readFrom` or `writeTo`: it runs, waits to send its error on its channel, or has returned.
pub data Loop : Type 0 where
  runs : Loop
  offers : Option Error → Loop
  returned : Loop

-- Where `waitClose` is, with the error that it received first.
pub data Waiter : Type 0 where
  selects : Waiter
  closes : Option Error → Waiter
  selects_again : Option Error → Waiter
  reports : Option Error → Waiter
  counts_down : Waiter
  finished : Waiter

-- The connection that `NewConn` makes; whether its net connection and its writer are closed.
pub record Life : Type 0 where
  pub reading : Loop
  pub writing : Loop
  pub waiter : Waiter
  pub net_closed : Bool
  pub writer_closed : Bool

abbrev pub new_life : Life
new_life = record {
  reading = runs;
  writing = runs;
  waiter = selects;
  net_closed = false;
  writer_closed = false;
}

-- `server.handle`: in the handshake, behind a failed one, at the end of that, or with a connection.
pub data Phase : Type 0 where
  shaking : Phase
  failing : Phase
  refused : Phase
  alive : Life → Phase

-- A loop ends because of what the other side does or of an error (`read_ends`, `write_ends`), or it
-- stops because of what is closed: the next `Read` of a closed net connection returns an error, and
-- with it `ReadFrom`; a closed writer lets `WriteTo` return.
pub data Move : Type 0 where
  shaken : Option HandshakeError → Move
  gives_up : Move
  read_ends : Option Error → Move
  write_ends : Option Error → Move
  read_stops : Option Error → Move
  write_stops : Option Error → Move
  receives_read : Move
  receives_write : Move
  continues : Move

-- What a move does to the server.
pub data Effect : Type 0 where
  nothing : Effect
  handshake_failed : Effect
  left : Effect
  on_close : Option Error → Effect

-- The waiter has received an error from one of the two loops.
abbrev received : Option Error → Waiter → Option Waiter
received e selects = some (closes e)
received e (selects_again first) = some (reports first)
received e _ = none

-- `select` with what the loops offer; a channel from which nothing comes is not chosen.
unfoldable pub receive_read : Loop → Life → Option Life
receive_read (offers e) l = elim (received e l.waiter) [
  | none ↦ none
  | some w ↦ some (record l { reading = returned; waiter = w })
]
receive_read _ l = none

unfoldable pub receive_write : Loop → Life → Option Life
receive_write (offers e) l = elim (received e l.waiter) [
  | none ↦ none
  | some w ↦ some (record l { writing = returned; waiter = w })
]
receive_write _ l = none

-- The waiter between its selects: it closes the connection; behind the second, the streams are
-- destroyed and `OnClose` tells the handler, and then the server counts down.
unfoldable pub continue_from : Waiter → Life → Option (Life × Effect)
continue_from (closes e) l =
    some (record l { waiter = selects_again e; net_closed = true; writer_closed = true }, nothing)
continue_from (reports e) l = some (record l { waiter = counts_down }, on_close e)
continue_from counts_down l = some (record l { waiter = finished }, left)
continue_from _ l = none

abbrev end_loop : Option Error → Loop → Option Loop
end_loop e runs = some (offers e)
end_loop e _ = none

abbrev end_reading : Option Error → Life → Option (Life × Effect)
end_reading e l = elim (end_loop e l.reading) [
  | none ↦ none
  | some r ↦ some (record l { reading = r }, nothing)
]

abbrev end_writing : Option Error → Life → Option (Life × Effect)
end_writing e l = elim (end_loop e l.writing) [
  | none ↦ none
  | some w ↦ some (record l { writing = w }, nothing)
]

abbrev quietly : Option Life → Option (Life × Effect)
quietly none = none
quietly (some l) = some (l, nothing)

unfoldable pub live : Move → Life → Option (Life × Effect)
live (read_ends e) l = end_reading e l
live (write_ends e) l = end_writing e l
live (read_stops e) l = if l.net_closed then end_reading e l else none
live (write_stops e) l = if l.writer_closed then end_writing e l else none
live receives_read l = quietly (receive_read l.reading l)
live receives_write l = quietly (receive_write l.writing l)
live continues l = continue_from l.waiter l
live _ l = none

abbrev alive_again : Option (Life × Effect) → Option (Phase × Effect)
alive_again none = none
alive_again (some (l, e)) = some (alive l, e)

-- A failed handshake is counted, and then the connection is counted down.
unfoldable pub move : Move → Phase → Option (Phase × Effect)
move (shaken none) shaking = some (alive new_life, nothing)
move (shaken (some e)) shaking = some (failing, handshake_failed)
move gives_up failing = some (refused, left)
move m (alive l) = alive_again (live m l)
move _ _ = none

pub record Counters : Type 0 where
  pub connections : ℕ
  pub handshake_fails : ℕ
  pub bytes_in : ℕ
  pub bytes_out : ℕ
  pub bps_in : Span
  pub bps_out : Span
  pub last_in : ℕ
  pub last_out : ℕ
  pub last_tick : Option ℕ

pub record Service : Type 0 where
  pub counters : Counters
  pub phases : List Phase
  pub closes : List (ℕ × Option Error)

abbrev no_span : Span
no_span = record { bytes = 0; from = 0; to = 0 }

-- `NewServer`
abbrev pub new_service : Service
new_service = record {
  counters = record {
    connections = 0;
    handshake_fails = 0;
    bytes_in = 0;
    bytes_out = 0;
    bps_in = no_span;
    bps_out = no_span;
    last_in = 0;
    last_out = 0;
    last_tick = none;
  };
  phases = [];
  closes = [];
}

-- `Counter.Add(1)` and `Counter.Add(-1)`
abbrev pub one_more : ℕ → ℕ
one_more n = add64 n 1

abbrev pub one_less : ℕ → ℕ
one_less n = sub64 n 1

unfoldable pub apply : ℕ → Effect → Service → Service
apply i nothing s = s
apply i handshake_failed s = record s {
  counters = record s.counters { handshake_fails = one_more s.counters.handshake_fails };
}
apply i left s = record s {
  counters = record s.counters { connections = one_less s.counters.connections };
}
apply i (on_close e) s = record s { closes = s.closes ++ ((i, e) ∷ []) }

abbrev pub phase_at : ℕ → List Phase → Option Phase
phase_at i [] = none
phase_at zero (p ∷ ps) = some p
phase_at (suc i) (p ∷ ps) = phase_at i ps

abbrev pub set_phase : ℕ → Phase → List Phase → List Phase
set_phase i q [] = []
set_phase zero q (p ∷ ps) = q ∷ ps
set_phase (suc i) q (p ∷ ps) = p ∷ set_phase i q ps

abbrev moved : ℕ → Option (Phase × Effect) → Service → Service
moved i none s = s
moved i (some (p, e)) s = apply i e (record s { phases = set_phase i p s.phases })

-- A tick of the server's clock. The first one only sets the time.
unfoldable pub tick : ℕ → Option ℕ → Counters → Counters
tick now none c = record c { last_tick = some now }
tick now (some last) c = record c {
  bps_in = record { bytes = sub64 c.bytes_in c.last_in; from = last; to = now };
  bps_out = record { bytes = sub64 c.bytes_out c.last_out; from = last; to = now };
  last_in = c.bytes_in;
  last_out = c.bytes_out;
  last_tick = some now;
}

-- `netCounter.Read` and `netCounter.Write`, with the bytes that were read or written.
abbrev take_in : ℕ → Counters → Counters
take_in n c = record c { bytes_in = add64 c.bytes_in n }

abbrev give_out : ℕ → Counters → Counters
give_out n c = record c { bytes_out = add64 c.bytes_out n }

pub data Event : Type 0 where
  accepts : Event
  moves : ℕ → Move → Event
  takes_in : ℕ → Event
  gives_out : ℕ → Event
  ticks : ℕ → Event

-- `Accept` with the beginning of `handle`; a move of a connection's goroutine; bytes that come and go;
-- a tick.
unfoldable pub step : Service → Event → Service
unfolding move live receive_read receive_write continue_from
step s accepts = record s {
  counters = record s.counters { connections = one_more s.counters.connections };
  phases = s.phases ++ (shaking ∷ []);
}
step s (moves i m) = elim (phase_at i s.phases) [ none ↦ s | some p ↦ moved i (move m p) s ]
step s (takes_in n) = record s { counters = take_in n s.counters }
step s (gives_out n) = record s { counters = give_out n s.counters }
step s (ticks now) = record s { counters = tick now s.counters.last_tick s.counters }

unfoldable pub run : Service → List Event → Service
run s [] = s
run s (e ∷ es) = run (step s e) es
