-- ===== src/Tests/ServiceRuns.antt =====
-- Three connections of a server: one whose handshake fails, one that ends, and one that goes on.
use gortmp.Base.{◌≡◌, refl, List, [], ◌∷◌, some, none}
use gortmp.Wire.{eof, short_write}
use gortmp.Handshake.Exchange.{reading}
use gortmp.Server.Service.{
  Event, accepts, moves, takes_in, gives_out, ticks, shaken, gives_up, read_ends, write_ends,
  receives_read, receives_write, continues, new_service, new_life, alive, run, step, move, live,
  receive_read, receive_write, continue_from, apply, tick,
}
use gortmp.Server.Service.Accounts.{IsAccounted, total_in, total_out, run-IsAccounted}
use gortmp.Server.Service.Ends.{Ends, run-Ends}

abbrev events : List Event
events =
    accepts
    ∷ accepts
    ∷ takes_in 1000
    ∷ moves 0 (shaken (some (reading eof)))
    ∷ accepts
    ∷ moves 1 (shaken none)
    ∷ gives_out 3073
    ∷ moves 0 gives_up
    ∷ ticks 1
    ∷ moves 1 (read_ends (some eof))
    ∷ moves 1 (write_ends (some short_write))
    ∷ moves 1 receives_write
    ∷ moves 1 continues
    ∷ moves 2 (shaken none)
    ∷ moves 1 receives_read
    ∷ moves 1 continues
    ∷ takes_in 24
    ∷ ticks 2
    ∷ []

events_run :
    ((run new_service events).counters.connections ≡ 2)
    × ((run new_service events).closes ≡ (1, some short_write) ∷ [])
unfolding run step move live receive_read receive_write continue_from apply tick
events_run = (refl, refl)

run-IsAccounted_example : IsAccounted (total_in events) (total_out events) (run new_service events)
run-IsAccounted_example = run-IsAccounted events

run-Ends_example : Ends (alive new_life)
unfolding run step move live receive_read receive_write continue_from apply tick
run-Ends_example = run-Ends events 2 (alive new_life) refl
