-- ===== src/Server/Events.antt =====
-- What happens to a server: messages that arrive, windows that are full, connections that end, and
-- the rounds of the players' loops, each with the tag that the buffer gives, or its error. A loop
-- that was not started or has returned has no rounds.
--
-- Each of these is one step, as if the handlers of all connections ran one after the other. In the
-- program they run in a goroutine for each connection, with a lock for each access to a table only:
-- what another connection sees in the middle of a handler is not in the model, such as a name whose
-- media stream OnDestroyStream has closed but whose entry it has not yet taken out of the table.
use Prim.Native.String.{String}
use gortmp.Base.{◌&&◌, not, if◌then◌else◌, ℕ, List, [], ◌∷◌, Option}
use gortmp.Message.{Message}
use gortmp.Media.{FlvTag}
use gortmp.Command.{Amf}
use gortmp.Command.Raw.{Values}
use gortmp.Server.{World, Act, ok, failed}
use gortmp.Server.Streams.{play_tag}
use gortmp.Server.Connection.{on_message, on_window_full, wait_close}

pub data Event : Type 0 where
  message : ℕ → Message → Event
  window_full : ℕ → ℕ → Event
  ended : ℕ → Event
  round : ℕ → Option FlvTag → Event

module _ (a : Amf) (v : Values a) (app_of : a.Object → Option String) where
  unfoldable pub react : Event → Act (Unit {0})
  react (message c msg) w = on_message a v app_of c msg w
  react (window_full c n) w = on_window_full c n w
  react (ended c) w = wait_close c w
  react (round p tag) w =
      if (w.player p).started && not (w.player p).finished then play_tag p tag w else ok tt w

  -- A panic ends the program, and nothing follows it.
  unfoldable pub run : World → List Event → World
  run w [] = w
  run w (e ∷ es) = elim (react e w) [ ok _ w' ↦ run w' es | failed f w' ↦ w' ]
