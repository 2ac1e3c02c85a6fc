-- ===== src/Server/Registry/Reached.antt =====
-- The registry in every world that a server comes to.
use Prim.Native.String.{String}
use gortmp.Base.{ℕ, List, [], ◌∷◌, Bool, true, false, ◌||◌, ◌&&◌, not, Option, none, some, ◌==◌}
use gortmp.Base.{if◌then◌else◌}
use gortmp.Base.Maps.{lookup}
use gortmp.Message.{Message}
use gortmp.Command.{Amf, Command, DeleteStreamCommand, Result}
use gortmp.Command.Parse.{raw_command}
use gortmp.Command.Raw.{Values}
use gortmp.Command.Whole.{parse_command}
use gortmp.Server.{
  World, Act, Ending, ok, failed, left_by, new_server, fail, crashed, world, on_close,
}
use gortmp.Server.Streams.{invoke, server_invoke, on_stream_command}
use gortmp.Server.Connection.{
  stop_publishing, stop_playing, handle_destroy_stream, forget_stream, invoke_delete_stream,
  conn_invoke, dispatch, on_command, on_receive, on_message, destroy_all, wait_close, close_conn,
}
use gortmp.Server.Events.{Event, message, window_full, ended, round, react, run}
use gortmp.Server.Keeps.{Keeps, Keeps-bind, Keeps-catch, Keeps-if, keeps}
use gortmp.Server.Registry.Frame.{
  Keeps-invoke_publish, Keeps-invoke_play, Keeps-server_play, Keeps-on_stream_receive,
  Keeps-play_tag, Keeps-fatal, Keeps-on_window_full, Keeps-server_connect,
  Keeps-invoke_create_stream, Keeps-stop_playing, Keeps-forget_stream, Keeps-invoke_fc_publish,
  Keeps-emit, Keeps-close_conn,
}
use gortmp.Server.Registry.Invariant.{
  IsRegistry, IsRegistered, Keeps-server_publish, Keeps-stop_publishing,
}

module _ {a : Amf} where
  Keeps-invoke : (s : ℕ) (cmd : Command a) → Keeps IsRegistered (invoke s cmd)
  unfolding invoke
  Keeps-invoke s (Command.publish cmd) = Keeps-invoke_publish IsRegistry s cmd
  Keeps-invoke s (Command.play cmd) = Keeps-invoke_play IsRegistry s cmd
  Keeps-invoke s _ = search (keeps)

  Keeps-server_invoke : (s : ℕ) (cmd : Command a) → Keeps IsRegistered (server_invoke s cmd)
  unfolding server_invoke
  Keeps-server_invoke s (Command.publish cmd) = Keeps-server_publish s cmd
  Keeps-server_invoke s (Command.play cmd) = Keeps-server_play IsRegistry s cmd
  Keeps-server_invoke s (Command.raw r) = Keeps-invoke s (Command.raw r)
  Keeps-server_invoke s (Command.connect r) = Keeps-invoke s (Command.connect r)
  Keeps-server_invoke s (Command.create_stream r) = Keeps-invoke s (Command.create_stream r)
  Keeps-server_invoke s (Command.delete_stream r) = Keeps-invoke s (Command.delete_stream r)
  Keeps-server_invoke s (Command.fc_publish r) = Keeps-invoke s (Command.fc_publish r)
  Keeps-server_invoke s (Command.result r) = Keeps-invoke s (Command.result r)
  Keeps-server_invoke s (Command.on_status r) = Keeps-invoke s (Command.on_status r)

-- What an action does that chooses by the world.
left-if :
    (b : Bool) (e e' : Ending (Unit {0}))
    → IsRegistered (left_by e)
    → IsRegistered (left_by e')
    → IsRegistered (left_by (if b then e else e'))
left-if true e e' p p' = p
left-if false e e' p p' = p'

left-option :
    (x : Option ℕ) (e : Ending (Unit {0})) (k : ℕ → Ending (Unit {0}))
    → IsRegistered (left_by e)
    → ((n : ℕ) → IsRegistered (left_by (k n)))
    → IsRegistered (left_by (elim x as (λ _. Ending (Unit {0})) [ none ↦ e | some n ↦ k n ]))
left-option none e k p p' = p
left-option (some n) e k p p' = p' n

Keeps-handle_destroy_stream : (s : ℕ) → Keeps IsRegistered (handle_destroy_stream s)
unfolding handle_destroy_stream
Keeps-handle_destroy_stream s =
    Keeps-bind IsRegistered (stop_publishing s) _ (Keeps-stop_publishing s) λ _.
      Keeps-bind IsRegistered (stop_playing s) _ (Keeps-stop_playing IsRegistry s)
        λ _. Keeps-emit IsRegistry _

Keeps-invoke_delete_stream :
    (c : ℕ) (cmd : DeleteStreamCommand) → Keeps IsRegistered (invoke_delete_stream c cmd)
unfolding invoke_delete_stream
Keeps-invoke_delete_stream c cmd = record {
  keep = λ w r. left-option (lookup cmd.delete_stream_id (w.conns c).streams) _ _ r λ s.
      (Keeps-bind IsRegistered (forget_stream c cmd.delete_stream_id) _
          (Keeps-forget_stream IsRegistry c cmd.delete_stream_id)
          (λ _. Keeps-handle_destroy_stream s)).keep
        w r;
}

module _ {a : Amf} (app_of : a.Object → Option String) (c : ℕ) where
  Keeps-conn_invoke : (cmd : Command a) → Keeps IsRegistered (conn_invoke app_of c cmd)
  unfolding conn_invoke
  Keeps-conn_invoke (Command.connect cmd) =
      Keeps-server_connect IsRegistry c cmd.transaction_id (app_of cmd.properties)
  Keeps-conn_invoke (Command.create_stream cmd) = Keeps-invoke_create_stream IsRegistry c cmd
  Keeps-conn_invoke (Command.delete_stream cmd) = Keeps-invoke_delete_stream c cmd
  Keeps-conn_invoke (Command.fc_publish cmd) = Keeps-invoke_fc_publish IsRegistry c cmd
  Keeps-conn_invoke _ = search (keeps)

  Keeps-dispatch : (cmd : Command a) → Keeps IsRegistered (dispatch app_of c cmd)
  unfolding dispatch on_stream_command
  Keeps-dispatch cmd = record {
    keep = λ w r.
        left-if ((raw_command a cmd).stream_id == 0) _ _ ((Keeps-conn_invoke cmd).keep w r) (
          left-option (lookup (raw_command a cmd).stream_id (w.conns c).streams) _ _ r λ s.
            left-if (w.stream s).handled _ _ ((Keeps-server_invoke s cmd).keep w r)
              ((Keeps-invoke s cmd).keep w r));
  }

  Keeps-on_command : (cmd : Command a) → Keeps IsRegistered (on_command app_of c cmd)
  unfolding on_command
  Keeps-on_command cmd =
      Keeps-catch IsRegistered (dispatch app_of c cmd) _ (Keeps-dispatch cmd)
        λ f. Keeps-fatal IsRegistry c

Keeps-on_receive : (c : ℕ) (msg : Message) → Keeps IsRegistered (on_receive c msg)
unfolding on_receive
Keeps-on_receive c msg = record {
  keep = λ w r. left-if (msg.stream_id == 0) _ _ r (
      left-option (lookup msg.stream_id (w.conns c).streams) _ _
        ((Keeps-fatal IsRegistry c).keep w r)
        λ s. (Keeps-on_stream_receive IsRegistry s msg).keep w r);
}

Keeps-destroy_all : (m : List (ℕ × ℕ)) → Keeps IsRegistered (destroy_all m)
unfolding destroy_all
Keeps-destroy_all [] = search (keeps)
Keeps-destroy_all ((i, s) ∷ m) =
    Keeps-bind IsRegistered (handle_destroy_stream s) _ (Keeps-handle_destroy_stream s)
      λ _. Keeps-destroy_all m

Keeps-wait_close : (c : ℕ) → Keeps IsRegistered (wait_close c)
unfolding wait_close
Keeps-wait_close c = Keeps-bind IsRegistered (close_conn c) _ (Keeps-close_conn IsRegistry c) λ _.
    Keeps-bind IsRegistered world _ (record { keep = λ w r. r })
      λ w.
        Keeps-bind IsRegistered (destroy_all (w.conns c).streams) _ (Keeps-destroy_all _)
          λ _. Keeps-emit IsRegistry (on_close c)

module _ (a : Amf) (v : Values a) (app_of : a.Object → Option String) where
  parsed-Keeps :
      (c : ℕ) (msg : Message) (p : Result (Command a))
      → Keeps IsRegistered (elim p as (λ _. Act (Unit {0})) [
        | Result.ok cmd ↦ on_command app_of c cmd
        | Result.err e ↦ on_receive c msg
        | Result.panics ↦ fail crashed
      ])
  parsed-Keeps c msg (Result.ok cmd) = Keeps-on_command app_of c cmd
  parsed-Keeps c msg (Result.err e) = Keeps-on_receive c msg
  parsed-Keeps c msg Result.panics = search (keeps)

  Keeps-on_message : (c : ℕ) (msg : Message) → Keeps IsRegistered (on_message a v app_of c msg)
  unfolding on_message
  Keeps-on_message c msg =
      Keeps-if IsRegistered ((msg.type == 17) || (msg.type == 20)) _ _
        (parsed-Keeps c msg (parse_command a v msg)) (Keeps-on_receive c msg)

  Keeps-react : (e : Event) → Keeps IsRegistered (react a v app_of e)
  unfolding react
  Keeps-react (message c msg) = record { keep = (Keeps-on_message c msg).keep }
  Keeps-react (window_full c n) = record { keep = (Keeps-on_window_full IsRegistry c n).keep }
  Keeps-react (ended c) = record { keep = (Keeps-wait_close c).keep }
  Keeps-react (round p tag) = record {
    keep = λ w r.
        left-if ((w.player p).started && not (w.player p).finished) _ _
          ((Keeps-play_tag IsRegistry p tag).keep w r) r;
  }

  -- What follows an event, unless the program has ended.
  followed :
      (es : List Event) (x : Ending (Unit {0}))
      → ((w : World) → IsRegistered w → IsRegistered (run a v app_of w es))
      → IsRegistered (left_by x)
      → IsRegistered (elim x as (λ _. World) [ ok _ w ↦ run a v app_of w es | failed f w ↦ w ])
  followed es (ok _ w) next r = next w r
  followed es (failed f w) next r = r

  reached-IsRegistered :
      (w : World) (es : List Event) → IsRegistered w → IsRegistered (run a v app_of w es)
  unfolding run
  reached-IsRegistered w [] r = r
  reached-IsRegistered w (e ∷ es) r =
      followed es (react a v app_of e w) (λ w' q. reached-IsRegistered w' es q)
        ((Keeps-react e).keep w r)

  -- Of a new server whose handlers run one after the other, each message, full window, end of a
  -- connection and round of a player's loop as one step: whatever messages arrive on whichever
  -- connections, windows fill up, connections end and players do, and whichever sends fail, between
  -- the steps every published name stands for a media stream that is open, and no two names for the
  -- same one.
  pub run-IsRegistered :
      (fates : List Bool) (es : List Event) → IsRegistered (run a v app_of (new_server fates) es)
  unfolding new_server
  run-IsRegistered fates es = reached-IsRegistered (new_server fates) es (record {
    opened = λ n m e. absurd (cc);
    known = λ n m e. absurd (cc);
    single = λ n n' m e e'. absurd (cc);
  })
