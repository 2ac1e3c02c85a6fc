-- ===== src/Server/Session/Steps.antt =====
-- Messages of one client, one after the other, as far as a run of the server goes on behind them.
use Prim.Native.String.{String}
use gortmp.Base.{
  ℕ, ◌≡◌, ◌≢◌, refl, sym, ap, ◌∙◌, List, [], ◌∷◌, ◌++◌, Option, some, true, false, arith, map,
}
use gortmp.Base.{append_assoc, append-nil, ◌==◌, ◌||◌, All}
use gortmp.Base.Maps.{lookup}
use gortmp.Message.{Message, command_amf0, command_amf3}
use gortmp.Command.{Amf, Command, Result}
use gortmp.Command.Raw.{Values}
use gortmp.Command.Whole.{parse_command, parsed_command_type}
use gortmp.Server.{World, Effect, published, ok}
use gortmp.Server.Streams.{on_stream_receive, is_media, tag_of}
use gortmp.Server.Connection.{on_message, on_command, on_receive}
use gortmp.Server.Events.{Event, message, react, run}

module _ (a : Amf) (v : Values a) (app_of : a.Object → Option String) where
  on_message_command :
      (c : ℕ) (msg : Message) (cmd : Command a)
      → parse_command a v msg ≡ Result.ok cmd
      → on_message a v app_of c msg ≡ on_command app_of c cmd
  unfolding on_message
  on_message_command c msg cmd e = rw (parsed_command_type a v msg cmd e, e) refl

  -- A message that is answered without an error.
  pub run-answered :
      (c : ℕ) (msg : Message) (w w' : World) (es : List Event)
      → on_message a v app_of c msg w ≡ ok tt w'
      → run a v app_of w (message c msg ∷ es) ≡ run a v app_of w' es
  unfolding react run
  run-answered c msg w w' es e = rw (run, e) refl

  pub run-command :
      (c : ℕ) (msg : Message) (cmd : Command a) (w w' : World) (es : List Event)
      → parse_command a v msg ≡ Result.ok cmd
      → on_command app_of c cmd w ≡ ok tt w'
      → run a v app_of w (message c msg ∷ es) ≡ run a v app_of w' es
  run-command c msg cmd w w' es parsed e =
      run-answered c msg w w' es (ap (λ f. f w) (on_message_command c msg cmd parsed) ∙ e)

  on_stream_receive_media :
      (s m : ℕ) (msg : Message) (w : World)
      → is_media msg.type ≡ true
      → (w.stream s).media_stream ≡ some m
      → (w.stream s).handled ≡ true
      → (w.media m).closed ≡ false
      → on_stream_receive s msg w
        ≡ ok tt (record w { trace = w.trace ++ (published m (tag_of msg) ∷ []) })
  unfolding on_stream_receive
  on_stream_receive_media s m msg w media stream handled alive =
      rw (stream, on_stream_receive) (ground arith)

  -- An audio, video or data message for a stream that publishes to an open media stream.
  on_message-media :
      (c s m : ℕ) (msg : Message) (w : World)
      → is_media msg.type ≡ true
      → msg.stream_id ≢ 0
      → lookup msg.stream_id (w.conns c).streams ≡ some s
      → (w.stream s).media_stream ≡ some m
      → (w.stream s).handled ≡ true
      → (w.media m).closed ≡ false
      → on_message a v app_of c msg w
        ≡ ok tt (record w { trace = w.trace ++ (published m (tag_of msg) ∷ []) })
  unfolding on_message on_receive
  on_message-media c s m msg w media nonzero entered stream handled alive =
      let other : (msg.type == command_amf3) || (msg.type == command_amf0) ≡ false = ground arith in
      let some_id : (msg.stream_id == 0) ≡ false = ground arith in
      rw (other, some_id, entered, on_receive)
        (on_stream_receive_media s m msg w media stream handled alive)

  -- A stretch of them.
  pub run-media :
      (c s m : ℕ) (msgs : List Message) (w : World) (es : List Event)
      → All (λ (msg : Message). (is_media msg.type ≡ true) × (msg.stream_id ≡ 1)) msgs
      → lookup 1 (w.conns c).streams ≡ some s
      → (w.stream s).media_stream ≡ some m
      → (w.stream s).handled ≡ true
      → (w.media m).closed ≡ false
      → run a v app_of w (map (message c) msgs ++ es)
        ≡ run a v app_of
            (record w { trace = w.trace ++ map (λ msg. published m (tag_of msg)) msgs })
            es
  run-media c s m [] w es h entered stream handled alive =
      ap (λ t. run a v app_of (record w { trace = t }) es) (sym (append-nil w.trace))
  run-media c s m (msg ∷ msgs) w es ((media, on_one), h) entered stream handled alive =
      let e : Effect = published m (tag_of msg) in
      let w' : World = record w { trace = w.trace ++ (e ∷ []) } in
      run-answered c msg w w' (map (message c) msgs ++ es) (
        on_message-media c s m msg w media (omega arith)
          (ap (λ i. lookup i (w.conns c).streams) on_one ∙ entered) stream handled alive)
      ∙ run-media c s m msgs w' es h entered stream handled alive
      ∙ ap (λ t. run a v app_of (record w { trace = t }) es)
          (append_assoc w.trace (e ∷ []) (map (λ x. published m (tag_of x)) msgs))
