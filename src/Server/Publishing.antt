-- ===== src/Server/Publishing.antt =====
-- What becomes of a name: published, refused, and given up again; in a world in which sends succeed.
use Prim.Native.String.{String}
use text.Mathlib.TextEquality.{eq_iff}
use gortmp.Base.{
  ℕ, ◌<◌, ◌≡◌, ◌≢◌, refl, ap, ◌∙◌, [], ◌∷◌, ◌++◌, true, false, Option, none, some, arith,
}
use gortmp.Base.{◌==◌}
use gortmp.Command.{Amf, Command, PublishCommand}
use gortmp.Server.{
  World, Ending, Stream, sent, on_publish, Content, ok, failed, left_by, update, send,
}
use gortmp.Server.Streams.{
  on_stream_command, server_invoke, invoke_publish, mark_publishing, handle_publish, publish_start,
  server_publish, publish_placed,
}
use gortmp.Server.Connection.{fatal, conn_error, close_conn, connect_closed, on_command, dispatch}
use gortmp.Command.Parse.{raw_command}
use gortmp.Base.Maps.{lookup}
use gortmp.Server.Keeps.{catch_ok}
use gortmp.Server.Registry.Invariant.{
  with_media, with_stream, server_publish_free, server_publish_taken,
}

-- The world behind a `publish` that `stream.invokePublish` accepted.
abbrev pub publishing_stream : World → ℕ → String → Stream
publishing_stream w s name = record (w.stream s) {
  name = name;
  publishing = true;
  media_stream = w.streams name;
}

pub record Published (s : ℕ) (cmd : PublishCommand) (w w' : World) : Type 0 where
  pub streams : w'.streams ≡ w.streams
  pub media : w'.media ≡ w.media
  pub conns : w'.conns ≡ w.conns
  pub players : w'.players ≡ w.players
  pub player : w'.player ≡ w.player
  pub fates : w'.fates ≡ []
  pub self : w'.stream s ≡ publishing_stream w s cmd.name
  pub others : (j : ℕ) → j ≢ s → w'.stream j ≡ w.stream j
  pub trace :
      w'.trace
      ≡ (w.trace
          ++ (sent
                (w.stream s).conn
                3
                cmd.stream_id
                (Content.on_status cmd.transaction_id publish_start)
              ∷ []))
        ++ (on_publish s (w.streams cmd.name) ∷ [])

abbrev pub after_publish : ℕ → PublishCommand → World → World
after_publish s cmd w =
    let x : Stream = record (w.stream s) { name = cmd.name; publishing = true } in
    record w {
      stream = update (update w.stream s x) s (record x { media_stream = w.streams cmd.name });
      trace =
          (w.trace
            ++ (sent (w.stream s).conn 3 cmd.stream_id
                  (Content.on_status cmd.transaction_id publish_start)
                ∷ []))
          ++ (on_publish s (w.streams cmd.name) ∷ []);
    }

pub after-Published :
    (s : ℕ) (cmd : PublishCommand) (w : World)
    → w.fates ≡ []
    → Published s cmd w (after_publish s cmd w)
after-Published s cmd w lucky = record {
  streams = refl;
  media = refl;
  conns = refl;
  players = refl;
  player = refl;
  fates = lucky;
  self = ground arith;
  others = λ j n. ground arith;
  trace = refl;
}

-- A stream that can publish: it has its handler, sends succeed, and the name is not empty.
pub record CanPublish (s : ℕ) (name : String) (w : World) : Type 0 where
  pub lucky : w.fates ≡ []
  pub named : name ≢ ""
  pub handled : (w.stream s).handled ≡ true

invoke_publish_lem :
    (s : ℕ) (cmd : PublishCommand) (w : World)
    → CanPublish s cmd.name w
    → invoke_publish s cmd w ≡ ok tt (after_publish s cmd w)
unfolding invoke_publish send mark_publishing handle_publish
invoke_publish_lem s cmd w p = ground (arith, eq_iff cmd.name "", p.named)

pub server_publish_accepted :
    (s : ℕ) (cmd : PublishCommand) (w : World)
    → CanPublish s cmd.name w
    → w.streams cmd.name ≡ none
    → server_publish s cmd w ≡ ok tt (after_publish s cmd (with_stream s cmd.name w))
unfolding publish_placed
server_publish_accepted s cmd w p free =
    server_publish_free s cmd w free
    ∙ ground (
      arith,
      invoke_publish_lem s cmd (with_stream s cmd.name w)
          (record { lucky = p.lucky; named = p.named; handled = p.handled }),
    )

-- A command that the connection passes to one of its streams.
pub record IsAddressed (c s id : ℕ) (w : World) : Type 0 where
  pub nonzero : id ≢ 0
  pub entered : lookup id (w.conns c).streams ≡ some s
  pub handled : (w.stream s).handled ≡ true

-- The world behind `NewMediaStream` and `Close` of it.
abbrev refused : ℕ → World → World
refused s w = record (with_media s w) {
  media = update (with_media s w).media w.next_media (record { stream = s; closed = true });
}

abbrev pub closing : ℕ → World → World
closing c w = record w {
  conns = update w.conns c (record (w.conns c) { closed = true });
  trace = w.trace ++ (sent c 3 0 (Content.on_status 0 connect_closed) ∷ []);
}

pub fatal_lem : (c : ℕ) (w : World) → w.fates ≡ [] → fatal c w ≡ ok tt (closing c w)
unfolding fatal conn_error send close_conn
fatal_lem c w lucky = ground arith

module _ (a : Amf) (app_of : a.Object → Option String) where
  dispatch-publish :
      (c s : ℕ) (cmd : PublishCommand) (w : World)
      → IsAddressed c s cmd.stream_id w
      → dispatch {a = a} app_of c (Command.publish cmd) w ≡ server_publish s cmd w
  unfolding dispatch on_stream_command server_invoke raw_command
  dispatch-publish c s cmd w p =
      let nonzero : (cmd.stream_id == 0) ≡ false = ground (arith, p.nonzero) in
      rw (nonzero, dispatch, p.entered, p.handled) refl

  pub on_command-publish :
      (c s : ℕ) (cmd : PublishCommand) (w : World)
      → IsAddressed c s cmd.stream_id w
      → on_command {a = a} app_of c (Command.publish cmd) w
        ≡ elim (server_publish s cmd w) as (λ _. Ending (Unit {0})) [
          | ok u w' ↦ ok u w'
          | failed f w' ↦ fatal c w'
        ]
  unfolding on_command
  on_command-publish c s cmd w p =
      ap
        (λ (e : Ending (Unit {0})). elim e as (λ _. Ending (Unit {0})) [
          | ok u w' ↦ ok u w'
          | failed f w' ↦ fatal c w'
        ])
        (dispatch-publish c s cmd w p)

  pub on_command-accepted :
      (c s : ℕ) (cmd : PublishCommand) (w : World)
      → IsAddressed c s cmd.stream_id w
      → CanPublish s cmd.name w
      → w.streams cmd.name ≡ none
      → on_command {a = a} app_of c (Command.publish cmd) w
        ≡ ok tt (after_publish s cmd (with_stream s cmd.name w))
  unfolding on_command
  on_command-accepted c s cmd w p can free =
      catch_ok (dispatch {a = a} app_of c (Command.publish cmd)) _ w _ tt
        (dispatch-publish c s cmd w p ∙ server_publish_accepted s cmd w can free)

  -- A `publish` with a name that is not empty and not taken, on a stream of the connection, while
  -- sends succeed: the name stands for a new media stream, other names for what they stood for, the
  -- stream has the name, is publishing and passes its tags to that media stream; no other stream, no
  -- connection, no player and no entry for a player changes; the client is sent NetStream.Publish.Start, and then the
  -- server's handler is told.
  pub publish_accepted :
      (c s : ℕ) (cmd : PublishCommand) (w : World)
      → IsAddressed c s cmd.stream_id w
      → w.fates ≡ []
      → cmd.name ≢ ""
      → w.streams cmd.name ≡ none
      → Published s cmd
          (with_stream s cmd.name w)
          (left_by (on_command {a = a} app_of c (Command.publish cmd) w))
  publish_accepted c s cmd w p lucky named free =
      rw
        (on_command-accepted c s cmd w p
          (record { lucky = lucky; named = named; handled = p.handled }) free)
        (after-Published s cmd (with_stream s cmd.name w) lucky)

  -- A `publish` with a name that is taken: the table of names, the media stream that has it and all
  -- streams stay as they are; the client is sent NetConnection.Connect.Closed, not the status
  -- NetStream.Publish.BadName of the error, and the connection is closed.
  pub publish_refused :
      (c s m : ℕ) (cmd : PublishCommand) (w : World)
      → IsAddressed c s cmd.stream_id w
      → w.fates ≡ []
      → w.streams cmd.name ≡ some m
      → m < w.next_media
      → let w' : World = left_by (on_command {a = a} app_of c (Command.publish cmd) w) in
        (w'.streams ≡ w.streams)
        × (w'.media m ≡ w.media m)
        × (w'.stream ≡ w.stream)
        × ((w'.conns c).closed ≡ true)
        × (w'.trace ≡ w.trace ++ (sent c 3 0 (Content.on_status 0 connect_closed) ∷ []))
  publish_refused c s m cmd w p lucky taken known =
      rw
        (
          on_command-publish c s cmd w p,
          server_publish_taken s cmd w m taken,
          fatal_lem c (refused s w) lucky,
        )
        (refl, ground arith, refl, ground arith, refl)
