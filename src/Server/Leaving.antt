-- ===== src/Server/Leaving.antt =====
-- What a stream leaves behind when it is deleted.
use Prim.Native.String.{String}
use text.Mathlib.TextEquality.{eq_iff}
use gortmp.Base.{ℕ, ◌≡◌, ◌≢◌, ◌∙◌, [], ◌∷◌, ◌++◌, true, false, Option, none, some, arith}
use gortmp.Base.Maps.{lookup, remove, lookup-remove}
use gortmp.Command.{Amf, Command, PublishCommand, DeleteStreamCommand}
use gortmp.Command.Parse.{raw_command}
use gortmp.Server.{World, on_destroy_stream, ok, left_by, update, update_name, ◌>>◌}
use gortmp.Server.Tables.{close_media, del_stream}
use gortmp.Server.Connection.{
  stop_publishing, stop_playing, handle_destroy_stream, forget_stream, invoke_delete_stream,
  conn_invoke, dispatch, on_command,
}
use gortmp.Server.Keeps.{bind_ok, catch_ok}
use gortmp.Server.Registry.Invariant.{with_stream}
use gortmp.Server.Publishing.{CanPublish, IsAddressed, after_publish, on_command-accepted}

-- The world behind the deletion of the publishing stream `s`, whose name stands for `m`.
abbrev pub deleted : (c id s m : ℕ) → World → World
deleted c id s m w = record w {
  conns = update w.conns c (record (w.conns c) { streams = remove id (w.conns c).streams });
  media = update w.media m (record (w.media m) { closed = true });
  streams = update_name w.streams (w.stream s).name none;
  trace = w.trace ++ (on_destroy_stream s ∷ []);
}

-- A stream that publishes and does not play, under a name that stands for `m`.
pub record Publishes (c id s m : ℕ) (w : World) : Type 0 where
  pub entered : lookup id (w.conns c).streams ≡ some s
  pub publishing : (w.stream s).publishing ≡ true
  pub not_playing : (w.stream s).playing ≡ false
  pub stands : w.streams (w.stream s).name ≡ some m

pub stop_publishing_lem :
    (s m : ℕ) (w : World)
    → (w.stream s).publishing ≡ true
    → w.streams (w.stream s).name ≡ some m
    → stop_publishing s w
      ≡ ok tt (record w {
        media = update w.media m (record (w.media m) { closed = true });
        streams = update_name w.streams (w.stream s).name none;
      })
unfolding stop_publishing close_media del_stream
stop_publishing_lem s m w p e = ground arith

stop_playing_lem : (s : ℕ) (w : World) → (w.stream s).playing ≡ false → stop_playing s w ≡ ok tt w
unfolding stop_playing
stop_playing_lem s w p = ground arith

handle_destroy_stream_lem :
    (c id s m : ℕ) (w : World)
    → Publishes c id s m w
    → (do forget_stream c id; handle_destroy_stream s) w ≡ ok tt (deleted c id s m w)
unfolding handle_destroy_stream forget_stream
handle_destroy_stream_lem c id s m w p =
    bind_ok (stop_publishing s) _ _ _ tt (stop_publishing_lem s m _ p.publishing p.stands)
    ∙ bind_ok (stop_playing s) _ _ _ tt (stop_playing_lem s _ p.not_playing)

module _ (a : Amf) (app_of : a.Object → Option String) (c : ℕ) where
  invoke_delete_stream_lem :
      (s m : ℕ) (cmd : DeleteStreamCommand) (w : World)
      → Publishes c cmd.delete_stream_id s m w
      → invoke_delete_stream c cmd w ≡ ok tt (deleted c cmd.delete_stream_id s m w)
  unfolding invoke_delete_stream
  invoke_delete_stream_lem s m cmd w p =
      rw (p.entered, invoke_delete_stream)
        (handle_destroy_stream_lem c cmd.delete_stream_id s m w p)

  pub on_command-delete :
      (s m : ℕ) (cmd : DeleteStreamCommand) (w : World)
      → Publishes c cmd.delete_stream_id s m w
      → on_command {a = a} app_of c (Command.delete_stream cmd) w
        ≡ ok tt (deleted c cmd.delete_stream_id s m w)
  unfolding on_command dispatch conn_invoke raw_command
  on_command-delete s m cmd w p =
      catch_ok (dispatch {a = a} app_of c (Command.delete_stream cmd)) _ w _ tt
        (invoke_delete_stream_lem s m cmd w p)

  -- The world behind a `publish` and a `deleteStream`.
  abbrev pub after_delete : PublishCommand → DeleteStreamCommand → World → World
  after_delete cmd del w = left_by (
      on_command {a = a} app_of c (Command.delete_stream del)
        (left_by (on_command {a = a} app_of c (Command.publish cmd) w)))

  -- A stream that does not play publishes under a name that is not empty and not taken, while sends
  -- succeed, and is then deleted: the names stand for what they stood for before, its media stream is
  -- closed and no other changes, and the connection knows the stream no more.
  pub publish_then_delete :
      (s : ℕ) (cmd : PublishCommand) (del : DeleteStreamCommand) (w : World)
      → IsAddressed c s cmd.stream_id w
      → del.delete_stream_id ≡ cmd.stream_id
      → (w.stream s).playing ≡ false
      → CanPublish s cmd.name w
      → w.streams cmd.name ≡ none
      → let w' : World = after_delete cmd del w in
        ((n : String) → w'.streams n ≡ w.streams n)
        × ((w'.media w.next_media).closed ≡ true)
        × ((j : ℕ) → j ≢ w.next_media → w'.media j ≡ w.media j)
        × (lookup cmd.stream_id (w'.conns c).streams ≡ none)
  publish_then_delete s cmd del w p same silent can free =
      let w' = after_publish s cmd (with_stream s cmd.name w) in
      let q : Publishes c del.delete_stream_id s w.next_media w' = record {
        entered = rw same p.entered;
        publishing = ground arith;
        not_playing = ground arith;
        stands = ground (arith, eq_iff cmd.name cmd.name);
      } in
      rw
        (
          on_command-accepted a app_of c s cmd w p can free,
          on_command-delete s w.next_media del w' q,
        )
        (
          λ n. ground (arith, eq_iff cmd.name n),
          ground arith,
          λ j d. ground (arith),
          ground
              (arith, same, lookup-remove del.delete_stream_id cmd.stream_id (w.conns c).streams),
        )

  -- A stream that does not play publishes under a name that is not empty and not taken, then under
  -- another, and is then deleted: the second name is free again, but the first still stands for a
  -- media stream, which is open, though the connection knows the stream no more.
  pub publish_twice_leaks :
      (s : ℕ) (cmd cmd' : PublishCommand) (del : DeleteStreamCommand) (w : World)
      → IsAddressed c s cmd.stream_id w
      → cmd'.stream_id ≡ cmd.stream_id
      → del.delete_stream_id ≡ cmd.stream_id
      → (w.stream s).playing ≡ false
      → CanPublish s cmd.name w
      → cmd'.name ≢ ""
      → cmd.name ≢ cmd'.name
      → w.streams cmd.name ≡ none
      → w.streams cmd'.name ≡ none
      → let w' : World =
          after_delete cmd' del (left_by (on_command {a = a} app_of c (Command.publish cmd) w)) in
        (w'.streams cmd.name ≡ some w.next_media)
        × ((w'.media w.next_media).closed ≡ false)
        × (w'.streams cmd'.name ≡ none)
        × (lookup cmd.stream_id (w'.conns c).streams ≡ none)
  publish_twice_leaks s cmd cmd' del w p same' same silent can named' differ free free' =
      let v = after_publish s cmd (with_stream s cmd.name w) in
      let v' = after_publish s cmd' (with_stream s cmd'.name v) in
      let first = on_command-accepted a app_of c s cmd w p can free in
      let p' : IsAddressed c s cmd'.stream_id v = record {
        nonzero = rw same' p.nonzero;
        entered = rw same' p.entered;
        handled = ground (arith, p.handled);
      } in
      let can' : CanPublish s cmd'.name v = record {
        lucky = can.lucky;
        named = named';
        handled = p'.handled;
      } in
      let second =
        on_command-accepted a app_of c s cmd' v p' can'
          (ground (arith, eq_iff cmd.name cmd'.name)) in
      let q : Publishes c del.delete_stream_id s v.next_media v' = record {
        entered = rw same p.entered;
        publishing = ground arith;
        not_playing = ground arith;
        stands = ground (arith, eq_iff cmd'.name cmd'.name);
      } in
      rw (first, second, on_command-delete s v.next_media del v' q)
        (
          ground (arith, eq_iff cmd.name cmd.name, eq_iff cmd'.name cmd.name),
          ground arith,
          ground (arith, eq_iff cmd'.name cmd'.name),
          ground
              (arith, same, lookup-remove del.delete_stream_id cmd.stream_id (w.conns c).streams),
        )
