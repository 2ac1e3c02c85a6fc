-- ===== src/Server/Playing.antt =====
-- A stream that plays, and what it leaves behind when it is deleted.
pub mod Accepted
use Prim.Native.String.{String}
use text.Mathlib.TextEquality.{eq_iff}
use gortmp.Base.{ℕ, ◌+◌, ◌≡◌, ◌≢◌, refl, ◌∙◌, [], ◌∷◌, ◌++◌, true, false, Option, none, some, arith}
use gortmp.Base.{◌==◌}
use gortmp.Base.Maps.{lookup, remove, lookup-remove}
use gortmp.Command.{Amf, Command, PlayCommand, DeleteStreamCommand}
use gortmp.Command.Parse.{raw_command}
use gortmp.Server.{
  World, Stream, Effect, Content, sent, on_play, on_destroy_stream, ok, left_by, update,
  update_name, send, catch,
}
use gortmp.Server.Tables.{new_player, put_player, start_player, close_player, del_player}
use gortmp.Server.Streams.{
  send_on_stream, mark_playing, handle_play, invoke_play, play_reset, play_start, play_from,
  unless_placed, server_play, server_invoke, on_stream_command,
}
use gortmp.Server.Connection.{
  stop_publishing, stop_playing, handle_destroy_stream, forget_stream, invoke_delete_stream,
  conn_invoke, dispatch, on_command,
}
use gortmp.Server.Keeps.{bind_ok, catch_ok}
use gortmp.Server.Publishing.{IsAddressed}
use gortmp.Server.Leaving.{stop_publishing_lem}
use gortmp.Server.Playing.Accepted.{CanPlay, after_play, on_command-play}

-- The player of `s` closed and taken out of the table.
abbrev without_player : ℕ → ℕ → World → World
without_player s p w = record w {
  player = update w.player p (record (w.player p) { closed = true });
  players = update w.players s none;
}

stop_playing_player :
    (s p : ℕ) (w : World)
    → (w.stream s).playing ≡ true
    → w.players s ≡ some p
    → stop_playing s w ≡ ok tt (without_player s p w)
unfolding stop_playing close_player del_player
stop_playing_player s p w e e' = ground arith

stop_publishing_none :
    (s : ℕ) (w : World) → (w.stream s).publishing ≡ false → stop_publishing s w ≡ ok tt w
unfolding stop_publishing
stop_publishing_none s w e = ground arith

abbrev without_entry : ℕ → ℕ → World → World
without_entry c id w = record w {
  conns = update w.conns c (record (w.conns c) { streams = remove id (w.conns c).streams });
}

abbrev without_name : String → ℕ → World → World
without_name name m w = record w {
  media = update w.media m (record (w.media m) { closed = true });
  streams = update_name w.streams name none;
}

abbrev with_event : Effect → World → World
with_event e w = record w { trace = w.trace ++ (e ∷ []) }

module _ (a : Amf) (app_of : a.Object → Option String) (c s : ℕ) where
  destroyed :
      (p : ℕ) (w t : World)
      → stop_publishing s w ≡ ok tt t
      → (t.stream s).playing ≡ true
      → t.players s ≡ some p
      → handle_destroy_stream s w ≡ ok tt (with_event (on_destroy_stream s) (without_player s p t))
  unfolding handle_destroy_stream
  destroyed p w t stopped playing plays =
      bind_ok (stop_publishing s) _ w t tt stopped
      ∙ bind_ok (stop_playing s) _ t (without_player s p t) tt
          (stop_playing_player s p t playing plays)

  forgotten :
      (p : ℕ) (cmd : DeleteStreamCommand) (w t : World)
      → lookup cmd.delete_stream_id (w.conns c).streams ≡ some s
      → stop_publishing s (without_entry c cmd.delete_stream_id w) ≡ ok tt t
      → (t.stream s).playing ≡ true
      → t.players s ≡ some p
      → invoke_delete_stream c cmd w
        ≡ ok tt (with_event (on_destroy_stream s) (without_player s p t))
  unfolding invoke_delete_stream forget_stream
  forgotten p cmd w t entered stopped playing plays =
      rw (entered, invoke_delete_stream)
        (destroyed p (without_entry c cmd.delete_stream_id w) t stopped playing plays)

  -- The deletion of a stream that plays with the player `p`, when `t` is the world behind the end of
  -- what it published.
  on_command-delete_player :
      (p : ℕ) (cmd : DeleteStreamCommand) (w t : World)
      → lookup cmd.delete_stream_id (w.conns c).streams ≡ some s
      → stop_publishing s (without_entry c cmd.delete_stream_id w) ≡ ok tt t
      → (t.stream s).playing ≡ true
      → t.players s ≡ some p
      → on_command {a = a} app_of c (Command.delete_stream cmd) w
        ≡ ok tt (with_event (on_destroy_stream s) (without_player s p t))
  unfolding on_command dispatch conn_invoke raw_command
  on_command-delete_player p cmd w t entered stopped playing plays =
      catch_ok (dispatch {a = a} app_of c (Command.delete_stream cmd)) _ w _ tt
        (forgotten p cmd w t entered stopped playing plays)

  -- The world behind a `play` and a `deleteStream`.
  abbrev pub after_delete : PlayCommand a → DeleteStreamCommand → World → World
  after_delete cmd del w = left_by (
      on_command {a = a} app_of c (Command.delete_stream del)
        (left_by (on_command {a = a} app_of c (Command.play cmd) w)))

  -- A stream that does not publish, is addressed and can play, plays and is then deleted: no name and
  -- no media stream changes, its player is closed and in the table no more, and the connection knows
  -- the stream no more.
  pub play_then_delete :
      (cmd : PlayCommand a) (del : DeleteStreamCommand) (m : ℕ) (w : World)
      → IsAddressed c s cmd.stream_id w
      → del.delete_stream_id ≡ cmd.stream_id
      → (w.stream s).publishing ≡ false
      → CanPlay s cmd.name m w
      → let w' : World = after_delete cmd del w in
        (w'.streams ≡ w.streams)
        × (w'.media ≡ w.media)
        × ((w'.player w.next_player).closed ≡ true)
        × (w'.players s ≡ none)
        × (lookup cmd.stream_id (w'.conns c).streams ≡ none)
  play_then_delete cmd del m w p same silent can =
      let w' = after_play s cmd m w in
      let t = without_entry c del.delete_stream_id w' in
      rw
        (
          on_command-play a app_of c s cmd m w p can,
          on_command-delete_player w.next_player del w' t (rw same p.entered)
              (stop_publishing_none s t (ground arith)) (ground arith) (ground arith),
        )
        (
          refl,
          refl,
          ground arith,
          ground arith,
          ground
              (arith, same, lookup-remove del.delete_stream_id cmd.stream_id (w.conns c).streams),
        )

  -- A stream that is publishing, plays the stream of another name, and is then deleted: the other
  -- name is taken out of the table and its media stream is closed, while the name that the stream
  -- published under stands for what it stood for.
  pub play_takes_down :
      (cmd : PlayCommand a) (del : DeleteStreamCommand) (m : ℕ) (w : World)
      → IsAddressed c s cmd.stream_id w
      → del.delete_stream_id ≡ cmd.stream_id
      → (w.stream s).publishing ≡ true
      → (w.stream s).name ≢ cmd.name
      → CanPlay s cmd.name m w
      → let w' : World = after_delete cmd del w in
        (w'.streams cmd.name ≡ none)
        × ((w'.media m).closed ≡ true)
        × (w'.streams (w.stream s).name ≡ w.streams (w.stream s).name)
  play_takes_down cmd del m w p same busy differ can =
      let w' = after_play s cmd m w in
      let v = without_entry c del.delete_stream_id w' in
      let name : (w'.stream s).name ≡ cmd.name = ground arith in
      let t = without_name (w'.stream s).name m v in
      rw
        (
          on_command-play a app_of c s cmd m w p can,
          on_command-delete_player w.next_player del w' t (rw same p.entered)
              (stop_publishing_lem s m v (ground arith) (rw name can.stands)) (ground arith)
              (ground arith),
        )
        (
          ground (arith, eq_iff cmd.name cmd.name),
          ground arith,
          ground (arith, eq_iff cmd.name (w.stream s).name),
        )
