-- ===== src/Server/Playing/Accepted.antt =====
-- `play` accepted: on a stream of the connection, with a new player.
use Prim.Native.String.{String}
use text.Mathlib.TextEquality.{eq_iff}
use gortmp.Base.{ℕ, ◌+◌, ◌≡◌, ◌≢◌, refl, ◌∙◌, [], ◌∷◌, ◌++◌, true, false, Option, none, some, arith}
use gortmp.Base.{◌==◌}
use gortmp.Command.{Amf, Command, PlayCommand}
use gortmp.Command.Parse.{raw_command}
use gortmp.Server.{World, Stream, Content, sent, on_play, ok, update, send, catch}
use gortmp.Server.Tables.{new_player, put_player, start_player}
use gortmp.Server.Streams.{
  send_on_stream, mark_playing, handle_play, invoke_play, play_reset, play_start, play_from,
  unless_placed, server_play, server_invoke, on_stream_command,
}
use gortmp.Server.Connection.{dispatch, on_command}
use gortmp.Server.Keeps.{bind_ok, catch_ok}
use gortmp.Server.Publishing.{IsAddressed}

-- The worlds on the way of a `play` that is accepted: with the player, with it in the table, with the
-- stream playing, and with the player started.
abbrev with_player : ℕ → ℕ → World → World
with_player m s w = record w {
  player =
      update w.player w.next_player
        (record { stream = s; source = m; started = false; closed = false; finished = false });
  next_player = w.next_player + 1;
}

abbrev with_entry : ℕ → ℕ → World → World
with_entry s p w = record w { players = update w.players s (some p) }

abbrev with_playing : {a : Amf} → ℕ → PlayCommand a → World → World
with_playing s cmd w =
    let x : Stream = w.stream s in
    let x' : Stream = record x { name = cmd.name; playing = true } in
    record w {
      stream = update (update w.stream s x') s (record x' { media_player = w.players s });
      trace =
          ((w.trace ++ (sent x.conn x.csid x.id (Content.play_info play_reset cmd.name) ∷ []))
            ++ (sent x.conn x.csid x.id (Content.play_info play_start cmd.name) ∷ []))
          ++ (on_play s (w.players s) ∷ []);
    }

abbrev with_started : ℕ → World → World
with_started p w = record w { player = update w.player p (record (w.player p) { started = true }) }

abbrev pub after_play : {a : Amf} → ℕ → PlayCommand a → ℕ → World → World
after_play s cmd m w =
    with_started w.next_player (with_playing s cmd (with_entry s w.next_player (with_player m s w)))

-- A stream that can play: it has its handler and no player, sends succeed, and the name is that of
-- an open media stream.
pub record CanPlay (s : ℕ) (name : String) (m : ℕ) (w : World) : Type 0 where
  pub lucky : w.fates ≡ []
  pub named : name ≢ ""
  pub handled : (w.stream s).handled ≡ true
  pub idle : w.players s ≡ none
  pub stands : w.streams name ≡ some m
  pub live : (w.media m).closed ≡ false

module _ {a : Amf} (s : ℕ) (cmd : PlayCommand a) where
  invoke_play_lem :
      (w : World)
      → w.fates ≡ []
      → cmd.name ≢ ""
      → (w.stream s).handled ≡ true
      → invoke_play s cmd w ≡ ok tt (with_playing s cmd w)
  unfolding invoke_play send_on_stream send mark_playing handle_play
  invoke_play_lem w lucky named handled = ground (arith, eq_iff cmd.name "", named)

  module _ (m : ℕ) (w : World) (can : CanPlay s cmd.name m w) where
    new_player_lem : new_player m s w ≡ ok w.next_player (with_player m s w)
    unfolding new_player
    new_player_lem = ground (arith, can.live)

    put_player_lem :
        put_player s w.next_player (with_player m s w)
        ≡ ok true (with_entry s w.next_player (with_player m s w))
    unfolding put_player
    put_player_lem = ground (arith, can.idle)

    play_from_lem : play_from s cmd m w ≡ ok tt (after_play s cmd m w)
    unfolding play_from unless_placed start_player
    play_from_lem =
        let v = with_entry s w.next_player (with_player m s w) in
        bind_ok (new_player m s) _ w _ w.next_player new_player_lem
        ∙ bind_ok (put_player s w.next_player) _ _ _ true put_player_lem
        ∙ bind_ok (catch (invoke_play s cmd) _) _ v _ tt (
            catch_ok (invoke_play s cmd) _ v _ tt
              (invoke_play_lem v can.lucky can.named can.handled))

    server_play_lem : server_play s cmd w ≡ ok tt (after_play s cmd m w)
    unfolding server_play
    server_play_lem = rw (can.stands, server_play) play_from_lem

module _ (a : Amf) (app_of : a.Object → Option String) (c s : ℕ) where
  dispatch-play :
      (cmd : PlayCommand a) (w : World)
      → IsAddressed c s cmd.stream_id w
      → dispatch {a = a} app_of c (Command.play cmd) w ≡ server_play s cmd w
  unfolding dispatch on_stream_command server_invoke raw_command
  dispatch-play cmd w p =
      let nonzero : (cmd.stream_id == 0) ≡ false = ground (arith, p.nonzero) in
      rw (nonzero, dispatch, p.entered, p.handled) refl

  pub on_command-play :
      (cmd : PlayCommand a) (m : ℕ) (w : World)
      → IsAddressed c s cmd.stream_id w
      → CanPlay s cmd.name m w
      → on_command {a = a} app_of c (Command.play cmd) w ≡ ok tt (after_play s cmd m w)
  unfolding on_command
  on_command-play cmd m w p can =
      catch_ok (dispatch {a = a} app_of c (Command.play cmd)) _ w _ tt
        (dispatch-play cmd w p ∙ server_play_lem s cmd m w can)
