-- ===== src/Server/Streams.antt =====
-- stream.go, the stream handler of server.go, and the loop of mediaplayer.go.
use Prim.Native.String.{String}
use text.Mathlib.Text.{◌==◌ as str_eq}
use gortmp.Base.{ℕ, Bool, true, false, ◌&&◌, ◌||◌, not, Option, none, some, ◌==◌, if◌then◌else◌}
use gortmp.Message.{Message, cs_id_command, audio_type, video_type, data_amf0}
use gortmp.Media.{FlvTag}
use gortmp.Command.{Amf, Command, PlayCommand, PublishCommand}
use gortmp.Server.{
  Act, ok, failed, Status, Content, on_publish, on_play, published, ◌>>=◌, ◌>>◌, pure, fail, catch,
  world, modify, set_stream, send, emit, update, publish_bad_name, play_failed,
}
use gortmp.Server.Tables.{
  new_media, close_media, put_stream, del_stream, put_player, del_player, new_player, start_player,
  close_player,
}

abbrev pub publish_start : Status
publish_start = record { level = "status"; code = "NetStream.Publish.Start" }

abbrev pub play_reset : Status
play_reset = record { level = "status"; code = "NetStream.Play.Reset" }

abbrev pub play_start : Status
play_start = record { level = "status"; code = "NetStream.Play.Start" }

-- `serverStreamHandler.OnPublish` and `OnPlay`, for a stream that has a handler.
unfoldable pub handle_publish : ℕ → Act (Unit {0})
handle_publish s w =
    let x = w.stream s in
    let ms = w.streams x.name in
    if x.handled
    then emit (on_publish s ms) (set_stream s (record x { media_stream = ms }) w)
    else ok tt w

unfoldable pub handle_play : ℕ → Act (Unit {0})
handle_play s w =
    let x = w.stream s in
    let mp = w.players s in
    if x.handled
    then emit (on_play s mp) (set_stream s (record x { media_player = mp }) w)
    else ok tt w

-- `stream.Send`, which puts in the stream's own chunk stream and ID.
unfoldable pub send_on_stream : ℕ → Content → Act (Unit {0})
send_on_stream s content w = send (w.stream s).conn (w.stream s).csid (w.stream s).id content w

unfoldable pub mark_publishing : ℕ → String → Act (Unit {0})
mark_publishing s name =
    modify (λ w. set_stream s (record (w.stream s) { name = name; publishing = true }) w)

unfoldable pub mark_playing : ℕ → String → Act (Unit {0})
mark_playing s name =
    modify (λ w. set_stream s (record (w.stream s) { name = name; playing = true }) w)

unfoldable pub invoke_publish : ℕ → PublishCommand → Act (Unit {0})
invoke_publish s cmd = if str_eq cmd.name "" then fail publish_bad_name else (do
  w ← world
  send (w.stream s).conn cs_id_command cmd.stream_id
      (Content.on_status cmd.transaction_id publish_start)
  mark_publishing s cmd.name
  handle_publish s)

unfoldable pub invoke_play : {a : Amf} → ℕ → PlayCommand a → Act (Unit {0})
invoke_play s cmd = if str_eq cmd.name "" then fail play_failed else (do
  send_on_stream s (Content.play_info play_reset cmd.name)
  send_on_stream s (Content.play_info play_start cmd.name)
  mark_playing s cmd.name
  handle_play s)

-- `stream.Invoke`
unfoldable pub invoke : {a : Amf} → ℕ → Command a → Act (Unit {0})
invoke s (Command.publish cmd) = invoke_publish s cmd
invoke s (Command.play cmd) = invoke_play s cmd
invoke s _ = pure tt

-- `invokePublish` behind the call of `putStream`.
unfoldable pub publish_placed : ℕ → PublishCommand → ℕ → Bool → Act (Unit {0})
publish_placed s cmd m false = do close_media m; fail publish_bad_name
publish_placed s cmd m true =
    catch (invoke_publish s cmd) (λ f. (do del_stream cmd.name; close_media m; fail f))

-- `serverStreamHandler.invokePublish`, whose callback is the stream's.
unfoldable pub server_publish : ℕ → PublishCommand → Act (Unit {0})
server_publish s cmd = do
  m ← new_media s
  placed ← put_stream cmd.name m
  publish_placed s cmd m placed

-- On a stream that plays already the new player is closed and the old one taken out of the table.
unfoldable pub unless_placed : ℕ → ℕ → Bool → Act (Unit {0})
unless_placed s p true = pure tt
unless_placed s p false = do close_player p; del_player s

unfoldable pub play_from : {a : Amf} → ℕ → PlayCommand a → ℕ → Act (Unit {0})
play_from s cmd m = do
  p ← new_player m s
  placed ← put_player s p
  unless_placed s p placed
  catch (invoke_play s cmd) (λ f. (do del_player s; close_player p; fail f))
  start_player p

-- `serverStreamHandler.invokePlay`, which goes on with a player that was not placed.
unfoldable pub server_play : {a : Amf} → ℕ → PlayCommand a → Act (Unit {0})
server_play s cmd w = elim (w.streams cmd.name) [
  | none ↦ failed play_failed w
  | some m ↦ play_from s cmd m w
]

-- `serverStreamHandler.Invoke`, with a server handler that passes each command on.
unfoldable pub server_invoke : {a : Amf} → ℕ → Command a → Act (Unit {0})
server_invoke s (Command.publish cmd) = server_publish s cmd
server_invoke s (Command.play cmd) = server_play s cmd
server_invoke s cmd = invoke s cmd

-- `stream.OnCommand`
unfoldable pub on_stream_command : {a : Amf} → ℕ → Command a → Act (Unit {0})
on_stream_command s cmd w = if (w.stream s).handled then server_invoke s cmd w else invoke s cmd w

abbrev pub tag_of : Message → FlvTag
tag_of msg = record {
  type = msg.type;
  timestamp = msg.absolute_timestamp;
  size = msg.size;
  bytes = msg.buf;
}

abbrev pub is_media : ℕ → Bool
is_media type = (type == video_type) || ((type == audio_type) || (type == data_amf0))

-- `stream.OnReceive` and `serverStreamHandler.OnReceive`. `Publish` on a closed media stream is an
-- error that is dropped: its loop is taken to have returned.
unfoldable pub on_stream_receive : ℕ → Message → Act (Unit {0})
on_stream_receive s msg w = elim ((w.stream s).media_stream) [
  | none ↦ ok tt w
  | some m ↦
      if (w.stream s).handled && (is_media msg.type && not (w.media m).closed)
      then emit (published m (tag_of msg)) w
      else ok tt w
]

-- One round of `mediaPlayer.loop`, with the tag that `Get` returns or its error.
unfoldable pub end_player : ℕ → Act (Unit {0})
end_player p = modify (λ w. record w {
  player = update w.player p (record (w.player p) { finished = true; closed = true });
})

unfoldable pub play_tag : ℕ → Option FlvTag → Act (Unit {0})
play_tag p none w = end_player p w
play_tag p (some tag) w =
    catch (send_on_stream (w.player p).stream (Content.media tag)) (λ f. end_player p) w
