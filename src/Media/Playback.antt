-- ===== src/Media/Playback.antt =====
-- A media stream, the media buffer that subscribes to it, and the reader of the buffer, together.
--
-- The loops of mediastream.go and mediabuffer.go run side by side: what the stream sends on the
-- buffer's channel arrives at the buffer some time later, in the order in which it was sent, and the
-- reader, which is the loop of a media player, calls `Get` at any time.
pub mod Channel
pub mod Arrival
pub mod Plays
use gortmp.Base.{ℕ, suc, List, [], ◌∷◌, drop, Bool, true, false, if◌then◌else◌}
use gortmp.Media.{FlvTag}
use gortmp.Media.Buffer.{MediaBuffer, new_media_buffer, tag_in, closed, wanted}
use gortmp.Media.Buffer
use gortmp.Media.Stream.{MediaStream, subscribed}
use gortmp.Media.Stream

pub record Playback : Type 0 where
  pub stream : MediaStream
  pub channel : ℕ
  pub received : ℕ
  pub buffer : MediaBuffer

-- `NewMediaBuffer`: the stream enters a new channel, and the buffer's loop starts.
unfoldable pub start : MediaStream → ℕ → Playback
start ms max_size = record {
  stream = Stream.step ms subscribed;
  channel = ms.next;
  received = 0;
  buffer = new_media_buffer max_size;
}

pub data Event : Type 0 where
  streams : Stream.Event → Event
  arrives : Event
  gets : Event

-- `tag, ok := <-mb.sub`: the next tag on the channel, the end if it is closed, or nothing yet.
unfoldable pub receive : List FlvTag → Playback → Playback
receive (tag ∷ rest) p = record p {
  received = suc p.received;
  buffer = Buffer.step p.buffer (tag_in tag);
}
receive [] p =
    if (p.stream.channels p.channel).closed
    then record p { buffer = Buffer.step p.buffer closed }
    else p

unfoldable pub step : Playback → Event → Playback
step p (streams e) = record p { stream = Stream.step p.stream e }
step p arrives =
    if p.buffer.stopped then p else receive (drop p.received (p.stream.channels p.channel).sent) p
step p gets = record p { buffer = Buffer.step p.buffer wanted }

unfoldable pub run : Playback → List Event → Playback
run p [] = p
run p (e ∷ es) = run (step p e) es

-- What happened to the stream meanwhile.
abbrev pub stream_events : List Event → List Stream.Event
stream_events [] = []
stream_events (streams e ∷ es) = e ∷ stream_events es
stream_events (arrives ∷ es) = stream_events es
stream_events (gets ∷ es) = stream_events es
