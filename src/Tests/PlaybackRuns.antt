-- ===== src/Tests/PlaybackRuns.antt =====
-- A media buffer of five bytes and its reader, while a stream is published to.
use gortmp.Base.{◌≡◌, refl, List, [], ◌∷◌, ◌++◌, take, ◌≤◌, ◌⊎◌, arith}
use mathlib.Core.List.{Sublistᴰ}
use gortmp.Media.{FlvTag, get_video_header}
use gortmp.Media.Buffer.Accounts.{total}
use gortmp.Media.Buffer
use gortmp.Media.Stream.{
  published, done, new_media_stream, store_headers, send_tag, add_subscriber, shut_down,
  is_key_frame, is_video_header, update_bps,
}
use gortmp.Media.Stream
use gortmp.Media.Stream.Delivery.{headers, from_key_frame, tags_for}
use gortmp.Media.Playback.{
  Playback, Event, streams, arrives, gets, start, step, run, receive, stream_events,
}
use gortmp.Media.Playback.Plays.{run-Plays}

abbrev key : FlvTag
key = record { type = 9; timestamp = 40; size = 3; bytes = 0x17 ∷ 1 ∷ 20 ∷ [] }

abbrev between : FlvTag
between = record { type = 9; timestamp = 60; size = 3; bytes = 0x27 ∷ 1 ∷ 20 ∷ [] }

-- The second tag of the two that arrive together does not fit.
abbrev events : List Event
events =
    streams (published between)
    ∷ streams (published key)
    ∷ arrives
    ∷ streams (published between)
    ∷ arrives
    ∷ gets
    ∷ streams (published key)
    ∷ arrives
    ∷ streams done
    ∷ arrives
    ∷ gets
    ∷ []

events_run :
    let p : Playback = run (start new_media_stream 5) events in
    p.buffer.out ++ p.buffer.tags ≡ key ∷ key ∷ []
unfolding run step receive start new_media_stream Stream.step send_tag store_headers add_subscriber
    shut_down is_key_frame is_video_header get_video_header update_bps Buffer.step Buffer.push
events_run = refl

run-Plays_example :
    let p : Playback = run (start new_media_stream 5) events in
    let due : List FlvTag =
      headers new_media_stream ++ from_key_frame (tags_for 0 (stream_events events)) in
    let played : List FlvTag = p.buffer.out ++ p.buffer.tags in
    Sublistᴰ played (take p.received due) × ((played ≡ take p.received due) ⊎ (5 ≤ total due))
unfolding new_media_stream
run-Plays_example = run-Plays new_media_stream 5 events refl refl (omega arith)
