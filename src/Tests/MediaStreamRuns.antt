-- ===== src/Tests/MediaStreamRuns.antt =====
-- mediastream.go on concrete events.
use gortmp.Base.{◌≡◌, refl, List, [], ◌∷◌, ◌++◌, none}
use gortmp.Base.{ltb}
use gortmp.Media.{FlvTag, get_video_header}
use gortmp.Media.Stream.{
  MediaStream, Event, published, subscribed, unsubscribed, done, new_media_stream, step, run,
  store_headers, send_tag, add_subscriber, remove_subscriber, is_key_frame, is_video_header,
  update_bps, publish, subscribe, media_stream_closed,
}
use gortmp.Media.Stream.Delivery.{headers, from_key_frame, tags_for, subscribe-Delivers}
use gortmp.Media.Stream.Channels.{IsSound, run-IsSound, run_ends}
use gortmp.Media.Stream.Headers.{Keeps, live_tags, run-Keeps}

-- An AVC sequence header, a key frame, a frame between, and a sound.
abbrev setup : FlvTag
setup = record { type = 9; timestamp = 0; size = 3; bytes = 0x17 ∷ 0 ∷ 20 ∷ [] }

abbrev key : FlvTag
key = record { type = 9; timestamp = 40; size = 3; bytes = 0x17 ∷ 1 ∷ 20 ∷ [] }

abbrev between : FlvTag
between = record { type = 9; timestamp = 60; size = 3; bytes = 0x27 ∷ 1 ∷ 20 ∷ [] }

abbrev sound : FlvTag
sound = record { type = 8; timestamp = 50; size = 2; bytes = 0xaf ∷ 1 ∷ [] }

abbrev before : MediaStream
before = run new_media_stream (published setup ∷ subscribed ∷ [])

abbrev events : List Event
events =
    published between
    ∷ published sound
    ∷ published key
    ∷ subscribed
    ∷ published sound
    ∷ unsubscribed 1
    ∷ published between
    ∷ []

sent_to_second : ((run before (subscribed ∷ events)).channels 1).sent ≡ setup ∷ key ∷ sound ∷ []
unfolding new_media_stream run step send_tag store_headers add_subscriber remove_subscriber
    is_key_frame is_video_header get_video_header update_bps
sent_to_second = refl

subscribe-Delivers_example :
    ((run before (subscribed ∷ events)).channels 1).sent
    ≡ headers before ++ from_key_frame (tags_for 1 events)
unfolding new_media_stream run step send_tag store_headers add_subscriber is_video_header
    get_video_header is_key_frame update_bps
subscribe-Delivers_example = subscribe-Delivers before events refl refl

run-IsSound_example : IsSound (run new_media_stream events) 1
run-IsSound_example = run-IsSound events 1

run_ends_example :
    let t : MediaStream = run new_media_stream (events ++ (done ∷ [])) in
    ((t.channels 0).closed ≡ ltb 0 t.next)
    × (publish key t ≡ (t, media_stream_closed))
    × (subscribe t ≡ (t, none))
run_ends_example = run_ends events 0 key

run-Keeps_example : Keeps new_media_stream (live_tags events) (run new_media_stream events)
run-Keeps_example = run-Keeps events
