-- ===== src/Media/Stream/Headers.antt =====
-- The headers that are kept, and the bytes that are counted.
use gortmp.Base.{◌%◌, ◌^◌}
use gortmp.Base.{ℕ, ◌+◌, ◌≡◌, refl, ap, ◌∙◌, List, [], ◌∷◌, Bool, true, false, Option, none, some}
use gortmp.Base.{◌==◌, if◌then◌else◌, arith}
use gortmp.Media.Stream.Channels.{stopped-run}
use gortmp.Media.{FlvTag, get_audio_header, get_video_header}
use gortmp.Media.Stream.{
  MediaStream, Stats, handle, Event, published, subscribed, unsubscribed, done, step, run,
  store_headers, send_tag, add_subscriber, remove_subscriber, shut_down, new_media_stream,
  is_audio_header, is_video_header, update_bps,
}

-- The tags that are published before the stream ends.
abbrev pub live_tags : List Event → List FlvTag
live_tags [] = []
live_tags (published tag ∷ es) = tag ∷ live_tags es
live_tags (subscribed ∷ es) = live_tags es
live_tags (unsubscribed ch ∷ es) = live_tags es
live_tags (done ∷ es) = []

-- The first and the last tag of a kind, or what there was before.
abbrev pub first_of : (FlvTag → Bool) → Option FlvTag → List FlvTag → Option FlvTag
first_of p (some h) ts = some h
first_of p none [] = none
first_of p none (t ∷ ts) = let more = first_of p none ts in if p t then some t else more

abbrev pub last_of : (FlvTag → Bool) → Option FlvTag → List FlvTag → Option FlvTag
last_of p h [] = h
last_of p h (t ∷ ts) = last_of p (if p t then some t else h) ts

abbrev pub size_of : (FlvTag → Bool) → List FlvTag → ℕ
size_of p [] = 0
size_of p (t ∷ ts) = (if p t then t.size else 0) + size_of p ts

abbrev pub is_type : ℕ → FlvTag → Bool
is_type k tag = tag.type == k

-- What a media stream should have kept of the tags `ts`.
pub record Keeps (ms : MediaStream) (ts : List FlvTag) (ms' : MediaStream) : Type 0 where
  pub data_header : ms'.data_header ≡ first_of (is_type 18) ms.data_header ts
  pub audio_header : ms'.audio_header ≡ first_of is_audio_header ms.audio_header ts
  pub video_header : ms'.video_header ≡ last_of is_video_header ms.video_header ts
  pub bytes : ms'.stats.bytes % 2 ^ 64 ≡ (ms.stats.bytes + size_of (λ _. true) ts) % 2 ^ 64
  pub audio_bytes :
      ms'.stats.audio_bytes % 2 ^ 64 ≡ (ms.stats.audio_bytes + size_of (is_type 8) ts) % 2 ^ 64
  pub video_bytes :
      ms'.stats.video_bytes % 2 ^ 64 ≡ (ms.stats.video_bytes + size_of (is_type 9) ts) % 2 ^ 64

module _ (ms : MediaStream) (t : FlvTag) (ts : List FlvTag) (r : ms.stopped ≡ false) where
  abbrev next : MediaStream
  next = step ms (published t)

  data_header_step :
      first_of (is_type 18) next.data_header ts ≡ first_of (is_type 18) ms.data_header (t ∷ ts)
  unfolding step send_tag store_headers
  data_header_step = ground (arith)

  audio_header_step :
      first_of is_audio_header next.audio_header ts
      ≡ first_of is_audio_header ms.audio_header (t ∷ ts)
  unfolding step send_tag store_headers is_audio_header get_audio_header
  audio_header_step = ground (arith)

  video_header_step :
      last_of is_video_header next.video_header ts
      ≡ last_of is_video_header ms.video_header (t ∷ ts)
  unfolding step send_tag store_headers is_video_header get_video_header
  video_header_step = ground (arith)

  counters_step :
      (next.stats.bytes % 2 ^ 64 ≡ (ms.stats.bytes + t.size) % 2 ^ 64)
      × (next.stats.audio_bytes % 2 ^ 64
          ≡ (ms.stats.audio_bytes + (if t.type == 8 then t.size else 0)) % 2 ^ 64)
      × (next.stats.video_bytes % 2 ^ 64
          ≡ (ms.stats.video_bytes + (if t.type == 9 then t.size else 0)) % 2 ^ 64)
  unfolding step send_tag store_headers update_bps
  counters_step = ground (arith)

  running_step : next.stopped ≡ false
  unfolding step send_tag store_headers
  running_step = ground (arith)

  published-Keeps : (ms' : MediaStream) → Keeps next ts ms' → Keeps ms (t ∷ ts) ms'
  published-Keeps ms' k =
      let (all, audio, video) = counters_step in
      record {
        data_header = k.data_header ∙ data_header_step;
        audio_header = k.audio_header ∙ audio_header_step;
        video_header = k.video_header ∙ video_header_step;
        bytes = omega (arith, k.bytes, all);
        audio_bytes = omega (arith, k.audio_bytes, audio);
        video_bytes = omega (arith, k.video_bytes, video);
      }

nothing-Keeps : (ms : MediaStream) → Keeps ms [] ms
nothing-Keeps ms = record {
  data_header = ground arith;
  audio_header = ground arith;
  video_header = refl;
  bytes = omega arith;
  audio_bytes = omega arith;
  video_bytes = omega arith;
}

running-handle : (ms : MediaStream) (e : Event) → ms.stopped ≡ false → step ms e ≡ handle ms e
unfolding step
running-handle ms e r = rw r refl

-- A subscriber that comes or leaves changes no header or counter, and the end neither.
shared-Keeps :
    (ms ms' : MediaStream) (ts : List FlvTag) (t : MediaStream)
    → ms'.data_header ≡ ms.data_header
    → ms'.audio_header ≡ ms.audio_header
    → ms'.video_header ≡ ms.video_header
    → ms'.stats ≡ ms.stats
    → Keeps ms' ts t
    → Keeps ms ts t
shared-Keeps ms ms' ts t d a v st k = record {
  data_header = k.data_header ∙ ap (λ h. first_of (is_type 18) h ts) d;
  audio_header = k.audio_header ∙ ap (λ h. first_of is_audio_header h ts) a;
  video_header = k.video_header ∙ ap (λ h. last_of is_video_header h ts) v;
  bytes = k.bytes ∙ ap (λ (s : Stats). (s.bytes + size_of (λ _. true) ts) % 2 ^ 64) st;
  audio_bytes =
      k.audio_bytes ∙ ap (λ (s : Stats). (s.audio_bytes + size_of (is_type 8) ts) % 2 ^ 64) st;
  video_bytes =
      k.video_bytes ∙ ap (λ (s : Stats). (s.video_bytes + size_of (is_type 9) ts) % 2 ^ 64) st;
}

subscribed-running : (ms : MediaStream) → ms.stopped ≡ false → (step ms subscribed).stopped ≡ false
unfolding step add_subscriber
subscribed-running ms r = ground arith

unsubscribed-running :
    (ms : MediaStream) (ch : ℕ) → ms.stopped ≡ false → (step ms (unsubscribed ch)).stopped ≡ false
unfolding step remove_subscriber
unsubscribed-running ms ch r = ground arith

run-Keeps-from :
    (es : List Event) (ms : MediaStream) → ms.stopped ≡ false → Keeps ms (live_tags es) (run ms es)
unfolding run handle add_subscriber remove_subscriber shut_down
run-Keeps-from [] ms r = nothing-Keeps ms
run-Keeps-from (published tag ∷ es) ms r =
    published-Keeps ms tag (live_tags es) r (run (step ms (published tag)) es)
      (run-Keeps-from es (step ms (published tag)) (running_step ms tag (live_tags es) r))
run-Keeps-from (subscribed ∷ es) ms r = rw (running-handle ms subscribed r) (
    shared-Keeps ms (add_subscriber ms) (live_tags es) (run (add_subscriber ms) es) refl refl refl
      refl
      (rw (← running-handle ms subscribed r)
        (run-Keeps-from es (step ms subscribed) (subscribed-running ms r))))
run-Keeps-from (unsubscribed ch ∷ es) ms r = rw (running-handle ms (unsubscribed ch) r) (
    shared-Keeps ms (remove_subscriber ch ms) (live_tags es) (run (remove_subscriber ch ms) es) refl
      refl refl refl
      (rw (← running-handle ms (unsubscribed ch) r)
        (run-Keeps-from es (step ms (unsubscribed ch)) (unsubscribed-running ms ch r))))
run-Keeps-from (done ∷ es) ms r =
    rw (running-handle ms done r, stopped-run es (shut_down ms) refl)
      (shared-Keeps ms (shut_down ms) [] (shut_down ms) refl refl refl refl
        (nothing-Keeps (shut_down ms)))

-- Of a new media stream, for every sequence of events and the tags published before its end: the data
-- header is the first data tag, the audio header the first AAC sequence header, the video header the
-- last AVC sequence header, each if there was one; and the three counters are, modulo 2 ^ 64, the sizes
-- of all tags, of the audio tags and of the video tags.
pub run-Keeps : (es : List Event) → Keeps new_media_stream (live_tags es) (run new_media_stream es)
unfolding new_media_stream
run-Keeps es = run-Keeps-from es new_media_stream refl
