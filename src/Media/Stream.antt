-- ===== src/Media/Stream.antt =====
-- mediastream.go: a stream that is published to, with its subscribers. The loop is a step function
-- over what its select can meet.
--
-- A channel is what was sent on it and whether it is closed; to send on a closed channel or to close
-- it again is a panic, which marks the channel as faulty. A send is taken to be received: every
-- subscriber keeps reading until its channel is closed. The maps are functions of the channel, so the
-- order of `range subs`, which Go leaves open, does not matter. Channels are numbered in the order in
-- which `Subscribe` makes them. The counters are int64, kept as their 64 bits. The rates of
-- `updateBps` are kept as what they are the quotient of.
pub mod Delivery
pub mod Channels
pub mod Headers
use gortmp.Base.{ℕ, ◌+◌, ◌-◌, ◌/◌, ◌%◌, ◌^◌, ◌≤◌, List, [], ◌∷◌, ◌++◌, Bool, true, false, ◌&&◌, not}
use gortmp.Base.{Option, none, some, ◌==◌, if◌then◌else◌}
use gortmp.Message.{audio_type, video_type, data_amf0}
use gortmp.Media.{FlvTag, FlvAudioHeader, FlvVideoHeader, get_audio_header, get_video_header}

pub record Channel : Type 0 where
  pub sent : List FlvTag
  pub closed : Bool
  pub faulty : Bool

abbrev pub fresh : Channel
fresh = record { sent = []; closed = false; faulty = false }

-- `sub <- tag`
abbrev pub send_on : FlvTag → Channel → Channel
send_on tag c =
    if c.closed then record c { faulty = true } else record c { sent = c.sent ++ (tag ∷ []) }

-- `close(sub)`
abbrev pub close_channel : Channel → Channel
close_channel c = if c.closed then record c { faulty = true } else record c { closed = true }

-- A rate: so many bytes between two times.
pub record Span : Type 0 where
  pub bytes : ℕ
  pub from : ℕ
  pub to : ℕ

pub record Stats : Type 0 where
  pub video_bytes : ℕ
  pub audio_bytes : ℕ
  pub bytes : ℕ
  pub video_bps : Span
  pub audio_bps : Span
  pub bps : Span
  pub last_video_bytes : ℕ
  pub last_audio_bytes : ℕ
  pub last_bytes : ℕ
  pub last_ts : ℕ

pub record MediaStream : Type 0 where
  pub data_header : Option FlvTag
  pub audio_header : Option FlvTag
  pub video_header : Option FlvTag
  pub subs : ℕ → Option Bool
  pub channels : ℕ → Channel
  pub next : ℕ
  pub stats : Stats
  pub stopped : Bool

abbrev no_span : Span
no_span = record { bytes = 0; from = 0; to = 0 }

-- `NewMediaStream`
unfoldable pub new_media_stream : MediaStream
new_media_stream = record {
  data_header = none;
  audio_header = none;
  video_header = none;
  subs = λ _. none;
  channels = λ _. fresh;
  next = 0;
  stats = record {
    video_bytes = 0;
    audio_bytes = 0;
    bytes = 0;
    video_bps = no_span;
    audio_bps = no_span;
    bps = no_span;
    last_video_bytes = 0;
    last_audio_bytes = 0;
    last_bytes = 0;
    last_ts = 0;
  };
  stopped = false;
}

abbrev pub add64 : ℕ → ℕ → ℕ
add64 a b = (a + b) % 2 ^ 64

abbrev pub sub64 : ℕ → ℕ → ℕ
sub64 a b = (a + (2 ^ 64 - b)) % 2 ^ 64

unfoldable pub update_bps : ℕ → Stats → Stats
update_bps ts s = record s {
  video_bps = record { bytes = sub64 s.video_bytes s.last_video_bytes; from = s.last_ts; to = ts };
  audio_bps = record { bytes = sub64 s.audio_bytes s.last_audio_bytes; from = s.last_ts; to = ts };
  bps = record { bytes = sub64 s.bytes s.last_bytes; from = s.last_ts; to = ts };
  last_video_bytes = s.video_bytes;
  last_audio_bytes = s.audio_bytes;
  last_bytes = s.bytes;
  last_ts = ts;
}

-- The tests on a tag's header. `GetAudioHeader` is nil for no audio tag, `GetVideoHeader` for no
-- video tag.
unfoldable pub is_audio_header : FlvTag → Bool
is_audio_header tag = elim (get_audio_header tag) [
  | none ↦ false
  | some h ↦ (h.sound_format == 10) && (h.aac_packet_type == 0)
]

unfoldable pub is_key_frame : FlvTag → Bool
is_key_frame tag = elim (get_video_header tag) [ none ↦ false | some h ↦ h.frame_type == 1 ]

unfoldable pub is_video_header : FlvTag → Bool
is_video_header tag = elim (get_video_header tag) [
  | none ↦ false
  | some h ↦ (h.frame_type == 1) && ((h.codec_id == 7) && (h.avc_packet_type == 0))
]

abbrev pub or_else : Option FlvTag → Bool → FlvTag → Option FlvTag
or_else (some h) b tag = some h
or_else none b tag = if b then some tag else none

-- The switch on the type of a published tag.
unfoldable pub store_headers : FlvTag → MediaStream → MediaStream
store_headers tag ms =
    let counted : Stats = record ms.stats { bytes = add64 ms.stats.bytes tag.size } in
    if tag.type == audio_type
    then record ms {
      audio_header = or_else ms.audio_header (is_audio_header tag) tag;
      stats = record counted { audio_bytes = add64 counted.audio_bytes tag.size };
    }
    else if tag.type == video_type
    then (let counted' : Stats = record counted {
      video_bytes = add64 counted.video_bytes tag.size;
    } in
        record ms {
          video_header = if is_video_header tag then some tag else ms.video_header;
          stats = if is_key_frame tag then update_bps tag.timestamp counted' else counted';
        })
    else if tag.type == data_amf0
    then record ms { data_header = or_else ms.data_header true tag; stats = counted }
    else record ms { stats = counted }

-- Whether a subscriber gets a tag: from its first key frame on.
abbrev pub takes : FlvTag → Option Bool → Bool
takes tag none = false
takes tag (some true) = true
takes tag (some false) = (tag.type == video_type) && is_key_frame tag

abbrev pub started_by : FlvTag → Option Bool → Option Bool
started_by tag none = none
started_by tag (some b) = some (takes tag (some b))

-- `for sub, started := range subs`
unfoldable pub send_tag : FlvTag → MediaStream → MediaStream
send_tag tag ms = record ms {
  subs = λ ch. started_by tag (ms.subs ch);
  channels = λ ch. if takes tag (ms.subs ch) then send_on tag (ms.channels ch) else ms.channels ch;
}

abbrev pub send_header : Option FlvTag → Channel → Channel
send_header none c = c
send_header (some tag) c = send_on tag c

unfoldable pub add_subscriber : MediaStream → MediaStream
add_subscriber ms = record ms {
  subs = λ ch. if ch == ms.next then some false else ms.subs ch;
  channels = λ ch.
      if ch == ms.next
      then send_header ms.audio_header
          (send_header ms.video_header (send_header ms.data_header (ms.channels ch)))
      else ms.channels ch;
  next = ms.next + 1;
}

abbrev pub found : Option Bool → Bool
found none = false
found (some b) = true

unfoldable pub remove_subscriber : ℕ → MediaStream → MediaStream
remove_subscriber sub ms = record ms {
  subs = λ ch. if ch == sub then none else ms.subs ch;
  channels = λ ch.
      if (ch == sub) && found (ms.subs ch) then close_channel (ms.channels ch) else ms.channels ch;
}

-- The deferred function: every channel that is still subscribed is closed. The map goes with the
-- loop.
unfoldable pub shut_down : MediaStream → MediaStream
shut_down ms = record ms {
  subs = λ _. none;
  channels = λ ch. if found (ms.subs ch) then close_channel (ms.channels ch) else ms.channels ch;
  stopped = true;
}

-- What the select meets: a tag, a new subscriber, a subscriber that leaves, or the end.
pub data Event : Type 0 where
  published : FlvTag → Event
  subscribed : Event
  unsubscribed : ℕ → Event
  done : Event

unfoldable pub handle : MediaStream → Event → MediaStream
handle ms (published tag) = send_tag tag (store_headers tag ms)
handle ms subscribed = add_subscriber ms
handle ms (unsubscribed sub) = remove_subscriber sub ms
handle ms done = shut_down ms

-- Once the loop has returned, `Publish`, `Subscribe` and `Unsubscribe` do nothing to it.
unfoldable pub step : MediaStream → Event → MediaStream
unfolding handle
step ms e = if ms.stopped then ms else handle ms e

unfoldable pub run : MediaStream → List Event → MediaStream
run ms [] = ms
run ms (e ∷ es) = run (step ms e) es

-- `Publish`, `Subscribe` and `Unsubscribe` after the loop has ended: MediaStreamClosed, or nothing.
pub data Answer : Type 0 where
  accepted : Answer
  media_stream_closed : Answer

unfoldable pub publish : FlvTag → MediaStream → MediaStream × Answer
unfolding step
publish tag ms = (step ms (published tag), if ms.stopped then media_stream_closed else accepted)

-- With the channel.
unfoldable pub subscribe : MediaStream → MediaStream × Option ℕ
unfolding step
subscribe ms = (step ms subscribed, if ms.stopped then none else some ms.next)
