-- ===== src/Media/Stream/Delivery.antt =====
-- What a subscriber gets: the headers, and every tag from the first key frame on.
use gortmp.Base.{ℕ, ◌<◌, ◌≡◌, sym, ◌∙◌, List, [], ◌∷◌, ◌++◌, Bool, true, false}
use gortmp.Base.{Option, none, some, ◌==◌, if◌then◌else◌, append-nil, append_assoc, arith}
use gortmp.Base.{Bool-cases, inl, inr}
use gortmp.Media.{FlvTag, get_video_header}
use gortmp.Media.Stream.{
  MediaStream, fresh, Event, published, subscribed, unsubscribed, done, step, run, store_headers,
  send_tag, add_subscriber, remove_subscriber, shut_down, is_key_frame,
}

-- The tags that are published before the subscriber `sub` leaves or the stream ends.
abbrev pub tags_for : ℕ → List Event → List FlvTag
tags_for sub [] = []
tags_for sub (published tag ∷ es) = tag ∷ tags_for sub es
tags_for sub (subscribed ∷ es) = tags_for sub es
tags_for sub (unsubscribed ch ∷ es) = let more = tags_for sub es in if sub == ch then [] else more
tags_for sub (done ∷ es) = []

abbrev pub from_key_frame : List FlvTag → List FlvTag
from_key_frame [] = []
from_key_frame (t ∷ ts) = let more = from_key_frame ts in if is_key_frame t then t ∷ ts else more

-- The headers that a new subscriber is given.
abbrev pub header_list : Option FlvTag → List FlvTag
header_list none = []
header_list (some tag) = tag ∷ []

abbrev pub headers : MediaStream → List FlvTag
headers ms =
    header_list ms.data_header ++ (header_list ms.video_header ++ header_list ms.audio_header)

-- A subscriber of a running stream, with an open channel on which `sent` was sent.
record Subscribed (ms : MediaStream) (sub : ℕ) (started : Bool) (sent : List FlvTag) : Type 0 where
  running : ms.stopped ≡ false
  entered : ms.subs sub ≡ some started
  opened : (ms.channels sub).closed ≡ false
  got : (ms.channels sub).sent ≡ sent
  known : sub < ms.next

-- One that is gone.
record Gone (ms : MediaStream) (sub : ℕ) (sent : List FlvTag) : Type 0 where
  absent : ms.subs sub ≡ none
  had : (ms.channels sub).sent ≡ sent
  old : sub < ms.next

module _ (ms : MediaStream) (sub : ℕ) (sent : List FlvTag) where
  -- A started subscriber gets each tag.
  started-published :
      (tag : FlvTag)
      → Subscribed ms sub true sent
      → Subscribed (step ms (published tag)) sub true (sent ++ (tag ∷ []))
  unfolding step send_tag store_headers
  started-published tag s = ground arith

  waiting-published :
      (tag : FlvTag)
      → is_key_frame tag ≡ false
      → Subscribed ms sub false sent
      → Subscribed (step ms (published tag)) sub false sent
  unfolding step send_tag store_headers
  waiting-published tag k s = ground arith

  waiting-key_frame :
      (tag : FlvTag)
      → is_key_frame tag ≡ true
      → Subscribed ms sub false sent
      → Subscribed (step ms (published tag)) sub true (sent ++ (tag ∷ []))
  unfolding step send_tag store_headers is_key_frame get_video_header
  waiting-key_frame tag k s = ground arith

  kept-subscribed :
      (b : Bool) → Subscribed ms sub b sent → Subscribed (step ms subscribed) sub b sent
  unfolding step add_subscriber
  kept-subscribed b s = ground arith

  kept-unsubscribed :
      (b : Bool) (ch : ℕ)
      → (sub == ch) ≡ false
      → Subscribed ms sub b sent
      → Subscribed (step ms (unsubscribed ch)) sub b sent
  unfolding step remove_subscriber
  kept-unsubscribed b ch n s = ground arith

  Gone-unsubscribed :
      (b : Bool) (ch : ℕ)
      → (sub == ch) ≡ true
      → Subscribed ms sub b sent
      → Gone (step ms (unsubscribed ch)) sub sent
  unfolding step remove_subscriber
  Gone-unsubscribed b ch n s = ground arith

  Gone-done : (b : Bool) → Subscribed ms sub b sent → Gone (step ms done) sub sent
  unfolding step shut_down
  Gone-done b s = ground arith

  Gone-step : (e : Event) → Gone ms sub sent → Gone (step ms e) sub sent
  unfolding step send_tag store_headers add_subscriber remove_subscriber shut_down
  Gone-step (published tag) g = ground arith
  Gone-step subscribed g = ground arith
  Gone-step (unsubscribed ch) g = ground arith
  Gone-step done g = ground arith

Gone-run :
    (es : List Event) (ms : MediaStream) (sub : ℕ) (sent : List FlvTag)
    → Gone ms sub sent
    → ((run ms es).channels sub).sent ≡ sent
unfolding run
Gone-run [] ms sub sent g = g.had
Gone-run (e ∷ es) ms sub sent g = Gone-run es (step ms e) sub sent (Gone-step ms sub sent e g)

-- What is still sent to a subscriber that has started: every tag for it.
started-run :
    (es : List Event) (ms : MediaStream) (sub : ℕ) (sent : List FlvTag)
    → Subscribed ms sub true sent
    → ((run ms es).channels sub).sent ≡ sent ++ tags_for sub es
unfolding run
started-run [] ms sub sent s = s.got ∙ sym (append-nil sent)
started-run (published tag ∷ es) ms sub sent s =
    started-run es (step ms (published tag)) sub (sent ++ (tag ∷ []))
      (started-published ms sub sent tag s)
    ∙ append_assoc sent (tag ∷ []) (tags_for sub es)
started-run (subscribed ∷ es) ms sub sent s =
    started-run es (step ms subscribed) sub sent (kept-subscribed ms sub sent true s)
started-run (unsubscribed ch ∷ es) ms sub sent s = elim (Bool-cases (sub == ch)) [
  | inl e ↦ rw e (
      Gone-run es (step ms (unsubscribed ch)) sub sent (Gone-unsubscribed ms sub sent true ch e s)
      ∙ sym (append-nil sent))
  | inr e ↦ rw e (
      started-run es (step ms (unsubscribed ch)) sub sent
        (kept-unsubscribed ms sub sent true ch e s))
]
started-run (done ∷ es) ms sub sent s =
    Gone-run es (step ms done) sub sent (Gone-done ms sub sent true s) ∙ sym (append-nil sent)

-- To one that has not started: every tag for it from the first key frame on.
waiting-run :
    (es : List Event) (ms : MediaStream) (sub : ℕ) (sent : List FlvTag)
    → Subscribed ms sub false sent
    → ((run ms es).channels sub).sent ≡ sent ++ from_key_frame (tags_for sub es)
unfolding run
waiting-run [] ms sub sent s = s.got ∙ sym (append-nil sent)
waiting-run (published tag ∷ es) ms sub sent s = elim (Bool-cases (is_key_frame tag)) [
  | inl e ↦ rw e (
      started-run es (step ms (published tag)) sub (sent ++ (tag ∷ []))
        (waiting-key_frame ms sub sent tag e s)
      ∙ append_assoc sent (tag ∷ []) (tags_for sub es))
  | inr e ↦
      rw e
        (waiting-run es (step ms (published tag)) sub sent (waiting-published ms sub sent tag e s))
]
waiting-run (subscribed ∷ es) ms sub sent s =
    waiting-run es (step ms subscribed) sub sent (kept-subscribed ms sub sent false s)
waiting-run (unsubscribed ch ∷ es) ms sub sent s = elim (Bool-cases (sub == ch)) [
  | inl e ↦ rw e (
      Gone-run es (step ms (unsubscribed ch)) sub sent (Gone-unsubscribed ms sub sent false ch e s)
      ∙ sym (append-nil sent))
  | inr e ↦ rw e (
      waiting-run es (step ms (unsubscribed ch)) sub sent
        (kept-unsubscribed ms sub sent false ch e s))
]
waiting-run (done ∷ es) ms sub sent s =
    Gone-run es (step ms done) sub sent (Gone-done ms sub sent false s) ∙ sym (append-nil sent)

entered :
    (ms : MediaStream)
    → ms.stopped ≡ false
    → ms.channels ms.next ≡ fresh
    → Subscribed (step ms subscribed) ms.next false (headers ms)
unfolding step add_subscriber
entered ms r f = ground arith

-- A running stream whose next channel has not been used, and any events after the subscription: the
-- channel that `Subscribe` gives out gets the stored data, video and audio header, and then the tags
-- published until it leaves or the stream ends, from the first video key frame on, all of them and in
-- order. It does not depend on the other subscribers.
pub subscribe-Delivers :
    (ms : MediaStream) (es : List Event)
    → ms.stopped ≡ false
    → ms.channels ms.next ≡ fresh
    → ((run ms (subscribed ∷ es)).channels ms.next).sent
      ≡ headers ms ++ from_key_frame (tags_for ms.next es)
unfolding run
subscribe-Delivers ms es r f =
    waiting-run es (step ms subscribed) ms.next (headers ms) (entered ms r f)
