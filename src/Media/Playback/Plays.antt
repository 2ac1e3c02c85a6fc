-- ===== src/Media/Playback/Plays.antt =====
-- What the reader of a media buffer gets of a media stream.
use gortmp.Base.{ℕ, ◌^◌, ◌≤◌, ◌<◌, ◌≡◌, refl, ap, ◌∙◌, subst, arith, inl, inr}
use gortmp.Base.{List, [], ◌∷◌, ◌++◌, take}
use gortmp.Base.{◌⊎◌, false, le-or-lt}
use mathlib.Core.List.{Sublistᴰ}
use gortmp.Media.{FlvTag}
use gortmp.Media.Buffer.Accounts.{total}
use gortmp.Media.Stream.{MediaStream, subscribed, fresh}
use gortmp.Media.Stream
use gortmp.Media.Stream.Delivery.{headers, from_key_frame, tags_for, subscribe-Delivers}
use gortmp.Media.Playback.{
  Playback, Event, streams, arrives, gets, start, receive, step, run, stream_events,
}
use gortmp.Media.Playback.Arrival.{
  sent, InOrder, Lossless, arrived_before, arrives_cases, step-InOrder, step-Lossless,
}

same_sent :
    (p : Playback) (tag : FlvTag) (rest : List FlvTag)
    → total (sent p) ≤ total (sent (receive (tag ∷ rest) p))
unfolding receive
same_sent p tag rest = omega arith

sent-step : (p : Playback) (e : Event) → InOrder p → total (sent p) ≤ total (sent (step p e))
unfolding step
sent-step p (streams e) o = let (taken, known, size) = arrived_before p e o.known in size
sent-step p arrives o =
    arrives_cases (λ q. total (sent p) ≤ total (sent q)) p (omega arith)
      (λ tag rest running d. same_sent p tag rest) (omega arith)
sent-step p gets o = omega arith

run-InOrder : (es : List Event) (p : Playback) → InOrder p → InOrder (run p es)
unfolding run
run-InOrder [] p o = o
run-InOrder (e ∷ es) p o = run-InOrder es (step p e) (step-InOrder p e o)

sent-run : (es : List Event) (p : Playback) → InOrder p → total (sent p) ≤ total (sent (run p es))
unfolding run
sent-run [] p o = omega arith
sent-run (e ∷ es) p o = omega (arith, sent-step p e o, sent-run es (step p e) (step-InOrder p e o))

run-Lossless :
    (es : List Event) (max_size : ℕ) (p : Playback)
    → max_size ≤ 2 ^ 31
    → total (sent (run p es)) < max_size
    → InOrder p
    → Lossless max_size p
    → Lossless max_size (run p es)
unfolding run
run-Lossless [] max_size p narrow small o l = l
run-Lossless (e ∷ es) max_size p narrow small o l =
    run-Lossless es max_size (step p e) narrow small (step-InOrder p e o) (
      step-Lossless max_size p e narrow
        (omega (arith, sent-step p e o, sent-run es (step p e) (step-InOrder p e o))) o l)

-- The stream goes on as if there were no buffer.
abbrev SameStream : Playback → Playback → Type 0
SameStream p q = (q.stream ≡ p.stream) × (q.channel ≡ p.channel)

receive-SameStream :
    (p : Playback) (tag : FlvTag) (rest : List FlvTag) → SameStream p (receive (tag ∷ rest) p)
unfolding receive
receive-SameStream p tag rest = (refl, refl)

arrives-SameStream : (p : Playback) → SameStream p (step p arrives)
arrives-SameStream p =
    arrives_cases (SameStream p) p (refl, refl)
      (λ tag rest running d. receive-SameStream p tag rest) (refl, refl)

run-stream :
    (es : List Event) (p : Playback)
    → ((run p es).stream ≡ Stream.run p.stream (stream_events es))
      × ((run p es).channel ≡ p.channel)
unfolding run step Stream.run
run-stream [] p = (refl, refl)
run-stream (streams e ∷ es) p = run-stream es (step p (streams e))
run-stream (arrives ∷ es) p =
    let (same, channel) = arrives-SameStream p in
    let (e, e') = run-stream es (step p arrives) in
    (e ∙ ap (λ ms. Stream.run ms (stream_events es)) same, e' ∙ channel)
run-stream (gets ∷ es) p = run-stream es (step p gets)

module _ (ms : MediaStream) (max_size : ℕ) (es : List Event) (running : ms.stopped ≡ false)
    (unused : ms.channels ms.next ≡ fresh) where
  abbrev due : List FlvTag
  due = headers ms ++ from_key_frame (tags_for ms.next (stream_events es))

  sent-due : sent (run (start ms max_size) es) ≡ due
  unfolding start Stream.run
  sent-due =
      let (e, e') = run-stream es (start ms max_size) in
      ap (λ ch. ((run (start ms max_size) es).stream.channels ch).sent) e'
      ∙ ap (λ (s : MediaStream). (s.channels ms.next).sent) e
      ∙ subscribe-Delivers ms (stream_events es) running unused

  start-InOrder : InOrder (start ms max_size)
  unfolding start
  start-InOrder = record { selected = Sublistᴰ.slnil; known = omega arith }

  start-Lossless : max_size ≤ 2 ^ 31 → Lossless max_size (start ms max_size)
  unfolding start
  start-Lossless narrow = record {
    exact = refl;
    balanced = record { counted = refl; bounded = omega arith; narrow = omega arith };
    same_max = refl;
  }

-- A media buffer of at most 2 ^ 31 bytes, of a running stream whose next channel has not been used;
-- whatever happens to the stream afterwards, and however the arrival of tags at the buffer and the calls
-- of `Get` interleave with it. What `Get` has returned, followed by what the buffer holds, is made of
-- the stored headers and the tags published to the stream from the first video key frame on, in
-- their order and each at most once; and it is exactly those that have arrived, or all of them
-- together have at least the size of the buffer.
pub run-Plays :
    (ms : MediaStream) (max_size : ℕ) (es : List Event)
    → ms.stopped ≡ false
    → ms.channels ms.next ≡ fresh
    → max_size ≤ 2 ^ 31
    → let p : Playback = run (start ms max_size) es in
      let due : List FlvTag = headers ms ++ from_key_frame (tags_for ms.next (stream_events es)) in
      let played : List FlvTag = p.buffer.out ++ p.buffer.tags in
      Sublistᴰ played (take p.received due)
      × ((played ≡ take p.received due) ⊎ (max_size ≤ total due))
run-Plays ms max_size es running unused narrow =
    let p = run (start ms max_size) es in
    let same = sent-due ms max_size es running unused in
    let o = start-InOrder ms max_size es running unused in
    let taken = ap (take p.received) same in
    (
      subst (Sublistᴰ (p.buffer.out ++ p.buffer.tags)) taken
          (run-InOrder es (start ms max_size) o).selected,
      elim (le-or-lt max_size (total (sent p))) [
        | inl large ↦ inr (omega (arith, ap total same))
        | inr small ↦
            let l =
              run-Lossless es max_size (start ms max_size) narrow small o
                (start-Lossless ms max_size es running unused narrow) in
            inl (l.exact ∙ taken)
      ],
    )
