-- ===== src/Media/Stream/Channels.antt =====
-- No channel is closed twice or sent on after it was closed.
use gortmp.Base.{ℕ, ◌≤◌, ◌<◌, ◌≡◌, refl, List, [], ◌∷◌, ◌++◌, true, false}
use gortmp.Base.{none, ltb, ap, arith}
use gortmp.Media.{FlvTag}
use gortmp.Media.Stream.{
  MediaStream, Channel, fresh, Event, published, subscribed, unsubscribed, done, step, run,
  store_headers, send_tag, add_subscriber, remove_subscriber, shut_down, new_media_stream, found,
  publish, subscribe, media_stream_closed,
}

-- A channel is not faulty; it is open while it is subscribed, closed when it is no more, and unused
-- before it is given out; nothing is subscribed once the loop has returned.
pub record IsSound (ms : MediaStream) (ch : ℕ) : Type 0 where
  pub faultless : (ms.channels ch).faulty ≡ false
  pub opened : found (ms.subs ch) ≡ true → ((ms.channels ch).closed ≡ false) × (ch < ms.next)
  pub ended : found (ms.subs ch) ≡ false → ch < ms.next → (ms.channels ch).closed ≡ true
  pub unused : ms.next ≤ ch → ms.channels ch ≡ fresh
  pub finished : ms.stopped ≡ true → found (ms.subs ch) ≡ false

step-IsSound : (ms : MediaStream) (e : Event) (ch : ℕ) → IsSound ms ch → IsSound (step ms e) ch
unfolding step send_tag store_headers add_subscriber remove_subscriber shut_down
step-IsSound ms (published tag) ch s = ground (arith)
step-IsSound ms subscribed ch s = ground (arith)
step-IsSound ms (unsubscribed sub) ch s = ground (arith)
step-IsSound ms done ch s = ground (arith)

new-IsSound : (ch : ℕ) → IsSound new_media_stream ch
unfolding new_media_stream
new-IsSound ch = ground (arith)

run-IsSound-from :
    (es : List Event) (ms : MediaStream) (ch : ℕ) → IsSound ms ch → IsSound (run ms es) ch
unfolding run
run-IsSound-from [] ms ch s = s
run-IsSound-from (e ∷ es) ms ch s = run-IsSound-from es (step ms e) ch (step-IsSound ms e ch s)

-- Of a new media stream, whatever is published, subscribed and unsubscribed (also twice, and also
-- channels that are not its own): no channel is sent on after it was closed or closed twice; a channel
-- is open while it is subscribed, closed once it is no more, and unused before it is given out; and
-- nothing is subscribed once the loop has returned.
pub run-IsSound : (es : List Event) (ch : ℕ) → IsSound (run new_media_stream es) ch
run-IsSound es ch = run-IsSound-from es new_media_stream ch (new-IsSound ch)

stopped-step : (ms : MediaStream) (e : Event) → ms.stopped ≡ true → step ms e ≡ ms
unfolding step
stopped-step ms e s = rw s refl

pub stopped-run : (es : List Event) (ms : MediaStream) → ms.stopped ≡ true → run ms es ≡ ms
unfolding run
stopped-run [] ms s = refl
stopped-run (e ∷ es) ms s = rw (stopped-step ms e s) (stopped-run es ms s)

done-stopped : (ms : MediaStream) → (step ms done).stopped ≡ true
unfolding step shut_down
done-stopped ms = ground (arith)

run-done : (es : List Event) (ms : MediaStream) → (run ms (es ++ (done ∷ []))).stopped ≡ true
unfolding run
run-done [] ms = done-stopped ms
run-done (e ∷ es) ms = run-done es (step ms e)

finished-closed :
    (ms : MediaStream) (ch : ℕ)
    → IsSound ms ch
    → ms.stopped ≡ true
    → (ms.channels ch).closed ≡ ltb ch ms.next
finished-closed ms ch s over =
    ground (arith, s.finished, s.ended, ap (λ (x : Channel). x.closed), s.unused)

-- After the end of a media stream, whatever came before: exactly the channels that were given out are
-- closed, `Publish` and `Subscribe` answer that the stream is closed, and neither changes anything.
pub run_ends :
    (es : List Event) (ch : ℕ) (tag : FlvTag)
    → let t : MediaStream = run new_media_stream (es ++ (done ∷ [])) in
      ((t.channels ch).closed ≡ ltb ch t.next)
      × (publish tag t ≡ (t, media_stream_closed))
      × (subscribe t ≡ (t, none))
unfolding publish subscribe
run_ends es ch tag =
    let t = run new_media_stream (es ++ (done ∷ [])) in
    let over : t.stopped ≡ true = run-done es new_media_stream in
    let s = run-IsSound (es ++ (done ∷ [])) ch in
    (finished-closed t ch s over, rw over refl, rw over refl)
