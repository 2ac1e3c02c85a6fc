-- ===== src/Media/Playback/Channel.antt =====
-- What was sent on a channel stays sent.
use gortmp.Base.{
  ℕ, ◌≡◌, refl, sym, ap, ◌∙◌, List, [], ◌∷◌, ◌++◌, Bool, true, false, append-nil, append_assoc,
  subst,
}
use gortmp.Base.{Option, none, some, ◌==◌, ◌&&◌, if◌then◌else◌, arith}
use gortmp.Media.{FlvTag}
use gortmp.Media.Stream.{
  MediaStream, Channel, Event, published, subscribed, unsubscribed, done, step, handle,
  store_headers, send_tag, send_on, send_header, add_subscriber, remove_subscriber, shut_down,
  close_channel, takes, found,
}

-- The second channel is the first one later on.
pub data Grows (c c' : Channel) : Type 0 where
  grown : (more : List FlvTag) → c'.sent ≡ c.sent ++ more → Grows c c'

pub unchanged : (c : Channel) → Grows c c
unchanged c = grown [] (sym (append-nil c.sent))

pub Grows-trans : (a b c : Channel) → Grows a b → Grows b c → Grows a c
Grows-trans a b c (grown xs e) (grown ys e') =
    grown (xs ++ ys) (e' ∙ ap (λ zs. zs ++ ys) e ∙ append_assoc a.sent xs ys)

if-Grows :
    (b : Bool) (c c' c'' : Channel) → Grows c c' → Grows c c'' → Grows c (if b then c' else c'')
if-Grows true c c' c'' g g' = g
if-Grows false c c' c'' g g' = g'

send_on-Grows : (tag : FlvTag) (c : Channel) → Grows c (send_on tag c)
send_on-Grows tag c =
    if-Grows c.closed c (record c { faulty = true }) (record c { sent = c.sent ++ (tag ∷ []) })
      (grown [] (sym (append-nil c.sent))) (grown (tag ∷ []) refl)

close_channel-Grows : (c : Channel) → Grows c (close_channel c)
close_channel-Grows c =
    if-Grows c.closed c (record c { faulty = true }) (record c { closed = true })
      (grown [] (sym (append-nil c.sent))) (grown [] (sym (append-nil c.sent)))

send_header-Grows : (o : Option FlvTag) (c : Channel) → Grows c (send_header o c)
send_header-Grows none c = unchanged c
send_header-Grows (some tag) c = send_on-Grows tag c

headers-Grows :
    (a v d : Option FlvTag) (c : Channel)
    → Grows c (send_header a (send_header v (send_header d c)))
headers-Grows a v d c =
    let c' = send_header d c in
    let c'' = send_header v c' in
    Grows-trans c c'' (send_header a c'')
      (Grows-trans c c' c'' (send_header-Grows d c) (send_header-Grows v c'))
      (send_header-Grows a c'')

store_headers-channels :
    (tag : FlvTag) (ms : MediaStream) → (store_headers tag ms).channels ≡ ms.channels
unfolding store_headers
store_headers-channels tag ms = ground arith

handle-Grows :
    (e : Event) (ms : MediaStream) (ch : ℕ) → Grows (ms.channels ch) ((handle ms e).channels ch)
unfolding handle send_tag add_subscriber remove_subscriber shut_down
handle-Grows (published tag) ms ch =
    let ms' = store_headers tag ms in
    let same : ms'.channels ch ≡ ms.channels ch = ap (λ f. f ch) (store_headers-channels tag ms) in
    subst (λ c. Grows c ((send_tag tag ms').channels ch)) same
      (if-Grows (takes tag (ms'.subs ch)) (ms'.channels ch) (send_on tag (ms'.channels ch))
        (ms'.channels ch) (send_on-Grows tag (ms'.channels ch)) (unchanged (ms'.channels ch)))
handle-Grows subscribed ms ch =
    let c = ms.channels ch in
    if-Grows (ch == ms.next) c
      (send_header ms.audio_header (send_header ms.video_header (send_header ms.data_header c))) c
      (headers-Grows ms.audio_header ms.video_header ms.data_header c) (unchanged c)
handle-Grows (unsubscribed sub) ms ch =
    let c = ms.channels ch in
    if-Grows ((ch == sub) && found (ms.subs ch)) c (close_channel c) c (close_channel-Grows c)
      (unchanged c)
handle-Grows done ms ch =
    let c = ms.channels ch in
    if-Grows (found (ms.subs ch)) c (close_channel c) c (close_channel-Grows c) (unchanged c)

stopped_or :
    (b : Bool) (ms ms' : MediaStream) (ch : ℕ)
    → Grows (ms.channels ch) (ms'.channels ch)
    → let next : MediaStream = if b then ms else ms' in Grows (ms.channels ch) (next.channels ch)
stopped_or true ms ms' ch g = unchanged (ms.channels ch)
stopped_or false ms ms' ch g = g

pub step-Grows :
    (e : Event) (ms : MediaStream) (ch : ℕ) → Grows (ms.channels ch) ((step ms e).channels ch)
unfolding step
step-Grows e ms ch = stopped_or ms.stopped ms (handle ms e) ch (handle-Grows e ms ch)
