-- ===== src/Reader/Payload.antt =====
-- What `readChunk` does with the payload of a chunk that is all there.
use gortmp.Base.{ℕ, ◌+◌, ◌-◌, ◌^◌, ◌≤◌, ◌<◌, ◌≡◌, ◌≢◌, refl, ap, ◌∙◌, arith}
use gortmp.Base.{List, [], ◌∷◌, ◌++◌, Option, some, none, true, false, length, leb, ltb}
use gortmp.Base.{◌==◌, take-length-append, drop-length-append, if◌then◌else◌, length-append}
use gortmp.Base.{◌&&◌, take, subst}
use gortmp.Base.Bytes.{of_be}
use gortmp.Wire.{ok}
use gortmp.Message.{Message, remain, set_chunk_size, window_acknowledgement_size}
use gortmp.Reader.{Session, InChunkStream, Chunk, Event, on_message, on_window_full}
use gortmp.Reader.{
  read_payload, chunk_message, finish, handle_message, stream_at, set_stream, update,
}

-- The messages among the calls of the handler.
abbrev pub messages_of : List Event → List Message
messages_of [] = []
messages_of (on_message msg ∷ es) = msg ∷ messages_of es
messages_of (on_window_full n ∷ es) = messages_of es

pub messages_of-append :
    (es : List Event) (e : Event)
    → messages_of (es ++ (e ∷ [])) ≡ messages_of es ++ messages_of (e ∷ [])
messages_of-append [] (on_message msg) = refl
messages_of-append [] (on_window_full n) = refl
messages_of-append (on_message msg ∷ es) e = ap (λ ms. msg ∷ ms) (messages_of-append es e)
messages_of-append (on_window_full n ∷ es) e = messages_of-append es e

-- A reader with chunks of `size` bytes that has the chunk stream `cs` under `csi` and those of `base`
-- under other IDs, the bytes `rest` to come, and has handed over `messages`.
pub record Reading (s : Session) (size csi : ℕ) (cs : InChunkStream) (base : ℕ → InChunkStream)
    (rest : List ℕ) (messages : List Message) : Type 0 where
  pub chunked : s.chunk_size ≡ size
  pub stream : stream_at s.chunk_streams csi ≡ cs
  pub input : s.source.rest ≡ rest
  pub others : (j : ℕ) → j ≢ csi → stream_at s.chunk_streams j ≡ base j
  pub calls : messages_of s.events ≡ messages

-- The state in which the payload is read.
abbrev pub payload_state : ℕ → InChunkStream → ℕ → List ℕ → Session → Session
payload_state csi cs n bs s = record (set_stream csi cs s) { source = record { n = n; rest = bs } }

-- A whole message that leaves the chunk size alone: it is not on the control stream, or sets no chunk
-- size, and has the four bytes of a window size if it sets one.
pub record IsQuiet (csi type size : ℕ) : Type 0 where
  pub sizeless : csi ≡ 2 → type ≢ set_chunk_size
  pub window : csi ≡ 2 → type ≡ window_acknowledgement_size → 4 ≤ size

-- The window size behind a message.
abbrev window_behind : Message → ℕ → ℕ
window_behind msg window =
    if (msg.chunk_stream_id == 2) && (msg.type == window_acknowledgement_size)
    then of_be (take 4 msg.buf)
    else window

handle_message-IsQuiet :
    (msg : Message) (s : Session)
    → IsQuiet msg.chunk_stream_id msg.type (length msg.buf)
    → handle_message msg s
      ≡ ok tt (record s {
        window_size = window_behind msg s.window_size;
        events = s.events ++ (on_message msg ∷ []);
      })
unfolding handle_message
handle_message-IsQuiet msg s q = ground (arith, q.sizeless, q.window)

pub remain_left :
    (size : ℕ) (buf : List ℕ)
    → length buf ≤ size
    → size < 2 ^ 32
    → remain size (some buf) ≡ size - length buf
unfolding remain
remain_left size buf h r = ground arith

pub other_stream :
    (t : ℕ → Option InChunkStream) (i j : ℕ) (cs : InChunkStream)
    → j ≢ i
    → stream_at (update t i cs) j ≡ stream_at t j
other_stream t i j cs n = let d : (i == j) ≡ false = ground arith in rw (d, stream_at) refl

-- The stream behind a chunk.
abbrev pub behind : Chunk → Option Message → InChunkStream
behind c msg = record {
  last_header = some c.header;
  last_absolute_timestamp = c.time;
  current_message = msg;
}

module _ (csi n : ℕ) (c : Chunk) (cs : InChunkStream) (p rest : List ℕ) (s : Session) where
  abbrev pub msg : Message
  msg = chunk_message csi c

  abbrev pub whole : Message
  whole = record msg { buf = msg.buf ++ p }

  abbrev left : ℕ
  left = remain msg.size (some msg.buf)

  abbrev pub last_state : Session
  last_state =
      let t = payload_state csi cs (n + length p) rest s in
      let t' = set_stream csi (behind c cs.current_message) t in
      set_stream csi (behind c none) (record t' {
        window_size = window_behind whole s.window_size;
        events = s.events ++ (on_message whole ∷ []);
      })

  abbrev pub more_state : Session
  more_state =
      let t = payload_state csi cs (n + length p) rest s in
      let t' = set_stream csi (behind c cs.current_message) t in
      set_stream csi (behind c (some whole)) t'

  pub payload_last :
      length msg.buf ≤ msg.size
      → msg.size < 2 ^ 32
      → length p ≡ msg.size - length msg.buf
      → length p ≤ s.chunk_size
      → IsQuiet msg.chunk_stream_id msg.type msg.size
      → read_payload csi cs c (payload_state csi cs n (p ++ rest) s) ≡ ok tt last_state
  unfolding read_payload finish
  payload_last fits r l le o =
      let rem = remain_left msg.size msg.buf fits r in
      let amount : (if ltb s.chunk_size left then s.chunk_size else left) ≡ length p =
        ground (arith, rem) in
      let enough : leb (length p) (length (p ++ rest)) ≡ true =
        ground (arith, length-append p rest) in
      let is_last : leb left s.chunk_size ≡ true = ground (arith, rem) in
      let filled_up : msg.size ≡ length (msg.buf ++ p) = omega (arith, length-append msg.buf p) in
      rw
        (
          amount,
          take-length-append p rest,
          drop-length-append p rest,
          enough,
          is_last,
          finish,
          handle_message-IsQuiet whole
              (set_stream csi (behind c cs.current_message)
                (payload_state csi cs (n + length p) rest s))
              (subst (IsQuiet msg.chunk_stream_id msg.type) filled_up o),
        )
        refl

  pub payload_more :
      length msg.buf ≤ msg.size
      → msg.size < 2 ^ 32
      → length p ≡ s.chunk_size
      → s.chunk_size < msg.size - length msg.buf
      → read_payload csi cs c (payload_state csi cs n (p ++ rest) s) ≡ ok tt more_state
  unfolding read_payload finish
  payload_more fits r l lt =
      let rem = remain_left msg.size msg.buf fits r in
      let amount : (if ltb s.chunk_size left then s.chunk_size else left) ≡ length p =
        ground (arith, rem) in
      let enough : leb (length p) (length (p ++ rest)) ≡ true =
        ground (arith, length-append p rest) in
      let not_last : leb left s.chunk_size ≡ false = ground (arith, rem) in
      rw (amount, take-length-append p rest, drop-length-append p rest, enough, not_last, finish)
        refl

module _ (csi n : ℕ) (c : Chunk) (cs : InChunkStream) (p rest : List ℕ) (s : Session) where
  pub last-Reading :
      Reading
        (last_state csi n c cs p rest s)
        s.chunk_size
        csi
        (behind c none)
        (stream_at s.chunk_streams)
        rest
        (messages_of s.events ++ (whole csi n c cs p rest s ∷ []))
  last-Reading = record {
    chunked = refl;
    stream = ground arith;
    others = λ j d.
        other_stream (update (update s.chunk_streams csi cs) csi (behind c cs.current_message)) csi
          j (behind c none) d
        ∙ other_stream (update s.chunk_streams csi cs) csi j (behind c cs.current_message) d
        ∙ other_stream s.chunk_streams csi j cs d;
    input = refl;
    calls = messages_of-append s.events (on_message (whole csi n c cs p rest s));
  }

  pub more-Reading :
      Reading
        (more_state csi n c cs p rest s)
        s.chunk_size
        csi
        (behind c (some (whole csi n c cs p rest s)))
        (stream_at s.chunk_streams)
        rest
        (messages_of s.events)
  more-Reading = record {
    chunked = refl;
    stream = ground arith;
    others = λ j d.
        other_stream (update (update s.chunk_streams csi cs) csi (behind c cs.current_message)) csi
          j (behind c (some (whole csi n c cs p rest s))) d
        ∙ other_stream (update s.chunk_streams csi cs) csi j (behind c cs.current_message) d
        ∙ other_stream s.chunk_streams csi j cs d;
    input = refl;
    calls = refl;
  }
