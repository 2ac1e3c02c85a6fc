-- ===== src/Reader/Typed.antt =====
-- What it means that the state of the reader and what it hands over keep to the types of their fields.
pub mod Payload
pub mod Run
use gortmp.Base.{
  ℕ, zero, suc, ◌+◌, ◌-◌, ◌%◌, ◌^◌, ◌≤◌, ◌<◌, ◌≡◌, refl, arith, Bool, true, false, inl, inr,
}
use gortmp.Base.{List, [], ◌∷◌, ◌++◌, Option, none, some, All, length, take, drop, length-append}
use gortmp.Base.{if◌then◌else◌, ltb, leb, ◌==◌, Bool-cases, length-take, Option-cases, subst}
use gortmp.Base.Bytes.{IsByte, of_be}
use gortmp.Wire.{Source, Outcome, ok, err, Error}
use gortmp.Wire.Gives.{Given, given, refused, take-IsByte, drop-IsByte, of_be_uint32}
use gortmp.Message.{
  Message, remain, set_chunk_size, window_acknowledgement_size, cs_id_protocol_control,
}
use gortmp.Header.{Header, real_timestamp, read_base_header, read_header, zero_header}
use gortmp.Header.Typed.{IsHeader, IsBase, read_base_header-IsBase, read_header-IsHeader}
use gortmp.Reader.{
  InChunkStream, new_stream, Session, Event, on_message, on_window_full, Chunk, begun,
  chunk_message, stream_at, set_stream, update, emit, handle_message, complete, taken, copied,
  finish, interrupted, read_payload, read_message_header, read_chunk, check_window, read_loop,
  read_from,
}

-- A message whose fields fit, and that has not more bytes than its size.
pub record IsMessage (m : Message) : Type 0 where
  pub chunk_stream_id : m.chunk_stream_id ≤ 65599
  pub timestamp : m.timestamp < 2 ^ 32
  pub size : m.size < 2 ^ 24
  pub type : m.type < 256
  pub stream_id : m.stream_id < 2 ^ 32
  pub absolute_timestamp : m.absolute_timestamp < 2 ^ 32
  pub fits : length m.buf ≤ m.size
  pub bytes : All IsByte m.buf

-- A message is handed over when it has all of its bytes.
abbrev pub IsEvent : Event → Type 0
IsEvent (on_message m) = IsMessage m × (length m.buf ≡ m.size)
IsEvent (on_window_full n) = n < 2 ^ 32

abbrev pub Every : {A : Type 0} → (A → Type 0) → Option A → Type 0
Every P none = Unit {0}
Every P (some a) = P a

pub record IsStream (cs : InChunkStream) : Type 0 where
  pub header : Every IsHeader cs.last_header
  pub time : cs.last_absolute_timestamp < 2 ^ 32
  pub message : Every IsMessage cs.current_message

pub record IsSession (s : Session) : Type 0 where
  pub chunk_size : s.chunk_size < 2 ^ 32
  pub window_size : s.window_size < 2 ^ 32
  pub streams : (j : ℕ) → IsStream (stream_at s.chunk_streams j)
  pub input : All IsByte s.source.rest
  pub events : All IsEvent s.events

pub record IsChunk (c : Chunk) : Type 0 where
  pub header : IsHeader c.header
  pub time : c.time < 2 ^ 32
  pub message : Every IsMessage c.message

abbrev pub Ends : {A : Type 0} → (Session → Type 0) → Outcome Session A → Type 0
Ends P (ok a s) = P s
Ends P (err e s) = P s

pub Ends-if :
    {A : Type 0} (P : Session → Type 0) (b : Bool) (o o' : Outcome Session A)
    → (b ≡ true → Ends P o)
    → (b ≡ false → Ends P o')
    → Ends P (if b then o else o')
Ends-if P true o o' here there = here refl
Ends-if P false o o' here there = there refl

pub All-append :
    {A : Type 0} (P : A → Type 0) (xs ys : List A) → All P xs → All P ys → All P (xs ++ ys)
All-append P [] ys h k = k
All-append P (x ∷ xs) ys h k = (h.0, All-append P xs ys h.1 k)

pub emit-IsSession : (e : Event) (s : Session) → IsEvent e → IsSession s → IsSession (emit e s)
emit-IsSession e s h v = record {
  chunk_size = v.chunk_size;
  window_size = v.window_size;
  streams = v.streams;
  input = v.input;
  events = All-append IsEvent s.events (e ∷ []) v.events (h, tt);
}

if-IsStream :
    (b : Bool) (cs : InChunkStream) (o : Option InChunkStream)
    → IsStream cs
    → IsStream (elim o [ none ↦ new_stream | some c ↦ c ])
    → let found : Option InChunkStream = if b then some cs else o in
      IsStream (elim found [ none ↦ new_stream | some c ↦ c ])
if-IsStream true cs o h k = h
if-IsStream false cs o h k = k

pub set_stream-IsSession :
    (csi : ℕ) (cs : InChunkStream) (s : Session)
    → IsStream cs
    → IsSession s
    → IsSession (set_stream csi cs s)
set_stream-IsSession csi cs s h v = record {
  chunk_size = v.chunk_size;
  window_size = v.window_size;
  streams = λ j. if-IsStream (csi == j) cs (s.chunk_streams j) h (v.streams j);
  input = v.input;
  events = v.events;
}

resized :
    (c w : ℕ) (s : Session)
    → c < 2 ^ 32
    → w < 2 ^ 32
    → IsSession s
    → IsSession (record s { chunk_size = c; window_size = w })
resized c w s hc hw v = record {
  chunk_size = hc;
  window_size = hw;
  streams = v.streams;
  input = v.input;
  events = v.events;
}

announced :
    (msg : Message)
    → All IsByte msg.buf
    → leb 4 (length msg.buf) ≡ true
    → of_be (take 4 msg.buf) < 2 ^ 32
announced msg bytes e =
    of_be_uint32 (take 4 msg.buf)
      (ground (arith, length-take 4 msg.buf), take-IsByte 4 msg.buf bytes)

-- The state behind a message that was handled.
pub handle_message-IsSession :
    (msg : Message) (s : Session)
    → IsEvent (on_message msg)
    → IsSession s
    → Ends IsSession (handle_message msg s)
unfolding handle_message
handle_message-IsSession msg s e v =
    let kept = emit-IsSession (on_message msg) s e v in
    let size : ℕ = of_be (take 4 msg.buf) in
    Ends-if IsSession (msg.chunk_stream_id == cs_id_protocol_control) _ _
      (λ _.
        Ends-if IsSession (msg.type == set_chunk_size) _ _
          (λ _.
            Ends-if IsSession (leb 4 (length msg.buf)) _ _
              (λ long.
                emit-IsSession (on_message msg) (record s { chunk_size = size }) e
                  (resized size s.window_size s (announced msg e.0.bytes long) v.window_size v))
              (λ _. v))
          (λ _.
            Ends-if IsSession (msg.type == window_acknowledgement_size) _ _
              (λ _.
                Ends-if IsSession (leb 4 (length msg.buf)) _ _
                  (λ long.
                    emit-IsSession (on_message msg) (record s { window_size = size }) e
                      (resized s.chunk_size size s v.chunk_size (announced msg e.0.bytes long) v))
                  (λ _. v))
              (λ _. kept)))
      (λ _. kept)
