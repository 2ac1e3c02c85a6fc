-- ===== src/Loopback.antt =====
-- The chunk stream writer and reader together: the reader is given what the writer wrote.
pub mod Rounds
pub mod Rest
pub mod First
pub mod Received
pub mod Whole
pub mod Sync
pub mod Announcement
pub mod Sends
pub mod Sequence
pub mod Delivery
use gortmp.Base.{◌≤◌, ◌<◌, ◌≢◌, ◌+◌, ◌%◌, ◌^◌, ℕ, zero, suc, ◌≡◌, refl, ◌⊎◌, Option, some, none}
use gortmp.Base.{Bool, true, false, arith}
use gortmp.Wire.{Outcome, ok, err}
use gortmp.Header.{Header}
use gortmp.Message.{Message}
use gortmp.Writer.{OutChunkStream, new_header}
use gortmp.Reader.{InChunkStream, Session, read_chunk, check_window}

-- Rounds of the loop of `ReadFrom`, which all go well: what they return is `inBytesPreWindow`.
unfoldable pub read_rounds : ℕ → ℕ → Session → Outcome Session ℕ
read_rounds zero before s = ok before s
read_rounds (suc k) before s = elim (read_chunk s) [
  | err e t ↦ err e t
  | ok _ t ↦ read_rounds k (check_window before t).1 (check_window before t).0
]

-- The header `r` that a reader has has what the writer's header `w` has, and no extended timestamp.
pub record Knows (r w : Header) : Type 0 where
  pub length : r.message_length ≡ w.message_length
  pub type : r.message_type_id ≡ w.message_type_id
  pub stream : r.message_stream_id ≡ w.message_stream_id
  pub plain : r.extended_timestamp ≡ 0

-- A time of the reader's that is the writer's, or one that is only known not to be ahead of it.
abbrev pub Behind : Bool → ℕ → ℕ → Type 0
Behind true time limit = time ≡ limit
Behind false time limit = time ≤ limit

pub Behind-eq : (exact : Bool) (time limit : ℕ) → time ≡ limit → Behind exact time limit
Behind-eq true time limit e = e
Behind-eq false time limit e = omega arith

-- Behind a step from the last times.
pub Behind-add :
    (exact : Bool) (last time step limit : ℕ)
    → Behind exact last time
    → time + step ≡ limit
    → limit < 2 ^ 32
    → Behind exact ((last + step) % 2 ^ 32) limit
Behind-add true last time step limit b e h = omega arith
Behind-add false last time step limit b e h = omega arith

-- Where exactness is not asked for, a time may also stay what it was.
pub Behind-stay :
    (exact : Bool) (last time limit : ℕ)
    → exact ≢ true
    → Behind exact last time
    → time ≤ limit
    → Behind exact last limit
Behind-stay true last time limit n b le = absurd (n refl)
Behind-stay false last time limit n b le = omega arith

-- Exactness asks that the message does not begin with a continuation header.
abbrev pub IsPunctual : Bool → OutChunkStream → Message → Type 0
IsPunctual exact cs msg = exact ≡ true → (new_header cs msg).0.fmt ≢ 3

-- The two ends of a chunk stream between messages: what the writer leaves out, the reader knows, and
-- the reader's time is the writer's, or not ahead of it.
pub record InStep (exact : Bool) (out : OutChunkStream) (in_ : InChunkStream) : Type 0 where
  pub idle : in_.current_message ≡ none
  pub late : Behind exact in_.last_absolute_timestamp out.last_absolute_timestamp
  pub known :
      (out.last_header ≡ none)
      ⊎ ((w : Header) × (r : Header) × (out.last_header ≡ some w)
          × (in_.last_header ≡ some r)
          × Knows r w)

-- The message that the reader makes is the one that was written, at the same time, or at no later one.
pub record Delivers (exact : Bool) (m msg : Message) : Type 0 where
  pub id : m.chunk_stream_id ≡ msg.chunk_stream_id
  pub size : m.size ≡ msg.size
  pub type : m.type ≡ msg.type
  pub stream : m.stream_id ≡ msg.stream_id
  pub buf : m.buf ≡ msg.buf
  pub time : Behind exact m.absolute_timestamp msg.timestamp
