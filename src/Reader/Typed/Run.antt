-- ===== src/Reader/Typed/Run.antt =====
-- What `ReadFrom` hands over, whatever bytes it is given.
use gortmp.Base.{ℕ, zero, suc, ◌+◌, ◌%◌, ◌^◌, ◌≤◌, ◌<◌, arith, Bool, true, false}
use gortmp.Base.{Option, none, some, All, length}
use gortmp.Base.{if◌then◌else◌, leb, ◌==◌}
use gortmp.Base.Bytes.{IsByte}
use gortmp.Wire.{Source, Outcome, ok, err, Error, invalid_chunk_header}
use gortmp.Wire.Gives.{Given, given, refused}
use gortmp.Message.{Message}
use gortmp.Header.{Header}
use gortmp.Header.Typed.{IsHeader, IsBase, read_base_header-IsBase, read_header-IsHeader}
use gortmp.Reader.{
  InChunkStream, Session, on_window_full, Chunk, stream_at, set_stream, emit, complete,
  read_payload, read_message_header, read_chunk, check_window, read_loop, read_from,
}
use gortmp.Reader.Typed.{
  IsMessage, Every, IsStream, IsSession, IsChunk, Ends, emit-IsSession, set_stream-IsSession,
}
use gortmp.Reader.Typed.Payload.{read_payload-IsSession}

Every-if :
    {A : Type 0} (P : A → Type 0) (b : Bool) (o o' : Option A)
    → Every P o
    → Every P o'
    → Every P (if b then o else o')
Every-if P true o o' h k = h
Every-if P false o o' h k = k

-- A header with what a last header had.
completed :
    (h : Header) (timestamp length type stream : ℕ)
    → timestamp < 2 ^ 24
    → length < 2 ^ 24
    → type < 256
    → stream < 2 ^ 32
    → IsHeader h
    → IsHeader (record h {
      timestamp = timestamp;
      message_length = length;
      message_type_id = type;
      message_stream_id = stream;
    })
completed h timestamp length type stream t l k i v = record {
  fmt = v.fmt;
  chunk_stream_id = v.chunk_stream_id;
  timestamp = t;
  message_length = l;
  message_type_id = k;
  message_stream_id = i;
  extended_timestamp = v.extended_timestamp;
}

-- The switch on the format.
complete-at :
    (last : Option Header) (time : ℕ) (m : Option Message) (h : Header)
    → Every IsHeader last
    → time < 2 ^ 32
    → Every IsMessage m
    → IsHeader h
    → Every IsChunk (
        complete
          (record { last_header = last; last_absolute_timestamp = time; current_message = m })
          h)
unfolding complete
complete-at none time m h vl vt vm v =
    let range = v.timestamp in
    Every-if IsChunk (h.fmt == 0) _ _ (record { header = v; time = omega arith; message = tt }) tt
complete-at (some last) time m h vl vt vm v =
    let range = v.timestamp in
    Every-if IsChunk (h.fmt == 0) _ _ (record { header = v; time = omega arith; message = tt })
      (Every-if IsChunk (h.fmt == 1) _ _
        (record {
          header =
              completed h h.timestamp h.message_length h.message_type_id last.message_stream_id
                v.timestamp v.message_length v.message_type_id vl.message_stream_id v;
          time = omega arith;
          message = tt;
        })
        (Every-if IsChunk (h.fmt == 2) _ _
          (record {
            header =
                completed h h.timestamp last.message_length last.message_type_id
                  last.message_stream_id v.timestamp vl.message_length vl.message_type_id
                  vl.message_stream_id v;
            time = omega arith;
            message = tt;
          })
          (record {
            header =
                completed h last.timestamp last.message_length last.message_type_id
                  last.message_stream_id vl.timestamp vl.message_length vl.message_type_id
                  vl.message_stream_id v;
            time = vt;
            message = vm;
          })))

complete-IsChunk :
    (cs : InChunkStream) (h : Header) → IsStream cs → IsHeader h → Every IsChunk (complete cs h)
complete-IsChunk cs h v k =
    complete-at cs.last_header cs.last_absolute_timestamp cs.current_message h v.header v.time
      v.message k

-- Other bytes to come, and another count.
with_source :
    (src : Source) (s : Session)
    → All IsByte src.rest
    → IsSession s
    → IsSession (record s { source = src })
with_source src s bytes v = record {
  chunk_size = v.chunk_size;
  window_size = v.window_size;
  streams = v.streams;
  input = bytes;
  events = v.events;
}

after_completion :
    (csi : ℕ) (cs : InChunkStream) (o : Option Chunk) (s : Session)
    → csi ≤ 65599
    → IsStream cs
    → IsSession s
    → Every IsChunk o
    → Ends IsSession (elim o as (λ _. Outcome Session (Unit {0})) [
      | none ↦ err invalid_chunk_header s
      | some c ↦ read_payload csi cs c s
    ])
after_completion csi cs none s id h v k = v
after_completion csi cs (some c) s id h v k = read_payload-IsSession csi cs c s id k h v

after_header :
    (csi n : ℕ) (cs : InChunkStream) (t : Session) (o : Outcome Source Header)
    → csi ≤ 65599
    → IsStream cs
    → IsSession t
    → Given IsHeader o
    → Ends IsSession (elim o as (λ _. Outcome Session (Unit {0})) [
      | err e src ↦ err e (record t { source = record src { n = n } })
      | ok header src ↦ elim (complete cs header) as (λ _. Outcome Session (Unit {0})) [
        | none ↦ err invalid_chunk_header (record t { source = src })
        | some c ↦ read_payload csi cs c (record t { source = src })
      ]
    ])
after_header csi n cs t _ id h v (given header src k bytes) =
    after_completion csi cs (complete cs header) (record t { source = src }) id h
      (with_source src t bytes v) (complete-IsChunk cs header h k)
after_header csi n cs t _ id h v (refused e src bytes) =
    with_source (record src { n = n }) t bytes v

read_message_header-IsSession :
    (vfmt csi : ℕ) (s : Session)
    → IsBase (vfmt, csi)
    → IsSession s
    → Ends IsSession (read_message_header vfmt csi s)
unfolding read_message_header
read_message_header-IsSession vfmt csi s b v =
    let cs = stream_at s.chunk_streams csi in
    after_header csi s.source.n cs (set_stream csi cs s) _ b.1 (v.streams csi)
      (set_stream-IsSession csi cs s (v.streams csi) v)
      (read_header-IsHeader vfmt csi cs.last_header b s.source v.input)

after_base :
    (s : Session) (o : Outcome Source (ℕ × ℕ))
    → IsSession s
    → Given IsBase o
    → Ends IsSession (elim o as (λ _. Outcome Session (Unit {0})) [
      | err e src ↦ err e (record s { source = src })
      | ok (vfmt, csi) src ↦ read_message_header vfmt csi (record s { source = src })
    ])
after_base s _ v (given (vfmt, csi) src b bytes) =
    read_message_header-IsSession vfmt csi (record s { source = src }) b (with_source src s bytes v)
after_base s _ v (refused e src bytes) = with_source src s bytes v

read_chunk-IsSession : (s : Session) → IsSession s → Ends IsSession (read_chunk s)
unfolding read_chunk
read_chunk-IsSession s v = after_base s _ v (read_base_header-IsBase s.source v.input)

window_checked :
    (full : Bool) (n before : ℕ) (s : Session)
    → n < 2 ^ 32
    → IsSession s
    → let next : Session × ℕ =
        if full then (emit (on_window_full n) s, s.source.n) else (s, before) in
      IsSession next.0
window_checked true n before s h v = emit-IsSession (on_window_full n) s h v
window_checked false n before s h v = v

check_window-IsSession :
    (before : ℕ) (s : Session) → IsSession s → IsSession (check_window before s).0
unfolding check_window
check_window-IsSession before s v =
    window_checked (leb (before + s.window_size) s.source.n) (s.source.n % 2 ^ 32) before s
      (omega arith) v

next_round :
    (f before : ℕ) (o : Outcome Session (Unit {0}))
    → Ends IsSession o
    → ((before' : ℕ) (t : Session) → IsSession t → IsSession (read_loop f before' t).1)
    → let ended : Error × Session = elim o as (λ _. Error × Session) [
      | err e t ↦ (e, t)
      | ok _ t ↦ read_loop f (check_window before t).1 (check_window before t).0
    ] in
      IsSession ended.1
next_round f before (err e t) v more = v
next_round f before (ok _ t) v more =
    more (check_window before t).1 (check_window before t).0 (check_window-IsSession before t v)

read_loop-IsSession :
    (f before : ℕ) (s : Session) → IsSession s → IsSession (read_loop f before s).1
unfolding read_loop
read_loop-IsSession zero before s v = v
read_loop-IsSession (suc f) before s v =
    next_round f before (read_chunk s) (read_chunk-IsSession s v)
      (λ before' t w. read_loop-IsSession f before' t w)

-- A reader whose fields fit their types, on any bytes: when `ReadFrom` ends, the fields of the reader, of
-- its chunk streams and of every message that it has handed over fit their types (the chunk and the
-- window size, a message's times and stream ID are below 2 ^ 32, its size below 2 ^ 24, its type below
-- 256, its chunk stream ID at most 65599), each such message has exactly as many bytes as its
-- size, and one that is under way has not more.
pub read_from-IsSession : (s : Session) → IsSession s → IsSession (read_from s).1
unfolding read_from
read_from-IsSession s v = read_loop-IsSession (suc (length s.source.rest)) 0 s v
