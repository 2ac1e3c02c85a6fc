-- ===== src/Reader/Typed/Payload.antt =====
-- The payload of a chunk.
use gortmp.Base.{ℕ, ◌+◌, ◌-◌, ◌^◌, ◌≤◌, ◌<◌, ◌≡◌, arith, Bool, true}
use gortmp.Base.{List, ◌++◌, Option, none, some, All, length, take, length-append}
use gortmp.Base.{if◌then◌else◌, ltb, leb, length-take}
use gortmp.Base.Bytes.{IsByte}
use gortmp.Wire.{Outcome, ok, err}
use gortmp.Wire.Gives.{take-IsByte, drop-IsByte}
use gortmp.Message.{Message, remain}
use gortmp.Header.{Header, real_timestamp}
use gortmp.Header.Typed.{IsHeader}
use gortmp.Reader.{
  InChunkStream, Session, Chunk, begun, chunk_message, set_stream, handle_message, copied, finish,
  interrupted, read_payload,
}
use gortmp.Reader.Typed.{
  IsMessage, Every, IsStream, IsSession, IsChunk, Ends, Ends-if, set_stream-IsSession,
  handle_message-IsSession, All-append,
}

with_message :
    (cs : InChunkStream) (m : Option Message)
    → IsStream cs
    → Every IsMessage m
    → IsStream (record cs { current_message = m })
with_message cs m h k = record { header = h.header; time = h.time; message = k }

handled :
    (csi : ℕ) (cs : InChunkStream) (o : Outcome Session (Unit {0}))
    → IsStream cs
    → Ends IsSession o
    → Ends IsSession (elim o as (λ _. Outcome Session (Unit {0})) [
      | ok _ t ↦ ok tt (set_stream csi (record cs { current_message = none }) t)
      | err e t ↦ err e t
    ])
handled csi cs (ok _ t) h v = set_stream-IsSession csi _ t (with_message cs none h tt) v
handled csi cs (err e t) h v = v

finish-IsSession :
    (csi : ℕ) (cs : InChunkStream) (msg : Message) (last_chunk : Bool) (s : Session)
    → IsStream cs
    → IsMessage msg
    → (last_chunk ≡ true → length msg.buf ≡ msg.size)
    → IsSession s
    → Ends IsSession (finish csi cs msg last_chunk s)
unfolding finish
finish-IsSession csi cs msg last_chunk s h m whole v =
    Ends-if IsSession last_chunk _ _
      (λ last.
        handled csi cs (handle_message msg s) h (handle_message-IsSession msg s (m, whole last) v))
      (λ _. set_stream-IsSession csi _ s (with_message cs (some msg) h m) v)

begun-IsMessage :
    (csi : ℕ) (h : Header) (time : ℕ)
    → csi ≤ 65599
    → IsHeader h
    → time < 2 ^ 32
    → IsMessage (begun csi h time)
unfolding real_timestamp
begun-IsMessage csi h time id v early =
    let range = v.timestamp in
    let extended = v.extended_timestamp in
    record {
      chunk_stream_id = id;
      timestamp = ground arith;
      size = v.message_length;
      type = v.message_type_id;
      stream_id = v.message_stream_id;
      absolute_timestamp = early;
      fits = omega arith;
      bytes = tt;
    }

chunk_message-IsMessage :
    (csi : ℕ) (h : Header) (time : ℕ) (m : Option Message)
    → csi ≤ 65599
    → IsHeader h
    → time < 2 ^ 32
    → Every IsMessage m
    → IsMessage (chunk_message csi (record { header = h; time = time; message = m }))
chunk_message-IsMessage csi h time none id v early k = begun-IsMessage csi h time id v early
chunk_message-IsMessage csi h time (some m) id v early k = k

interrupted-IsStream :
    (cs : InChunkStream) (h : Header) (time : ℕ) (m : Option Message) (msg : Message)
    → IsStream cs
    → IsMessage msg
    → IsStream (interrupted cs (record { header = h; time = time; message = m }) msg)
interrupted-IsStream cs h time none msg v k = v
interrupted-IsStream cs h time (some m) msg v k = with_message cs (some msg) v k

-- A message with the bytes of another chunk.
filled :
    (m : Message) (bs : List ℕ)
    → length m.buf + length bs ≤ m.size
    → All IsByte bs
    → IsMessage m
    → IsMessage (record m { buf = m.buf ++ bs })
filled m bs h bytes v = record {
  chunk_stream_id = v.chunk_stream_id;
  timestamp = v.timestamp;
  size = v.size;
  type = v.type;
  stream_id = v.stream_id;
  absolute_timestamp = v.absolute_timestamp;
  fits = omega (arith, length-append m.buf bs);
  bytes = All-append IsByte m.buf bs v.bytes bytes;
}

remain_exact :
    (size : ℕ) (buf : List ℕ)
    → length buf ≤ size
    → size < 2 ^ 24
    → remain size (some buf) ≡ size - length buf
unfolding remain
remain_exact size buf h r = ground arith

pub read_payload-IsSession :
    (csi : ℕ) (cs : InChunkStream) (c : Chunk) (s : Session)
    → csi ≤ 65599
    → IsChunk c
    → IsStream cs
    → IsSession s
    → Ends IsSession (read_payload csi cs c s)
unfolding read_payload
read_payload-IsSession csi cs c s id hc hs v =
    let m = chunk_message csi c in
    let hm =
      chunk_message-IsMessage csi c.header c.time c.message id hc.header hc.time hc.message in
    let left = remain m.size (some m.buf) in
    let exact = remain_exact m.size m.buf hm.fits hm.size in
    let n = if ltb s.chunk_size left then s.chunk_size else left in
    let n_left : n ≤ left = ground arith in
    let bs = take n s.source.rest in
    let got = length-take n s.source.rest in
    let fits = hm.fits in
    let msg : Message = record m { buf = m.buf ++ bs } in
    let hmsg = filled m bs (omega arith) (take-IsByte n s.source.rest v.input) hm in
    let stream : InChunkStream = record cs {
      last_header = some c.header;
      last_absolute_timestamp = c.time;
    } in
    let hstream : IsStream stream = record {
      header = hc.header;
      time = hc.time;
      message = hs.message;
    } in
    let hcopied : IsSession (record s { source = copied n s.source }) = record {
      chunk_size = v.chunk_size;
      window_size = v.window_size;
      streams = v.streams;
      input = drop-IsByte n s.source.rest v.input;
      events = v.events;
    } in
    let ht =
      set_stream-IsSession csi stream (record s { source = copied n s.source }) hstream hcopied in
    let t : Session = set_stream csi stream (record s { source = copied n s.source }) in
    Ends-if IsSession (leb n (length s.source.rest)) _ _
      (λ enough.
        finish-IsSession csi stream msg (leb left s.chunk_size) t hstream hmsg
          (λ last.
            let all_left : n ≡ left = ground arith in
            let there : n ≤ length s.source.rest = ground arith in
            omega (arith, length-append m.buf bs))
          ht)
      (λ _.
        set_stream-IsSession csi _ t
          (interrupted-IsStream stream c.header c.time c.message msg hstream hmsg) ht)
