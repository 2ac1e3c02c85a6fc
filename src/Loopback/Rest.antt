-- ===== src/Loopback/Rest.antt =====
-- The chunks behind the first, read.
use gortmp.Base.{ℕ, zero, suc, ◌+◌, ◌^◌, ◌≤◌, ◌<◌, ◌≡◌, refl, ap, ◌∙◌, arith}
use gortmp.Base.{List, [], ◌∷◌, ◌++◌, Option, some, none, false, length, take, drop, le-or-lt}
use gortmp.Base.{append_assoc, take_all, length-take, length-drop, inl, inr}
use gortmp.Base.{take-append-drop, length-append}
use gortmp.Wire.{ok}
use gortmp.Message.{Message}
use gortmp.Header.{Header, was_extended}
use gortmp.Header.Write.{encode, base_bytes}
use gortmp.Header.RoundTrip.{IsValid, carried}
use gortmp.Writer.{continuation_header}
use gortmp.Writer.Whole.{
  continuation_chunks, continuation_chunks_more, continuation_chunks_done, encode-continuation,
}
use gortmp.Reader.{Session, InChunkStream, Chunk, complete}
use gortmp.Reader.Payload.{Reading, IsQuiet}
use gortmp.Reader.Step.{read_chunk-last, read_chunk-more}
use gortmp.Reader.{check_window}
use gortmp.Loopback.{read_rounds, Knows}
use gortmp.Loopback.Rounds.{read_rounds_more, read_rounds_one, check_window-Reading}

-- The chunk that a continuation header begins, for the last header `r` and the message `m`.
abbrev continued : Header → Header → ℕ → Message → Chunk
continued h r time m = record {
  header = record (carried h) {
    message_stream_id = r.message_stream_id;
    message_length = r.message_length;
    message_type_id = r.message_type_id;
    timestamp = r.timestamp;
  };
  time = time;
  message = some m;
}

abbrev pub midway : Header → ℕ → Option Message → InChunkStream
midway r time m = record {
  last_header = some r;
  last_absolute_timestamp = time;
  current_message = m;
}

complete-continued :
    (msg : Message) (r : Header) (time : ℕ) (m : Message)
    → complete (midway r time (some m)) (carried (continuation_header msg))
      ≡ some (continued (continuation_header msg) r time m)
unfolding complete
complete-continued msg r time m = refl

continuation-IsValid :
    (msg : Message)
    → 2 ≤ msg.chunk_stream_id
    → msg.chunk_stream_id ≤ 319
    → IsValid (continuation_header msg)
continuation-IsValid msg lo hi = record {
  fmt_range = omega arith;
  id_above = lo;
  id_below = hi;
  timestamp_range = omega arith;
  length_range = omega arith;
  stream_range = omega arith;
  extended_range = omega arith;
}

-- The rest of a message, read on a stream that is in the middle of it: the message is handed over
-- whole, and the reader's last header still has the fields that it had.
pub read_rounds-continuation_chunks :
    (f size time : ℕ) (s : Session) (r : Header) (m : Message) (bs rest : List ℕ)
    (base : ℕ → InChunkStream) (messages : List Message) (before : ℕ)
    → let csi : ℕ = m.chunk_stream_id in
      2 ≤ csi
      → csi ≤ 319
      → IsQuiet csi m.type m.size
      → 0 < size
      → r.extended_timestamp ≡ 0
      → length m.buf + length bs ≡ m.size
      → m.size < 2 ^ 32
      → 0 < length bs
      → length bs ≤ f
      → Reading s size csi
          (midway r time (some m))
          base
          (continuation_chunks f csi size bs ++ rest)
          messages
      → (k : ℕ) × (t : Session) × (r' : Header) × (before' : ℕ) × (read_rounds k before s
          ≡ ok before' t)
        × Knows r' r
        × Reading t size csi
            (midway r' time none)
            base
            rest
            (messages ++ (record m { buf = m.buf ++ bs } ∷ []))
read_rounds-continuation_chunks zero size time s r m bs rest base messages before lo hi quiet c x l
      small b f g =
    absurd (omega arith)
read_rounds-continuation_chunks (suc f) size time s r m bs rest base messages before lo hi quiet c x
      l small b fuel g =
    let h : Header = continuation_header m in
    let v = continuation-IsValid m lo hi in
    let e = complete-continued m r time m in
    let more : List ℕ = continuation_chunks f m.chunk_stream_id size (drop size bs) in
    let not_extended : was_extended (some r) ≡ false = ground (arith, x) in
    let split : continuation_chunks (suc f) m.chunk_stream_id size bs ++ rest
        ≡ encode h ++ (take size bs ++ (more ++ rest)) =
      rw (continuation_chunks_more f m.chunk_stream_id size bs b, encode-continuation m)
        (append_assoc (base_bytes 3 m.chunk_stream_id ++ take size bs) more rest
          ∙ append_assoc (base_bytes 3 m.chunk_stream_id) (take size bs) (more ++ rest)) in
    let dropped = length-drop size bs in
    let took = length-take size bs in
    let start : Reading s size m.chunk_stream_id (midway r time (some m)) base
        (encode h ++ (take size bs ++ (more ++ rest))) messages =
      record {
        chunked = g.chunked;
        stream = g.stream;
        others = g.others;
        input = g.input ∙ split;
        calls = g.calls;
      } in
    elim (le-or-lt (length bs) size) [
      | inl le ↦
          let all_taken = take_all size bs le in
          let nothing : more ≡ [] =
            continuation_chunks_done f m.chunk_stream_id size (drop size bs) (omega arith) in
          let (t, step, k) =
            read_chunk-last s size (midway r time (some m)) base messages h (continued h r time m)
              bs rest v
              (record {
                chunked = g.chunked;
                stream = g.stream;
                others = g.others;
                input = g.input ∙ split ∙ rw (all_taken, nothing) refl;
                calls = g.calls;
              })
              (λ _. not_extended) e quiet small l le in
          (
            1,
            (check_window before t).0,
            (continued h r time m).header,
            (check_window before t).1,
            read_rounds_one before s t step,
            record { length = refl; type = refl; stream = refl; plain = refl },
            check_window-Reading before t k,
          )
      | inr lt ↦
          let m' : Message = record m { buf = m.buf ++ take size bs } in
          let sizes = length-append m.buf (take size bs) in
          let (t, step, q) =
            read_chunk-more s size (midway r time (some m)) base messages h (continued h r time m)
              (take size bs) (more ++ rest) v start (λ _. not_extended) e small (omega arith)
              (omega arith) in
          let r' = (continued h r time m).header in
          let (k, u, r'', b', steps, same, q') =
            read_rounds-continuation_chunks f size time (check_window before t).0 r' m'
              (drop size bs) rest base messages (check_window before t).1 lo hi quiet c refl
              (omega arith) small (omega arith) (omega (arith, c))
              (check_window-Reading before t q) in
          let joined : m'.buf ++ drop size bs ≡ m.buf ++ bs =
            append_assoc m.buf (take size bs) (drop size bs)
            ∙ ap (λ xs. m.buf ++ xs) (take-append-drop size bs) in
          (
            suc k,
            u,
            r'',
            b',
            read_rounds_more k before s t u step steps,
            record {
              length = same.length;
              type = same.type;
              stream = same.stream;
              plain = same.plain;
            },
            record {
              chunked = q'.chunked;
              stream = q'.stream;
              others = q'.others;
              input = q'.input;
              calls = q'.calls ∙ ap (λ xs. messages ++ (record m { buf = xs } ∷ [])) joined;
            },
          )
    ]
