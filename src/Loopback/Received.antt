-- ===== src/Loopback/Received.antt =====
-- What the reader makes of the chunks of a message.
use gortmp.Base.{ℕ, suc, ◌≤◌, ◌<◌, ◌≡◌, refl, sym, ◌≢◌, ap, ◌∙◌, arith, inl, inr}
use gortmp.Base.{List, [], ◌∷◌, ◌++◌, some, none, length, take, drop, le-or-lt}
use gortmp.Base.{append_assoc, take_all, length-take, length-drop}
use gortmp.Base.{take-append-drop, subst}
use gortmp.Wire.{ok}
use gortmp.Message.{Message}
use gortmp.Header.{Header}
use gortmp.Header.Write.{encode}
use gortmp.Header.RoundTrip.{carried}
use gortmp.Writer.{OutChunkStream, Output, new_header}
use gortmp.Writer.Whole.{message_chunks, continuation_chunks, continuation_chunks_done}
use gortmp.Reader.{Session, InChunkStream, Chunk, stream_at, complete, chunk_message, begun}
use gortmp.Reader.Payload.{Reading, behind, IsQuiet}
use gortmp.Reader.Step.{read_chunk-last, read_chunk-more}
use gortmp.Reader.{check_window}
use gortmp.Loopback.{read_rounds, Knows, InStep, Delivers, Behind, IsPunctual}
use gortmp.Base.{Bool}
use gortmp.Loopback.Rounds.{read_rounds_more, read_rounds_one, check_window-Reading}
use gortmp.Loopback.Rest.{midway, read_rounds-continuation_chunks}
use gortmp.Loopback.First.{
  IsSendable, new_header-plain, new_header-IsValid, not_extended, complete-new_header,
  new_header-last,
}

pub remembers :
    (cs : OutChunkStream) (msg : Message)
    → (new_header cs msg).1.last_header ≡ some (new_header cs msg).0
unfolding new_header
remembers cs msg = refl

-- What the reader is left with: the message handed over, and the stream in step.
pub record Received (exact : Bool) (o : Output) (before : ℕ) (s : Session)
    (base : ℕ → InChunkStream) (rest : List ℕ) (messages : List Message) (t : Session)
    : Type 0 where
  pub count : ℕ
  pub before' : ℕ
  pub message : Message
  pub stream : InChunkStream
  pub read : read_rounds count before s ≡ ok before' t
  pub delivers : Delivers exact message o.message
  pub in_step : InStep exact (new_header o.stream o.message).1 stream
  pub reading :
      Reading t o.chunk_size o.message.chunk_stream_id stream base rest (messages ++ (message ∷ []))

module _ {exact : Bool} (o : Output) (in_ : InChunkStream) (v : IsSendable o.message)
    (complete_buf : length o.message.buf ≡ o.message.size) (some_bytes : 0 < o.message.size)
    (chunked : 0 < o.chunk_size) (i : InStep exact o.stream in_)
    (punctual : IsPunctual exact o.stream o.message) where
  abbrev h : Header
  h = (new_header o.stream o.message).0

  abbrev more : List ℕ
  more =
      continuation_chunks (length o.message.buf) o.message.chunk_stream_id o.chunk_size
        (drop o.chunk_size o.message.buf)

  split_chunks :
      (rest : List ℕ)
      → message_chunks o ++ rest ≡ encode h ++ (take o.chunk_size o.message.buf ++ (more ++ rest))
  unfolding message_chunks
  split_chunks rest =
      append_assoc (encode h ++ take o.chunk_size o.message.buf) more rest
      ∙ append_assoc (encode h) (take o.chunk_size o.message.buf) (more ++ rest)

  -- The message begun by a chunk whose header knows the written one.
  module _ (c : Chunk) (known : Knows c.header h)
      (late : Behind exact c.time o.message.timestamp) where
    abbrev started : List ℕ → Message
    started bs = record (begun o.message.chunk_stream_id c.header c.time) { buf = bs }

    started-Delivers : (bs : List ℕ) → bs ≡ o.message.buf → Delivers exact (started bs) o.message
    started-Delivers bs e =
        let (x, t, f, id, l, k, str) = new_header-plain o.stream o.message v.early in
        record {
          id = refl;
          size = known.length ∙ l;
          type = known.type ∙ k;
          stream = known.stream ∙ str;
          buf = e;
          time = late;
        }

    step-InStep :
        (r : Header) (time : ℕ)
        → Behind exact time o.message.timestamp
        → Knows r c.header
        → InStep exact (new_header o.stream o.message).1 (midway r time none)
    step-InStep r time before same = record {
      idle = refl;
      late = subst (Behind exact time) (sym (new_header-last o.stream o.message)) before;
      known = inr (
        h,
        r,
        remembers o.stream o.message,
        refl,
        record {
          length = same.length ∙ known.length;
          type = same.type ∙ known.type;
          stream = same.stream ∙ known.stream;
          plain = same.plain;
        },
      );
    }

    module _ (before : ℕ) (s : Session) (base : ℕ → InChunkStream) (rest : List ℕ)
        (messages : List Message) (e : complete in_ (carried h) ≡ some c)
        (begins : chunk_message h.chunk_stream_id c ≡ started [])
        (size : c.header.message_length ≡ o.message.size)
        (id : h.chunk_stream_id ≡ o.message.chunk_stream_id) where
      abbrev csi : ℕ
      csi = o.message.chunk_stream_id

      others_at :
          {i j : ℕ}
          → i ≡ j
          → (t : Session) → ((k : ℕ) → k ≢ i → stream_at t.chunk_streams k ≡ base k)
          → (k : ℕ) → k ≢ j
          → stream_at t.chunk_streams k ≡ base k
      others_at e t others k n = others k (λ p. n (p ∙ e))

      start-IsQuiet : IsQuiet csi c.header.message_type_id c.header.message_length
      start-IsQuiet =
          let (x, t, f, id', l, k, str) = new_header-plain o.stream o.message v.early in
          subst (λ ty. IsQuiet csi ty c.header.message_length) (sym (known.type ∙ k))
            (subst (IsQuiet csi o.message.type) (sym size) v.quiet)

      begun-IsQuiet :
          let msg : Message = chunk_message h.chunk_stream_id c in
          IsQuiet msg.chunk_stream_id msg.type msg.size
      begun-IsQuiet =
          subst (λ (m : Message). IsQuiet m.chunk_stream_id m.type m.size) (sym begins)
            start-IsQuiet

      -- The whole message is in one chunk.
      receives_one :
          Reading s o.chunk_size h.chunk_stream_id in_ base
            (encode h ++ (o.message.buf ++ rest))
            messages
          → length o.message.buf ≤ o.chunk_size
          → (t : Session) × Received exact o before s base rest messages t
      receives_one start le =
          let p = o.message.buf in
          let same_id = ap (λ m. m.chunk_stream_id) begins in
          let same_size = ap (λ m. m.size) begins in
          let empty = ap (λ m. length m.buf) begins in
          let range = v.length_range in
          let (t, step, k) =
            read_chunk-last s o.chunk_size in_ base messages h c p rest
              (new_header-IsValid o.stream o.message v) start
              (not_extended o.stream o.message in_ i) e begun-IsQuiet (omega arith) (omega arith)
              le in
          (
            (check_window before t).0,
            record {
              count = 1;
              before' = (check_window before t).1;
              message = started p;
              stream = behind c none;
              read = read_rounds_one before s t step;
              delivers = started-Delivers p refl;
              in_step =
                  step-InStep c.header c.time late
                    (record { length = refl; type = refl; stream = refl; plain = known.plain });
              reading = check_window-Reading before t (record {
                chunked = k.chunked;
                stream = subst (λ j. stream_at t.chunk_streams j ≡ behind c none) id k.stream;
                others = others_at id t k.others;
                input = k.input;
                calls = k.calls ∙ ap (λ m. messages ++ (record m { buf = m.buf ++ p } ∷ [])) begins;
              });
            },
          )

      -- More chunks follow the first.
      receives_several :
          Reading s o.chunk_size h.chunk_stream_id in_ base
            (encode h ++ (take o.chunk_size o.message.buf ++ (more ++ rest)))
            messages
          → o.chunk_size < length o.message.buf
          → (t : Session) × Received exact o before s base rest messages t
      receives_several start lt =
          let p = take o.chunk_size o.message.buf in
          let p' = drop o.chunk_size o.message.buf in
          let same_size = ap (λ m. m.size) begins in
          let empty = ap (λ m. length m.buf) begins in
          let range = v.length_range in
          let took = length-take o.chunk_size o.message.buf in
          let left = length-drop o.chunk_size o.message.buf in
          let (t, step, k) =
            read_chunk-more s o.chunk_size in_ base messages h c p (more ++ rest)
              (new_header-IsValid o.stream o.message v) start
              (not_extended o.stream o.message in_ i) e (omega arith) (omega arith) (omega arith) in
          let middle : Reading t o.chunk_size csi (midway c.header c.time (some (started p))) base
              (more ++ rest) messages =
            record {
              chunked = k.chunked;
              stream =
                  subst (λ j. stream_at t.chunk_streams j ≡ behind c (some (started p))) id
                    (k.stream ∙ ap (λ m. behind c (some (record m { buf = m.buf ++ p }))) begins);
              others = others_at id t k.others;
              input = k.input;
              calls = k.calls;
            } in
          let (n, u, r, b, steps, same, q) =
            read_rounds-continuation_chunks (length o.message.buf) o.chunk_size c.time
              (check_window before t).0 c.header (started p) p' rest base messages
              (check_window before t).1 v.id_above v.id_below start-IsQuiet chunked known.plain
              (omega arith) (omega arith) (omega arith) (omega arith)
              (check_window-Reading before t middle) in
          (
            u,
            record {
              count = suc n;
              before' = b;
              message = started (p ++ p');
              stream = midway r c.time none;
              read = read_rounds_more n before s t u step steps;
              delivers = started-Delivers (p ++ p') (take-append-drop o.chunk_size o.message.buf);
              in_step = step-InStep r c.time late same;
              reading = q;
            },
          )

  -- From the chunks of a message the reader gets that message, in one chunk or several.
  pub receives :
      (before : ℕ) (s : Session) (base : ℕ → InChunkStream) (rest : List ℕ)
      (messages : List Message)
      → Reading s o.chunk_size o.message.chunk_stream_id in_ base
          (message_chunks o ++ rest)
          messages
      → (t : Session) × Received exact o before s base rest messages t
  receives before s base rest messages g =
      let msg = o.message in
      let (x, ts, f, id, l, k, str) = new_header-plain o.stream msg v.early in
      let (c, e, known, mb, late) = complete-new_header o.stream msg in_ i punctual v.early in
      let begins = mb ∙ ap (λ j. begun j c.header c.time) id in
      let at_id : stream_at s.chunk_streams h.chunk_stream_id ≡ in_ = rw id g.stream in
      let input = g.input ∙ split_chunks rest in
      elim (le-or-lt (length msg.buf) o.chunk_size) [
        | inl le ↦
            let all_taken = take_all o.chunk_size msg.buf le in
            let nothing : more ≡ [] =
              continuation_chunks_done (length msg.buf) msg.chunk_stream_id o.chunk_size
                (drop o.chunk_size msg.buf) (omega (arith, length-drop o.chunk_size msg.buf)) in
            receives_one c known late before s base rest messages e begins (known.length ∙ l) id
              (record {
                chunked = g.chunked;
                stream = at_id;
                others = λ j n. g.others j (rw (sym id) n);
                input = input ∙ rw (all_taken, nothing) refl;
                calls = g.calls;
              })
              le
        | inr lt ↦
            receives_several c known late before s base rest messages e begins (known.length ∙ l) id
              (record {
                chunked = g.chunked;
                stream = at_id;
                others = λ j n. g.others j (rw (sym id) n);
                input = input;
                calls = g.calls;
              })
              lt
      ]
