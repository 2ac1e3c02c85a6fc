-- ===== src/Loopback/Announcement.antt =====
-- A message that sets the chunk size, from `Send` to the reader.
use gortmp.Base.{ℕ, ◌≤◌, ◌<◌, ◌^◌, ◌≡◌, refl, sym, ap, ◌∙◌, arith, true, false, inr, subst}
use gortmp.Base.{List, [], ◌∷◌, ◌++◌, length, some, none, append_assoc, ◌==◌}
use gortmp.Base.Bytes.{be_uint32}
use gortmp.Wire.{ok}
use gortmp.Wire.Written.{filled}
use gortmp.Message.{Message}
use gortmp.Header.{Header}
use gortmp.Header.Write.{encode}
use gortmp.Writer.{OutChunkStream, new_header}
use gortmp.Control.{set_chunk_size_message, send_set_chunk_size}
use gortmp.Control.Agreement.{send_set_chunk_size_lem}
use gortmp.Chunks.{Sender, send, update}
use gortmp.Reader.{Session, InChunkStream, stream_at, check_window, begun}
use gortmp.Reader.Payload.{behind, messages_of}
use gortmp.Reader.Announced.{read_chunk-announced}
use gortmp.Loopback.{InStep, Behind, IsPunctual}
use gortmp.Base.{Bool}
use gortmp.Loopback.First.{
  new_header-plain, new_header-fits, not_extended, complete-new_header, new_header-last,
}
use gortmp.Loopback.Received.{remembers}
use gortmp.Loopback.Rounds.{read_rounds_one, check_window-Reading}
use gortmp.Loopback.Sync.{InSync, Passed, update-Agrees, Agrees}

module _ (size : ℕ) (s : Sender) (cs : OutChunkStream) (found : s.writer.chunk_streams 2 ≡ some cs)
    (positive : 0 < size) (range : size < 2 ^ 32) (four : 4 ≤ s.writer.chunk_size) where
  abbrev msg : Message
  msg = set_chunk_size_message size

  abbrev h : Header
  h = (new_header cs msg).0

  abbrev pub announcement : List ℕ
  announcement = encode h ++ be_uint32 size

  -- The writer has taken over the size.
  abbrev pub behind_announcement : Sender
  behind_announcement = record {
    writer = record s.writer {
      chunk_size = size;
      chunk_streams = update s.writer.chunk_streams 2 (new_header cs msg).1;
    };
    sink = filled s.sink announcement;
  }

  pub send-announcement :
      length announcement ≤ s.sink.room → send true msg s ≡ ok tt behind_announcement
  unfolding send_set_chunk_size
  send-announcement fits =
      let not_zero : (size == 0) ≡ false = ground arith in
      send_set_chunk_size_lem size s cs found range four fits ∙ rw not_zero refl

  pub announcement-Passed :
      {exact : Bool} (r : Session) (before : ℕ) (rest : List ℕ)
      → IsPunctual exact cs msg
      → InSync exact s.writer r
      → r.source.rest ≡ announcement ++ rest
      → Passed exact msg behind_announcement.writer r before rest
  announcement-Passed {exact} r before rest punctual sync input =
      let base : ℕ → InChunkStream = stream_at r.chunk_streams in
      let in_ = base 2 in
      let i : InStep exact cs in_ = (sync.streams 2).known cs found in
      let (x, ts, f, id, l, k, str) = new_header-plain cs msg (omega arith) in
      let (c, e, known, mb, late) = complete-new_header cs msg in_ i punctual (omega arith) in
      let made = mb ∙ ap (λ j. begun j c.header c.time) id in
      let (t, step, q) =
        read_chunk-announced r s.writer.chunk_size size in_ base (messages_of r.events) h c rest
          (new_header-fits cs msg (omega arith) (omega arith) (omega arith) (omega arith)
            (omega arith))
          (record {
            chunked = sync.same_size;
            stream = ap base id;
            others = λ j n. refl;
            input = input ∙ append_assoc (encode h) (be_uint32 size) rest;
            calls = refl;
          })
          (not_extended cs msg in_ i) e (ap (λ m. m.buf) made)
          (ap (λ m. m.size) made ∙ known.length ∙ l) (ap (λ m. m.chunk_stream_id) made)
          (ap (λ m. m.type) made ∙ known.type ∙ k) four range in
      let q' = check_window-Reading before t q in
      let u = (check_window before t).0 in
      let now = (new_header cs msg).1 in
      let at_two : stream_at u.chunk_streams 2 ≡ behind c none =
        ap (stream_at u.chunk_streams) (sym id) ∙ q'.stream in
      let in_step : InStep exact now (behind c none) = record {
        idle = refl;
        late = subst (Behind exact c.time) (sym (new_header-last cs msg)) late;
        known = inr (h, c.header, remembers cs msg, refl, known);
      } in
      record {
        count = 1;
        before' = (check_window before t).1;
        message = record (begun 2 c.header c.time) { buf = be_uint32 size };
        session = u;
        read = read_rounds_one before r t step;
        delivers = record {
          id = refl;
          size = known.length ∙ l;
          type = known.type ∙ k;
          stream = known.stream ∙ str;
          buf = refl;
          time = late;
        };
        in_sync = record {
          same_size = q'.chunked;
          chunked = positive;
          streams = λ j.
              update-Agrees s.writer.chunk_streams 2 j now (stream_at u.chunk_streams j)
                (λ same.
                  subst (λ n. InStep exact now (stream_at u.chunk_streams n)) same
                    (subst (InStep exact now) (sym at_two) in_step))
                (λ other.
                  subst (Agrees exact (s.writer.chunk_streams j))
                    (sym (q'.others j (λ d. other (sym (d ∙ id))))) (sync.streams j));
        };
        input = q'.input;
        calls =
            q'.calls
            ∙ ap (λ m. messages_of r.events ++ (record m { buf = m.buf ++ be_uint32 size } ∷ []))
                made;
      }
