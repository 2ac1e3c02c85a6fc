-- ===== src/Loopback/Delivery.antt =====
-- From `WriteTo` with its callers to `ReadFrom` at the other end of the connection.
use gortmp.Base.{ℕ, suc, ◌+◌, ◌-◌, ◌≡◌, refl, sym, ap, ◌∙◌, arith}
use gortmp.Base.{List, [], ◌++◌, none, length, append-nil, subst}
use gortmp.Base.{inl}
use gortmp.Wire.{eof, Sink}
use gortmp.Message.{Message}
use gortmp.Writer.{fresh_stream, Priority}
use gortmp.Reader.{Session, new_stream}
use gortmp.Reader.Payload.{messages_of}
use gortmp.Chunks.{Table, new_chunk_stream_writer, Sender, update}
use gortmp.Chunks.Writing.{Writing, Reach, Op}
use gortmp.Chunks.Writing.Replay.{reach-replay}
use gortmp.Loopback.{InStep, Behind-eq}
use gortmp.Base.{Bool}
use gortmp.Loopback.Rounds.{read_rounds-length, read_loop-rounds}
use gortmp.Reader.{read_from, new_chunk_stream_reader}
use gortmp.Reader.Progress.{read_loop-empty}
use gortmp.Loopback.Sync.{update-Agrees, Agrees, InSync}
use gortmp.Loopback.Sequence.{CanSend, AllSent, DeliversAll, messages_sent, PassedAll, passes_all}

-- `ReadFrom` on all that a reader gets from a sequence.
read_from-PassedAll :
    {exact : Bool} (ops : List Op) (s : Sender) (r : Session)
    → PassedAll exact ops s r 0 []
    → (t : Session) × (messages : List Message) × (read_from r ≡ (eof, t))
      × (t.source.rest ≡ [])
      × (messages_of t.events ≡ messages_of r.events ++ messages)
      × DeliversAll exact messages (messages_sent ops)
unfolding read_from
read_from-PassedAll ops s r x =
    let left = ap (λ (bs : List ℕ). length bs) x.input in
    let rounds = read_rounds-length x.count 0 x.before' r x.session x.read in
    let total = length r.source.rest in
    let enough : suc total ≡ x.count + suc (total - x.count) = omega arith in
    (
      x.session,
      x.messages,
      rw enough (read_loop-rounds x.count (suc (total - x.count)) 0 x.before' r x.session x.read)
          ∙ read_loop-empty (total - x.count) x.before' x.session x.input,
      x.input,
      x.calls,
      x.delivers,
    )

fresh-InStep : (exact : Bool) (queue : Priority) → InStep exact (fresh_stream queue) new_stream
fresh-InStep exact queue = record { idle = refl; late = Behind-eq exact 0 0 refl; known = inl refl }

entered :
    {exact : Bool} (i j : ℕ) (queue : Priority) (t : Table)
    → Agrees exact (t j) new_stream
    → Agrees exact (update t i (fresh_stream queue) j) new_stream
entered {exact} i j queue t a =
    update-Agrees t i j (fresh_stream queue) new_stream (λ _. fresh-InStep exact queue) (λ _. a)

-- A new writer and a new reader are in step.
new-InSync :
    (exact : Bool) (bytes : List ℕ)
    → InSync exact new_chunk_stream_writer (new_chunk_stream_reader bytes)
unfolding new_chunk_stream_writer new_chunk_stream_reader
new-InSync exact bytes = record {
  same_size = refl;
  chunked = omega arith;
  streams = λ j.
      let command = update (λ _. none) 2 (fresh_stream Priority.high) in
      let control = update command 3 (fresh_stream Priority.high) in
      entered 4 j Priority.medium control (
        entered 3 j Priority.high command (
          entered 2 j Priority.high (λ _. none)
            (record { unknown = λ _. refl; known = λ cs e. absurd (cc) })));
}

-- However calls of Send, CreateChunkStream and Close and the rounds of WriteTo interleave, from a
-- new writer on which nothing was written: if each message of the log is on a chunk stream of the
-- writer that has room for it, and either is an ordinary one (as `IsOrdinary` says) or sets the
-- chunk size to a uint32 that is not 0 while the chunk size is at least 4, then every Send of the
-- log succeeds, and ReadFrom of a new reader on what was written ends at the end of the input, with
-- nothing left, and has handed over the messages of the log, in their order, each with its chunk
-- stream, type, stream, size and bytes. The absolute time of each is not above its timestamp, and
-- is equal to it if (exact) no message begins with a continuation header.
pub read_from-Reach :
    (exact : Bool) (sink : Sink) (t : Writing)
    → Reach sink t
    → sink.out ≡ []
    → CanSend exact t.log (record { writer = new_chunk_stream_writer; sink = sink })
    → AllSent t.log (record { writer = new_chunk_stream_writer; sink = sink })
      × ((u : Session) × (read_from (new_chunk_stream_reader t.sink.out) ≡ (eof, u))
          × (u.source.rest ≡ [])
          × DeliversAll exact (messages_of u.events) (messages_sent t.log))
unfolding new_chunk_stream_writer new_chunk_stream_reader
read_from-Reach exact sink t reach empty can =
    let s : Sender = record { writer = new_chunk_stream_writer; sink = sink } in
    let q = passes_all t.log s can (omega arith) in
    let written : t.sink.out ≡ q.bytes =
      ap (λ u. u.sink.out) (sym (reach-replay sink t reach))
      ∙ q.out
      ∙ ap (λ bs. bs ++ q.bytes) empty in
    let r = new_chunk_stream_reader t.sink.out in
    let (u, ms, e, left, calls, delivers) =
      read_from-PassedAll t.log s r
        (q.passed r 0 [] (new-InSync exact t.sink.out) (written ∙ sym (append-nil q.bytes))) in
    (
      q.all_sent,
      (u, e, left, subst (λ xs. DeliversAll exact xs (messages_sent t.log)) (sym calls) delivers),
    )
