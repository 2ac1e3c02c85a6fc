-- ===== src/Loopback/Sync.antt =====
-- A writer and a reader in step on every chunk stream: what a message and a new chunk stream do.
use gortmp.Base.{ℕ, ◌<◌, ◌≡◌, ◌≢◌, refl, sym, ap, arith, true, false}
use gortmp.Base.{List, [], ◌∷◌, ◌++◌, Option, none, some, subst}
use gortmp.Base.{Bool, ◌==◌, ◌⊎◌, inl, inr, Bool-cases}
use gortmp.Wire.{Outcome, ok}
use gortmp.Message.{Message}
use gortmp.Writer.{OutChunkStream, new_header, fresh_stream}
use gortmp.Writer.Whole.{message_chunks}
use gortmp.Reader.{InChunkStream, Session, stream_at, new_stream}
use gortmp.Reader.Payload.{messages_of}
use gortmp.Chunks.{ChunkStreamWriter, Sender, update}
use gortmp.Chunks.Create.{Created}
use gortmp.Chunks.Writing.{state_of}
use gortmp.Loopback.{InStep, Delivers, read_rounds, Behind-eq, IsPunctual}
use gortmp.Loopback.Received.{receives}
use gortmp.Loopback.Whole.{IsOrdinary, output, behind_message}

-- A chunk stream that the writer does not know is new to the reader.
pub record Agrees (exact : Bool) (out : Option OutChunkStream) (in_ : InChunkStream) : Type 0 where
  pub unknown : out ≡ none → in_ ≡ new_stream
  pub known : (cs : OutChunkStream) → out ≡ some cs → InStep exact cs in_

pub record InSync (exact : Bool) (w : ChunkStreamWriter) (s : Session) : Type 0 where
  pub same_size : s.chunk_size ≡ w.chunk_size
  pub chunked : 0 < w.chunk_size
  pub streams : (j : ℕ) → Agrees exact (w.chunk_streams j) (stream_at s.chunk_streams j)

same-or-not : (i j : ℕ) → ((i ≡ j) × ((i == j) ≡ true)) ⊎ ((i ≢ j) × ((i == j) ≡ false))
same-or-not i j = elim (Bool-cases (i == j)) [
  | inl e ↦ inl (ground arith, e)
  | inr e ↦ inr (ground arith, e)
]

InStep-Agrees :
    {exact : Bool} (cs : OutChunkStream) (in_ : InChunkStream)
    → InStep exact cs in_
    → Agrees exact (some cs) in_
InStep-Agrees {exact} cs in_ step = record {
  unknown = λ e. absurd (cc);
  known = λ cs' e. let same : cs ≡ cs' = cc in subst (λ c. InStep exact c in_) same step;
}

-- One of the writer's streams and the reader's stream of the same ID are now in step.
pub update-Agrees :
    {exact : Bool} (t : ℕ → Option OutChunkStream) (i j : ℕ) (cs : OutChunkStream)
    (in_ : InChunkStream)
    → (i ≡ j → InStep exact cs in_)
    → (i ≢ j → Agrees exact (t j) in_)
    → Agrees exact (update t i cs j) in_
update-Agrees t i j cs in_ here elsewhere = elim (same-or-not i j) [
  | inl (same, e) ↦ rw e (InStep-Agrees cs in_ (here same))
  | inr (other, e) ↦ rw e (elsewhere other)
]

-- What a message does to a reader in step with the writer that has sent it.
pub record Passed (exact : Bool) (msg : Message) (w : ChunkStreamWriter) (r : Session) (before : ℕ)
    (rest : List ℕ) : Type 0 where
  pub count : ℕ
  pub before' : ℕ
  pub message : Message
  pub session : Session
  pub read : read_rounds count before r ≡ ok before' session
  pub delivers : Delivers exact message msg
  pub in_sync : InSync exact w session
  pub input : session.source.rest ≡ rest
  pub calls : messages_of session.events ≡ messages_of r.events ++ (message ∷ [])

pub passes :
    {exact : Bool} (s : Sender) (cs : OutChunkStream) (msg : Message) (r : Session) (before : ℕ)
    (rest : List ℕ)
    → IsOrdinary msg
    → IsPunctual exact cs msg
    → s.writer.chunk_streams msg.chunk_stream_id ≡ some cs
    → InSync exact s.writer r
    → r.source.rest ≡ message_chunks (output s cs msg) ++ rest
    → Passed exact msg (behind_message s cs msg).writer r before rest
passes {exact} s cs msg r before rest v punctual found sync input =
    let csi = msg.chunk_stream_id in
    let base : ℕ → InChunkStream = stream_at r.chunk_streams in
    let (t, x) =
      receives (output s cs msg) (base csi) v.sendable v.whole v.some_bytes sync.chunked
        ((sync.streams csi).known cs found) punctual before r base rest (messages_of r.events)
        (record {
          chunked = sync.same_size;
          stream = refl;
          input = input;
          others = λ j n. refl;
          calls = refl;
        }) in
    record {
      count = x.count;
      before' = x.before';
      message = x.message;
      session = t;
      read = x.read;
      delivers = x.delivers;
      in_sync = record {
        same_size = x.reading.chunked;
        chunked = sync.chunked;
        streams = λ j.
            update-Agrees s.writer.chunk_streams csi j (new_header cs msg).1
              (stream_at t.chunk_streams j)
              (λ same.
                subst (λ i. InStep exact (new_header cs msg).1 (stream_at t.chunk_streams i)) same
                  (subst (InStep exact (new_header cs msg).1) (sym x.reading.stream) x.in_step))
              (λ other.
                subst (Agrees exact (s.writer.chunk_streams j))
                  (sym (x.reading.others j (λ e. other (sym e)))) (sync.streams j));
      };
      input = x.reading.input;
      calls = x.reading.calls;
    }

-- `CreateChunkStream` leaves a writer in step with what it was in step with.
pub Created-InSync :
    {exact : Bool} (p : ℕ) (w : ChunkStreamWriter) {o : Outcome ChunkStreamWriter ℕ} (r : Session)
    → Created w p o
    → InSync exact w r
    → InSync exact (state_of o) r
Created-InSync {exact} p w r (Created.created i queue e lo hi free before) sync = record {
  same_size = sync.same_size;
  chunked = sync.chunked;
  streams = λ j.
      update-Agrees w.chunk_streams i j (fresh_stream queue) (stream_at r.chunk_streams j)
        (λ same.
          let is_new : stream_at r.chunk_streams j ≡ new_stream =
            (sync.streams j).unknown (subst (λ k. w.chunk_streams k ≡ none) same free) in
          record {
            idle = ap (λ c. c.current_message) is_new;
            late = Behind-eq exact _ _ (ap (λ c. c.last_absolute_timestamp) is_new);
            known = inl refl;
          })
        (λ other. sync.streams j);
}
Created-InSync p w r (Created.no_priority h) sync = sync
Created-InSync p w r (Created.no_room every) sync = sync

pub Created-size :
    (p : ℕ) (w : ChunkStreamWriter) {o : Outcome ChunkStreamWriter ℕ}
    → Created w p o
    → (state_of o).chunk_size ≡ w.chunk_size
Created-size p w (Created.created i queue e lo hi free before) = refl
Created-size p w (Created.no_priority h) = refl
Created-size p w (Created.no_room every) = refl
