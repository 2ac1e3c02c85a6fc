-- ===== src/Chunks/Writing.antt =====
-- The loop of `WriteTo` with the goroutines that call `Send`, `CreateChunkStream` and `Close` meanwhile,
-- interleaved in any order.
--
-- A call of `Send` waits in the queue of its chunk stream; those that wait on one queue are served in
-- the order in which they came, as Go's channels do. The loop takes from any queue (its select has no
-- order), writes the whole message and answers the call; so the calls are numbered, and `answers` has
-- the errors that they returned with. A panic ends the program: no step follows it.
pub mod Order
pub mod Once
pub mod Replay
pub mod Drain
use gortmp.Base.{ℕ, suc, ◌+◌, ◌≡◌, Bool, true, false, List, [], ◌∷◌, ◌++◌, Option, none, some, ◌==◌}
use gortmp.Base.{if◌then◌else◌, length}
use gortmp.Wire.{
  Sink, Outcome, ok, err, Error, out_of_range, invalid_chunk_stream_id, closed_chunk_stream,
}
use gortmp.Message.{Message}
use gortmp.Writer.{Priority, OutChunkStream, Output, write_message}
use gortmp.Chunks.{
  ChunkStreamWriter, new_chunk_stream_writer, create_chunk_stream, Sender, after_message, store,
}

abbrev pub state_of : {S A : Type 0} → Outcome S A → S
state_of (ok _ s) = s
state_of (err e s) = s

pub record Call : Type 0 where
  pub id : ℕ
  pub queue : Priority
  pub message : Message

-- What the writer went through: a message written, or a chunk stream created.
pub data Op : Type 0 where
  wrote : Call → Op
  created : ℕ → Op

pub record Writing : Type 0 where
  pub writer : ChunkStreamWriter
  pub sink : Sink
  pub waiting : List Call
  pub answers : List (ℕ × Option Error)
  pub log : List Op
  pub next : ℕ
  pub closed : Bool
  pub returned : Bool
  pub panicked : Bool

abbrev pub start : Sink → Writing
start sink = record {
  writer = new_chunk_stream_writer;
  sink = sink;
  waiting = [];
  answers = [];
  log = [];
  next = 0;
  closed = false;
  returned = false;
  panicked = false;
}

abbrev pub same_queue : Priority → Priority → Bool
same_queue Priority.high Priority.high = true
same_queue Priority.medium Priority.medium = true
same_queue Priority.low Priority.low = true
same_queue _ _ = false

-- The call of a queue that is served next.
unfoldable pub first_of : Priority → List Call → Option Call
first_of q [] = none
first_of q (c ∷ cs) = if same_queue q c.queue then some c else first_of q cs

unfoldable pub without : ℕ → List Call → List Call
without i [] = []
without i (c ∷ cs) = if c.id == i then without i cs else c ∷ without i cs

unfoldable pub waits : ℕ → List Call → Bool
waits i [] = false
waits i (c ∷ cs) = if c.id == i then true else waits i cs

unfoldable pub answer : ℕ → Option Error → Writing → Writing
answer i e t = record t { answers = t.answers ++ ((i, e) ∷ []); waiting = without i t.waiting }

-- `Send` up to its select, with what it found in the table.
unfoldable pub enter : Message → Option OutChunkStream → Writing → Writing
enter msg none t = record t {
  answers = t.answers ++ ((t.next, some invalid_chunk_stream_id) ∷ []);
  next = suc t.next;
}
enter msg (some cs) t = record t {
  waiting = t.waiting ++ (record { id = t.next; queue = cs.message_queue; message = msg } ∷ []);
  next = suc t.next;
}

unfoldable pub call : Message → Writing → Writing
call msg t = enter msg (t.writer.chunk_streams msg.chunk_stream_id) t

-- `CreateChunkStream`
unfoldable pub create : ℕ → Writing → Writing
create p t = record t {
  writer = state_of (create_chunk_stream p t.writer);
  log = t.log ++ (created p ∷ []);
}

abbrev pub is_panic : Error → Bool
is_panic out_of_range = true
is_panic _ = false

abbrev pub panics : {S : Type 0} → Outcome S (Unit {0}) → Bool
panics (ok _ s) = false
panics (err e s) = is_panic e

abbrev pub error_of : {S : Type 0} → Outcome S (Unit {0}) → Option Error
error_of (ok _ s) = none
error_of (err e s) = some e

-- The closure that `Send` passes on: the message is written, and the caller is told how that ended.
-- The loop itself is told that all went well. The chunk stream is in the table, where it was found.
unfoldable pub finish : Call → Outcome Sender (Unit {0}) → Writing → Writing
finish c o t = answer c.id (error_of o) (record t {
  writer = (state_of o).writer;
  sink = (state_of o).sink;
  log = t.log ++ (wrote c ∷ []);
  panicked = panics o;
})

unfoldable pub write_on : Call → Option OutChunkStream → Writing → Writing
write_on c none t = t
write_on c (some cs) t =
    finish c
      (store t.writer c.message.chunk_stream_id (
        write_message (suc (length c.message.buf)) (record {
          chunk_size = t.writer.chunk_size;
          stream = cs;
          message = c.message;
          sink = t.sink;
        })))
      t

unfoldable pub write : Call → Writing → Writing
write c t = write_on c (t.writer.chunk_streams c.message.chunk_stream_id) t

pub data Step (t : Writing) : Writing → Type 0 where
  calls : (msg : Message) → Step t (call msg t)
  creates : (p : ℕ) → Step t (create p t)
  writes :
      (q : Priority) (c : Call)
      → t.returned ≡ false
      → first_of q t.waiting ≡ some c
      → Step t (write c t)
  closes : Step t (record t { closed = true })
  gives_up :
      (i : ℕ)
      → t.closed ≡ true
      → waits i t.waiting ≡ true
      → Step t (answer i (some closed_chunk_stream) t)
  returns : t.closed ≡ true → Step t (record t { returned = true })

pub data Reach (sink : Sink) : Writing → Type 0 where
  started : Reach sink (start sink)
  later : {t t' : Writing} → Reach sink t → t.panicked ≡ false → Step t t' → Reach sink t'
