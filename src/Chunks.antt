-- ===== src/Chunks.antt =====
-- chunkstreamwriter.go: the table of chunk streams, and the sending of a message on one of them.
--
-- The table is a function of the ID. `send` is told how its `select` ends: whether the loop of
-- `WriteTo` takes the message from the stream's queue, or the writer is closed. The locks make each
-- call one step.
pub mod Create
pub mod Writing
use gortmp.Base.{ℕ, zero, suc, ◌+◌, ◌≡◌, Bool, true, false, List, [], Option, none, some, ◌==◌, ◌-◌}
use gortmp.Base.{if◌then◌else◌, length}
use gortmp.Wire.{Sink, Action, Outcome, ok, err, Error, invalid_priority, max_chunk_streams}
use gortmp.Wire.{invalid_chunk_stream_id, closed_chunk_stream}
use gortmp.Message.{Message, cs_id_base, cs_id_max, cs_id_protocol_control, cs_id_command}
use gortmp.Message.{cs_id_user_control, default_chunk_size, default_window_size}
use gortmp.Writer.{OutChunkStream, Priority, fresh_stream, Output, write_message}

abbrev pub Table : Type 0
Table = ℕ → Option OutChunkStream

abbrev pub update : Table → ℕ → OutChunkStream → Table
update t i cs j = if i == j then some cs else t j

pub record ChunkStreamWriter : Type 0 where
  pub chunk_size : ℕ
  pub window_size : ℕ
  pub chunk_streams : Table

-- `NewChunkStreamWriter`
unfoldable pub new_chunk_stream_writer : ChunkStreamWriter
new_chunk_stream_writer = record {
  chunk_size = default_chunk_size;
  window_size = default_window_size;
  chunk_streams =
      update
        (update (update (λ _. none) cs_id_protocol_control (fresh_stream Priority.high))
          cs_id_command (fresh_stream Priority.high))
        cs_id_user_control (fresh_stream Priority.medium);
}

-- The constants HighPriority, MediumPriority and LowPriority are 0, 1 and 2.
unfoldable pub queue_of : ℕ → Option Priority
queue_of p =
    if p == 0
    then some Priority.high
    else if p == 1
    then some Priority.medium
    else if p == 2
    then some Priority.low
    else none

-- `for i < CS_ID_MAX`, with the rounds that are left.
unfoldable pub find_free : ℕ → ℕ → Table → Option ℕ
find_free zero i t = none
find_free (suc rounds) i t = elim (t i) [ none ↦ some i | some cs ↦ find_free rounds (suc i) t ]

unfoldable pub create_chunk_stream : ℕ → Action ChunkStreamWriter ℕ
create_chunk_stream p csw = elim (queue_of p) [
  | none ↦ err invalid_priority csw
  | some queue ↦ elim (find_free (cs_id_max - cs_id_base) cs_id_base csw.chunk_streams) [
    | none ↦ err max_chunk_streams csw
    | some i ↦ ok i (record csw { chunk_streams = update csw.chunk_streams i (fresh_stream queue) })
  ]
]

-- The writer and the connection that `WriteTo` writes to.
pub record Sender : Type 0 where
  pub writer : ChunkStreamWriter
  pub sink : Sink

-- The chunk stream is a pointer: what `writeMessage` does to it stays, also when it fails.
abbrev pub after_message : ChunkStreamWriter → ℕ → Output → Sender
after_message csw i o = record {
  writer = record csw {
    chunk_size = o.chunk_size;
    chunk_streams = update csw.chunk_streams i o.stream;
  };
  sink = o.sink;
}

unfoldable pub store : ChunkStreamWriter → ℕ → Outcome Output (Unit {0}) → Outcome Sender (Unit {0})
store csw i (ok _ o) = ok tt (after_message csw i o)
store csw i (err e o) = err e (after_message csw i o)

unfoldable pub send : Bool → Message → Action Sender (Unit {0})
send taken msg s = elim (s.writer.chunk_streams msg.chunk_stream_id) [
  | none ↦ err invalid_chunk_stream_id s
  | some cs ↦ elim taken [
    | false ↦ err closed_chunk_stream s
    | true ↦ store s.writer msg.chunk_stream_id (
        write_message (suc (length msg.buf))
          (record { chunk_size = s.writer.chunk_size; stream = cs; message = msg; sink = s.sink }))
  ]
]
