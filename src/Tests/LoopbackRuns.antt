-- ===== src/Tests/LoopbackRuns.antt =====
-- Two callers of the writer, and the reader at the other end.
use gortmp.Base.{ℕ, ◌≡◌, refl, sym, ap, subst, [], ◌∷◌, ◌≤◌, none, true, false, arith}
use gortmp.Wire.{Sink, eof, ok}
use gortmp.Control.{set_window_size_message}
use gortmp.Message.{Message}
use gortmp.Writer.{Priority, fresh_stream, new_header}
use gortmp.Writer.Whole.{message_chunks, continuation_chunks}
use gortmp.Header.Write.{encode, base_bytes, message_bytes, field_bytes, extended_bytes}
use gortmp.Reader.{Session, read_from, new_chunk_stream_reader}
use gortmp.Reader.Payload.{messages_of}
use gortmp.Chunks.{new_chunk_stream_writer, Sender, send, create_chunk_stream, find_free, queue_of}
use gortmp.Chunks.Writing.{
  Call, Writing, start, call, create, enter, first_of, write, write_on, finish, answer, calls,
  without, wrote, created, state_of, creates, writes, Reach, started, later,
}
use gortmp.Chunks.Writing.Replay.{replay_one, sender}
use gortmp.Loopback.Whole.{IsOrdinary, behind_message, send-message_chunks}
use gortmp.Loopback.Sends.{ordinary}
use gortmp.Loopback.Sequence.{CanSend, AllSent, DeliversAll, messages_sent}
use gortmp.Loopback.Delivery.{read_from-Reach}

abbrev pub sink : Sink
sink = record { n = 0; out = []; room = 1000 }

abbrev pub new_sender : Sender
new_sender = record { writer = new_chunk_stream_writer; sink = sink }

-- A message of two bytes.
abbrev pub message_on : ℕ → Message
message_on csid = record {
  chunk_stream_id = csid;
  timestamp = 40;
  size = 2;
  type = 9;
  stream_id = 1;
  buf = 7 ∷ 8 ∷ [];
  is_inbound = false;
  absolute_timestamp = 40;
}

abbrev pub window_message : Message
window_message = set_window_size_message 5000

message_on-IsOrdinary : (csid : ℕ) → 3 ≤ csid → csid ≤ 319 → IsOrdinary (message_on csid)
message_on-IsOrdinary csid lo hi = record {
  sendable = record {
    id_above = omega arith;
    id_below = hi;
    early = omega arith;
    length_range = omega arith;
    stream_range = omega arith;
    quiet = record { sizeless = λ e t. omega arith; window = λ e t. omega arith };
  };
  ordinary = λ e. absurd (omega (arith, e));
  whole = refl;
  some_bytes = omega arith;
}

window_message-IsOrdinary : IsOrdinary window_message
window_message-IsOrdinary = record {
  sendable = record {
    id_above = omega arith;
    id_below = omega arith;
    early = omega arith;
    length_range = omega arith;
    stream_range = omega arith;
    quiet = record { sizeless = λ e t. absurd (omega (arith, t)); window = λ e t. omega arith };
  };
  ordinary = λ e. absurd (omega (arith, e));
  whole = refl;
  some_bytes = omega arith;
}

-- A chunk stream is created, and messages wait on it and on the control stream.
abbrev pub two_wait : Writing
two_wait = call (message_on 5) (call window_message (create 2 (start sink)))

abbrev pub window_call : Call
window_call = record { id = 0; queue = Priority.high; message = window_message }

abbrev pub later_call : Call
later_call = record { id = 1; queue = Priority.low; message = message_on 5 }

abbrev pub control_sent : Sender
control_sent = behind_message (sender two_wait) (fresh_stream Priority.high) window_message

send_window : send true window_message (sender two_wait) ≡ ok tt control_sent
unfolding call enter create new_chunk_stream_writer create_chunk_stream find_free queue_of
    message_chunks continuation_chunks encode base_bytes message_bytes field_bytes extended_bytes
    new_header
send_window =
    send-message_chunks (sender two_wait) (fresh_stream Priority.high) window_message
      window_message-IsOrdinary (omega arith) refl (omega arith)

abbrev pub window_written : Writing
window_written = record two_wait {
  writer = control_sent.writer;
  sink = control_sent.sink;
  log = created 2 ∷ wrote window_call ∷ [];
  answers = (0, none) ∷ [];
  waiting = later_call ∷ [];
}

window_written_lem : write window_call two_wait ≡ window_written
unfolding call enter create write write_on finish answer new_chunk_stream_writer create_chunk_stream
    find_free queue_of send without
window_written_lem = rw (ap (λ o. finish window_call o two_wait) send_window) refl

abbrev pub both_written : Writing
both_written = write later_call window_written

pub both_written-Reach : Reach sink both_written
unfolding call enter create new_chunk_stream_writer first_of create_chunk_stream find_free queue_of
both_written-Reach =
    let waiting =
      later (later (later started refl (creates 2)) refl (calls window_message)) refl
        (calls (message_on 5)) in
    let once : Reach sink window_written =
      subst (Reach sink) window_written_lem
        (later waiting refl (writes Priority.high window_call refl refl)) in
    later once refl (writes Priority.low later_call refl refl)

pub both_written-CanSend : CanSend true both_written.log new_sender
unfolding call enter create new_chunk_stream_writer write write_on finish answer CanSend replay_one
    create_chunk_stream find_free queue_of message_chunks continuation_chunks encode base_bytes
    message_bytes field_bytes extended_bytes new_header
both_written-CanSend = (
  (
    fresh_stream Priority.high,
    refl,
    ordinary window_message window_message-IsOrdinary (omega arith),
    λ e f. absurd (omega (arith, f)),
  ),
  subst (CanSend true (wrote later_call ∷ [])) (ap state_of (sym send_window)) (
    (
      fresh_stream Priority.low,
      refl,
      ordinary (message_on 5) (message_on-IsOrdinary 5 (omega arith) (omega arith)) (omega arith),
      λ e f. absurd (omega (arith, f)),
    ),
    tt,
  ),
)

read_from-Reach_example :
    AllSent both_written.log new_sender
    × ((u : Session) × (read_from (new_chunk_stream_reader both_written.sink.out) ≡ (eof, u))
        × (u.source.rest ≡ [])
        × DeliversAll true (messages_of u.events) (messages_sent both_written.log))
read_from-Reach_example =
    read_from-Reach true sink both_written both_written-Reach refl both_written-CanSend
