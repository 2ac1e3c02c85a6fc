-- ===== src/Tests/WritingRuns.antt =====
-- The writing loop with two callers on one queue, and a third one that comes too late.
use gortmp.Base.{ℕ, refl, [], ◌∷◌, false}
use gortmp.Wire.{Sink}
use gortmp.Message.{Message}
use gortmp.Writer.{Priority}
use gortmp.Chunks.{new_chunk_stream_writer}
use gortmp.Chunks.Writing.{
  Call, Writing, start, call, enter, first_of, write, calls, writes, Reach, started, later,
}
use gortmp.Chunks.Writing.Once.{IsOrderly, reach-IsOrderly}
use gortmp.Chunks.Writing.Drain.{IsDrained, reach-IsDrained}

abbrev sink : Sink
sink = record { n = 0; out = []; room = 1000 }

abbrev small_message : ℕ → Message
small_message csid = record {
  chunk_stream_id = csid;
  timestamp = 0;
  size = 1;
  type = 20;
  stream_id = 0;
  buf = 7 ∷ [];
  is_inbound = false;
  absolute_timestamp = 0;
}

-- Two messages on the same chunk stream and one on a stream that there is not.
abbrev two_wait : Writing
two_wait = call (small_message 50) (call (small_message 3) (call (small_message 3) (start sink)))

two_wait-Reach : Reach sink two_wait
unfolding call enter new_chunk_stream_writer
two_wait-Reach =
    later (later (later started refl (calls (small_message 3))) refl (calls (small_message 3))) refl
      (calls (small_message 50))

abbrev first_call : Call
first_call = record { id = 0; queue = Priority.high; message = small_message 3 }

-- The first of them is written.
abbrev one_written : Writing
one_written = write first_call two_wait

one_written-Reach : Reach sink one_written
unfolding call enter new_chunk_stream_writer first_of
one_written-Reach = later two_wait-Reach refl (writes Priority.high first_call refl refl)

reach-IsOrderly_example : IsOrderly one_written
reach-IsOrderly_example = reach-IsOrderly sink one_written one_written-Reach

reach-IsDrained_example : (t : Writing) × IsDrained sink two_wait t
unfolding call enter new_chunk_stream_writer
reach-IsDrained_example = reach-IsDrained sink two_wait two_wait-Reach refl
