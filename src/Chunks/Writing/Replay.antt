-- ===== src/Chunks/Writing/Replay.antt =====
-- The writing loop against the calls one after the other.
use gortmp.Base.{◌≡◌, refl, ap, ◌∙◌, true, List, [], ◌∷◌, ◌++◌, Option, none, some}
use gortmp.Wire.{Sink}
use gortmp.Message.{Message}
use gortmp.Writer.{OutChunkStream}
use gortmp.Chunks.{Sender, create_chunk_stream, new_chunk_stream_writer, send}
use gortmp.Chunks.Writing.{
  Call, Op, wrote, created, Writing, answer, enter, call, create, finish, write_on, write, state_of,
  Step, calls, creates, writes, closes, gives_up, returns, Reach, started, later,
}

-- One operation after the other on a writer: `Send` that is taken at once, and `CreateChunkStream`.
unfoldable pub replay_one : Op → Sender → Sender
replay_one (wrote c) s = state_of (send true c.message s)
replay_one (created p) s = record s { writer = state_of (create_chunk_stream p s.writer) }

unfoldable pub replay : List Op → Sender → Sender
replay [] s = s
replay (o ∷ ops) s = replay ops (replay_one o s)

replay-append :
    (ops : List Op) (o : Op) (s : Sender) → replay (ops ++ (o ∷ [])) s ≡ replay_one o (replay ops s)
unfolding replay
replay-append [] o s = refl
replay-append (o' ∷ ops) o s = replay-append ops o (replay_one o' s)

abbrev pub sender : Writing → Sender
sender t = record { writer = t.writer; sink = t.sink }

sent_alone :
    (c : Call) (cs : OutChunkStream) (t : Writing)
    → t.writer.chunk_streams c.message.chunk_stream_id ≡ some cs
    → replay_one (wrote c) (sender t) ≡ sender (write_on c (some cs) t)
unfolding replay_one write_on finish answer send
sent_alone c cs t found = rw (found, send) refl

replay-write_on :
    (c : Call) (x : Option OutChunkStream) (t : Writing) (s : Sender)
    → t.writer.chunk_streams c.message.chunk_stream_id ≡ x
    → replay t.log s ≡ sender t
    → replay (write_on c x t).log s ≡ sender (write_on c x t)
unfolding write_on finish answer
replay-write_on c none t s found e = e
replay-write_on c (some cs) t s found e =
    replay-append t.log (wrote c) s ∙ ap (replay_one (wrote c)) e ∙ sent_alone c cs t found

replay-enter :
    (msg : Message) (x : Option OutChunkStream) (t : Writing) (s : Sender)
    → replay t.log s ≡ sender t
    → replay (enter msg x t).log s ≡ sender (enter msg x t)
unfolding enter
replay-enter msg none t s e = e
replay-enter msg (some cs) t s e = e

Step-replay :
    (t t' : Writing) (s : Sender)
    → replay t.log s ≡ sender t
    → Step t t'
    → replay t'.log s ≡ sender t'
unfolding call create write answer replay_one
Step-replay t _ s e (calls msg) =
    replay-enter msg (t.writer.chunk_streams msg.chunk_stream_id) t s e
Step-replay t _ s e (creates p) = replay-append t.log (created p) s ∙ ap (replay_one (created p)) e
Step-replay t _ s e (writes q c run first) =
    replay-write_on c (t.writer.chunk_streams c.message.chunk_stream_id) t s refl e
Step-replay t _ s e closes = e
Step-replay t _ s e (gives_up i shut w) = e
Step-replay t _ s e (returns shut) = e

pub reach-replay :
    (sink : Sink) (t : Writing)
    → Reach sink t
    → replay t.log (record { writer = new_chunk_stream_writer; sink = sink }) ≡ sender t
unfolding replay
reach-replay sink _ started = refl
reach-replay sink t' (later {t} r alive s) =
    Step-replay t t' (record { writer = new_chunk_stream_writer; sink = sink })
      (reach-replay sink t r) s
