-- ===== src/Loopback/Sequence.antt =====
-- Messages sent one after the other, on any chunk streams, and what the reader makes of them.
use gortmp.Base.{ℕ, ◌+◌, ◌<◌, ◌≡◌, refl, sym, ap, ◌∙◌, arith, true}
use gortmp.Base.{List, [], ◌∷◌, ◌++◌, some, append_assoc, append-nil, subst}
use gortmp.Wire.{ok}
use gortmp.Message.{Message}
use gortmp.Writer.{OutChunkStream}
use gortmp.Reader.{Session}
use gortmp.Reader.Payload.{messages_of}
use gortmp.Chunks.{Sender, send}
use gortmp.Chunks.Create.{create_chunk_stream-Created}
use gortmp.Chunks.Writing.{Call, Op, wrote, created, state_of}
use gortmp.Chunks.Writing.Replay.{replay, replay_one}
use gortmp.Loopback.{Delivers, read_rounds, IsPunctual}
use gortmp.Base.{Bool}
use gortmp.Loopback.Rounds.{read_rounds-add}
use gortmp.Loopback.Sync.{InSync, Created-InSync, Created-size}
use gortmp.Base.{◌<◌}
use gortmp.Loopback.Sends.{CanPass, Sends, CanPass-Sends}

-- Each message is on a chunk stream of the writer and can be sent when its turn comes; where exact
-- times are asked for, it does not begin with a continuation header.
unfoldable pub CanSend : Bool → List Op → Sender → Type 0
CanSend exact [] s = Unit {0}
CanSend exact (wrote c ∷ ops) s =
    ((cs : OutChunkStream) × (s.writer.chunk_streams c.message.chunk_stream_id ≡ some cs)
      × CanPass s cs c.message
      × IsPunctual exact cs c.message)
    × CanSend exact ops (replay_one (wrote c) s)
CanSend exact (created p ∷ ops) s = CanSend exact ops (replay_one (created p) s)

-- Every `Send` returns without an error.
unfoldable pub AllSent : List Op → Sender → Type 0
AllSent [] s = Unit {0}
AllSent (wrote c ∷ ops) s =
    (send true c.message s ≡ ok tt (replay_one (wrote c) s)) × AllSent ops (replay_one (wrote c) s)
AllSent (created p ∷ ops) s = AllSent ops (replay_one (created p) s)

-- The messages of a sequence of operations.
abbrev pub messages_sent : List Op → List Message
messages_sent [] = []
messages_sent (wrote c ∷ ops) = c.message ∷ messages_sent ops
messages_sent (created p ∷ ops) = messages_sent ops

-- The messages that were made are those that were sent, in their order.
pub data DeliversAll (exact : Bool) : List Message → List Message → Type 0 where
  nothing : DeliversAll exact [] []
  followed :
      {m msg : Message} {ms msgs : List Message}
      → Delivers exact m msg
      → DeliversAll exact ms msgs
      → DeliversAll exact (m ∷ ms) (msg ∷ msgs)

-- What a whole sequence does.
pub record PassedAll (exact : Bool) (ops : List Op) (s : Sender) (r : Session) (before : ℕ)
    (rest : List ℕ) : Type 0 where
  pub count : ℕ
  pub before' : ℕ
  pub messages : List Message
  pub session : Session
  pub read : read_rounds count before r ≡ ok before' session
  pub delivers : DeliversAll exact messages (messages_sent ops)
  pub in_sync : InSync exact (replay ops s).writer session
  pub input : session.source.rest ≡ rest
  pub calls : messages_of session.events ≡ messages_of r.events ++ messages

-- A sequence of operations: they go well, and their bytes give the messages to a reader in step.
pub record Sequence (exact : Bool) (ops : List Op) (s : Sender) : Type 0 where
  pub bytes : List ℕ
  pub all_sent : AllSent ops s
  pub out : (replay ops s).sink.out ≡ s.sink.out ++ bytes
  pub passed :
      (r : Session) (before : ℕ) (rest : List ℕ)
      → InSync exact s.writer r
      → r.source.rest ≡ bytes ++ rest
      → PassedAll exact ops s r before rest

nothing_passed : {exact : Bool} (s : Sender) → Sequence exact [] s
unfolding AllSent replay read_rounds
nothing_passed s = record {
  bytes = [];
  all_sent = tt;
  out = sym (append-nil s.sink.out);
  passed = λ r before rest sync input. record {
    count = 0;
    before' = before;
    messages = [];
    session = r;
    read = refl;
    delivers = nothing;
    in_sync = sync;
    input = input;
    calls = sym (append-nil (messages_of r.events));
  };
}

creation_passed :
    {exact : Bool} (p : ℕ) (ops : List Op) (s : Sender)
    → Sequence exact ops (replay_one (created p) s)
    → Sequence exact (created p ∷ ops) s
unfolding AllSent replay replay_one
creation_passed p ops s q = record {
  bytes = q.bytes;
  all_sent = q.all_sent;
  out = q.out;
  passed = λ r before rest sync input.
      let x =
        q.passed r before rest
          (Created-InSync p s.writer r (create_chunk_stream-Created p s.writer) sync) input in
      record {
        count = x.count;
        before' = x.before';
        messages = x.messages;
        session = x.session;
        read = x.read;
        delivers = x.delivers;
        in_sync = x.in_sync;
        input = x.input;
        calls = x.calls;
      };
}

-- A message, and then the others.
message_passed :
    {exact : Bool} (c : Call) (ops : List Op) (s : Sender) (n : Sends exact s c.message)
    → replay_one (wrote c) s ≡ n.after
    → Sequence exact ops n.after
    → Sequence exact (wrote c ∷ ops) s
unfolding AllSent replay
message_passed {exact} c ops s n same q = record {
  bytes = n.bytes ++ q.bytes;
  all_sent = (n.sent ∙ ap (ok tt) (sym same), subst (AllSent ops) (sym same) q.all_sent);
  out =
      ap (λ u. (replay ops u).sink.out) same
      ∙ q.out
      ∙ ap (λ bs. bs ++ q.bytes) n.out
      ∙ append_assoc s.sink.out n.bytes q.bytes;
  passed = λ r before rest sync input.
      let x =
        n.passed r before (q.bytes ++ rest) sync (input ∙ append_assoc n.bytes q.bytes rest) in
      let y = q.passed x.session x.before' rest x.in_sync x.input in
      record {
        count = x.count + y.count;
        before' = y.before';
        messages = x.message ∷ y.messages;
        session = y.session;
        read =
            read_rounds-add x.count y.count before x.before' y.before' r x.session y.session x.read
              y.read;
        delivers = followed x.delivers y.delivers;
        in_sync = subst (λ u. InSync exact (replay ops u).writer y.session) (sym same) y.in_sync;
        input = y.input;
        calls =
            y.calls
            ∙ ap (λ ms. ms ++ y.messages) x.calls
            ∙ append_assoc (messages_of r.events) (x.message ∷ []) y.messages;
      };
}

replay_one-send :
    (c : Call) (s t : Sender) → send true c.message s ≡ ok tt t → replay_one (wrote c) s ≡ t
unfolding replay_one
replay_one-send c s t e = ap state_of e

size_after :
    (p : ℕ) (s : Sender)
    → 0 < s.writer.chunk_size
    → 0 < (replay_one (created p) s).writer.chunk_size
unfolding replay_one
size_after p s h =
    let same = Created-size p s.writer (create_chunk_stream-Created p s.writer) in omega arith

pub passes_all :
    {exact : Bool} (ops : List Op) (s : Sender)
    → CanSend exact ops s
    → 0 < s.writer.chunk_size
    → Sequence exact ops s
unfolding CanSend
passes_all [] s can chunked = nothing_passed s
passes_all (created p ∷ ops) s can chunked =
    creation_passed p ops s (passes_all ops (replay_one (created p) s) can (size_after p s chunked))
passes_all {exact} (wrote c ∷ ops) s ((cs, found, pass, punctual), can) chunked =
    let n = CanPass-Sends s cs c.message found pass punctual chunked in
    let same = replay_one-send c s n.after n.sent in
    message_passed c ops s n same
      (passes_all ops n.after (subst (CanSend exact ops) same can) n.chunked)
