-- ===== src/Server/Session/Opening.antt =====
-- `connect` and `createStream` on a connection that has done nothing yet.
use Prim.Native.String.{String}
use gortmp.Base.{
  ℕ, ◌+◌, ◌≡◌, ◌≢◌, refl, ap, ◌∙◌, List, [], ◌∷◌, ◌++◌, Option, none, some, true, false, arith,
}
use gortmp.Base.{append_assoc, ◌==◌, suc, length}
use gortmp.Base.Maps.{lookup}
use gortmp.Wire
use gortmp.Message.{Message}
use gortmp.Writer.{Priority, fresh_stream}
use gortmp.Chunks.{
  ChunkStreamWriter, new_chunk_stream_writer, create_chunk_stream, queue_of, find_free,
}
use gortmp.Chunks as Chunks
use gortmp.Command.{Amf, Command, ConnectCommand, Result}
use gortmp.Command.Raw.{Values}
use gortmp.Command.Whole.{parse_command}
use gortmp.Server.{World, Stream, Effect, Content, sent, on_create_stream}
use gortmp.Server.Connection.{first_free}
use gortmp.Server.Events.{Event, message, run}
use gortmp.Server.Answers.{connected, connect_answers, connect_answered}
use gortmp.Server.Session.{with_new_stream, new_id, stream_answers, on_command-create_stream}
use gortmp.Server.Session.Steps.{run-command}

-- A connection without a stream, and sends that succeed.
pub record IsNew (c : ℕ) (w : World) : Type 0 where
  pub streams : (w.conns c).streams ≡ []
  pub writer : (w.conns c).writer ≡ new_chunk_stream_writer
  pub lucky : w.fates ≡ []

-- The stream that a client is given: its ID is 1, and its chunk stream 5.
abbrev pub first_stream : ℕ → Stream
first_stream c = record {
  id = 1;
  csid = 5;
  conn = c;
  name = "";
  publishing = false;
  playing = false;
  handled = true;
  media_stream = none;
  media_player = none;
}

abbrev pub opening_answers : ℕ → ℕ → ℕ → ℕ → List Effect
opening_answers c s txn txn' =
    connect_answers c txn
    ++ (sent c 3 0 (Content.create_result txn' 1)
        ∷ sent c 2 0 (Content.stream_begin 1)
        ∷ on_create_stream s
        ∷ [])

-- The world behind the two commands.
pub record Opened (c txn txn' : ℕ) (w w' : World) : Type 0 where
  pub entered : (w'.conns c).streams ≡ (1, w.next_stream) ∷ []
  pub stream : w'.stream w.next_stream ≡ first_stream c
  pub others : (j : ℕ) → j ≢ w.next_stream → w'.stream j ≡ w.stream j
  pub conns : (d : ℕ) → d ≢ c → w'.conns d ≡ w.conns d
  pub next : w'.next_stream ≡ w.next_stream + 1
  pub names : w'.streams ≡ w.streams
  pub media : w'.media ≡ w.media
  pub next_media : w'.next_media ≡ w.next_media
  pub players : w'.players ≡ w.players
  pub player : w'.player ≡ w.player
  pub next_player : w'.next_player ≡ w.next_player
  pub lucky : w'.fates ≡ []
  pub trace : w'.trace ≡ w.trace ++ opening_answers c w.next_stream txn txn'

abbrev writer_with_five : ChunkStreamWriter
writer_with_five = record new_chunk_stream_writer {
  chunk_streams = Chunks.update new_chunk_stream_writer.chunk_streams 5 (fresh_stream Priority.low);
}

five_is_free : create_chunk_stream 2 new_chunk_stream_writer ≡ Wire.ok 5 writer_with_five
unfolding create_chunk_stream new_chunk_stream_writer queue_of find_free
five_is_free = refl

module _ (c txn txn' : ℕ) (w : World) (new : IsNew c w) where
  abbrev behind_connect : World
  behind_connect = connected c txn w

  abbrev behind_create : World
  behind_create = with_new_stream c txn' 5 writer_with_five behind_connect

  connected_streams : (behind_connect.conns c).streams ≡ []
  connected_streams = ground (arith, new.streams)

  connected_writer : (behind_connect.conns c).writer ≡ new_chunk_stream_writer
  connected_writer = ground (arith, new.writer)

  first_id : new_id c txn' 5 writer_with_five behind_connect ≡ 1
  unfolding first_free lookup
  first_id = ap (λ (t : List (ℕ × ℕ)). first_free (suc (length t)) 1 t) connected_streams

  abbrev answers_for : ℕ → List Effect
  answers_for i =
      sent c 3 0 (Content.create_result txn' i)
      ∷ sent c 2 0 (Content.stream_begin i)
      ∷ on_create_stream w.next_stream
      ∷ []

  behind_create-Opened : Opened c txn txn' w behind_create
  behind_create-Opened = record {
    entered =
        let same : (c == c) ≡ true = ground arith in
        rw same refl
        ∙ ap (λ i. (i, w.next_stream) ∷ (behind_connect.conns c).streams) first_id
        ∙ ap (λ (t : List (ℕ × ℕ)). (1, w.next_stream) ∷ t) connected_streams;
    stream =
        let same : (w.next_stream == w.next_stream) ≡ true = ground arith in
        rw same refl ∙ ap (λ i. record (first_stream c) { id = i }) first_id;
    others = λ j n. ground arith;
    conns = λ d n. ground arith;
    next = refl;
    names = refl;
    media = refl;
    next_media = refl;
    players = refl;
    player = refl;
    next_player = refl;
    lucky = new.lucky;
    trace =
        append_assoc w.trace (connect_answers c txn)
          (stream_answers c txn' 5 writer_with_five behind_connect)
        ∙ ap (λ i. w.trace ++ (connect_answers c txn ++ answers_for i)) first_id;
  }

module _ (a : Amf) (v : Values a) (app_of : a.Object → Option String) where
  -- What a new connection does first: it connects to the application and creates a stream.
  pub run-Opened :
      (c txn' : ℕ) (cmd : ConnectCommand a) (m m' : Message) (w : World) (es : List Event)
      → IsNew c w
      → app_of cmd.properties ≡ some "app"
      → parse_command a v m ≡ Result.ok (Command.connect cmd)
      → parse_command a v m' ≡ Result.ok (Command.create_stream (record { transaction_id = txn' }))
      → (w' : World) × Opened c cmd.transaction_id txn' w w'
        × (run a v app_of w (message c m ∷ message c m' ∷ es) ≡ run a v app_of w' es)
  run-Opened c txn' cmd m m' w es new app parsed parsed' =
      let w₁ = behind_connect c cmd.transaction_id txn' w new in
      let w₂ = behind_create c cmd.transaction_id txn' w new in
      (
        w₂,
        behind_create-Opened c cmd.transaction_id txn' w new,
        run-command a v app_of c m (Command.connect cmd) w w₁ (message c m' ∷ es) parsed
              (connect_answered a app_of c cmd w new.lucky app)
            ∙ run-command a v app_of c m' (Command.create_stream (record { transaction_id = txn' }))
                w₁ w₂ es parsed'
                (on_command-create_stream a app_of c txn' 5 writer_with_five w₁
                  (ap (create_chunk_stream 2) (connected_writer c cmd.transaction_id txn' w new)
                    ∙ five_is_free)
                  new.lucky),
      )
