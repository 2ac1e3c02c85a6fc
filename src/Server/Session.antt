-- ===== src/Server/Session.antt =====
-- What a client does first: connect, createStream, and then publish or play; while sends succeed.
pub mod Steps
pub mod Opening
pub mod Scene
pub mod Publisher
pub mod Broadcast
use Prim.Native.String.{String}
use gortmp.Base.{
  ℕ, suc, ◌+◌, ◌≡◌, refl, ap, ◌∙◌, List, [], ◌∷◌, ◌++◌, Option, true, false, none, some, arith,
  length, ◌==◌,
}
use gortmp.Base.{append_assoc}
use gortmp.Wire
use gortmp.Chunks.{ChunkStreamWriter, create_chunk_stream}
use gortmp.Command.{Amf, Command, CreateStreamCommand}
use gortmp.Command.Parse.{raw_command}
use gortmp.Server.{
  World, Stream, Effect, Content, sent, on_create_stream, ok, update, send, set_conn, set_stream,
}
use gortmp.Server.Connection.{
  control, first_free, allocate_stream, create_low, handle_create_stream, invoke_create_stream,
  conn_invoke, dispatch, on_command,
}
use gortmp.Server.Keeps.{bind_ok, catch_ok}
use gortmp.Server.Answers.{with_effect, send_lem, control_lem}

module _ (c txn csid : ℕ) (csw : ChunkStreamWriter) (w : World) where
  -- The least free ID, and the new stream.
  abbrev pub new_id : ℕ
  new_id = first_free (suc (length (w.conns c).streams)) 1 (w.conns c).streams

  abbrev pub new_stream : Stream
  new_stream = record {
    id = new_id;
    csid = csid;
    conn = c;
    name = "";
    publishing = false;
    playing = false;
    handled = false;
    media_stream = none;
    media_player = none;
  }

  abbrev with_writer : World
  with_writer = set_conn c (record (w.conns c) { writer = csw }) w

  abbrev allocated : World
  allocated = record w {
    conns = update (update w.conns c (record (w.conns c) { writer = csw })) c (record (w.conns c) {
      writer = csw;
      streams = (new_id, w.next_stream) ∷ (w.conns c).streams;
    });
    stream = update w.stream w.next_stream new_stream;
    next_stream = w.next_stream + 1;
  }

  abbrev pub stream_answers : List Effect
  stream_answers =
      sent c 3 0 (Content.create_result txn new_id)
      ∷ sent c 2 0 (Content.stream_begin new_id)
      ∷ on_create_stream w.next_stream
      ∷ []

  abbrev pub with_new_stream : World
  with_new_stream = record allocated {
    stream = update allocated.stream w.next_stream (record new_stream { handled = true });
    trace = w.trace ++ stream_answers;
  }

  create_low_lem :
      create_chunk_stream 2 (w.conns c).writer ≡ Wire.ok csid csw
      → create_low c w ≡ ok csid with_writer
  unfolding create_low
  create_low_lem made = rw (made, create_low) refl

  allocate_stream_lem : allocate_stream c csid with_writer ≡ ok w.next_stream allocated
  unfolding allocate_stream
  allocate_stream_lem = let same : (c == c) ≡ true = ground arith in rw same refl

  handle_create_stream_lem :
      (v : World)
      → v.stream ≡ allocated.stream
      → handle_create_stream w.next_stream v
        ≡ ok tt (record v {
          stream = update allocated.stream w.next_stream (record new_stream { handled = true });
          trace = v.trace ++ (on_create_stream w.next_stream ∷ []);
        })
  unfolding handle_create_stream
  handle_create_stream_lem v e =
      let same : (w.next_stream == w.next_stream) ≡ true = ground arith in rw (e, same) refl

  invoke_create_stream_lem :
      create_chunk_stream 2 (w.conns c).writer ≡ Wire.ok csid csw
      → w.fates ≡ []
      → invoke_create_stream c (record { transaction_id = txn }) w ≡ ok tt with_new_stream
  unfolding invoke_create_stream
  invoke_create_stream_lem made lucky =
      let s = w.next_stream in
      let same : (s == s) ≡ true = ground arith in
      let result = sent c 3 0 (Content.create_result txn new_id) in
      let begins = sent c 2 0 (Content.stream_begin new_id) in
      let w₁ = with_effect result allocated in
      let w₂ = with_effect begins w₁ in
      bind_ok (create_low c) _ w with_writer csid (create_low_lem made)
      ∙ bind_ok (allocate_stream c csid) _ with_writer allocated s allocate_stream_lem
      ∙ rw same (
          bind_ok (send c 3 0 _) _ allocated w₁ tt
            (send_lem c 3 0 (Content.create_result txn new_id) allocated lucky)
          ∙ bind_ok (control c _) _ w₁ w₂ tt (control_lem c (Content.stream_begin new_id) w₁ lucky)
          ∙ handle_create_stream_lem w₂ refl
          ∙ ap (λ t. ok tt (record with_new_stream { trace = t })) (simp append_assoc))

module _ (a : Amf) (app_of : a.Object → Option String) (c txn csid : ℕ) (csw : ChunkStreamWriter)
    (w : World) where
  dispatch-create_stream :
      dispatch {a = a} app_of c (Command.create_stream (record { transaction_id = txn })) w
      ≡ invoke_create_stream c (record { transaction_id = txn }) w
  unfolding dispatch raw_command conn_invoke
  dispatch-create_stream = refl

  pub on_command-create_stream :
      create_chunk_stream 2 (w.conns c).writer ≡ Wire.ok csid csw
      → w.fates ≡ []
      → on_command {a = a} app_of c (Command.create_stream (record { transaction_id = txn })) w
        ≡ ok tt (with_new_stream c txn csid csw w)
  unfolding on_command
  on_command-create_stream made lucky =
      catch_ok (dispatch {a = a} app_of c (Command.create_stream (record { transaction_id = txn })))
        _ w _ tt (dispatch-create_stream ∙ invoke_create_stream_lem c txn csid csw w made lucky)
