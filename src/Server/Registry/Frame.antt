-- ===== src/Server/Registry/Frame.antt =====
-- The functions that leave the table of media streams alone keep whatever is said of it.
use Prim.Native.String.{String}
use gortmp.Base.{arith, ℕ, List, [], ◌∷◌, Bool, true, false, Option, none, some}
use gortmp.Message.{Message}
use gortmp.Media.{FlvTag}
use gortmp.Wire
use gortmp.Chunks.{ChunkStreamWriter, create_chunk_stream}
use gortmp.Command.{Amf, PlayCommand, PublishCommand, CreateStreamCommand, FcPublishCommand}
use gortmp.Server.{
  attempt, flush, flushed, sent, World, Media, Content, Effect, send, emit, ok, failed, left_by,
  catch, set_conn, max_chunk_streams, play_failed,
}
use gortmp.Server.Tables.{put_player, del_player, new_player, start_player, close_player}
use gortmp.Server.Streams.{
  handle_publish, handle_play, send_on_stream, mark_publishing, mark_playing, invoke_publish,
  invoke_play, server_play, play_from, unless_placed, on_stream_receive, end_player, play_tag,
}
use gortmp.Server.Connection.{
  close_conn, conn_error, on_window_full, fatal, control, set_app, invoke_connect, server_connect,
  allocate_stream, create_low, handle_create_stream, invoke_create_stream, stop_playing,
  forget_stream, invoke_fc_publish,
}
use gortmp.Server.Keeps.{Keeps, Keeps-bind, Keeps-catch, keeps}

module _ (Q : (String → Option ℕ) → (ℕ → Media) → ℕ → Type 0) where
  abbrev pub On : World → Type 0
  On w = Q w.streams w.media w.next_media

  attempt-On :
      (e : Effect) (fates : List Bool) (w : World) → On w → On (left_by (attempt e fates w))
  attempt-On e [] w p = p
  attempt-On e (true ∷ fates) w p = p
  attempt-On e (false ∷ fates) w p = p

  pub Keeps-send : (c csid sid : ℕ) (m : Content) → Keeps On (send c csid sid m)
  unfolding send
  Keeps-send c csid sid m = record { keep = λ w p. attempt-On (sent c csid sid m) w.fates w p }

  Keeps-handle_publish : (s : ℕ) → Keeps On (handle_publish s)
  unfolding handle_publish
  Keeps-handle_publish s = record { keep = λ w p. ground arith }

  Keeps-mark_publishing : (s : ℕ) (n : String) → Keeps On (mark_publishing s n)
  unfolding mark_publishing
  Keeps-mark_publishing s n = record { keep = λ w p. p }

  pub Keeps-invoke_publish : (s : ℕ) (cmd : PublishCommand) → Keeps On (invoke_publish s cmd)
  unfolding invoke_publish
  Keeps-invoke_publish s cmd =
      search (keeps, Keeps-send, Keeps-mark_publishing, Keeps-handle_publish)

  Keeps-handle_play : (s : ℕ) → Keeps On (handle_play s)
  unfolding handle_play
  Keeps-handle_play s = record { keep = λ w p. ground arith }

  Keeps-mark_playing : (s : ℕ) (n : String) → Keeps On (mark_playing s n)
  unfolding mark_playing
  Keeps-mark_playing s n = record { keep = λ w p. p }

  pub Keeps-send_on_stream : (s : ℕ) (m : Content) → Keeps On (send_on_stream s m)
  unfolding send_on_stream
  Keeps-send_on_stream s m = record { keep = λ w p. (Keeps-send _ _ _ m).keep w p }

  pub Keeps-invoke_play : {a : Amf} (s : ℕ) (cmd : PlayCommand a) → Keeps On (invoke_play s cmd)
  unfolding invoke_play
  Keeps-invoke_play s cmd =
      search (keeps, Keeps-send_on_stream, Keeps-mark_playing, Keeps-handle_play)

  Keeps-new_player : (m s : ℕ) → Keeps On (new_player m s)
  unfolding new_player
  Keeps-new_player m s = record { keep = λ w p. ground arith }

  Keeps-put_player : (s p : ℕ) → Keeps On (put_player s p)
  unfolding put_player
  Keeps-put_player s p = record { keep = λ w q. ground arith }

  Keeps-del_player : (s : ℕ) → Keeps On (del_player s)
  unfolding del_player
  Keeps-del_player s = record { keep = λ w p. p }

  Keeps-start_player : (p : ℕ) → Keeps On (start_player p)
  unfolding start_player
  Keeps-start_player p = record { keep = λ w q. q }

  Keeps-close_player : (p : ℕ) → Keeps On (close_player p)
  unfolding close_player
  Keeps-close_player p = record { keep = λ w q. q }

  Keeps-unless_placed : (s p : ℕ) (b : Bool) → Keeps On (unless_placed s p b)
  unfolding unless_placed
  Keeps-unless_placed s p true = search (keeps)
  Keeps-unless_placed s p false = search (keeps, Keeps-close_player, Keeps-del_player)

  Keeps-play_from : {a : Amf} (s : ℕ) (cmd : PlayCommand a) (m : ℕ) → Keeps On (play_from s cmd m)
  unfolding play_from
  Keeps-play_from s cmd m = Keeps-bind On (new_player m s) _ (Keeps-new_player m s) λ p.
      Keeps-bind On (put_player s p) _ (Keeps-put_player s p) λ placed.
        Keeps-bind On (unless_placed s p placed) _ (Keeps-unless_placed s p placed) λ _.
          Keeps-bind On (catch (invoke_play s cmd) _) _
            (Keeps-catch On (invoke_play s cmd) _ (Keeps-invoke_play s cmd)
              λ f. search (keeps, Keeps-del_player, Keeps-close_player))
            λ _. Keeps-start_player p

  found-On :
      {a : Amf} (s : ℕ) (cmd : PlayCommand a) (x : Option ℕ) (w : World)
      → On w
      → On (left_by (elim x [ none ↦ failed play_failed w | some m ↦ play_from s cmd m w ]))
  found-On s cmd none w p = p
  found-On s cmd (some m) w p = (Keeps-play_from s cmd m).keep w p

  pub Keeps-server_play : {a : Amf} (s : ℕ) (cmd : PlayCommand a) → Keeps On (server_play s cmd)
  unfolding server_play
  Keeps-server_play s cmd = record { keep = λ w p. found-On s cmd (w.streams cmd.name) w p }

  pub Keeps-on_stream_receive : (s : ℕ) (msg : Message) → Keeps On (on_stream_receive s msg)
  unfolding on_stream_receive
  Keeps-on_stream_receive s msg = record { keep = λ w p. ground arith }

  Keeps-end_player : (p : ℕ) → Keeps On (end_player p)
  unfolding end_player
  Keeps-end_player p = record { keep = λ w q. q }

  pub Keeps-play_tag : (p : ℕ) (t : Option FlvTag) → Keeps On (play_tag p t)
  unfolding play_tag
  Keeps-play_tag p none = Keeps-end_player p
  Keeps-play_tag p (some tag) = record {
    keep = λ w q.
        (Keeps-catch On _ (λ f. end_player p) (Keeps-send_on_stream _ _)
            (λ f. Keeps-end_player p)).keep
          w q;
  }

  pub Keeps-close_conn : (c : ℕ) → Keeps On (close_conn c)
  unfolding close_conn
  Keeps-close_conn c = record { keep = λ w p. p }

  pub Keeps-fatal : (c : ℕ) → Keeps On (fatal c)
  unfolding fatal conn_error
  Keeps-fatal c = search (keeps, Keeps-send, Keeps-close_conn)

  Keeps-control : (c : ℕ) (m : Content) → Keeps On (control c m)
  unfolding control
  Keeps-control c m = search (keeps, Keeps-send, Keeps-fatal)

  flushed-On : (fates : List Bool) (w : World) → On w → On (left_by (flushed fates w))
  flushed-On [] w p = p
  flushed-On (true ∷ fates) w p = p
  flushed-On (false ∷ fates) w p = p

  Keeps-flush : Keeps On flush
  unfolding flush
  Keeps-flush = record { keep = λ w p. flushed-On w.fates w p }

  pub Keeps-on_window_full : (c n : ℕ) → Keeps On (on_window_full c n)
  unfolding on_window_full
  Keeps-on_window_full c n = search (keeps, Keeps-control, Keeps-flush, Keeps-fatal)

  Keeps-set_app : (c : ℕ) (app : String) → Keeps On (set_app c app)
  unfolding set_app
  Keeps-set_app c app = record { keep = λ w p. p }

  pub Keeps-emit : (e : Effect) → Keeps On (emit e)
  Keeps-emit e = record { keep = λ w p. p }

  Keeps-invoke_connect : (c txn : ℕ) (app : Option String) → Keeps On (invoke_connect c txn app)
  unfolding invoke_connect
  Keeps-invoke_connect c txn none = search (keeps)
  Keeps-invoke_connect c txn (some app) =
      search (keeps, Keeps-set_app, Keeps-control, Keeps-send, Keeps-emit) depth 12

  pub Keeps-server_connect : (c txn : ℕ) (app : Option String) → Keeps On (server_connect c txn app)
  unfolding server_connect
  Keeps-server_connect c txn none = search (keeps)
  Keeps-server_connect c txn (some app) = search (keeps, Keeps-invoke_connect)

  Keeps-create_low : (c : ℕ) → Keeps On (create_low c)
  unfolding create_low
  Keeps-create_low c = record {
    keep = λ w p. created w p (create_chunk_stream 2 (w.conns c).writer);
  }
    where
      created :
          (w : World)
          → On w
          → (o : Wire.Outcome ChunkStreamWriter ℕ)
          → On (
              left_by (elim o [
                | Wire.ok csid csw ↦ ok csid (set_conn c (record (w.conns c) { writer = csw }) w)
                | Wire.err e csw ↦
                    failed max_chunk_streams (set_conn c (record (w.conns c) { writer = csw }) w)
              ]))
      created w p (Wire.ok csid csw) = p
      created w p (Wire.err e csw) = p

  Keeps-allocate_stream : (c csid : ℕ) → Keeps On (allocate_stream c csid)
  unfolding allocate_stream
  Keeps-allocate_stream c csid = record { keep = λ w p. p }

  Keeps-handle_create_stream : (s : ℕ) → Keeps On (handle_create_stream s)
  unfolding handle_create_stream
  Keeps-handle_create_stream s = record { keep = λ w p. p }

  pub Keeps-invoke_create_stream :
      (c : ℕ) (cmd : CreateStreamCommand) → Keeps On (invoke_create_stream c cmd)
  unfolding invoke_create_stream
  Keeps-invoke_create_stream c cmd =
      search
        (
          keeps, Keeps-create_low, Keeps-allocate_stream, Keeps-send, Keeps-control,
          Keeps-handle_create_stream,
        )
        depth 12

  pub Keeps-stop_playing : (s : ℕ) → Keeps On (stop_playing s)
  unfolding stop_playing close_player del_player
  Keeps-stop_playing s = record { keep = λ w p. ground arith }

  pub Keeps-forget_stream : (c id : ℕ) → Keeps On (forget_stream c id)
  unfolding forget_stream
  Keeps-forget_stream c id = record { keep = λ w p. p }

  pub Keeps-invoke_fc_publish :
      (c : ℕ) (cmd : FcPublishCommand) → Keeps On (invoke_fc_publish c cmd)
  unfolding invoke_fc_publish
  Keeps-invoke_fc_publish c cmd = search (keeps, Keeps-send)
