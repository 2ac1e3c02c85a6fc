-- ===== src/Server/Connection.antt =====
-- conn.go, and the connection handler of server.go.
use Prim.Native.String.{String}
use text.Mathlib.Text.{◌==◌ as str_eq}
use gortmp.Base.{
  Bool, ℕ, zero, suc, ◌+◌, List, [], ◌∷◌, true, false, ◌||◌, Option, none, some, ◌==◌,
}
use gortmp.Base.{if◌then◌else◌, length}
use gortmp.Base.Maps.{lookup, remove}
use gortmp.Message.{Message, cs_id_protocol_control, cs_id_command, command_amf0, command_amf3}
use gortmp.Chunks.{create_chunk_stream}
use gortmp.Wire
use gortmp.Command.{
  Amf, Command, CreateStreamCommand, DeleteStreamCommand, FcPublishCommand, Result,
}
use gortmp.Command.Parse.{raw_command}
use gortmp.Command.Raw.{Values}
use gortmp.Command.Whole.{parse_command}
use gortmp.Server.{
  Act, ok, failed, Status, Content, on_connect, on_create_stream, on_destroy_stream, on_close,
  ◌>>=◌, ◌>>◌, pure, fail, catch, world, modify, set_conn, set_stream, flush, send, emit, update,
  connect_rejected, publish_bad_name, call_failed, max_chunk_streams, invalid_stream_id, crashed,
}
use gortmp.Server.Tables.{close_media, del_stream, del_player, close_player}
use gortmp.Server.Streams.{publish_start, on_stream_command, on_stream_receive}

abbrev pub connect_closed : Status
connect_closed = record { level = "status"; code = "NetConnection.Connect.Closed" }

unfoldable pub close_conn : ℕ → Act (Unit {0})
close_conn c = modify (λ w. set_conn c (record (w.conns c) { closed = true }) w)

-- error.go, without the text of the error; the command is always a status.
pub record ConnError : Type 0 where
  pub status : Status
  pub is_fatal : Bool

abbrev pub new_conn_error_status : Status → Bool → ConnError
new_conn_error_status status is_fatal = record { status = status; is_fatal = is_fatal }

-- `conn.Error`: the status is sent if it can be, and after a fatal error the connection is closed.
unfoldable pub conn_error : ℕ → ConnError → Act (Unit {0})
conn_error c e = do
  catch (send c cs_id_command 0 (Content.on_status 0 e.status)) (λ f. pure tt)
  if e.is_fatal then close_conn c else pure tt

-- `conn.Fatal`
unfoldable pub fatal : ℕ → Act (Unit {0})
fatal c = conn_error c (new_conn_error_status connect_closed true)

-- A control message; an error is fatal, and the caller goes on.
unfoldable pub control : ℕ → Content → Act (Unit {0})
control c content = catch (send c cs_id_protocol_control 0 content) (λ f. fatal c)

unfoldable pub set_app : ℕ → String → Act (Unit {0})
set_app c app = modify (λ w. set_conn c (record (w.conns c) { app = app }) w)

-- `conn.invokeConnect`, for the application that the properties name, if it is a string.
unfoldable pub invoke_connect : ℕ → ℕ → Option String → Act (Unit {0})
invoke_connect c txn none = fail connect_rejected
invoke_connect c txn (some app) = do
  set_app c app
  control c (Content.window_size 2500000)
  control c (Content.peer_bandwidth 2500000 2)
  control c (Content.stream_begin 0)
  control c (Content.chunk_size 4096)
  send c cs_id_command 0 (Content.connect_result txn)
  emit (on_connect c)

-- `serverConnHandler.invokeConnect`
unfoldable pub server_connect : ℕ → ℕ → Option String → Act (Unit {0})
server_connect c txn none = fail connect_rejected
server_connect c txn (some app) =
    if str_eq app "app" then invoke_connect c txn (some app) else fail connect_rejected

-- The least number from `i` on that is no key, within the rounds given.
unfoldable pub first_free : ℕ → ℕ → List (ℕ × ℕ) → ℕ
first_free zero i t = i
first_free (suc rounds) i t = elim (lookup i t) [ none ↦ i | some s ↦ first_free rounds (suc i) t ]

-- `conn.allocateStream`, which gives the pointer.
unfoldable pub allocate_stream : ℕ → ℕ → Act ℕ
allocate_stream c csid w =
    let x = w.conns c in
    let i = first_free (suc (length x.streams)) 1 x.streams in
    let s = w.next_stream in
    ok s (record w {
      conns = update w.conns c (record x { streams = (i, s) ∷ x.streams });
      stream = update w.stream s (record {
        id = i;
        csid = csid;
        conn = c;
        name = "";
        publishing = false;
        playing = false;
        handled = false;
        media_stream = none;
        media_player = none;
      });
      next_stream = s + 1;
    })

-- `chunkStream.CreateChunkStream(LowPriority)`
unfoldable pub create_low : ℕ → Act ℕ
create_low c w = elim (create_chunk_stream 2 (w.conns c).writer) [
  | Wire.ok csid csw ↦ ok csid (set_conn c (record (w.conns c) { writer = csw }) w)
  | Wire.err e csw ↦ failed max_chunk_streams (set_conn c (record (w.conns c) { writer = csw }) w)
]

-- `serverConnHandler.OnCreateStream`
unfoldable pub handle_create_stream : ℕ → Act (Unit {0})
handle_create_stream s = do
  modify (λ w. set_stream s (record (w.stream s) { handled = true }) w)
  emit (on_create_stream s)

unfoldable pub invoke_create_stream : ℕ → CreateStreamCommand → Act (Unit {0})
invoke_create_stream c cmd = do
  csid ← create_low c
  s ← allocate_stream c csid
  w ← world
  send c cs_id_command 0 (Content.create_result cmd.transaction_id (w.stream s).id)
  control c (Content.stream_begin (w.stream s).id)
  handle_create_stream s

-- The two tests of `serverConnHandler.OnDestroyStream`.
unfoldable pub stop_publishing : ℕ → Act (Unit {0})
stop_publishing s w =
    if (w.stream s).publishing
    then elim (w.streams (w.stream s).name) [
      | none ↦ ok tt w
      | some m ↦ (do close_media m; del_stream (w.stream s).name) w
    ]
    else ok tt w

unfoldable pub stop_playing : ℕ → Act (Unit {0})
stop_playing s w =
    if (w.stream s).playing
    then elim (w.players s) [ none ↦ ok tt w | some p ↦ (do close_player p; del_player s) w ]
    else ok tt w

unfoldable pub handle_destroy_stream : ℕ → Act (Unit {0})
handle_destroy_stream s = do stop_publishing s; stop_playing s; emit (on_destroy_stream s)

unfoldable pub forget_stream : ℕ → ℕ → Act (Unit {0})
forget_stream c id =
    modify (λ w. set_conn c (record (w.conns c) { streams = remove id (w.conns c).streams }) w)

unfoldable pub invoke_delete_stream : ℕ → DeleteStreamCommand → Act (Unit {0})
invoke_delete_stream c cmd w = elim (lookup cmd.delete_stream_id (w.conns c).streams) [
  | none ↦ failed call_failed w
  | some s ↦ (do forget_stream c cmd.delete_stream_id; handle_destroy_stream s) w
]

unfoldable pub invoke_fc_publish : ℕ → FcPublishCommand → Act (Unit {0})
invoke_fc_publish c cmd =
    if str_eq cmd.name ""
    then fail publish_bad_name
    else send c cs_id_command 0 (Content.fc_publish publish_start)

-- `serverConnHandler.Invoke`, with a server handler that passes each command on, and `conn.Invoke`.
-- `app_of` is the property "app" if that is a string.
unfoldable pub conn_invoke : {a : Amf} → (a.Object → Option String) → ℕ → Command a → Act (Unit {0})
conn_invoke app_of c (Command.connect cmd) =
    server_connect c cmd.transaction_id (app_of cmd.properties)
conn_invoke app_of c (Command.create_stream cmd) = invoke_create_stream c cmd
conn_invoke app_of c (Command.delete_stream cmd) = invoke_delete_stream c cmd
conn_invoke app_of c (Command.fc_publish cmd) = invoke_fc_publish c cmd
conn_invoke app_of c _ = pure tt

-- A command goes to the connection or to the stream that its raw form names.
unfoldable pub dispatch : {a : Amf} → (a.Object → Option String) → ℕ → Command a → Act (Unit {0})
dispatch {a} app_of c cmd w =
    if (raw_command a cmd).stream_id == 0
    then conn_invoke app_of c cmd w
    else elim (lookup (raw_command a cmd).stream_id (w.conns c).streams) [
      | none ↦ failed invalid_stream_id w
      | some s ↦ on_stream_command s cmd w
    ]

-- `conn.OnCommand`: every error is fatal.
unfoldable pub on_command : {a : Amf} → (a.Object → Option String) → ℕ → Command a → Act (Unit {0})
on_command app_of c cmd = catch (dispatch app_of c cmd) (λ f. fatal c)

unfoldable pub on_receive : ℕ → Message → Act (Unit {0})
on_receive c msg w =
    if msg.stream_id == 0 then ok tt w else elim (lookup msg.stream_id (w.conns c).streams) [
      | none ↦ fatal c w
      | some s ↦ on_stream_receive s msg w
    ]

-- `conn.OnMessage`. A panic in the parser ends the program.
unfoldable pub on_message :
    (a : Amf) → Values a → (a.Object → Option String) → ℕ → Message → Act (Unit {0})
on_message a v app_of c msg =
    if (msg.type == command_amf3) || (msg.type == command_amf0)
    then elim (parse_command a v msg) [
      | Result.ok cmd ↦ on_command app_of c cmd
      | Result.err e ↦ on_receive c msg
      | Result.panics ↦ fail crashed
    ]
    else on_receive c msg

-- The goroutine of `conn.OnWindowFull`: after an error it goes on.
unfoldable pub on_window_full : ℕ → ℕ → Act (Unit {0})
on_window_full c n = do control c (Content.acknowledgement n); catch flush (λ f. fatal c)

unfoldable pub destroy_all : List (ℕ × ℕ) → Act (Unit {0})
destroy_all [] = pure tt
destroy_all ((i, s) ∷ m) = do handle_destroy_stream s; destroy_all m

-- `conn.waitClose`, once reading and writing have ended. Go gives no order to the streams; here the
-- newest is first. They stay in the connection's table.
unfoldable pub wait_close : ℕ → Act (Unit {0})
wait_close c = do close_conn c; w ← world; destroy_all (w.conns c).streams; emit (on_close c)
