-- ===== src/Server.antt =====
-- The server with its connections, streams, media streams and players: conn.go, stream.go, server.go,
-- mediaplayer.go and error.go, with the handler of cmd/rtmpserver/server.go.
--
-- Pointers are numbers, given out in order: of streams, of media streams and of players; a connection
-- has a number too. Each map of the server is a function or a list of entries. The command of one
-- connection runs to its end before the next one starts, since each is handled by the goroutine that
-- reads; what the program does meanwhile in others is a further event. Whether a send and the flush
-- behind it succeed is the next of `fates`, and `fates` that have run out stand for success; what was
-- sent, and the calls of the server's handler, are the `trace`. Descriptions in a status, which are for
-- people, are left out.
pub mod Tables
pub mod Streams
pub mod Connection
pub mod Events
pub mod Incoming
pub mod Keeps
pub mod Registry
pub mod Publishing
pub mod Leaving
pub mod Playing
pub mod Allocation
pub mod Answers
pub mod Service
pub mod Session
use Prim.Native.String.{String}
use text.Mathlib.Text.{◌==◌ as str_eq}
use gortmp.Base.{ℕ, ◌+◌, List, [], ◌∷◌, ◌++◌, Bool, true, false, Option, none, some, ◌==◌}
use gortmp.Base.{if◌then◌else◌}
use gortmp.Media.{FlvTag}
use gortmp.Chunks.{ChunkStreamWriter, new_chunk_stream_writer}

pub record Status : Type 0 where
  pub level : String
  pub code : String

-- The errors that commands end with: those of `Err…`, of a send, and of the lookups; and a panic.
pub data Fault : Type 0 where
  connect_rejected publish_bad_name play_failed call_failed : Fault
  send_failed max_chunk_streams invalid_stream_id crashed : Fault

-- What is sent to a client.
pub data Content : Type 0 where
  window_size : ℕ → Content
  peer_bandwidth : ℕ → ℕ → Content
  stream_begin : ℕ → Content
  chunk_size : ℕ → Content
  acknowledgement : ℕ → Content
  connect_result : ℕ → Content
  create_result : ℕ → ℕ → Content
  fc_publish : Status → Content
  on_status : ℕ → Status → Content
  play_info : Status → String → Content
  media : FlvTag → Content

-- A message to a connection, with its chunk stream and stream; a call of the handler; or
-- a tag that was published.
pub data Effect : Type 0 where
  sent : (conn csid stream_id : ℕ) → Content → Effect
  on_connect : ℕ → Effect
  on_create_stream : ℕ → Effect
  on_destroy_stream : ℕ → Effect
  on_publish : ℕ → Option ℕ → Effect
  on_play : ℕ → Option ℕ → Effect
  on_close : ℕ → Effect
  published : ℕ → FlvTag → Effect

-- `stream`, with the fields of its `serverStreamHandler`; `handled` is whether it has one.
pub record Stream : Type 0 where
  pub id : ℕ
  pub csid : ℕ
  pub conn : ℕ
  pub name : String
  pub publishing : Bool
  pub playing : Bool
  pub handled : Bool
  pub media_stream : Option ℕ
  pub media_player : Option ℕ

-- `conn`; `closed` is that of its net connection.
pub record Conn : Type 0 where
  pub app : String
  pub streams : List (ℕ × ℕ)
  pub writer : ChunkStreamWriter
  pub closed : Bool

-- `mediaStream`, as the server sees it, with the stream that publishes.
pub record Media : Type 0 where
  pub stream : ℕ
  pub closed : Bool

-- `mediaPlayer`: the stream that it plays to, and the media stream that it has subscribed to;
-- `finished` is that its loop has returned.
pub record Player : Type 0 where
  pub stream : ℕ
  pub source : ℕ
  pub started : Bool
  pub closed : Bool
  pub finished : Bool

pub record World : Type 0 where
  pub conns : ℕ → Conn
  pub stream : ℕ → Stream
  pub next_stream : ℕ
  pub streams : String → Option ℕ
  pub media : ℕ → Media
  pub next_media : ℕ
  pub players : ℕ → Option ℕ
  pub player : ℕ → Player
  pub next_player : ℕ
  pub trace : List Effect
  pub fates : List Bool

-- What a function of the server returns, and the world that it leaves.
pub data Ending (A : Type 0) : Type 0 where
  ok : A → World → Ending A
  failed : Fault → World → Ending A

abbrev pub Act : Type 0 → Type 0
Act A = World → Ending A

abbrev pub pure : {A : Type 0} → A → Act A
pure a w = ok a w

abbrev pub fail : {A : Type 0} → Fault → Act A
fail f w = failed f w

infixl 5 ◌>>=◌ ◌>>◌
abbrev pub ◌>>=◌ : {A B : Type 0} → Act A → (A → Act B) → Act B
◌>>=◌ m k w = elim (m w) [ ok a w' ↦ k a w' | failed f w' ↦ failed f w' ]

abbrev pub ◌>>◌ : {B : Type 0} → Act (Unit {0}) → Act B → Act B
m >> k = m >>= λ _. k

-- `if err := m; err != nil { … }`
abbrev pub catch : {A : Type 0} → Act A → (Fault → Act A) → Act A
catch m k w = elim (m w) [ ok a w' ↦ ok a w' | failed f w' ↦ k f w' ]

abbrev pub world : Act World
world w = ok w w

abbrev pub modify : (World → World) → Act (Unit {0})
modify f w = ok tt (f w)

-- The world behind an ending.
abbrev pub left_by : {A : Type 0} → Ending A → World
left_by (ok a w) = w
left_by (failed f w) = w

abbrev pub update : {A : Type 0} → (ℕ → A) → ℕ → A → ℕ → A
update f i a j = if i == j then a else f j

abbrev pub update_name : (String → Option ℕ) → String → Option ℕ → String → Option ℕ
update_name f k v j = if str_eq k j then v else f j

abbrev pub set_conn : ℕ → Conn → World → World
set_conn c x w = record w { conns = update w.conns c x }

abbrev pub set_stream : ℕ → Stream → World → World
set_stream s x w = record w { stream = update w.stream s x }

abbrev pub emit : Effect → Act (Unit {0})
emit e = modify (λ w. record w { trace = w.trace ++ (e ∷ []) })

-- A message is sent, or it is not and there is an error.
abbrev pub attempt : Effect → List Bool → World → Ending (Unit {0})
attempt e [] w = emit e w
attempt e (true ∷ fates) w = emit e (record w { fates = fates })
attempt e (false ∷ fates) w = failed send_failed (record w { fates = fates })

unfoldable pub send : (conn csid stream_id : ℕ) → Content → Act (Unit {0})
send c csid sid m w = attempt (sent c csid sid m) w.fates w

-- `Flush` alone.
abbrev flushed : List Bool → World → Ending (Unit {0})
flushed [] w = ok tt w
flushed (true ∷ fates) w = ok tt (record w { fates = fates })
flushed (false ∷ fates) w = failed send_failed (record w { fates = fates })

unfoldable pub flush : Act (Unit {0})
flush w = flushed w.fates w

abbrev new_conn : Conn
new_conn = record { app = ""; streams = []; writer = new_chunk_stream_writer; closed = false }

abbrev no_stream : Stream
no_stream = record {
  id = 0;
  csid = 0;
  conn = 0;
  name = "";
  publishing = false;
  playing = false;
  handled = false;
  media_stream = none;
  media_player = none;
}

-- `NewServer`, with connections that have sent nothing.
unfoldable pub new_server : List Bool → World
new_server fates = record {
  conns = λ _. new_conn;
  stream = λ _. no_stream;
  next_stream = 0;
  streams = λ _. none;
  media = λ _. record { stream = 0; closed = false };
  next_media = 0;
  players = λ _. none;
  player =
      λ _. record { stream = 0; source = 0; started = false; closed = false; finished = false };
  next_player = 0;
  trace = [];
  fates = fates;
}
