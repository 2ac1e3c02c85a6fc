-- ===== src/Server/Incoming/Client.antt =====
-- From the `Send` of a client to the server: the bytes that the client's writer has written are read,
-- and the messages go to the connection.
use Prim.Native.String.{String}
use gortmp.Base.{ℕ, ◌≡◌, ◌∙◌, ap, true, List, [], Option, map}
use gortmp.Wire.{Sink, Error, eof}
use gortmp.Command.{Amf}
use gortmp.Command.Raw.{Values}
use gortmp.Chunks.{Sender, new_chunk_stream_writer}
use gortmp.Chunks.Writing.{Writing, Reach}
use gortmp.Reader.{Session, read_from, new_chunk_stream_reader}
use gortmp.Reader.Payload.{messages_of}
use gortmp.Loopback.Sequence.{CanSend, messages_sent}
use gortmp.Loopback.Delivery.{read_from-Reach}
use gortmp.Server.{World}
use gortmp.Server.Events.{Event, run}
use gortmp.Server.Incoming.{messages_at, given, arrived, run-given}

module _ (a : Amf) (v : Values a) (app_of : a.Object → Option String) where
  -- A client's calls of Send, CreateChunkStream and Close and the rounds of its WriteTo interleave in
  -- any way, from a new writer on which nothing was written; each message of its log is on a chunk stream
  -- of the writer that has room for it, is an ordinary one or sets the chunk size (as for ReadFrom of
  -- what a writer has written), and does not begin with a continuation header. Then ReadFrom of what
  -- was written ends at the end of the input; and whatever else happens to the server between the
  -- messages that it hands over, the server comes to the same world as if OnMessage were given the
  -- messages that the client has sent, each at its timestamp, in their places.
  pub run-Reach :
      (c : ℕ) (sink : Sink) (t : Writing) (w : World) (es : List Event)
      → let s : Sender = record { writer = new_chunk_stream_writer; sink = sink } in
        let read : Error × Session = read_from (new_chunk_stream_reader t.sink.out) in
        Reach sink t
        → sink.out ≡ []
        → CanSend true t.log s
        → messages_at c es ≡ messages_of read.1.events
        → (read.0 ≡ eof)
          × (run a v app_of w es
              ≡ run a v app_of w (given c (map arrived (messages_sent t.log)) es))
  run-Reach c sink t w es reach empty can handed =
      let (sent, (u, e, left, all)) = read_from-Reach true sink t reach empty can in
      (
        ap (λ x. x.0) e,
        run-given a v app_of c es (messages_of u.events) (messages_sent t.log) w all
            (handed ∙ ap (λ (x : Error × Session). messages_of x.1.events) e),
      )
