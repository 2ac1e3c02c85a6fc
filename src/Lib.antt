-- ===== src/Lib.antt =====
-- gortmp, the RTMP server library: the chunk stream layer, commands, handshake, media streams, and the
-- server with its connections.
--
-- RTMP cuts messages into chunks. A chunk has a header, which header.go reads and writes; the
-- chunk stream writer (chunkstreamwriter.go) cuts messages and chooses for each first chunk a
-- header that leaves out what the receiver knows; the chunk stream reader (chunkstreamreader.go)
-- puts them together and hands them to its handler. That is a connection (conn.go), which makes
-- commands of them (command.go) and passes those on to itself or to one of its streams (stream.go);
-- the server's handlers (server.go) stand in between, and keep a table of the names that are published
-- and one of the players. What a client publishes goes to a media stream (mediastream.go), which sends
-- it to the media buffer (mediabuffer.go) of each player (mediaplayer.go).
--
-- Base: shared names, lists over the native numbers, and integers as bytes (encoding/binary).
-- Wire: the Reader and Writer of defines.go. A reader is the list of bytes still to come; a writer
--   takes a given number of bytes (`room`) and then fails. Both carry the count that the Go
--   functions return beside their error. An error is a value; a panic of an access behind the end of
--   a slice is the error `out_of_range`. Wire/Written, Wire/Takes and Wire/Gives have the rules by
--   which an action is shown to write given bytes, to count what it reads, or to give values of a kind.
-- Header: header.go. `read_base_header` is ReadBaseHeader, `read_header` is Header.ReadHeader,
--   `write` is Header.Write. For a continuation header `write` writes no extended
--   timestamp, and `read_header` reads one only if the last header had one; the case Type 3 of
--   header_test.go expects four bytes of it in both.
-- Message: message.go, and the numbers of defines.go.
-- Writer: newHeader, writeChunk and writeMessage of chunkstreamwriter.go.
-- Chunks: NewChunkStreamWriter, CreateChunkStream and Send. The end of the select in Send is an
--   argument, so each call is one step.
--   Chunks/Writing: the loop of WriteTo and the goroutines that call Send, CreateChunkStream and Close
--   meanwhile, as a step relation (`Step`, `Reach`); Order and Once are the order of messages and the
--   answers, Replay the same calls as a list of operations, Drain the end.
-- Reader: chunkstreamreader.go. `read_chunk` is readChunk, `read_from` is ReadFrom; the calls of the
--   handler are a list of events. Announced is a message that sets the chunk size, Typed the widths of
--   the fields and the size of messages on any input.
-- Loopback: writer and reader together; `read_rounds` is a number of rounds of ReadFrom, `InStep` what
--   the two ends of a chunk stream have in common between messages, `InSync` that all streams are in
--   step. Received is one message, Announcement one that sets the chunk size, Sequence one after the
--   other, Delivery the writing loop with all its callers and ReadFrom. Where `exact` is true, times are
--   equal, for messages that do not begin with a continuation header.
-- Control: the control messages of chunkstream.go, sent over Chunks and followed by Reader.
-- Command: command.go. `parse_command` is ParseCommand, `raw_command` the methods RawCommand, `message`
--   RawCommand.Message. The AMF library, which is not part of the repository, is the records `Amf` and
--   `Values`; what it reads back of what it writes is `Documented`: a uint32 as a float64, a struct as an
--   object (`settled`).
-- Media: the tags of flvtag.go; Media/Buffer: the loop of mediabuffer.go as a function of the events
--   that its select meets.
--   Media/Stream: the loop of mediastream.go in the same way, with what was sent on each channel;
--   Delivery is what a subscriber gets, Channels that channels are closed once, Headers what is cached.
-- Media/Playback: a media stream, the media buffer that subscribes to it and the reader of the buffer as
--   one system; Arrival is what the buffer has received, Plays what its reader gets of the stream.
-- Handshake: the digests and the response of handshake.go, with the HMAC and the random bytes as
--   arguments. Exchange is SHandshake as a whole, over a source and a sink, with the order in which its
--   two goroutines end, and how far the one has come that is left behind, as arguments; Endings are its
--   endings, Shaken that there are no others.
-- Server: the world of a server, its streams, media streams and players, and the actions on it.
--   Tables are the maps of server.go and the objects in them, Streams is stream.go with the stream
--   handler of server.go, Connection is conn.go with its connection handler, Events what can happen
--   to a server. Registry is the table of names in every state, Publishing, Leaving and Playing what
--   publish, play and deleteStream do one after the other, Allocation the stream IDs, Answers what
--   `connect` is answered. The handler of cmd/rtmpserver/server.go passes each command on, and so
--   does that of the model.
--   Service is the life of all connections of a server: the handshake's outcome, the goroutines of
--   NewConn and the counters; Lives and Moves are one connection, Accounts the counters against all of
--   them, Ranks and Ends that none is stuck.
--   Incoming is a connection that is given what ReadFrom hands over, Incoming/Client with a client's
--   writer at the other end.
--   Session is connect, createStream and then publish or play, from the first message of a connection on;
--   Broadcast is a publisher and a viewer.
-- Starvation: TrackStarvation of cmd/rtmpserver/server.go, a subscriber that compares the clock with the
--   timestamps of a stream; Window is what its reports are about, Reports that they are so.
-- Tests: runs on concrete inputs, and the theorems at such inputs.
--
-- Numbers are natural numbers; fields of fixed width are brought into range where the source
-- converts, and `% 2 ^ w` is written out. Four loops take fuel: `write_message` as many rounds as the
-- buffer has bytes, and one more, since each chunk takes a byte off it; `read_from` one round more
-- than the input has bytes, since each chunk takes a byte at least; `read_values` as many rounds as there
-- are bytes, since a value takes a byte at least; `first_free` one round more than the connection has
-- streams. Whether a send of the server succeeds is given by `fates`, a list that the model reads from.
--
-- Not modelled: the goroutines and channels as such (each connection handles one message at a time, and
-- the handlers of the server's connections run one after the other: what one sees in the middle of
-- another's handler is left out, such as the time between ms.Close and delStream in server.go;
-- and the loops of media streams, buffers and players are functions of what they receive), logging,
-- the buffers of the network connection (netconn.go), which are bufio's, the programs under cmd/ but
-- for TrackStarvation and the handler that passes commands on, and quotients of floating-point numbers.
pub mod Base
pub mod Wire
pub mod Header
pub mod Message
pub mod Writer
pub mod Chunks
pub mod Reader
pub mod Loopback
pub mod Control
pub mod Media
pub mod Handshake
pub mod Command
pub mod Server
pub mod Starvation
pub mod Tests
