-- ===== src/Control/Agreement.antt =====
-- Both ends follow a control message.
use gortmp.Base.{ℕ, ◌^◌, ◌≤◌, ◌<◌, ◌≡◌, refl, List, [], ◌∷◌, ◌++◌, true, arith}
use gortmp.Message.{Message}
use gortmp.Wire.{ok}
use gortmp.Reader.{Session, handle_message, on_message}
use gortmp.Base.{some, length, if◌then◌else◌, ◌==◌}
use gortmp.Base.Bytes.{be_uint32}
use gortmp.Wire.Written.{filled}
use gortmp.Header.Write.{encode}
use gortmp.Writer.{OutChunkStream, Output, new_header}
use gortmp.Writer.Announce.{write_message_announces}
use gortmp.Chunks.{Sender, send, store, update}
use gortmp.Control.{set_chunk_size_message, set_window_size_message, send_set_chunk_size}

-- What the reader makes of a control message that it has received whole: for every uint32 it takes
-- over the size, changes nothing else, and tells the handler.
handle_message-control :
    (size : ℕ) (s : Session)
    → size < 2 ^ 32
    → (handle_message (set_chunk_size_message size) s
        ≡ ok tt (record s {
          chunk_size = size;
          events = s.events ++ (on_message (set_chunk_size_message size) ∷ []);
        }))
      × (handle_message (set_window_size_message size) s
          ≡ ok tt (record s {
            window_size = size;
            events = s.events ++ (on_message (set_window_size_message size) ∷ []);
          }))
unfolding handle_message
handle_message-control size s h = ground arith

-- `SendSetChunkSize` of a uint32, taken by the writing loop, with a chunk size of at least four and
-- a writer with enough room: it succeeds, the writer takes over the size unless that is 0, and no
-- other chunk stream changes; what it writes is the header and the four bytes.
pub send_set_chunk_size_lem :
    (size : ℕ) (s : Sender) (cs : OutChunkStream)
    → let msg : Message = set_chunk_size_message size in
      let bytes : List ℕ = encode (new_header cs msg).0 ++ be_uint32 size in
      s.writer.chunk_streams 2 ≡ some cs
      → size < 2 ^ 32
      → 4 ≤ s.writer.chunk_size
      → length bytes ≤ s.sink.room
      → send_set_chunk_size true size s
        ≡ ok tt (record {
          writer = record s.writer {
            chunk_size = if size == 0 then s.writer.chunk_size else size;
            chunk_streams = update s.writer.chunk_streams 2 (new_header cs msg).1;
          };
          sink = filled s.sink bytes;
        })
unfolding send_set_chunk_size send store
send_set_chunk_size_lem size s cs e h c fits =
    let o : Output = record {
      chunk_size = s.writer.chunk_size;
      stream = cs;
      message = set_chunk_size_message size;
      sink = s.sink;
    } in
    rw (e, send, write_message_announces o size refl refl refl h c (omega arith) fits, store)
