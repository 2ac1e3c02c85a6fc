-- ===== src/Loopback/Whole.antt =====
-- A message that is sent whole, with one `Send`.
use gortmp.Base.{◌≤◌, ◌<◌, ◌≡◌, ◌≢◌, refl, arith, true}
use gortmp.Base.{[], length, some}
use gortmp.Wire.{ok}
use gortmp.Wire.Written.{filled}
use gortmp.Message.{Message, set_chunk_size}
use gortmp.Writer.{OutChunkStream, Output, new_header}
use gortmp.Writer.Whole.{IsPlain, message_chunks, write_message-message_chunks}
use gortmp.Chunks.{Sender, send, store, after_message}
use gortmp.Loopback.First.{IsSendable}

-- A message that has all of its bytes unread and at least one, and does not set the chunk size.
pub record IsOrdinary (msg : Message) : Type 0 where
  pub sendable : IsSendable msg
  pub ordinary : msg.type ≢ set_chunk_size
  pub whole : length msg.buf ≡ msg.size
  pub some_bytes : 0 < msg.size

abbrev pub output : Sender → OutChunkStream → Message → Output
output s cs msg = record {
  chunk_size = s.writer.chunk_size;
  stream = cs;
  message = msg;
  sink = s.sink;
}

-- The writer and what it wrote, behind the message.
abbrev pub behind_message : Sender → OutChunkStream → Message → Sender
behind_message s cs msg =
    let o = output s cs msg in
    after_message s.writer msg.chunk_stream_id (record o {
      stream = (new_header cs msg).1;
      message = record msg { buf = [] };
      sink = filled s.sink (message_chunks o);
    })

output-IsPlain :
    (s : Sender) (cs : OutChunkStream) (msg : Message)
    → IsOrdinary msg
    → 0 < s.writer.chunk_size
    → IsPlain (output s cs msg)
output-IsPlain s cs msg v chunked =
    let range = v.sendable.length_range in
    let below = v.sendable.id_below in
    record {
      ordinary = v.ordinary;
      id_below = omega arith;
      size_range = omega arith;
      chunked = chunked;
    }

pub send-message_chunks :
    (s : Sender) (cs : OutChunkStream) (msg : Message)
    → IsOrdinary msg
    → 0 < s.writer.chunk_size
    → s.writer.chunk_streams msg.chunk_stream_id ≡ some cs
    → length (message_chunks (output s cs msg)) ≤ s.sink.room
    → send true msg s ≡ ok tt (behind_message s cs msg)
unfolding send store
send-message_chunks s cs msg v chunked found fits =
    rw
      (
        found,
        send,
        write_message-message_chunks (output s cs msg) (output-IsPlain s cs msg v chunked) v.whole
            v.some_bytes fits,
        store,
      )
      refl
