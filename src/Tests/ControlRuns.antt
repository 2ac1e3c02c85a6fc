-- ===== src/Tests/ControlRuns.antt =====
-- chunkstream.go between a new writer and a new reader.
use gortmp.Base.{ℕ, ◌≡◌, refl, List, [], ◌++◌, true, arith}
use gortmp.Base.Bytes.{be_uint32}
use gortmp.Wire.{ok}
use gortmp.Wire.Written.{filled}
use gortmp.Header.Write.{encode, base_bytes, message_bytes, field_bytes, extended_bytes}
use gortmp.Message.{Message}
use gortmp.Writer.{OutChunkStream, Priority, fresh_stream, new_header}
use gortmp.Chunks.{Sender, new_chunk_stream_writer, update}
use gortmp.Control.{set_chunk_size_message, send_set_chunk_size}
use gortmp.Control.Agreement.{send_set_chunk_size_lem}

abbrev sender : Sender
sender = record { writer = new_chunk_stream_writer; sink = record { n = 0; out = []; room = 100 } }

abbrev stream : OutChunkStream
stream = fresh_stream Priority.high

send_set_chunk_size_lem_example :
    let msg : Message = set_chunk_size_message 4096 in
    let bytes : List ℕ = encode (new_header stream msg).0 ++ be_uint32 4096 in
    send_set_chunk_size true 4096 sender
    ≡ ok tt (record {
      writer = record sender.writer {
        chunk_size = 4096;
        chunk_streams = update sender.writer.chunk_streams 2 (new_header stream msg).1;
      };
      sink = filled sender.sink bytes;
    })
unfolding new_chunk_stream_writer encode base_bytes message_bytes field_bytes extended_bytes
    new_header
send_set_chunk_size_lem_example =
    send_set_chunk_size_lem 4096 sender stream refl (omega arith) (omega arith) (omega arith)
