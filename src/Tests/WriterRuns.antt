-- ===== src/Tests/WriterRuns.antt =====
-- chunkstreamwriter.go on concrete messages.
use gortmp.Base.{◌≤◌, ◌<◌, ◌≡◌, ◌≢◌, refl, [], ◌∷◌, some, none, false}
use gortmp.Base.{inl, arith}
use gortmp.Wire.{ok, err, out_of_fuel}
use gortmp.Wire.Written.{filled}
use gortmp.Message.{Message}
use gortmp.Header.{Header, zero_header, extended_mark}
use gortmp.Header.Write.{encode, base_bytes, message_bytes, field_bytes, extended_bytes}
use gortmp.Writer.{OutChunkStream, Output, Priority, fresh_stream, new_header, write_message}
use gortmp.Writer.Headers.{Describes, completed, new_header-Describes}
use gortmp.Writer.Whole.{message_chunks, continuation_chunks, write_message-message_chunks}
use gortmp.Writer.Ends.{write_message-ends}
use gortmp.Chunks.{new_chunk_stream_writer, create_chunk_stream}
use gortmp.Chunks.Create.{Created, create_chunk_stream-Created}

abbrev video : Message
video = record {
  chunk_stream_id = 5;
  timestamp = 40;
  size = 5;
  type = 9;
  stream_id = 1;
  buf = 10 ∷ 11 ∷ 12 ∷ 13 ∷ 14 ∷ [];
  is_inbound = false;
  absolute_timestamp = 40;
}

-- The header of the message before.
abbrev last_header : Header
last_header = record zero_header {
  chunk_stream_id = 5;
  timestamp = 20;
  message_length = 5;
  message_type_id = 9;
  message_stream_id = 1;
}

abbrev stream : OutChunkStream
stream = record (fresh_stream Priority.low) {
  last_header = some last_header;
  last_absolute_timestamp = 20;
}

abbrev output : Output
output = record {
  chunk_size = 2;
  stream = stream;
  message = video;
  sink = record { n = 0; out = []; room = 100 };
}

chunks : message_chunks output ≡ 0x85 ∷ 0 ∷ 0 ∷ 20 ∷ 10 ∷ 11 ∷ 0xc5 ∷ 12 ∷ 13 ∷ 0xc5 ∷ 14 ∷ []
unfolding message_chunks continuation_chunks encode base_bytes message_bytes field_bytes
    extended_bytes new_header
chunks = refl

new_header-Describes_example :
    let h : Header = (new_header stream video).0 in
    let cs' : OutChunkStream = (new_header stream video).1 in
    Describes (completed last_header h) video
    × (h.fmt < 4)
    × (cs'.last_header ≡ some h)
    × (cs'.last_absolute_timestamp ≡ 40)
    × (stream.last_header ≡ none → h.fmt ≡ 0)
    × (40 ≤ 20 → h.fmt ≡ 0)
new_header-Describes_example = new_header-Describes stream video last_header (inl refl)

abbrev late : Message
late = record video { timestamp = 0x2000000 }

-- Behind the time 20: the step does not fit three bytes, and what stands for it is the message's time.
late_header :
    ((new_header stream late).0.timestamp ≡ extended_mark)
    × ((new_header stream late).0.extended_timestamp ≡ 0x2000000)
unfolding new_header
late_header = (refl, refl)

write_message-message_chunks_example :
    write_message 6 output
    ≡ ok tt (record output {
      stream = (new_header stream video).1;
      message = record video { buf = [] };
      sink = filled output.sink (message_chunks output);
    })
unfolding message_chunks continuation_chunks encode base_bytes message_bytes field_bytes
    extended_bytes new_header
write_message-message_chunks_example =
    write_message-message_chunks output
      (record {
        ordinary = λ e. absurd (omega (arith, e));
        id_below = omega arith;
        size_range = omega arith;
        chunked = omega arith;
      })
      refl (omega arith) (omega arith)

-- A message of type 1, which sets the chunk size.
abbrev resize : Output
resize = record output { message = record video { type = 1 } }

write_message-ends_example : write_message 5 resize ≢ err out_of_fuel resize
write_message-ends_example =
    write_message-ends 5 resize resize (omega arith) (omega arith) (omega arith)

create_chunk_stream-Created_example :
    Created new_chunk_stream_writer 2 (create_chunk_stream 2 new_chunk_stream_writer)
create_chunk_stream-Created_example = create_chunk_stream-Created 2 new_chunk_stream_writer
