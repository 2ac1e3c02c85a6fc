-- ===== src/Loopback/Sends.antt =====
-- One message of either kind, sent and received.
use gortmp.Base.{ℕ, ◌≤◌, ◌<◌, ◌≡◌, refl, true}
use gortmp.Loopback.{IsPunctual}
use gortmp.Base.{Bool, List, ◌++◌, some, length}
use gortmp.Wire.{ok}
use gortmp.Message.{Message}
use gortmp.Writer.{OutChunkStream}
use gortmp.Writer.Whole.{message_chunks}
use gortmp.Reader.{Session}
use gortmp.Chunks.{Sender, send}
use gortmp.Loopback.Whole.{IsOrdinary, output, behind_message, send-message_chunks}
use gortmp.Loopback.Sync.{Passed, InSync, passes}
use gortmp.Base.Bytes.{be_uint32}
use gortmp.Base.{◌<◌, ◌^◌}
use gortmp.Header.Write.{encode}
use gortmp.Writer.{new_header}
use gortmp.Control.{set_chunk_size_message}
use gortmp.Loopback.Announcement.{behind_announcement, send-announcement, announcement-Passed}

-- A message that can be sent on `cs`: an ordinary one, or one that sets the chunk size.
pub data CanPass (s : Sender) (cs : OutChunkStream) : Message → Type 0 where
  ordinary :
      (msg : Message)
      → IsOrdinary msg
      → length (message_chunks (output s cs msg)) ≤ s.sink.room
      → CanPass s cs msg
  announcing :
      (size : ℕ)
      → 0 < size
      → size < 2 ^ 32
      → 4 ≤ s.writer.chunk_size
      → length (encode (new_header cs (set_chunk_size_message size)).0 ++ be_uint32 size)
        ≤ s.sink.room
      → CanPass s cs (set_chunk_size_message size)

-- A message that is sent, and what it gives to a reader in step.
pub record Sends (exact : Bool) (s : Sender) (msg : Message) : Type 0 where
  pub after : Sender
  pub bytes : List ℕ
  pub sent : send true msg s ≡ ok tt after
  pub out : after.sink.out ≡ s.sink.out ++ bytes
  pub chunked : 0 < after.writer.chunk_size
  pub passed :
      (r : Session) (before : ℕ) (rest : List ℕ)
      → InSync exact s.writer r
      → r.source.rest ≡ bytes ++ rest
      → Passed exact msg after.writer r before rest

pub CanPass-Sends :
    {exact : Bool} (s : Sender) (cs : OutChunkStream) (msg : Message)
    → s.writer.chunk_streams msg.chunk_stream_id ≡ some cs
    → CanPass s cs msg
    → IsPunctual exact cs msg
    → 0 < s.writer.chunk_size
    → Sends exact s msg
CanPass-Sends s cs msg found (ordinary _ v fits) punctual chunked = record {
  after = behind_message s cs msg;
  bytes = message_chunks (output s cs msg);
  sent = send-message_chunks s cs msg v chunked found fits;
  out = refl;
  chunked = chunked;
  passed = λ r before rest sync input. passes s cs msg r before rest v punctual found sync input;
}
CanPass-Sends s cs _ found (announcing size positive range four fits) punctual chunked = record {
  after = behind_announcement size s cs found positive range four;
  bytes = encode (new_header cs (set_chunk_size_message size)).0 ++ be_uint32 size;
  sent = send-announcement size s cs found positive range four fits;
  out = refl;
  chunked = positive;
  passed = λ r before rest sync input.
      announcement-Passed size s cs found positive range four r before rest punctual sync input;
}
