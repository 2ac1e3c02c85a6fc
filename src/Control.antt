-- ===== src/Control.antt =====
-- chunkstream.go: the control messages of the protocol. `binary.Write` into a fresh buffer does not
-- fail.
pub mod Agreement
use gortmp.Base.{ℕ, ◌/◌, ◌%◌, ◌^◌, List, [], ◌∷◌, ◌++◌, Bool, false, length}
use gortmp.Base.Bytes.{be_uint32}
use gortmp.Wire.{Action}
use gortmp.Message.{
  Message, cs_id_protocol_control, set_chunk_size, acknowledgement, window_acknowledgement_size,
  set_peer_bandwidth,
}
use gortmp.Reader.{Session, new_chunk_stream_reader}
use gortmp.Chunks.{Sender, send, ChunkStreamWriter, new_chunk_stream_writer}

abbrev control_message : ℕ → List ℕ → Message
control_message type buf = record {
  chunk_stream_id = cs_id_protocol_control;
  timestamp = 0;
  size = length buf;
  type = type;
  stream_id = 0;
  buf = buf;
  is_inbound = false;
  absolute_timestamp = 0;
}

abbrev pub set_chunk_size_message : ℕ → Message
set_chunk_size_message size = control_message set_chunk_size (be_uint32 size)

abbrev pub set_window_size_message : ℕ → Message
set_window_size_message size = control_message window_acknowledgement_size (be_uint32 size)

abbrev pub set_peer_bandwidth_message : ℕ → ℕ → Message
set_peer_bandwidth_message bw limit =
    control_message set_peer_bandwidth (be_uint32 bw ++ (limit % 256) ∷ [])

abbrev pub acknowledgement_message : ℕ → Message
acknowledgement_message count = control_message acknowledgement (be_uint32 count)

-- Each of them sends its message; the first argument says how the select in `Send` ends.
unfoldable pub send_set_chunk_size : Bool → ℕ → Action Sender (Unit {0})
send_set_chunk_size taken size = send taken (set_chunk_size_message size)

unfoldable pub send_set_window_size : Bool → ℕ → Action Sender (Unit {0})
send_set_window_size taken size = send taken (set_window_size_message size)

unfoldable pub send_set_peer_bandwidth : Bool → ℕ → ℕ → Action Sender (Unit {0})
send_set_peer_bandwidth taken bw limit = send taken (set_peer_bandwidth_message bw limit)

unfoldable pub send_acknowledgement : Bool → ℕ → Action Sender (Unit {0})
send_acknowledgement taken count = send taken (acknowledgement_message count)

-- It has the name of another message, and sends an acknowledgement too; nobody calls it.
abbrev send_window_acknowledgement_size : Bool → ℕ → Action Sender (Unit {0})
send_window_acknowledgement_size taken count = send taken (acknowledgement_message count)

-- `chunkStream`, the two ends of a connection, with the bytes that will come.
record ChunkStream : Type 0 where
  reader : Session
  writer : ChunkStreamWriter

abbrev new_chunk_stream : List ℕ → ChunkStream
new_chunk_stream bytes = record {
  reader = new_chunk_stream_reader bytes;
  writer = new_chunk_stream_writer;
}
