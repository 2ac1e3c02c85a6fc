-- ===== src/Message.antt =====
-- message.go: the messages that chunks carry, and the numbers of defines.go that they are made of.
--
-- Every message of the program has a buffer, so `buf` is its unread bytes; `remain` takes the
-- pointer, which may be nil.
use gortmp.Base.{ℕ, ◌+◌, ◌-◌, ◌%◌, ◌^◌, List, [], Option, none, some, Bool, false, length}

abbrev pub cs_id_base : ℕ
cs_id_base = 2

abbrev pub cs_id_protocol_control : ℕ
cs_id_protocol_control = 2

abbrev pub cs_id_command : ℕ
cs_id_command = 3

abbrev pub cs_id_user_control : ℕ
cs_id_user_control = 4

abbrev pub cs_id_max : ℕ
cs_id_max = 100

abbrev pub set_chunk_size : ℕ
set_chunk_size = 1

abbrev pub acknowledgement : ℕ
acknowledgement = 3

abbrev pub window_acknowledgement_size : ℕ
window_acknowledgement_size = 5

abbrev pub set_peer_bandwidth : ℕ
set_peer_bandwidth = 6

abbrev pub audio_type : ℕ
audio_type = 8

abbrev pub video_type : ℕ
video_type = 9

abbrev pub data_amf0 : ℕ
data_amf0 = 18

abbrev pub command_amf0 : ℕ
command_amf0 = 20

abbrev pub command_amf3 : ℕ
command_amf3 = 17

abbrev pub default_chunk_size : ℕ
default_chunk_size = 128

abbrev pub default_window_size : ℕ
default_window_size = 1048576

pub record Message : Type 0 where
  pub chunk_stream_id : ℕ
  pub timestamp : ℕ
  pub size : ℕ
  pub type : ℕ
  pub stream_id : ℕ
  pub buf : List ℕ
  pub is_inbound : Bool
  pub absolute_timestamp : ℕ

-- `data` may be nil.
unfoldable pub new_message : ℕ → ℕ → ℕ → ℕ → Option (List ℕ) → Message
new_message csi t sid ts payload = record {
  chunk_stream_id = csi;
  timestamp = ts;
  size = elim payload [ none ↦ 0 | some bytes ↦ length bytes % 2 ^ 32 ];
  type = t;
  stream_id = sid;
  buf = elim payload [ none ↦ [] | some bytes ↦ bytes ];
  is_inbound = false;
  absolute_timestamp = ts;
}

-- `message.Size - uint32(message.Buf.Len())`, a uint32.
unfoldable pub remain : ℕ → Option (List ℕ) → ℕ
remain size none = size
remain size (some buf) = (size + 2 ^ 32 - length buf % 2 ^ 32) % 2 ^ 32
