-- ===== src/Media.antt =====
-- flvtag.go: the tags of a media stream, and the headers in their first bytes.
--
-- `binary.Read` of a uint8 takes one byte; where there is none its error is dropped and the field
-- stays 0. `b >> k` and `b & m` of a byte are `/` and `%`.
pub mod Tags
pub mod Buffer
pub mod Stream
pub mod Playback
use gortmp.Base.{ℕ, ◌+◌, ◌/◌, ◌%◌, List, [], ◌∷◌, Option, none, some, ◌==◌, if◌then◌else◌}
use gortmp.Message.{audio_type, video_type}

pub record FlvTag : Type 0 where
  pub type : ℕ
  pub timestamp : ℕ
  pub size : ℕ
  pub bytes : List ℕ

pub record FlvAudioHeader : Type 0 where
  pub sound_format : ℕ
  pub sound_rate : ℕ
  pub sound_size : ℕ
  pub sound_type : ℕ
  pub aac_packet_type : ℕ

pub record FlvVideoHeader : Type 0 where
  pub frame_type : ℕ
  pub codec_id : ℕ
  pub avc_packet_type : ℕ

-- The next byte of a buffer, and what is behind it.
abbrev pub first_byte : List ℕ → ℕ
first_byte [] = 0
first_byte (b ∷ bs) = b

abbrev pub second_byte : List ℕ → ℕ
second_byte [] = 0
second_byte (b ∷ bs) = first_byte bs

unfoldable pub get_audio_header : FlvTag → Option FlvAudioHeader
get_audio_header f =
    if f.type == audio_type
    then (let bits = first_byte f.bytes in
        some (record {
          sound_format = bits / 16;
          sound_rate = bits / 4 % 4;
          sound_size = bits / 2 % 2;
          sound_type = bits % 2;
          aac_packet_type = if bits / 16 == 10 then second_byte f.bytes else 0;
        }))
    else none

unfoldable pub get_video_header : FlvTag → Option FlvVideoHeader
get_video_header f =
    if f.type == video_type
    then (let bits = first_byte f.bytes in
        some (record {
          frame_type = bits / 16;
          codec_id = bits % 16;
          avc_packet_type = if bits % 16 == 7 then second_byte f.bytes else 0;
        }))
    else none
