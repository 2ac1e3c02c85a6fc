-- ===== src/Media/Tags.antt =====
-- The fields of a media header are the bit fields of the first byte, and no more.
use gortmp.Base.{◌+◌, ◌*◌, ◌<◌, ◌≡◌, ◌≢◌, some, arith}
use gortmp.Media.{
  FlvTag, FlvAudioHeader, FlvVideoHeader, get_audio_header, get_video_header, first_byte,
  second_byte,
}

-- A header is returned for an audio tag only; if its first byte is a byte (0 if it has none), the
-- fields are within their widths and make up that byte, and the AAC packet type is the second byte
-- for format 10 and 0 for others.
get_audio_header_fields :
    (f : FlvTag) (h : FlvAudioHeader)
    → first_byte f.bytes < 256
    → get_audio_header f ≡ some h
    → (f.type ≡ 8)
      × (h.sound_format * 16 + h.sound_rate * 4 + h.sound_size * 2 + h.sound_type
          ≡ first_byte f.bytes)
      × (h.sound_format < 16)
      × (h.sound_rate < 4)
      × (h.sound_size < 2)
      × (h.sound_type < 2)
      × (h.sound_format ≡ 10 → h.aac_packet_type ≡ second_byte f.bytes)
      × (h.sound_format ≢ 10 → h.aac_packet_type ≡ 0)
unfolding get_audio_header
get_audio_header_fields f h b e = ground arith

-- A header is returned for a video tag only; if its first byte is a byte (0 if it has none), the
-- fields are within their widths and make up that byte, and the AVC packet type is the second byte
-- for codec 7 and 0 for others.
get_video_header_fields :
    (f : FlvTag) (h : FlvVideoHeader)
    → first_byte f.bytes < 256
    → get_video_header f ≡ some h
    → (f.type ≡ 9)
      × (h.frame_type * 16 + h.codec_id ≡ first_byte f.bytes)
      × (h.frame_type < 16)
      × (h.codec_id < 16)
      × (h.codec_id ≡ 7 → h.avc_packet_type ≡ second_byte f.bytes)
      × (h.codec_id ≢ 7 → h.avc_packet_type ≡ 0)
unfolding get_video_header
get_video_header_fields f h b e = ground arith
