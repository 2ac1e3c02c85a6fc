-- ===== src/Tests/MediaRuns.antt =====
-- flvtag.go and mediabuffer.go on concrete tags.
use gortmp.Base.{◌≡◌, refl, [], ◌∷◌, some, List, arith}
use gortmp.Media.{FlvTag, FlvAudioHeader, FlvVideoHeader, get_audio_header, get_video_header}
use gortmp.Media.Buffer.{Event, tag_in, closed, wanted, new_media_buffer, push, step, run}
use gortmp.Media.Buffer.Accounts.{IsBalanced, run-IsBalanced}

abbrev audio : FlvTag
audio = record { type = 8; timestamp = 40; size = 3; bytes = 0xaf ∷ 1 ∷ 20 ∷ [] }

abbrev video : FlvTag
video = record { type = 9; timestamp = 40; size = 3; bytes = 0x17 ∷ 1 ∷ 20 ∷ [] }

abbrev audio_header : FlvAudioHeader
audio_header = record {
  sound_format = 10;
  sound_rate = 3;
  sound_size = 1;
  sound_type = 1;
  aac_packet_type = 1;
}

abbrev video_header : FlvVideoHeader
video_header = record { frame_type = 1; codec_id = 7; avc_packet_type = 1 }

audio_run : get_audio_header audio ≡ some audio_header
unfolding get_audio_header
audio_run = refl

video_run : get_video_header video ≡ some video_header
unfolding get_video_header
video_run = refl

-- The third tag does not fit before the first is gone.
abbrev events : List Event
events = tag_in audio ∷ tag_in video ∷ tag_in audio ∷ wanted ∷ tag_in video ∷ closed ∷ wanted ∷ []

events_run : (run (new_media_buffer 7) events).out ≡ audio ∷ []
unfolding run step push
events_run = refl

run-IsBalanced_example : IsBalanced (run (new_media_buffer 7) events)
run-IsBalanced_example =
    run-IsBalanced (new_media_buffer 7) events
      (omega arith, (omega arith, (omega arith, (tt, (omega arith, (tt, (tt, tt)))))))
      (record { counted = refl; bounded = omega arith; narrow = omega arith })
