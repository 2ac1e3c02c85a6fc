-- ===== src/Media/Buffer.antt =====
-- mediabuffer.go: a queue of tags between a media stream and a player, bounded by the sum of the
-- tags' sizes. The loop is a step function over what its select can meet; `out` are the tags that
-- were sent on `mb.out`, oldest first.
pub mod Accounts
use gortmp.Base.{ℕ, ◌+◌, ◌-◌, ◌%◌, ◌^◌, List, [], ◌∷◌, ◌++◌, Bool, true, false, ltb, if◌then◌else◌}
use gortmp.Media.{FlvTag}

pub record MediaBuffer : Type 0 where
  pub tags : List FlvTag
  pub size : ℕ
  pub max_size : ℕ
  pub out : List FlvTag
  pub stopped : Bool

-- `NewMediaBuffer`, once the stream has let it subscribe.
abbrev pub new_media_buffer : ℕ → MediaBuffer
new_media_buffer max_size = record {
  tags = [];
  size = 0;
  max_size = max_size;
  out = [];
  stopped = false;
}

-- Sizes are uint32 and their sum wraps. A tag that does not fit is dropped.
abbrev pub fits : MediaBuffer → FlvTag → Bool
fits mb tag = ltb ((mb.size + tag.size) % 2 ^ 32) mb.max_size

unfoldable pub push : MediaBuffer → FlvTag → MediaBuffer
push mb tag =
    if fits mb tag
    then record mb { size = (mb.size + tag.size) % 2 ^ 32; tags = mb.tags ++ (tag ∷ []) }
    else mb

-- The front is sent on `mb.out` and removed. With no tag there is nothing to send.
abbrev send_front : MediaBuffer → List FlvTag → MediaBuffer
send_front mb [] = mb
send_front mb (tag ∷ rest) = record mb {
  tags = rest;
  size = (mb.size + 2 ^ 32 - tag.size) % 2 ^ 32;
  out = mb.out ++ (tag ∷ []);
}

-- What the select of the loop meets: a tag from the stream, the end of the stream, or a reader.
pub data Event : Type 0 where
  tag_in : FlvTag → Event
  closed : Event
  wanted : Event

handle : MediaBuffer → Event → MediaBuffer
handle mb (tag_in tag) = push mb tag
handle mb closed = record mb { stopped = true }
handle mb wanted = send_front mb mb.tags

-- Once it is stopped the loop has returned.
unfoldable pub step : MediaBuffer → Event → MediaBuffer
unfolding handle push
step mb e = if mb.stopped then mb else handle mb e

unfoldable pub run : MediaBuffer → List Event → MediaBuffer
run mb [] = mb
run mb (e ∷ es) = run (step mb e) es
