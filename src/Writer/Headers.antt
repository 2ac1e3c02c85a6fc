-- ===== src/Writer/Headers.antt =====
-- What `newHeader` leaves out of a header, the last header on the chunk stream has.
use gortmp.Base.{◌≤◌, ◌<◌, ◌≡◌, ◌⊎◌, some, none, arith}
use gortmp.Base.{if◌then◌else◌, leb}
use gortmp.Header.{Header}
use gortmp.Message.{Message}
use gortmp.Writer.{OutChunkStream, new_header}

-- The header that a receiver has after it filled in, from its last header, what the format leaves
-- out (the protocol's rule).
abbrev pub completed : Header → Header → Header
completed last h = record h {
  message_length = if leb 2 h.fmt then last.message_length else h.message_length;
  message_type_id = if leb 2 h.fmt then last.message_type_id else h.message_type_id;
  message_stream_id = if leb 1 h.fmt then last.message_stream_id else h.message_stream_id;
}

pub record Describes (h : Header) (msg : Message) : Type 0 where
  pub id : h.chunk_stream_id ≡ msg.chunk_stream_id
  pub length : h.message_length ≡ msg.size
  pub type : h.message_type_id ≡ msg.type
  pub stream : h.message_stream_id ≡ msg.stream_id

-- For every chunk stream and message the new header, completed from the last one, gives the
-- message's chunk stream ID, length, type and stream ID, and the stream remembers that header and the
-- message's timestamp; with no last header, or if the timestamp is not later than the last, it is a
-- full header.
pub new_header-Describes :
    (cs : OutChunkStream) (msg : Message) (last : Header)
    → (cs.last_header ≡ some last) ⊎ (cs.last_header ≡ none)
    → let h : Header = (new_header cs msg).0 in
      let cs' : OutChunkStream = (new_header cs msg).1 in
      Describes (completed last h) msg
      × (h.fmt < 4)
      × (cs'.last_header ≡ some h)
      × (cs'.last_absolute_timestamp ≡ msg.timestamp)
      × (cs.last_header ≡ none → h.fmt ≡ 0)
      × (msg.timestamp ≤ cs.last_absolute_timestamp → h.fmt ≡ 0)
unfolding new_header
new_header-Describes cs msg last k = ground arith
