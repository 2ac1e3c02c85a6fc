-- ===== src/Header.antt =====
-- header.go: the chunk header, its reading and its writing.
--
-- `b >> 6` and `b & 0x3f` of a byte are `/ 2 ^ 6` and `% 2 ^ 6`; `csi` is built from bytes and stays
-- below 2 ^ 17, so that its uint32 arithmetic cannot wrap. `read_header` takes the receiver and
-- returns it as it is when the function succeeds: its only caller drops it on an error.
pub mod Write
pub mod RoundTrip
pub mod Input
pub mod Mismatch
pub mod Typed
use gortmp.Base.{ℕ, ◌+◌, ◌-◌, ◌*◌, ◌/◌, ◌%◌, ◌^◌, bit_or, Bool, false, not, ◌&&◌, ◌||◌}
use gortmp.Base.{List, [], ◌∷◌, Option, none, some, leb, ltb, ◌==◌, if◌then◌else◌, length}
use gortmp.Base.Bytes.{be_uint16, be_uint24, be_uint32, le_uint32, of_be, of_le}
use gortmp.Wire.{Source, Sink, Action, pure, fail, ◌>>=◌, ◌>>◌, count_in, count_out}
use gortmp.Wire.{read_byte, read_full, split_exact, write_bytes, unsupported_chunk_stream_id}

-- The values of the "fmt" field.
abbrev pub header_fmt_full : ℕ
header_fmt_full = 0

abbrev pub header_fmt_same_stream : ℕ
header_fmt_same_stream = 1

abbrev pub header_fmt_same_length_and_stream : ℕ
header_fmt_same_length_and_stream = 2

abbrev pub header_fmt_continuation : ℕ
header_fmt_continuation = 3

-- What stands in the timestamp field if the extended timestamp follows.
abbrev pub extended_mark : ℕ
extended_mark = 0xffffff

pub record Header : Type 0 where
  pub fmt : ℕ
  pub chunk_stream_id : ℕ
  pub timestamp : ℕ
  pub message_length : ℕ
  pub message_type_id : ℕ
  pub message_stream_id : ℕ
  pub extended_timestamp : ℕ

-- `&Header{}`
abbrev pub zero_header : Header
zero_header = record {
  fmt = 0;
  chunk_stream_id = 0;
  timestamp = 0;
  message_length = 0;
  message_type_id = 0;
  message_stream_id = 0;
  extended_timestamp = 0;
}

-- The second and third bytes of a base header, lowest first.
read_chunk_stream_id : ℕ → Action Source ℕ
read_chunk_stream_id b =
    if b == 0
    then (do b₁ ← read_byte; count_in 1; pure (64 + b₁))
    else if b == 1
    then (do b₁ ← read_byte; count_in 1; b₂ ← read_byte; count_in 1; pure (64 + b₁ + b₂ * 256))
    else pure b

-- Returns the fmt and the chunk stream ID.
unfoldable pub read_base_header : Action Source (ℕ × ℕ)
unfolding read_byte read_chunk_stream_id
read_base_header = do
  b ← read_byte
  count_in 1
  csi ← read_chunk_stream_id (b % 2 ^ 6)
  pure (b / 2 ^ 6, csi)

-- `io.ReadFull(rbuf, tmpBuf[1:4])` and `BigEndian.Uint32(tmpBuf)`: the first byte of `tmpBuf` is 0
-- until the last two fields, which overwrite all four.
abbrev read_uint24 : Action Source ℕ
read_uint24 = do bs ← read_full 3; count_in 3; pure (of_be (0 ∷ bs))

-- The cases of the switch. A fmt of two bits has no other value.
read_fields : Header → Action Source Header
read_fields header =
    if header.fmt == header_fmt_full
    then (do
      timestamp ← read_uint24
      message_length ← read_uint24
      b ← read_byte
      count_in 1
      bs ← read_full 4
      count_in 4
      pure (record header {
        timestamp = timestamp;
        message_length = message_length;
        message_type_id = b;
        message_stream_id = of_le bs;
      }))
    else if header.fmt == header_fmt_same_stream
    then (do
      timestamp ← read_uint24
      message_length ← read_uint24
      b ← read_byte
      count_in 1
      pure (record header {
        timestamp = timestamp;
        message_length = message_length;
        message_type_id = b;
      }))
    else if header.fmt == header_fmt_same_length_and_stream
    then (do timestamp ← read_uint24; pure (record header { timestamp = timestamp }))
    else pure header

-- `lastheader != nil && lastheader.ExtendedTimestamp > 0`
abbrev pub was_extended : Option Header → Bool
was_extended none = false
was_extended (some last) = ltb 0 last.extended_timestamp

-- Whether four more bytes belong to the header.
abbrev has_extended : Header → Option Header → Bool
has_extended header last =
    (not (header.fmt == header_fmt_continuation) && leb extended_mark header.timestamp)
    || ((header.fmt == header_fmt_continuation) && was_extended last)

read_extended : Option Header → Header → Action Source Header
read_extended last header =
    if has_extended header last
    then (do bs ← read_full 4; count_in 4; pure (record header { extended_timestamp = of_be bs }))
    else pure (record header { extended_timestamp = 0 })

unfoldable pub read_header : Header → ℕ → ℕ → Option Header → Action Source Header
unfolding read_fields read_extended read_full split_exact read_byte
read_header header vfmt csi last = do
  header' ← read_fields (record header { fmt = vfmt; chunk_stream_id = csi })
  read_extended last header'

-- A call that writes `bs`, and the `n += …` behind it.
abbrev put : List ℕ → Action Sink (Unit {0})
put bs = write_bytes bs >> count_out (length bs)

-- `header.Fmt << 6` is that of a uint8.
write_base_header : Header → Action Sink (Unit {0})
write_base_header header =
    if leb header.chunk_stream_id 63
    then put (bit_or (header.fmt * 64 % 256) header.chunk_stream_id ∷ [])
    else if leb header.chunk_stream_id 319
    then put ((header.fmt * 64 % 256) ∷ []) >> put (((header.chunk_stream_id - 64) % 256) ∷ [])
    else if leb header.chunk_stream_id 65599
    then put (bit_or (header.fmt * 64 % 256) 1 ∷ [])
      >> put (be_uint16 ((header.chunk_stream_id - 64) % 2 ^ 16))
    else fail unsupported_chunk_stream_id

write_fields : Header → Action Sink (Unit {0})
write_fields header =
    if header.fmt == header_fmt_full
    then put (be_uint24 header.timestamp)
      >> (put (be_uint24 header.message_length)
          >> (put (header.message_type_id ∷ []) >> put (le_uint32 header.message_stream_id)))
    else if header.fmt == header_fmt_same_stream
    then put (be_uint24 header.timestamp)
      >> (put (be_uint24 header.message_length) >> put (header.message_type_id ∷ []))
    else if header.fmt == header_fmt_same_length_and_stream
    then put (be_uint24 header.timestamp)
    else pure tt

write_extended : Header → Action Sink (Unit {0})
write_extended header =
    if leb extended_mark header.timestamp
    then put (be_uint32 header.extended_timestamp)
    else pure tt

-- A continuation header returns inside the switch, before the extended timestamp.
write_message_header : Header → Action Sink (Unit {0})
write_message_header header =
    if header.fmt == header_fmt_continuation
    then pure tt
    else write_fields header >> write_extended header

pub write : Header → Action Sink (Unit {0})
write header = write_base_header header >> write_message_header header

unfoldable pub real_timestamp : Header → ℕ
real_timestamp header =
    if leb extended_mark header.timestamp then header.extended_timestamp else header.timestamp
