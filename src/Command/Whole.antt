-- ===== src/Command/Whole.antt =====
-- `ParseCommand`, from a message to a command.
use gortmp.Base.{ap, refl, true, ◌==◌, ◌||◌, ◌<◌, ◌^◌, ◌≡◌, false}
use gortmp.Message.{Message, command_amf0, command_amf3}
use gortmp.Command.{Amf, Result, ok, err, panics, RawCommand, ◌>>=◌, Command}
use gortmp.Command.Parse.{parse_by_name, raw_command}
use gortmp.Command.RoundTrip.{recovered, parse_by_name-raw_command}
use gortmp.Command.Raw.{
  Values, Documented, parse_raw_command, parse_raw_command_same, parsed_type, message,
  parse_raw_command-message,
}

module _ (a : Amf) (v : Values a) where
  unfoldable pub parse_command : Message → Result (Command a)
  parse_command msg = parse_raw_command a v msg >>= parse_by_name a

  parsed_first :
      (x : Result (RawCommand a)) (cmd : Command a)
      → (x >>= parse_by_name a) ≡ ok cmd
      → (raw : RawCommand a) × (x ≡ ok raw)
  parsed_first (ok raw) cmd e = (raw, refl)
  parsed_first (err f) cmd e = absurd (cc)
  parsed_first panics cmd e = absurd (cc)

  pub parsed_command_type :
      (msg : Message) (cmd : Command a)
      → parse_command msg ≡ ok cmd
      → (msg.type == command_amf3) || (msg.type == command_amf0) ≡ true
  unfolding parse_command
  parsed_command_type msg cmd e =
      let (raw, parsed) = parsed_first (parse_raw_command a v msg) cmd e in
      parsed_type a v msg raw parsed

  pub parse_command_same :
      (m msg : Message)
      → m.type ≡ msg.type
      → m.stream_id ≡ msg.stream_id
      → m.buf ≡ msg.buf
      → parse_command m ≡ parse_command msg
  unfolding parse_command
  parse_command_same m msg t s b =
      ap (λ r. r >>= parse_by_name a) (parse_raw_command_same a v m msg t s b)

  -- If the AMF library does what is documented (what it writes it reads back, a uint32 as a float64
  -- and a struct as an object), and the message of a command that is not flex, with a transaction ID
  -- that is a uint32, can be made, ParseCommand of it gives: the command, with the objects read back
  -- so, for connect, createStream, FCPublish and _result, and for play and publish with the optional
  -- argument; a panic for play and publish without it; a raw command for deleteStream, without a name
  -- and with the stream ID as a float64, and for onStatus; and for a raw command what its name says.
  pub parse_command-message :
      (c : Command a) (msg : Message)
      → Documented a v
      → (raw_command a c).is_flex ≡ false
      → (raw_command a c).transaction_id < 2 ^ 32
      → message a v (raw_command a c) ≡ ok msg
      → parse_command msg ≡ recovered a v c
  unfolding parse_command
  parse_command-message c msg d f small e =
      rw (parse_raw_command-message a v d (raw_command a c) msg f small e, ◌>>=◌)
        (parse_by_name-raw_command a v c)
