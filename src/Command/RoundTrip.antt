-- ===== src/Command/RoundTrip.antt =====
-- A command that is made raw and parsed again.
use gortmp.Base.{[], ◌∷◌, ◌≡◌, refl, if◌then◌else◌, arith}
use gortmp.Command.{Amf, nil, float, Result, ok, panics, Command}
use gortmp.Command.Raw.{Values, settled, settled_command}
use gortmp.Command.Parse.{
  parse_by_name, raw_command, named, mapped, parse_play_command, parse_publish_command,
  parse_connect_command, parse_create_stream_command, parse_delete_stream_command,
  parse_fc_publish_command, parse_result_command,
}

module _ (a : Amf) (v : Values a) where
  -- What comes back: the command, its objects settled; but a panic for a play or publish command
  -- without its optional argument, and the raw command for a deleteStream or onStatus command.
  abbrev pub recovered : Command a → Result (Command a)
  recovered (Command.raw r) = parse_by_name a (settled_command a v r)
  recovered (Command.play c) = if c.start.set then ok (Command.play c) else panics
  recovered (Command.publish c) = if c.type.set then ok (Command.publish c) else panics
  recovered (Command.connect c) =
      ok (Command.connect (record c { properties = v.object_back c.properties }))
  recovered (Command.create_stream c) = ok (Command.create_stream c)
  recovered (Command.delete_stream c) = ok (
      Command.raw
        (named a "" 0 c.transaction_id (nil ∷ float (a.of_uint32 c.delete_stream_id) ∷ [])))
  recovered (Command.fc_publish c) = ok (Command.fc_publish c)
  recovered (Command.result c) = ok (
      Command.result
        (record c { properties = settled a v c.properties; info = settled a v c.info }))
  recovered (Command.on_status c) = ok (
      Command.raw (
        named a "onStatus" c.stream_id c.transaction_id
          (settled a v c.properties ∷ settled a v c.info ∷ [])))

  -- What the parsers make of the raw form of a command with its objects settled.
  pub parse_by_name-raw_command :
      (c : Command a) → parse_by_name a (settled_command a v (raw_command a c)) ≡ recovered c
  unfolding parse_by_name raw_command mapped parse_play_command parse_publish_command
      parse_connect_command parse_create_stream_command parse_delete_stream_command
      parse_fc_publish_command parse_result_command
  parse_by_name-raw_command (Command.raw r) = refl
  parse_by_name-raw_command (Command.play c) = ground arith
  parse_by_name-raw_command (Command.publish c) = ground arith
  parse_by_name-raw_command (Command.connect c) = refl
  parse_by_name-raw_command (Command.create_stream c) = refl
  parse_by_name-raw_command (Command.delete_stream c) = refl
  parse_by_name-raw_command (Command.fc_publish c) = refl
  parse_by_name-raw_command (Command.result c) = refl
  parse_by_name-raw_command (Command.on_status c) = refl
