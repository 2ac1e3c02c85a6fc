-- ===== src/Command/Faithful.antt =====
-- What a parsed command has in common with the raw command.
use text.Mathlib.Text.{◌==◌ as str_eq}
use gortmp.Base.{◌≡◌, refl, subst, Bool, true, false, if◌then◌else◌, arith}
use gortmp.Command.{
  Amf, CreateStreamCommand, DeleteStreamCommand, FcPublishCommand, ResultCommand, PlayCommand,
  PublishCommand, ConnectCommand, Result, ok, err, panics, Command, RawCommand,
}
use gortmp.Command.Parse.{
  parse_by_name, parse_play_command, parse_publish_command, parse_connect_command, mapped,
  parse_create_stream_command, parse_delete_stream_command, parse_fc_publish_command,
  parse_result_command,
}

module _ (a : Amf) where
  -- The IDs are kept; commands of the connection come on stream 0 only.
  abbrev pub Keeps : RawCommand a → Command a → Type 0
  Keeps r (Command.raw r') = r' ≡ r
  Keeps r (Command.play c) = (c.stream_id ≡ r.stream_id) × (c.transaction_id ≡ r.transaction_id)
  Keeps r (Command.publish c) = (c.stream_id ≡ r.stream_id) × (c.transaction_id ≡ r.transaction_id)
  Keeps r (Command.connect c) = (r.stream_id ≡ 0) × (c.transaction_id ≡ r.transaction_id)
  Keeps r (Command.create_stream c) = (r.stream_id ≡ 0) × (c.transaction_id ≡ r.transaction_id)
  Keeps r (Command.delete_stream c) = (r.stream_id ≡ 0) × (c.transaction_id ≡ r.transaction_id)
  Keeps r (Command.fc_publish c) = r.stream_id ≡ 0
  Keeps r (Command.result c) = (c.stream_id ≡ r.stream_id) × (c.transaction_id ≡ r.transaction_id)
  Keeps r (Command.on_status c) = ⊥

module _ (a : Amf) (r : RawCommand a) where
  play-Keeps : (c : PlayCommand a) → parse_play_command a r ≡ ok c → Keeps a r (Command.play c)
  unfolding parse_play_command
  play-Keeps c e = ground arith

  publish-Keeps :
      (c : PublishCommand) → parse_publish_command a r ≡ ok c → Keeps a r (Command.publish c)
  unfolding parse_publish_command
  publish-Keeps c e = ground arith

  connect-Keeps :
      (c : ConnectCommand a) → parse_connect_command a r ≡ ok c → Keeps a r (Command.connect c)
  unfolding parse_connect_command
  connect-Keeps c e = ground arith

  create_stream-Keeps :
      (c : CreateStreamCommand)
      → parse_create_stream_command a r ≡ ok c
      → Keeps a r (Command.create_stream c)
  unfolding parse_create_stream_command
  create_stream-Keeps c e = ground arith

  delete_stream-Keeps :
      (c : DeleteStreamCommand)
      → parse_delete_stream_command a r ≡ ok c
      → Keeps a r (Command.delete_stream c)
  unfolding parse_delete_stream_command
  delete_stream-Keeps c e = ground arith

  fc_publish-Keeps :
      (c : FcPublishCommand)
      → parse_fc_publish_command a r ≡ ok c
      → Keeps a r (Command.fc_publish c)
  unfolding parse_fc_publish_command
  fc_publish-Keeps c e = ground arith

  result-Keeps :
      (c : ResultCommand a) → parse_result_command a r ≡ ok c → Keeps a r (Command.result c)
  unfolding parse_result_command
  result-Keeps c e = ground arith

  abbrev Only : Result (Command a) → Type 0
  Only m = (c : Command a) → m ≡ ok c → Keeps a r c

  mapped-Only :
      {A : Type 0} (f : A → Command a) (m : Result A)
      → ((x : A) → m ≡ ok x → Keeps a r (f x))
      → Only (mapped a f m)
  unfolding mapped
  mapped-Only f (ok x) w c e = subst (Keeps a r) (returned (f x) c e) (w x refl)
    where
      returned : (b c : Command a) → ok b ≡ ok c → b ≡ c
      returned b c e = cc
  mapped-Only f (err p) w c e = absurd (cc)
  mapped-Only f panics w c e = absurd (cc)

  Only-if : (b : Bool) {m m' : Result (Command a)} → Only m → Only m' → Only (if b then m else m')
  Only-if true w w' = w
  Only-if false w w' = w'

  -- For every raw command, a command that `ParseCommand` returns keeps the transaction ID (except
  -- FCPublish, which has none) and the stream ID; connect, createStream, deleteStream and FCPublish
  -- are returned for stream 0 only; a raw command is returned as it is.
  pub parse_by_name-Keeps : (c : Command a) → parse_by_name a r ≡ ok c → Keeps a r c
  unfolding parse_by_name
  parse_by_name-Keeps =
      Only-if (str_eq r.name "publish") (mapped-Only Command.publish _ publish-Keeps) (
        Only-if (str_eq r.name "play") (mapped-Only Command.play _ play-Keeps) (
          Only-if (str_eq r.name "connect") (mapped-Only Command.connect _ connect-Keeps) (
            Only-if (str_eq r.name "createStream")
              (mapped-Only Command.create_stream _ create_stream-Keeps)
              (Only-if (str_eq r.name "deleteStream")
                (mapped-Only Command.delete_stream _ delete_stream-Keeps)
                (Only-if (str_eq r.name "FCPublish")
                  (mapped-Only Command.fc_publish _ fc_publish-Keeps)
                  (Only-if (str_eq r.name "_result") (mapped-Only Command.result _ result-Keeps) (
                    Only-if (str_eq r.name "_error") (λ c e. absurd (cc))
                      (λ c e. subst (Keeps a r) (same c e) refl))))))))
    where
      same : (c : Command a) → ok (Command.raw r) ≡ ok c → Command.raw r ≡ c
      same c e = cc
