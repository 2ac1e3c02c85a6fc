-- ===== src/Tests/SessionRuns.antt =====
-- A publisher on connection 5 and a viewer on connection 6, with a library of values that knows the
-- names of four commands.
use Prim.Native.String.{String}
use text.Mathlib.TextEquality.{eq_iff}
use gortmp.Base.{
  ℕ, zero, suc, ◌≡◌, ◌≢◌, refl, List, [], ◌∷◌, ◌++◌, Option, some, none, true, map, arith,
}
use gortmp.Message.{Message}
use gortmp.Command.{Amf, Value, nil, string, float, object, Command, PublishCommand, PlayCommand}
use gortmp.Command.Parse.{
  parse_by_name, mapped, parse_connect_command, parse_create_stream_command, parse_publish_command,
  parse_play_command,
}
use gortmp.Command.Raw.{Values, or_failed, read_values, parse_body, flex_body, parse_raw_command}
use gortmp.Command.Whole.{parse_command}
use gortmp.Server.{World, published, new_server}
use gortmp.Server.Streams.{tag_of}
use gortmp.Server.Events.{Event, message, run}
use gortmp.Server.Registry.Invariant.{IsRegistered}
use gortmp.Server.Registry.Reached.{run-IsRegistered}
use gortmp.Server.Session.Scene.{publish_answers, play_answers}
use gortmp.Server.Session.Publisher.{Begins, IsPublished, opened}
use gortmp.Server.Session.Broadcast.{IsPlayed, run-IsBroadcast}

abbrev read_byte : List ℕ → Option (ℕ × List ℕ)
read_byte [] = none
read_byte (b ∷ bs) = some (b, bs)

abbrev name_of : ℕ → Option String
name_of zero = some "connect"
name_of (suc zero) = some "createStream"
name_of (suc (suc zero)) = some "publish"
name_of (suc (suc (suc n))) = some "play"

abbrev read_name : List ℕ → Option (String × List ℕ)
read_name [] = none
read_name (b ∷ bs) = elim (name_of b) [ none ↦ none | some s ↦ some (s, bs) ]

abbrev words : Amf
words = record {
  Float = ℕ;
  Object = ℕ;
  Other = ℕ;
  zero_float = 0;
  empty_object = 0;
  of_uint32 = λ n. n;
  to_uint32 = λ n. n;
  read_string = read_name;
  read_double = read_byte;
  write_string = λ s. none;
  write_double = λ n. none;
}

abbrev read_word : List ℕ → Option (Value words × List ℕ)
read_word [] = none
read_word (zero ∷ bs) = some (nil, bs)
read_word (suc zero ∷ bs) = some (string "live", bs)
read_word (suc (suc zero) ∷ bs) = some (object 7, bs)
read_word (suc (suc (suc n)) ∷ bs) = some (float n, bs)

abbrev word_values : Values words
word_values = record {
  read_value = read_word;
  write_value = λ x. none;
  object_back = λ o. o;
  other_back = λ o. object o;
}

abbrev app_named : ℕ → Option String
app_named n = some "app"

abbrev from_client : ℕ → ℕ → List ℕ → Message
from_client type id bytes = record {
  chunk_stream_id = 3;
  timestamp = 0;
  size = 4;
  type = type;
  stream_id = id;
  buf = bytes;
  is_inbound = true;
  absolute_timestamp = 20;
}

abbrev connect_message : Message
connect_message = from_client 20 0 (0 ∷ 1 ∷ 2 ∷ [])

abbrev create_message : Message
create_message = from_client 20 0 (1 ∷ 2 ∷ 0 ∷ [])

abbrev publish_message : Message
publish_message = from_client 20 1 (2 ∷ 3 ∷ 0 ∷ 1 ∷ 1 ∷ [])

abbrev play_message : Message
play_message = from_client 20 1 (3 ∷ 3 ∷ 0 ∷ 1 ∷ 5 ∷ [])

abbrev key_frame : Message
key_frame = from_client 9 1 (23 ∷ 1 ∷ 0 ∷ 0 ∷ [])

abbrev publishing_live : PublishCommand
publishing_live = record {
  stream_id = 1;
  transaction_id = 3;
  name = "live";
  type = record { val = "live"; set = true };
}

abbrev playing_live : PlayCommand words
playing_live = record {
  stream_id = 1;
  transaction_id = 3;
  name = "live";
  start = record { val = 2; set = true };
}

publisher :
    Begins words word_values app_named
      (Command.publish publishing_live)
      connect_message
      create_message
      publish_message
unfolding parse_command parse_raw_command flex_body parse_body read_values or_failed parse_by_name
    mapped parse_connect_command parse_create_stream_command parse_publish_command
publisher = record {
  connect = record { transaction_id = 1; properties = 7 };
  create_txn = 2;
  app = refl;
  connects = refl;
  creates = refl;
  commands = refl;
}

viewer :
    Begins words word_values app_named
      (Command.play playing_live)
      connect_message
      create_message
      play_message
unfolding parse_command parse_raw_command flex_body parse_body read_values or_failed parse_by_name
    mapped parse_connect_command parse_create_stream_command parse_play_command
viewer = record {
  connect = record { transaction_id = 1; properties = 7 };
  create_txn = 2;
  app = refl;
  connects = refl;
  creates = refl;
  commands = refl;
}

named_live : ◌≢◌ {A = String} "live" ""
named_live e = absurd (ground (arith, eq_iff "live" ""))

-- The first client publishes and the second one plays.
abbrev shown : List Event
shown =
    message 5 connect_message
    ∷ message 5 create_message
    ∷ message 5 publish_message
    ∷ message 6 connect_message
    ∷ message 6 create_message
    ∷ message 6 play_message
    ∷ message 5 key_frame
    ∷ []

abbrev shown_world : World
shown_world = run words word_values app_named (new_server []) shown

run-IsBroadcast_example :
    IsPublished 5 "live"
      (((opened words word_values app_named 5 0 publisher ++ publish_answers 5 0 1 3 0)
          ++ (opened words word_values app_named 6 1 viewer ++ play_answers 6 1 "live" 0))
        ++ map (λ msg. published 0 (tag_of msg)) (key_frame ∷ []))
      shown_world
    × IsPlayed shown_world
run-IsBroadcast_example =
    run-IsBroadcast words word_values app_named 5 6 publishing_live playing_live connect_message
      create_message publish_message connect_message create_message play_message (key_frame ∷ [])
      publisher viewer (omega arith) named_live refl refl refl ((refl, refl), tt)

-- In this run the name is published.
live_published : shown_world.streams "live" ≡ some 0
live_published =
    (run-IsBroadcast words word_values app_named 5 6 publishing_live playing_live connect_message
      create_message publish_message connect_message create_message play_message (key_frame ∷ [])
      publisher viewer (omega arith) named_live refl refl refl ((refl, refl), tt)).0.stands

run-IsRegistered_example : IsRegistered shown_world
run-IsRegistered_example = run-IsRegistered words word_values app_named [] shown
