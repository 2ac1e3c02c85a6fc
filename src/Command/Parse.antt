-- ===== src/Command/Parse.antt =====
-- The functions that take a raw command apart, and their converses.
use Prim.Native.String.{String}
use text.Mathlib.Text.{◌==◌ as str_eq}
use gortmp.Base.{ℕ, zero, suc, List, [], ◌∷◌, true, false, Option, none, some, leb, ◌==◌, length}
use gortmp.Base.{if◌then◌else◌}
use gortmp.Command.{
  Amf, Value, nil, string, float, object, uint32, wrong_name, insufficient, bad_argument,
  stream_not_zero, Result, ok, err, panics, ◌>>=◌, ◌>>◌, require, RawCommand, OptionalFloat,
  OptionalString, PlayCommand, PublishCommand, ConnectCommand, CreateStreamCommand,
  DeleteStreamCommand, FcPublishCommand, ResultCommand, Command,
}

module _ (a : Amf) where
  -- `raw.Objects[i]`, which panics behind the end.
  at : List (Value a) → ℕ → Result (Value a)
  at [] i = panics
  at (x ∷ xs) zero = ok x
  at (x ∷ xs) (suc i) = at xs i

  -- `v.(string)` and `v.(float64)`, with ok or with the zero value.
  as_string : Value a → Option String
  as_string (string s) = some s
  as_string _ = none

  as_float : Value a → Option a.Float
  as_float (float x) = some x
  as_float _ = none

  or_bad {ℓ} : {A : Type ℓ} → Option A → Result A
  or_bad none = err bad_argument
  or_bad (some x) = ok x

  optional_float : Option a.Float → OptionalFloat a
  optional_float none = record { val = a.zero_float; set = false }
  optional_float (some x) = record { val = x; set = true }

  optional_string : Option String → OptionalString
  optional_string none = record { val = ""; set = false }
  optional_string (some s) = record { val = s; set = true }

  as_object : Value a → a.Object
  as_object (object o) = o
  as_object _ = a.empty_object

  unfoldable pub parse_play_command : RawCommand a → Result (PlayCommand a)
  unfolding at as_string as_float or_bad optional_float
  parse_play_command r = do
    require (str_eq r.name "play") wrong_name
    require (leb 2 (length r.objects)) insufficient
    name ← or_bad (as_string (← at r.objects 1))
    start ← at r.objects 2
    ok (record {
      stream_id = r.stream_id;
      transaction_id = r.transaction_id;
      name = name;
      start = optional_float (as_float start);
    })

  unfoldable pub parse_publish_command : RawCommand a → Result PublishCommand
  unfolding at as_string or_bad optional_string
  parse_publish_command r = do
    require (str_eq r.name "publish") wrong_name
    require (leb 2 (length r.objects)) insufficient
    name ← or_bad (as_string (← at r.objects 1))
    type ← at r.objects 2
    ok (record {
      stream_id = r.stream_id;
      transaction_id = r.transaction_id;
      name = name;
      type = optional_string (as_string type);
    })

  unfoldable pub parse_connect_command : RawCommand a → Result (ConnectCommand a)
  unfolding at as_object
  parse_connect_command r = do
    require (str_eq r.name "connect") wrong_name
    require (r.stream_id == 0) stream_not_zero
    require (leb 1 (length r.objects)) insufficient
    props ← at r.objects 0
    ok (record { transaction_id = r.transaction_id; properties = as_object props })

  unfoldable pub parse_create_stream_command : RawCommand a → Result CreateStreamCommand
  parse_create_stream_command r = do
    require (str_eq r.name "createStream") wrong_name
    require (r.stream_id == 0) stream_not_zero
    ok (record { transaction_id = r.transaction_id })

  unfoldable pub parse_delete_stream_command : RawCommand a → Result DeleteStreamCommand
  unfolding at as_float or_bad
  parse_delete_stream_command r = do
    require (str_eq r.name "deleteStream") wrong_name
    require (r.stream_id == 0) stream_not_zero
    require (leb 2 (length r.objects)) insufficient
    id ← or_bad (as_float (← at r.objects 1))
    ok (record { transaction_id = r.transaction_id; delete_stream_id = a.to_uint32 id })

  unfoldable pub parse_fc_publish_command : RawCommand a → Result FcPublishCommand
  unfolding at as_string or_bad
  parse_fc_publish_command r = do
    require (str_eq r.name "FCPublish") wrong_name
    require (r.stream_id == 0) stream_not_zero
    require (leb 2 (length r.objects)) insufficient
    name ← or_bad (as_string (← at r.objects 1))
    ok (record { name = name })

  unfoldable pub parse_result_command : RawCommand a → Result (ResultCommand a)
  unfolding at
  parse_result_command r = do
    require (str_eq r.name "_result") wrong_name
    require (leb 2 (length r.objects)) insufficient
    properties ← at r.objects 0
    info ← at r.objects 1
    ok (record {
      stream_id = r.stream_id;
      transaction_id = r.transaction_id;
      properties = properties;
      info = info;
    })

  unfoldable pub mapped : {A : Type 0} → (A → Command a) → Result A → Result (Command a)
  mapped f m = m >>= λ x. ok (f x)

  -- It is not implemented: it panics.
  abbrev parse_error_command : RawCommand a → Result (Command a)
  parse_error_command r = panics

  -- The switch of `ParseCommand`.
  unfoldable pub parse_by_name : RawCommand a → Result (Command a)
  parse_by_name r =
      if str_eq r.name "publish"
      then mapped Command.publish (parse_publish_command r)
      else if str_eq r.name "play"
      then mapped Command.play (parse_play_command r)
      else if str_eq r.name "connect"
      then mapped Command.connect (parse_connect_command r)
      else if str_eq r.name "createStream"
      then mapped Command.create_stream (parse_create_stream_command r)
      else if str_eq r.name "deleteStream"
      then mapped Command.delete_stream (parse_delete_stream_command r)
      else if str_eq r.name "FCPublish"
      then mapped Command.fc_publish (parse_fc_publish_command r)
      else if str_eq r.name "_result"
      then mapped Command.result (parse_result_command r)
      else if str_eq r.name "_error"
      then parse_error_command r
      else ok (Command.raw r)

  -- The methods `RawCommand`.
  abbrev pub named : String → ℕ → ℕ → List (Value a) → RawCommand a
  named name stream_id transaction_id objects = record {
    is_flex = false;
    stream_id = stream_id;
    transaction_id = transaction_id;
    name = name;
    objects = objects;
  }

  unfoldable pub raw_command : Command a → RawCommand a
  raw_command (Command.raw r) = r
  raw_command (Command.play c) = named "play" c.stream_id c.transaction_id (
      if c.start.set
      then nil ∷ string c.name ∷ float c.start.val ∷ []
      else nil ∷ string c.name ∷ [])
  raw_command (Command.publish c) = named "publish" c.stream_id c.transaction_id (
      if c.type.set then nil ∷ string c.name ∷ string c.type.val ∷ [] else nil ∷ string c.name ∷ [])
  raw_command (Command.connect c) = named "connect" 0 c.transaction_id (object c.properties ∷ [])
  raw_command (Command.create_stream c) = named "createStream" 0 c.transaction_id []
  raw_command (Command.delete_stream c) =
      named "" 0 c.transaction_id (nil ∷ uint32 c.delete_stream_id ∷ [])
  raw_command (Command.fc_publish c) = named "FCPublish" 0 0 (nil ∷ string c.name ∷ [])
  raw_command (Command.result c) =
      named "_result" c.stream_id c.transaction_id (c.properties ∷ c.info ∷ [])
  raw_command (Command.on_status c) =
      named "onStatus" c.stream_id c.transaction_id (c.properties ∷ c.info ∷ [])

-- OnFCPublishCommand, which no parser returns: its status as the AMF library is given it.
record OnFcPublishCommand (a : Amf) : Type 0 where
  status : Value a

module _ (a : Amf) where
  abbrev on_fc_publish_raw_command : OnFcPublishCommand a → RawCommand a
  on_fc_publish_raw_command c = named a "onFCPublish" 0 0 (nil ∷ c.status ∷ [])

  -- These are not implemented: they panic.
  abbrev parse_on_fc_publish_command : RawCommand a → Result (OnFcPublishCommand a)
  parse_on_fc_publish_command r = panics

  abbrev error_raw_command : Result (RawCommand a)
  error_raw_command = panics
