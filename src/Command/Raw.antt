-- ===== src/Command/Raw.antt =====
-- Raw commands as messages: `ParseRawCommand`, `RawCommand.Message` and `RawCommand.write`.
use Prim.Native.String.{String}
use gortmp.Base.{
  ℕ, zero, suc, ◌-◌, ◌≤◌, ◌<◌, ◌^◌, ◌≡◌, refl, ap, ◌∙◌, List, [], ◌∷◌, ◌++◌, Bool, true, false,
  Option, none, some, leb, ◌==◌, if◌then◌else◌, length, arith, length-append, ◌||◌, map,
}
use gortmp.Message.{Message, cs_id_command, command_amf0, command_amf3}
use gortmp.Command.{
  Amf, Value, nil, string, float, object, uint32, other, Result, ok, err, panics, ◌>>=◌, ◌>>◌,
  require, RawCommand, wrong_type, amf_failed, too_large,
}

-- `amf.ReadValue` and `amf.WriteValue`; and what an object and a value of another Go type (a struct)
-- come back as when they have been written.
pub record Values (a : Amf) : Type 0 where
  pub read_value : List ℕ → Option (Value a × List ℕ)
  pub write_value : Value a → Option (List ℕ)
  pub object_back : a.Object → a.Object
  pub other_back : a.Other → Value a

-- What `amf.ReadValue` gives for a value that was written: a uint32 is written as a number, and all
-- numbers are read as float64.
abbrev pub settled : (a : Amf) → Values a → Value a → Value a
settled a v nil = nil
settled a v (string s) = string s
settled a v (float x) = float x
settled a v (object o) = object (v.object_back o)
settled a v (uint32 n) = float (a.of_uint32 n)
settled a v (other o) = v.other_back o

abbrev pub settled_command : (a : Amf) → Values a → RawCommand a → RawCommand a
settled_command a v cmd = record cmd { objects = map (settled a v) cmd.objects }

-- What is documented of the AMF library: what a write produced, the read of that kind takes off the
-- front of any input and gives back, a value as its `settled` form; and a uint32 is exact as a
-- float64. A value takes a byte at least.
pub record Documented (a : Amf) (v : Values a) : Type 0 where
  pub string_back :
      (s : String) (bytes rest : List ℕ)
      → a.write_string s ≡ some bytes
      → a.read_string (bytes ++ rest) ≡ some (s, rest)
  pub double_back :
      (x : a.Float) (bytes rest : List ℕ)
      → a.write_double x ≡ some bytes
      → a.read_double (bytes ++ rest) ≡ some (x, rest)
  pub value_back :
      (x : Value a) (bytes rest : List ℕ)
      → v.write_value x ≡ some bytes
      → v.read_value (bytes ++ rest) ≡ some (settled a v x, rest)
  pub value_takes : (x : Value a) (bytes : List ℕ) → v.write_value x ≡ some bytes → 0 < length bytes
  pub exact : (n : ℕ) → n < 2 ^ 32 → a.to_uint32 (a.of_uint32 n) ≡ n

module _ (a : Amf) (v : Values a) where
  unfoldable pub or_failed {ℓ} : {A : Type ℓ} → Option A → Result A
  or_failed none = err amf_failed
  or_failed (some x) = ok x

  -- `for buf.Len() > 0`, with fuel; `panics` where it runs out, which no Go code does.
  unfoldable pub read_values : ℕ → List ℕ → Result (List (Value a))
  read_values fuel [] = ok []
  read_values zero (b ∷ bs) = panics
  read_values (suc fuel) (b ∷ bs) = do
    (x, rest) ← or_failed (v.read_value (b ∷ bs))
    xs ← read_values fuel rest
    ok (x ∷ xs)

  -- What follows the marker of an AMF3 command.
  unfoldable pub parse_body : Bool → ℕ → List ℕ → Result (RawCommand a)
  parse_body flex stream_id bytes = do
    (name, rest) ← or_failed (a.read_string bytes)
    (txnid, rest') ← or_failed (a.read_double rest)
    objects ← read_values (length rest') rest'
    ok (record {
      is_flex = flex;
      stream_id = stream_id;
      transaction_id = a.to_uint32 txnid;
      name = name;
      objects = objects;
    })

  unfoldable pub flex_body : ℕ → List ℕ → Result (RawCommand a)
  flex_body stream_id [] = err amf_failed
  flex_body stream_id (marker ∷ rest) = parse_body true stream_id rest

  unfoldable pub parse_raw_command : Message → Result (RawCommand a)
  parse_raw_command msg =
      if msg.type == command_amf3
      then flex_body msg.stream_id msg.buf
      else if msg.type == command_amf0
      then parse_body false msg.stream_id msg.buf
      else err wrong_type

  -- It only looks at the type, the stream and the bytes.
  pub parse_raw_command_same :
      (m msg : Message)
      → m.type ≡ msg.type
      → m.stream_id ≡ msg.stream_id
      → m.buf ≡ msg.buf
      → parse_raw_command m ≡ parse_raw_command msg
  unfolding parse_raw_command
  parse_raw_command_same m msg t s b =
      let parse : ℕ → ℕ → List ℕ → Result (RawCommand a) = λ type stream_id bytes.
        if type == command_amf3
        then flex_body stream_id bytes
        else if type == command_amf0
        then parse_body false stream_id bytes
        else err wrong_type in
      ap (λ type. parse type m.stream_id m.buf) t
      ∙ ap (λ id. parse msg.type id m.buf) s
      ∙ ap (parse msg.type msg.stream_id) b

  -- What can be parsed has the type of a command.
  pub parsed_type :
      (msg : Message) (cmd : RawCommand a)
      → parse_raw_command msg ≡ ok cmd
      → (msg.type == command_amf3) || (msg.type == command_amf0) ≡ true
  unfolding parse_raw_command
  parsed_type msg cmd e = ground arith

  unfoldable pub write_values : List (Value a) → Result (List ℕ)
  write_values [] = ok []
  write_values (x ∷ xs) = do
    bytes ← or_failed (v.write_value x)
    more ← write_values xs
    ok (bytes ++ more)

  unfoldable pub write : RawCommand a → Result (List ℕ)
  write cmd = do
    name ← or_failed (a.write_string cmd.name)
    txnid ← or_failed (a.write_double (a.of_uint32 cmd.transaction_id))
    objects ← write_values cmd.objects
    ok ((if cmd.is_flex then 0 ∷ [] else []) ++ (name ++ (txnid ++ objects)))

  -- `RawCommand.Message`
  unfoldable pub message : RawCommand a → Result Message
  message cmd = do
    buf ← write cmd
    require (leb (length buf) (2 ^ 32 - 1)) too_large
    ok (record {
      chunk_stream_id = cs_id_command;
      timestamp = 0;
      size = length buf;
      type = command_amf0;
      stream_id = cmd.stream_id;
      buf = buf;
      is_inbound = false;
      absolute_timestamp = 0;
    })

  written_cons :
      (x : Value a) (xs : List (Value a)) (bytes : List ℕ)
      → write_values (x ∷ xs) ≡ ok bytes
      → (b : List ℕ) × (more : List ℕ) × (v.write_value x ≡ some b)
        × (write_values xs ≡ ok more)
        × (bytes ≡ b ++ more)
  unfolding write_values or_failed
  written_cons x xs bytes e = ground arith

  read_values_step :
      (fuel : ℕ) (bytes rest : List ℕ) (x : Value a) (xs : List (Value a))
      → 0 < length bytes
      → v.read_value bytes ≡ some (x, rest)
      → read_values fuel rest ≡ ok xs
      → read_values (suc fuel) bytes ≡ ok (x ∷ xs)
  unfolding read_values or_failed
  read_values_step fuel [] rest x xs h r e = absurd (omega arith)
  read_values_step fuel (b ∷ bs) rest x xs h r e = ground arith

  made_message :
      (cmd : RawCommand a) (msg : Message)
      → message cmd ≡ ok msg
      → (write cmd ≡ ok msg.buf) × (msg.type ≡ 20) × (msg.stream_id ≡ cmd.stream_id)
  unfolding message
  made_message cmd msg e = ground arith

  module _ (d : Documented a v) where
    read_values-write_values :
        (xs : List (Value a)) (fuel : ℕ) (bytes : List ℕ)
        → write_values xs ≡ ok bytes
        → length bytes ≤ fuel
        → read_values fuel bytes ≡ ok (map (settled a v) xs)
    read_values-write_values [] fuel [] e h = nothing fuel
      where
        nothing : (fuel : ℕ) → read_values fuel [] ≡ ok []
        nothing zero = unfold read_values in refl
        nothing (suc fuel) = unfold read_values in refl
    read_values-write_values [] fuel (b ∷ bs) e h = absurd (unfold write_values in cc)
    read_values-write_values (x ∷ xs) zero bytes e h =
        let (b, more, w, e', q) = written_cons x xs bytes e in
        absurd (omega (arith, d.value_takes x b w, ap length q, length-append b more))
    read_values-write_values (x ∷ xs) (suc fuel) bytes e h =
        let (b, more, w, e', q) = written_cons x xs bytes e in
        let takes = d.value_takes x b w in
        let sizes = length-append b more in
        rw q (
          read_values_step fuel (b ++ more) more (settled a v x) (map (settled a v) xs)
            (omega (arith, takes, sizes)) (d.value_back x b more w)
            (read_values-write_values xs fuel more e' (omega (arith, takes, sizes, ap length q))))

    written_command :
        (cmd : RawCommand a) (bytes : List ℕ)
        → cmd.is_flex ≡ false
        → write cmd ≡ ok bytes
        → (name : List ℕ) × (txnid : List ℕ) × (objects : List ℕ) × (a.write_string cmd.name
            ≡ some name)
          × (a.write_double (a.of_uint32 cmd.transaction_id) ≡ some txnid)
          × (write_values cmd.objects ≡ ok objects)
          × (bytes ≡ name ++ (txnid ++ objects))
    unfolding write or_failed
    written_command cmd bytes f e = ground arith

    parse_body-write :
        (cmd : RawCommand a) (bytes : List ℕ)
        → cmd.is_flex ≡ false
        → cmd.transaction_id < 2 ^ 32
        → write cmd ≡ ok bytes
        → parse_body false cmd.stream_id bytes ≡ ok (settled_command a v cmd)
    unfolding parse_body or_failed
    parse_body-write cmd bytes f small e =
        let (name, txnid, objects, n, t, o, q) = written_command cmd bytes f e in
        ground (
          arith,
          q,
          f,
          d.string_back cmd.name name (txnid ++ objects) n,
          d.double_back (a.of_uint32 cmd.transaction_id) txnid objects t,
          read_values-write_values cmd.objects (length objects) objects o (omega arith),
          d.exact cmd.transaction_id small,
        )

    -- If the AMF library does what is documented, `ParseRawCommand` makes of the message that
    -- `Message` makes of a command that is not flex, with a transaction ID that is a uint32, that
    -- command with its objects settled.
    pub parse_raw_command-message :
        (cmd : RawCommand a) (msg : Message)
        → cmd.is_flex ≡ false
        → cmd.transaction_id < 2 ^ 32
        → message cmd ≡ ok msg
        → parse_raw_command msg ≡ ok (settled_command a v cmd)
    unfolding parse_raw_command
    parse_raw_command-message cmd msg f small e =
        let (w, type, stream) = made_message cmd msg e in
        ground (arith, type, stream, parse_body-write cmd msg.buf f small w)
