-- ===== src/Tests/CommandRuns.antt =====
-- command.go with a small library of values: three names, strings "live", numbers, objects and null.
use Prim.Native.String.{String}
use text.Mathlib.Text.{◌==◌ as str_eq}
use text.Mathlib.TextEquality.{eq_iff}
use gortmp.Base.{ℕ, zero, suc, ◌<◌, ◌≡◌, refl, [], ◌∷◌, ◌++◌, true, false, List, Option, none, some}
use gortmp.Base.{arith, length, if◌then◌else◌, inl, inr, Bool-cases}
use gortmp.Message.{Message}
use gortmp.Command.{Amf, Value, nil, string, float, object, uint32, other, Command, ok}
use gortmp.Command.Parse.{parse_by_name, raw_command}
use gortmp.Command.RoundTrip.{parse_by_name-raw_command}
use gortmp.Command.Faithful.{Keeps, parse_by_name-Keeps}
use gortmp.Command.Raw.{Values, Documented, settled, or_failed, write, write_values, message}
use gortmp.Command.Whole.{parse_command, parse_command-message}

abbrev read_byte : List ℕ → Option (ℕ × List ℕ)
read_byte [] = none
read_byte (b ∷ bs) = some (b, bs)

abbrev name_of : ℕ → String
name_of zero = ""
name_of (suc zero) = "connect"
name_of (suc (suc n)) = "publish"

abbrev read_name : List ℕ → Option (String × List ℕ)
read_name [] = none
read_name (b ∷ bs) = some (name_of b, bs)

abbrev write_name : String → Option (List ℕ)
write_name s =
    if str_eq s ""
    then some (0 ∷ [])
    else if str_eq s "connect"
    then some (1 ∷ [])
    else if str_eq s "publish"
    then some (2 ∷ [])
    else none

-- A struct is an object of its number.
abbrev pub small : Amf
small = record {
  Float = ℕ;
  Object = ℕ;
  Other = ℕ;
  zero_float = 0;
  empty_object = 0;
  of_uint32 = λ n. n;
  to_uint32 = λ n. n;
  read_string = read_name;
  read_double = read_byte;
  write_string = write_name;
  write_double = λ n. some (n ∷ []);
}

abbrev read_small : List ℕ → Option (Value small × List ℕ)
read_small [] = none
read_small (zero ∷ bs) = some (nil, bs)
read_small (suc zero ∷ bs) = some (string "live", bs)
read_small (suc (suc zero) ∷ []) = none
read_small (suc (suc zero) ∷ (o ∷ bs)) = some (object o, bs)
read_small (suc (suc (suc n)) ∷ bs) = some (float n, bs)

abbrev write_small : Value small → Option (List ℕ)
write_small nil = some (0 ∷ [])
write_small (string s) = if str_eq s "live" then some (1 ∷ []) else none
write_small (object o) = some (2 ∷ o ∷ [])
write_small (float n) = some (suc (suc (suc n)) ∷ [])
write_small (uint32 n) = some (suc (suc (suc n)) ∷ [])
write_small (other o) = some (2 ∷ o ∷ [])

abbrev pub values : Values small
values = record {
  read_value = read_small;
  write_value = write_small;
  object_back = λ o. o;
  other_back = λ o. object o;
}

name_back :
    (s : String) (bytes rest : List ℕ)
    → small.write_string s ≡ some bytes
    → small.read_string (bytes ++ rest) ≡ some (s, rest)
name_back s bytes rest e = elim (Bool-cases (str_eq s "")) [
  | inl is_empty ↦
      let same : s ≡ "" = (eq_iff s "").0 is_empty in
      let one : bytes ≡ 0 ∷ [] = ground arith in rw (one, same) refl
  | inr not_empty ↦ elim (Bool-cases (str_eq s "connect")) [
    | inl is_connect ↦
        let same : s ≡ "connect" = (eq_iff s "connect").0 is_connect in
        let one : bytes ≡ 1 ∷ [] = ground arith in rw (one, same) refl
    | inr not_connect ↦ elim (Bool-cases (str_eq s "publish")) [
      | inl is_publish ↦
          let same : s ≡ "publish" = (eq_iff s "publish").0 is_publish in
          let one : bytes ≡ 2 ∷ [] = ground arith in rw (one, same) refl
      | inr is_other ↦ absurd (ground arith)
    ]
  ]
]

value_back :
    (x : Value small) (bytes rest : List ℕ)
    → write_small x ≡ some bytes
    → read_small (bytes ++ rest) ≡ some (settled small values x, rest)
value_back nil bytes rest e = let same : bytes ≡ 0 ∷ [] = cc in rw same refl
value_back (float n) bytes rest e = let same : bytes ≡ suc (suc (suc n)) ∷ [] = cc in rw same refl
value_back (string s) bytes rest e = elim (Bool-cases (str_eq s "live")) [
  | inl is_live ↦
      let text : s ≡ "live" = (eq_iff s "live").0 is_live in
      let one : bytes ≡ 1 ∷ [] = ground arith in rw (one, text) refl
  | inr is_other ↦ absurd (ground arith)
]
value_back (object o) bytes rest e = let same : bytes ≡ 2 ∷ o ∷ [] = cc in rw same refl
value_back (uint32 n) bytes rest e = let same : bytes ≡ suc (suc (suc n)) ∷ [] = cc in rw same refl
value_back (other o) bytes rest e = let same : bytes ≡ 2 ∷ o ∷ [] = cc in rw same refl

double_back :
    (x : ℕ) (bytes rest : List ℕ)
    → some (x ∷ []) ≡ some bytes
    → read_byte (bytes ++ rest) ≡ some (x, rest)
double_back x bytes rest e = let one : bytes ≡ x ∷ [] = cc in rw one refl

value_takes : (x : Value small) (bytes : List ℕ) → write_small x ≡ some bytes → 0 < length bytes
value_takes nil bytes e = ground arith
value_takes (float n) bytes e = ground arith
value_takes (string s) bytes e = ground arith
value_takes (object o) bytes e = ground arith
value_takes (uint32 n) bytes e = ground arith
value_takes (other o) bytes e = ground arith

documented : Documented small values
documented = record {
  string_back = name_back;
  double_back = double_back;
  value_back = value_back;
  value_takes = value_takes;
  exact = λ n h. refl;
}

abbrev of_bytes : ℕ → List ℕ → Message
of_bytes id bytes = record {
  chunk_stream_id = 3;
  timestamp = 0;
  size = length bytes;
  type = 20;
  stream_id = id;
  buf = bytes;
  is_inbound = false;
  absolute_timestamp = 0;
}

abbrev publishing : Command small
publishing = Command.publish (record {
  stream_id = 1;
  transaction_id = 9;
  name = "live";
  type = record { val = "live"; set = true };
})

abbrev publishing_message : Message
publishing_message = of_bytes 1 (2 ∷ 9 ∷ 0 ∷ 1 ∷ 1 ∷ [])

publishing_made : message small values (raw_command small publishing) ≡ ok publishing_message
unfolding message write write_values or_failed raw_command
publishing_made = refl

parse_command-message_example : parse_command small values publishing_message ≡ ok publishing
parse_command-message_example =
    parse_command-message small values publishing publishing_message documented
      (unfold raw_command in refl) (unfold raw_command in omega arith) publishing_made

-- A deleteStream for stream 6 comes back as a raw command without a name.
abbrev deleting_message : Message
deleting_message = of_bytes 0 (0 ∷ 9 ∷ 0 ∷ 9 ∷ [])

deleting_back :
    parse_command small values deleting_message
    ≡ ok (
        Command.raw (record {
          is_flex = false;
          stream_id = 0;
          transaction_id = 9;
          name = "";
          objects = nil ∷ float 6 ∷ [];
        }))
deleting_back =
    let deleting : Command small =
      Command.delete_stream (record { transaction_id = 9; delete_stream_id = 6 }) in
    parse_command-message small values deleting deleting_message documented
      (unfold raw_command in refl) (unfold raw_command in omega arith)
      (unfold message write write_values or_failed raw_command in refl)

abbrev playing : Command small
playing = Command.play (record {
  stream_id = 1;
  transaction_id = 4;
  name = "connect";
  start = record { val = 7; set = true };
})

playing_back : parse_by_name small (raw_command small playing) ≡ ok playing
unfolding raw_command
playing_back = parse_by_name-raw_command small values playing

parse_by_name-Keeps_example : Keeps small (raw_command small playing) playing
parse_by_name-Keeps_example =
    parse_by_name-Keeps small (raw_command small playing) playing playing_back
