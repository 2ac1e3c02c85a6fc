-- ===== src/Command.antt =====
-- command.go: commands, as raw commands with a list of AMF values and as what they mean.
--
-- The AMF library is not part of the repository: its types and functions are the parameter `Amf`. A
-- value of type interface{} is one of the Go types that the code asks for, or another one. An error
-- of fmt.Errorf is what it tells, a panic is the result `panics`.
pub mod Parse
pub mod RoundTrip
pub mod Faithful
pub mod Raw
pub mod Whole
use Prim.Native.String.{String}
use gortmp.Base.{ℕ, List, [], ◌∷◌, Bool, true, false, Option, none, some}

-- What the code uses of github.com/thelazyfox/goamf and of float64. A read takes bytes and returns
-- the value with the bytes behind it; a write returns the bytes.
pub record Amf : Type 1 where
  pub Float : Type 0
  pub Object : Type 0
  pub Other : Type 0
  pub zero_float : Float
  pub empty_object : Object
  pub of_uint32 : ℕ → Float
  pub to_uint32 : Float → ℕ
  pub read_string : List ℕ → Option (String × List ℕ)
  pub read_double : List ℕ → Option (Float × List ℕ)
  pub write_string : String → Option (List ℕ)
  pub write_double : Float → Option (List ℕ)

pub data Value (a : Amf) : Type 0 where
  nil : Value a
  string : String → Value a
  float : a.Float → Value a
  object : a.Object → Value a
  uint32 : ℕ → Value a
  other : a.Other → Value a

pub data Problem : Type 0 where
  wrong_name insufficient bad_argument stream_not_zero : Problem
  wrong_type amf_failed too_large : Problem

pub data Result {ℓ} (A : Type ℓ) : Type ℓ where
  ok : A → Result A
  err : Problem → Result A
  panics : Result A

infixl 5 ◌>>=◌ ◌>>◌
abbrev pub ◌>>=◌ {ℓ κ} : {A : Type ℓ} {B : Type κ} → Result A → (A → Result B) → Result B
ok a >>= f = f a
err e >>= f = err e
panics >>= f = panics

abbrev pub ◌>>◌ {ℓ} : {B : Type ℓ} → Result (Unit {0}) → Result B → Result B
m >> k = m >>= λ _. k

-- `if !b { return …, err }`
abbrev pub require : Bool → Problem → Result (Unit {0})
require true e = ok tt
require false e = err e

pub record OptionalFloat (a : Amf) : Type 0 where
  pub val : a.Float
  pub set : Bool

pub record OptionalString : Type 0 where
  pub val : String
  pub set : Bool

pub record RawCommand (a : Amf) : Type 0 where
  pub is_flex : Bool
  pub stream_id : ℕ
  pub transaction_id : ℕ
  pub name : String
  pub objects : List (Value a)

pub record PlayCommand (a : Amf) : Type 0 where
  pub stream_id : ℕ
  pub transaction_id : ℕ
  pub name : String
  pub start : OptionalFloat a

pub record PublishCommand : Type 0 where
  pub stream_id : ℕ
  pub transaction_id : ℕ
  pub name : String
  pub type : OptionalString

pub record ConnectCommand (a : Amf) : Type 0 where
  pub transaction_id : ℕ
  pub properties : a.Object

pub record CreateStreamCommand : Type 0 where
  pub transaction_id : ℕ

pub record DeleteStreamCommand : Type 0 where
  pub transaction_id : ℕ
  pub delete_stream_id : ℕ

pub record FcPublishCommand : Type 0 where
  pub name : String

pub record ResultCommand (a : Amf) : Type 0 where
  pub stream_id : ℕ
  pub transaction_id : ℕ
  pub properties : Value a
  pub info : Value a

pub record OnStatusCommand (a : Amf) : Type 0 where
  pub stream_id : ℕ
  pub transaction_id : ℕ
  pub properties : Value a
  pub info : Value a

-- The types that implement the interface Command and that `ParseCommand` returns, and OnStatusCommand.
pub data Command (a : Amf) : Type 0 where
  raw : RawCommand a → Command a
  play : PlayCommand a → Command a
  publish : PublishCommand → Command a
  connect : ConnectCommand a → Command a
  create_stream : CreateStreamCommand → Command a
  delete_stream : DeleteStreamCommand → Command a
  fc_publish : FcPublishCommand → Command a
  result : ResultCommand a → Command a
  on_status : OnStatusCommand a → Command a
