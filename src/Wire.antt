-- ===== src/Wire.antt =====
-- The `Reader` and `Writer` that the protocol code is given (defines.go), as state: a reader is the
-- bytes that are still to come, a writer takes a number of bytes and then fails. Both carry the
-- count `n` that the Go functions return beside their error.
pub mod Read
pub mod Written
pub mod Takes
pub mod Gives
use gortmp.Base.{ℕ, zero, suc, ◌+◌, ◌-◌, ◌≡◌, Bool, List, [], ◌∷◌, ◌++◌, Option, none, some}
use gortmp.Base.{length, take, drop, leb, if◌then◌else◌}

-- The errors that the modelled functions return. `out_of_range` is no error value: it is the panic
-- of an access behind the end of a slice, and `out_of_fuel` is the model's: a loop was given too few
-- rounds.
pub data Error : Type 0 where
  eof unexpected_eof short_write out_of_range out_of_fuel : Error
  unsupported_chunk_stream_id invalid_chunk_header : Error
  invalid_priority invalid_chunk_stream_id max_chunk_streams closed_chunk_stream : Error

-- The result of a function that changes a state `S`: what it returns, and the state it leaves.
pub data Outcome (S A : Type 0) : Type 0 where
  ok : A → S → Outcome S A
  err : Error → S → Outcome S A

abbrev pub Action : Type 0 → Type 0 → Type 0
Action S A = S → Outcome S A

abbrev pub pure : {S A : Type 0} → A → Action S A
pure a s = ok a s

abbrev pub fail : {S A : Type 0} → Error → Action S A
fail e s = err e s

-- `if err != nil { return }` after each call.
infixl 5 ◌>>=◌ ◌>>◌
abbrev pub ◌>>=◌ : {S A B : Type 0} → Action S A → (A → Action S B) → Action S B
◌>>=◌ m f s = elim (m s) [ ok a s' ↦ f a s' | err e s' ↦ err e s' ]

abbrev pub ◌>>◌ : {S B : Type 0} → Action S (Unit {0}) → Action S B → Action S B
m >> k = m >>= λ _. k

pub record Source : Type 0 where
  pub n : ℕ
  pub rest : List ℕ

pub record Sink : Type 0 where
  pub n : ℕ
  pub out : List ℕ
  pub room : ℕ

abbrev pub count_in : ℕ → Action Source (Unit {0})
count_in k s = ok tt (record s { n = s.n + k })

abbrev pub count_out : ℕ → Action Sink (Unit {0})
count_out k s = ok tt (record s { n = s.n + k })

abbrev byte_of : ℕ → List ℕ → Outcome Source ℕ
byte_of n [] = err eof (record { n = n; rest = [] })
byte_of n (b ∷ bs) = ok b (record { n = n; rest = bs })

unfoldable pub read_byte : Action Source ℕ
read_byte s = byte_of s.n s.rest

-- The first `k` bytes and the others, if there are as many.
unfoldable pub split_exact : ℕ → List ℕ → Option (List ℕ × List ℕ)
split_exact zero xs = some ([], xs)
split_exact (suc k) [] = none
split_exact (suc k) (x ∷ xs) = elim (split_exact k xs) [
  | none ↦ none
  | some (front, back) ↦ some (x ∷ front, back)
]

-- `io.ReadFull`: EOF if nothing was read, ErrUnexpectedEOF if some bytes were. Both use up the
-- input.
abbrev short_read : List ℕ → Error
short_read [] = eof
short_read (b ∷ bs) = unexpected_eof

unfoldable pub read_full : ℕ → Action Source (List ℕ)
read_full k s = elim (split_exact k s.rest) [
  | none ↦ err (short_read s.rest) (record s { rest = [] })
  | some (front, back) ↦ ok front (record s { rest = back })
]

-- `Write` of some bytes, and `WriteByte`, which is that of one.
unfoldable pub write_bytes : List ℕ → Action Sink (Unit {0})
write_bytes bs s =
    if leb (length bs) s.room
    then ok tt (record s { out = s.out ++ bs; room = s.room - length bs })
    else err short_write (record s { out = s.out ++ take s.room bs; room = 0 })
