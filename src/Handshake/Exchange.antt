-- ===== src/Handshake/Exchange.antt =====
-- `SHandshake`: the client's bytes are read, the response is written, and the client's answer skipped.
--
-- Two goroutines write the response and skip the answer; `SHandshake` takes what they send on `done`
-- in the order in which they end, which is an argument, and returns at the first error. Then the other
-- goroutine may have come any part of its way, which is another argument; the connection is what
-- `SHandshake` leaves when it returns. The response is written to the connection's buffer and flushed
-- as one; `rand.Read` fills 1528 and 1504 bytes or fails, and both are arguments.
use gortmp.Base.{ℕ, Bool}
use gortmp.Base.{List, Option, none, some, length, take, drop, leb, if◌then◌else◌}
use gortmp.Wire.{
  Source, Sink, Error, eof, Outcome, ok, err, Action, read_byte, read_full, write_bytes,
}
use gortmp.Handshake.{handshake_size, response}

pub record NetConn : Type 0 where
  pub source : Source
  pub sink : Sink

pub data HandshakeError : Type 0 where
  reading connection : Error → HandshakeError
  no_s1_bytes no_s2_bytes : HandshakeError

-- `io.CopyN(ioutil.Discard, conn, n)`
unfoldable pub discard : ℕ → Action Source (Unit {0})
discard n src =
    let left : Source = record src { rest = drop n src.rest } in
    if leb n (length src.rest) then ok tt left else err eof left

abbrev pub error_of : {S : Type 0} → Outcome S (Unit {0}) → Option Error
error_of (ok _ s) = none
error_of (err e s) = some e

abbrev pub state_of : {S : Type 0} → Outcome S (Unit {0}) → S
state_of (ok _ s) = s
state_of (err e s) = s

-- What is received from `done`, and the connection: `one` is what the first goroutine sends, with the
-- connection if it is an error; `two` what the second one sends, with the connection behind both.
unfoldable pub first_error :
    Option Error → NetConn → Option Error → NetConn → Option HandshakeError × NetConn
first_error (some e) stopped two over = (some (connection e), stopped)
first_error none stopped (some e) over = (some (connection e), over)
first_error none stopped none over = (none, over)

-- At most `far` bytes of the answer.
abbrev pub part : ℕ → ℕ
part far = if leb far handshake_size then far else handshake_size

-- The two goroutines; which of them ends first, and how many bytes the other one has written or
-- skipped by then, if the first has an error.
unfoldable pub exchange : Bool → ℕ → List ℕ → NetConn → Option HandshakeError × NetConn
exchange response_first far bytes conn =
    let written = write_bytes bytes conn.sink in
    let skipped = discard handshake_size conn.source in
    let over : NetConn = record { source = state_of skipped; sink = state_of written } in
    if response_first
    then first_error (error_of written)
        (record { source = state_of (discard (part far) conn.source); sink = state_of written })
        (error_of skipped) over
    else first_error (error_of skipped)
        (record {
          source = state_of skipped;
          sink = state_of (write_bytes (take far bytes) conn.sink);
        })
        (error_of written) over

module _ (hmac : List ℕ → List ℕ → List ℕ) where
  unfoldable pub respond :
      Bool
      → ℕ
      → Option (List ℕ)
      → Option (List ℕ)
      → List ℕ
      → NetConn
      → Option HandshakeError × NetConn
  respond response_first far none random₂ c1 conn = (some no_s1_bytes, conn)
  respond response_first far (some bytes₁) none c1 conn = (some no_s2_bytes, conn)
  respond response_first far (some bytes₁) (some bytes₂) c1 conn =
      exchange response_first far (response hmac c1 bytes₁ bytes₂) conn

  -- A type other than 3 in `c0` is only logged.
  unfoldable pub s_handshake :
      Bool → ℕ → Option (List ℕ) → Option (List ℕ) → NetConn → Option HandshakeError × NetConn
  s_handshake response_first far random₁ random₂ conn = elim (read_byte conn.source) [
    | err e src ↦ (some (reading e), record conn { source = src })
    | ok c0 src ↦ elim (read_full handshake_size src) [
      | err e src' ↦ (some (reading e), record conn { source = src' })
      | ok c1 src' ↦ respond response_first far random₁ random₂ c1 (record conn { source = src' })
    ]
  ]
