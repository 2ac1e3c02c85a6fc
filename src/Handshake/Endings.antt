-- ===== src/Handshake/Endings.antt =====
-- How `SHandshake` and its two goroutines can end, and the response that a client accepts.
use gortmp.Base.{
  ℕ, zero, suc, ◌+◌, ◌≤◌, ◌<◌, ◌≡◌, ap, ◌⊎◌, inl, inr, refl, arith, Bool, true, false,
}
use gortmp.Base.{List, [], ◌∷◌, ◌++◌, Option, none, some, length, take, drop, if◌then◌else◌}
use gortmp.Base.{le-or-lt, le→leb, lt→leb, length-take}
use gortmp.Wire.{
  Source, Sink, Error, eof, unexpected_eof, short_write, Outcome, ok, err, write_bytes,
}
use gortmp.Handshake.{
  digest_length, slice, get_digest_offset, has_digest, validate, genuine_fms_key,
}
use gortmp.Handshake.Exchange.{
  NetConn, HandshakeError, reading, connection, no_s1_bytes, no_s2_bytes, discard, error_of,
  state_of, part, first_error, exchange,
}

-- The response that a client accepts: the byte 3; S1 with its digest by the server's key, at the place
-- that S1 gives by the scheme found for the client; and S2, which ends with the hash of its other bytes
-- by a key that is made of the client's digest.
pub record IsAnswer (hmac : List ℕ → List ℕ → List ℕ) (c1 bytes : List ℕ) : Type 0 where
  pub type : slice 0 1 bytes ≡ 3 ∷ []
  pub size : length bytes ≡ 3073
  pub digest :
      let s1 : List ℕ = slice 1 1537 bytes in
      has_digest hmac s1 (get_digest_offset s1 (validate hmac c1).0) (take 36 genuine_fms_key)
      ≡ true
  pub answer :
      let s2 : List ℕ = slice 1537 3073 bytes in
      let offset : ℕ = get_digest_offset c1 (validate hmac c1).0 in
      let key : List ℕ =
        hmac (slice offset (offset + digest_length) c1) (take 68 genuine_fms_key) in
      drop 1504 s2 ≡ hmac (take 1504 s2) key

-- How the exchange ended; `rest` are the bytes behind the first 1537. Where the first goroutine to end
-- has an error, only a front of the response is written, or a front of the answer skipped.
pub data Exchanged (response_first : Bool) (k : Sink) (bytes rest : List ℕ)
    : Option HandshakeError × NetConn → Type 0 where
  done :
      (t : NetConn)
      → 1536 ≤ length rest
      → 3073 ≤ k.room
      → t.source.rest ≡ drop 1536 rest
      → t.sink.out ≡ k.out ++ bytes
      → Exchanged response_first k bytes rest (none, t)
  no_answer :
      (t : NetConn)
      → response_first ≡ true
      → length rest < 1536
      → 3073 ≤ k.room
      → t.source.rest ≡ drop 1536 rest
      → t.sink.out ≡ k.out ++ bytes
      → Exchanged response_first k bytes rest (some (connection eof), t)
  no_answer_first :
      (j : ℕ) (t : NetConn)
      → response_first ≡ false
      → length rest < 1536
      → length (take j bytes) ≤ k.room
      → t.source.rest ≡ drop 1536 rest
      → t.sink.out ≡ k.out ++ take j bytes
      → Exchanged response_first k bytes rest (some (connection eof), t)
  no_room :
      (t : NetConn)
      → response_first ≡ false
      → 1536 ≤ length rest
      → k.room < 3073
      → t.source.rest ≡ drop 1536 rest
      → t.sink.out ≡ k.out ++ take k.room bytes
      → Exchanged response_first k bytes rest (some (connection short_write), t)
  no_room_first :
      (j : ℕ) (t : NetConn)
      → response_first ≡ true
      → k.room < 3073
      → j ≤ 1536
      → t.source.rest ≡ drop j rest
      → t.sink.out ≡ k.out ++ take k.room bytes
      → Exchanged response_first k bytes rest (some (connection short_write), t)

-- How the response and the answer can end.
data Wrote (bytes : List ℕ) (k : Sink) : Outcome Sink (Unit {0}) → Type 0 where
  whole : (k' : Sink) → length bytes ≤ k.room → k'.out ≡ k.out ++ bytes → Wrote bytes k (ok tt k')
  cut :
      (k' : Sink)
      → k.room < length bytes
      → k'.out ≡ k.out ++ take k.room bytes
      → Wrote bytes k (err short_write k')

data Skipped (src : Source) : Outcome Source (Unit {0}) → Type 0 where
  whole :
      (src' : Source)
      → 1536 ≤ length src.rest
      → src'.rest ≡ drop 1536 src.rest
      → Skipped src (ok tt src')
  cut :
      (src' : Source)
      → length src.rest < 1536
      → src'.rest ≡ drop 1536 src.rest
      → Skipped src (err eof src')

write_bytes-Wrote : (bytes : List ℕ) (k : Sink) → Wrote bytes k (write_bytes bytes k)
unfolding write_bytes
write_bytes-Wrote bytes k = elim (le-or-lt (length bytes) k.room) [
  | inl le ↦ rw (le→leb (length bytes) k.room le, write_bytes) (Wrote.whole _ le refl)
  | inr lt ↦ rw (lt→leb (length bytes) k.room lt, write_bytes) (Wrote.cut _ lt refl)
]

discard-Skipped : (src : Source) → Skipped src (discard 1536 src)
unfolding discard
discard-Skipped src = elim (le-or-lt 1536 (length src.rest)) [
  | inl le ↦ rw (le→leb 1536 (length src.rest) le, discard) (Skipped.whole _ le refl)
  | inr lt ↦ rw (lt→leb 1536 (length src.rest) lt, discard) (Skipped.cut _ lt refl)
]

take-take : (m n : ℕ) (xs : List ℕ) → m ≤ n → take m (take n xs) ≡ take m xs
take-take zero n xs h = refl
take-take (suc m) zero xs h = absurd (omega arith)
take-take (suc m) (suc n) [] h = refl
take-take (suc m) (suc n) (x ∷ xs) h = ap (◌∷◌ x) (take-take m n xs (omega arith))

-- Of what a writer is given of the response, a front is written for which there is room.
front_written :
    (far : ℕ) (bytes : List ℕ) (k : Sink)
    → (j : ℕ) × (length (take j bytes) ≤ k.room)
      × ((state_of (write_bytes (take far bytes) k)).out ≡ k.out ++ take j bytes)
unfolding write_bytes
front_written far bytes k = elim (le-or-lt (length (take far bytes)) k.room) [
  | inl le ↦ rw (le→leb (length (take far bytes)) k.room le, write_bytes) (far, le, refl)
  | inr lt ↦
      let some_of = length-take far bytes in
      let less = length-take k.room bytes in
      rw (lt→leb (length (take far bytes)) k.room lt, write_bytes)
        (k.room, omega arith, rw (take-take k.room far bytes (omega arith)) refl)
]

-- Of the answer a front is skipped.
front_skipped :
    (far : ℕ) (src : Source)
    → (j : ℕ) × (j ≤ 1536) × ((state_of (discard (part far) src)).rest ≡ drop j src.rest)
unfolding discard
front_skipped far src = (part far, ground arith, ground arith)

both_ended :
    (response_first : Bool) (far : ℕ) (bytes : List ℕ) (conn : NetConn)
    {w : Outcome Sink (Unit {0})} {a : Outcome Source (Unit {0})}
    → length bytes ≡ 3073
    → Wrote bytes conn.sink w
    → Skipped conn.source a
    → Exchanged response_first conn.sink bytes conn.source.rest (
        let over : NetConn = record { source = state_of a; sink = state_of w } in
        if response_first
        then first_error
            (error_of w)
            (record { source = state_of (discard (part far) conn.source); sink = state_of w })
            (error_of a)
            over
        else first_error
            (error_of a)
            (record {
              source = state_of a;
              sink = state_of (write_bytes (take far bytes) conn.sink);
            })
            (error_of w)
            over)
unfolding first_error
both_ended true far bytes conn size (Wrote.whole k fits o) (Skipped.whole src enough r) =
    done _ enough (omega arith) r o
both_ended false far bytes conn size (Wrote.whole k fits o) (Skipped.whole src enough r) =
    done _ enough (omega arith) r o
both_ended true far bytes conn size (Wrote.whole k fits o) (Skipped.cut src short r) =
    no_answer _ refl short (omega arith) r o
both_ended true far bytes conn size (Wrote.cut k full o) (Skipped.whole src enough r) =
    let (j, le, skipped) = front_skipped far conn.source in
    no_room_first j _ refl (omega arith) le skipped o
both_ended true far bytes conn size (Wrote.cut k full o) (Skipped.cut src short r) =
    let (j, le, skipped) = front_skipped far conn.source in
    no_room_first j _ refl (omega arith) le skipped o
both_ended false far bytes conn size (Wrote.whole k fits o) (Skipped.cut src short r) =
    let (j, le, written) = front_written far bytes conn.sink in
    no_answer_first j _ refl short le r written
both_ended false far bytes conn size (Wrote.cut k full o) (Skipped.cut src short r) =
    let (j, le, written) = front_written far bytes conn.sink in
    no_answer_first j _ refl short le r written
both_ended false far bytes conn size (Wrote.cut k full o) (Skipped.whole src enough r) =
    no_room _ refl enough (omega arith) r o

pub exchange-Exchanged :
    (response_first : Bool) (far : ℕ) (bytes : List ℕ) (conn : NetConn)
    → length bytes ≡ 3073
    → Exchanged response_first conn.sink bytes conn.source.rest
        (exchange response_first far bytes conn)
unfolding exchange
exchange-Exchanged response_first far bytes conn size =
    both_ended response_first far bytes conn size (write_bytes-Wrote bytes conn.sink)
      (discard-Skipped conn.source)

-- How `SHandshake` ended.
pub data Shaken (hmac : List ℕ → List ℕ → List ℕ) (response_first : Bool)
    (random₁ random₂ : Option (List ℕ)) (conn : NetConn)
    : Option HandshakeError × NetConn → Type 0 where
  no_client :
      (e : Error) (t : NetConn)
      → length conn.source.rest < 1537
      → (e ≡ eof) ⊎ (e ≡ unexpected_eof)
      → t.source.rest ≡ []
      → t.sink ≡ conn.sink
      → Shaken hmac response_first random₁ random₂ conn (some (reading e), t)
  no_random :
      (e : HandshakeError) (t : NetConn)
      → ((e ≡ no_s1_bytes) × (random₁ ≡ none)) ⊎ ((e ≡ no_s2_bytes) × (random₂ ≡ none))
      → 1537 ≤ length conn.source.rest
      → t.source.rest ≡ drop 1537 conn.source.rest
      → t.sink ≡ conn.sink
      → Shaken hmac response_first random₁ random₂ conn (some e, t)
  answered :
      {o : Option HandshakeError × NetConn} (bytes : List ℕ)
      → 1537 ≤ length conn.source.rest
      → IsAnswer hmac (slice 1 1537 conn.source.rest) bytes
      → Exchanged response_first conn.sink bytes (drop 1537 conn.source.rest) o
      → Shaken hmac response_first random₁ random₂ conn o
