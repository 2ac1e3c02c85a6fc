-- ===== src/Writer/Ends.antt =====
-- The loop of `writeMessage` ends for every message, also for one that sets the chunk size.
use gortmp.Base.{ℕ, zero, suc, ◌%◌, ◌^◌, ◌≤◌, ◌<◌, ◌≡◌, ◌≢◌, refl, min, arith, inl, inr}
use gortmp.Base.{List, length, take, length-drop, Option, some, none, le-or-lt}
use gortmp.Wire.{Sink, Outcome, Error, ok, err, short_write, out_of_range, out_of_fuel}
use gortmp.Wire.{◌>>=◌, ◌>>◌, unsupported_chunk_stream_id}
use gortmp.Wire.Written.{Written, whole, cut, write_bytes_fits, write_bytes_cut}
use gortmp.Header.{Header, write}
use gortmp.Header.Write.{write-Emits, write_unsupported}
use gortmp.Writer.{Output, write_chunk, write_message, emit_chunk, emit_body, next_header}
use gortmp.Writer.Whole.{write_message_more, write_message_done}
use gortmp.Writer.{resink, announced_size, copy_out, adopt_size}

-- A chunk of `s` was written and takes something off the buffer, or the call failed with an error
-- of the program.
data Advanced (s : Output) : Outcome Output (Unit {0}) → Type 0 where
  advanced :
      (s' : Output)
      → length s'.message.buf < length s.message.buf
      → 0 < s'.chunk_size
      → Advanced s (ok tt s')
  stopped : (e : Error) (s' : Output) → e ≢ out_of_fuel → Advanced s (err e s')

data Fine : Outcome Sink (Unit {0}) → Type 0 where
  fine : (k : Sink) → Fine (ok tt k)
  failed : (e : Error) (k : Sink) → e ≢ out_of_fuel → Fine (err e k)

Written-Fine : {k : Sink} {bs : List ℕ} {o : Outcome Sink (Unit {0})} → Written k bs o → Fine o
Written-Fine (whole h) = fine _
Written-Fine (cut k' c) = failed short_write k' (λ e. cc)

write-Fine : (h : Header) (k : Sink) → Fine (write h k)
write-Fine h k = elim (le-or-lt h.chunk_stream_id 65599) [
  | inl le ↦ Written-Fine (write-Emits h le k)
  | inr lt ↦ rw (write_unsupported h k lt) (failed unsupported_chunk_stream_id k (λ e. cc))
]

copied-Advanced :
    (s : Output) (m n : ℕ)
    → 0 < s.chunk_size
    → 0 < m
    → 0 < length s.message.buf
    → Advanced s ((copy_out m >> adopt_size n) s)
unfolding copy_out adopt_size
copied-Advanced s m n c pos some_left =
    elim (le-or-lt (length (take m s.message.buf)) s.sink.room) [
      | inl fits ↦
          rw (write_bytes_fits (take m s.message.buf) s.sink fits, copy_out, ◌>>=◌)
            (advanced _ (omega (arith, length-drop m s.message.buf)) (ground arith))
      | inr long ↦
          rw (write_bytes_cut (take m s.message.buf) s.sink long, copy_out, ◌>>=◌)
            (stopped short_write _ (λ e. cc))
    ]

-- What follows the header.
body_Advanced :
    (s : Output)
    → 0 < s.chunk_size
    → 0 < length s.message.buf
    → length s.message.buf < 2 ^ 32
    → (size : Option ℕ) → Advanced s (emit_body size s)
unfolding emit_body
body_Advanced s c b r none = stopped out_of_range s (λ e. cc)
body_Advanced s c b r (some n) =
    copied-Advanced s (min (length s.message.buf % 2 ^ 32) s.chunk_size) n c (omega arith) b

-- The sink and the stream do not count.
resunk :
    {s t : Output} {o : Outcome Output (Unit {0})}
    → length t.message.buf ≡ length s.message.buf
    → Advanced t o
    → Advanced s o
resunk e (advanced s' l c) = advanced s' (omega arith) c
resunk e (stopped x s' n) = stopped x s' n

after_header :
    (s : Output) {o : Outcome Sink (Unit {0})}
    → 0 < s.chunk_size
    → 0 < length s.message.buf
    → length s.message.buf < 2 ^ 32
    → Fine o
    → Advanced s (elim (resink s o) [
      | ok _ s' ↦ emit_body (announced_size s.message) s'
      | err e s' ↦ err e s'
    ])
after_header s c b r (fine k) =
    resunk {t = record s { sink = k }} refl
      (body_Advanced (record s { sink = k }) c b r (announced_size s.message))
after_header s c b r (failed e k n) = stopped e _ n

write_chunk-Advanced :
    (s : Output)
    → 0 < s.chunk_size
    → 0 < length s.message.buf
    → length s.message.buf < 2 ^ 32
    → Advanced s (write_chunk s)
unfolding write_chunk emit_chunk
write_chunk-Advanced s c b r =
    let t : Output = record s { stream = (next_header s.stream s.message).1 } in
    resunk {t = t} refl
      (after_header t c b r (write-Fine (next_header s.stream s.message).0 s.sink))

rounds_left :
    (f : ℕ) {s : Output} {o : Outcome Output (Unit {0})} (s' : Output)
    → Advanced s o
    → ((t : Output)
        → length t.message.buf < length s.message.buf
        → 0 < t.chunk_size
        → write_message f t ≢ err out_of_fuel s')
    → elim o as (λ _. Outcome Output (Unit {0})) [ ok _ t ↦ write_message f t | err e t ↦ err e t ]
      ≢ err out_of_fuel s'
rounds_left f s' (advanced t l c) again = again t l c
rounds_left f s' (stopped e t n) again = λ x. n (ground arith)

-- With a positive chunk size and at least as many rounds as there are unread bytes (below 2 ^ 32),
-- the loop ends by itself for every message, chunk stream and writer: `writeMessage` returns.
pub write_message-ends :
    (f : ℕ) (s s' : Output)
    → 0 < s.chunk_size
    → length s.message.buf ≤ f
    → length s.message.buf < 2 ^ 32
    → write_message f s ≢ err out_of_fuel s'
write_message-ends zero s s' c h r = rw (write_message_done zero s (omega arith)) (λ x. cc)
write_message-ends (suc f) s s' c h r = elim (le-or-lt (length s.message.buf) 0) [
  | inl empty ↦ rw (write_message_done (suc f) s (omega arith)) (λ x. cc)
  | inr some_left ↦ rw (write_message_more f s some_left) (
      rounds_left f s' (write_chunk-Advanced s c some_left r)
        (λ t l c'. write_message-ends f t s' c' (omega arith) (omega arith)))
]
