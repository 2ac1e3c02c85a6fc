-- ===== src/Loopback/First.antt =====
-- The first chunk of a message: what the reader makes of its header.
use gortmp.Base.{◌⊎◌, ℕ, zero, suc, ◌%◌, ◌+◌, ◌^◌, ◌≤◌, ◌<◌, ◌≡◌, refl, sym, ◌∙◌, arith, inl, inr}
use gortmp.Base.{some, none, false}
use gortmp.Message.{Message}
use gortmp.Header.{Header, was_extended, extended_mark}
use gortmp.Header.RoundTrip.{IsValid, carried}
use gortmp.Writer.{OutChunkStream, new_header}
use gortmp.Reader.{InChunkStream, Chunk, complete, chunk_message, begun}
use gortmp.Reader.Payload.{IsQuiet}
use gortmp.Loopback.{Knows, InStep, Behind, Behind-eq, Behind-add, Behind-stay, IsPunctual}
use gortmp.Base.{Bool}

-- A message that needs no extended timestamp and leaves the reader's chunk size alone.
pub record IsSendable (msg : Message) : Type 0 where
  pub id_above : 2 ≤ msg.chunk_stream_id
  pub id_below : msg.chunk_stream_id ≤ 319
  pub early : msg.timestamp < extended_mark
  pub length_range : msg.size < 2 ^ 24
  pub stream_range : msg.stream_id < 2 ^ 32
  pub quiet : IsQuiet msg.chunk_stream_id msg.type msg.size

-- What a completed chunk must give: a header that knows `h`, a message begun from it, and a time that is
-- `limit`, or not above it.
abbrev pub Completes : Bool → InChunkStream → Header → ℕ → Type 0
Completes exact in_ h limit =
    (c : Chunk) × (complete in_ (carried h) ≡ some c)
    × Knows c.header h
    × (chunk_message h.chunk_stream_id c ≡ begun h.chunk_stream_id c.header c.time)
    × Behind exact c.time limit

module _ (exact : Bool) (in_ : InChunkStream) (h : Header) (plain : h.timestamp < extended_mark)
    (limit : ℕ) where
  full-Completes : Behind exact h.timestamp limit → h.fmt ≡ 0 → Completes exact in_ h limit
  unfolding complete
  full-Completes le f = (
    record { header = carried h; time = h.timestamp; message = none },
    ground (arith),
    record {
      length = ground arith;
      type = ground arith;
      stream = ground arith;
      plain = ground arith;
    },
    refl,
    le,
  )

  -- From a last header `r` that has what `h` leaves out.
  module _ (r : Header) (e : in_.last_header ≡ some r) (idle : in_.current_message ≡ none)
      (s : r.message_stream_id ≡ h.message_stream_id) where
    same_stream-Completes :
        Behind exact ((in_.last_absolute_timestamp + h.timestamp) % 2 ^ 32) limit
        → h.fmt ≡ 1
        → Completes exact in_ h limit
    unfolding complete
    same_stream-Completes le f = (
      record {
        header = record (carried h) { message_stream_id = r.message_stream_id };
        time = (in_.last_absolute_timestamp + h.timestamp) % 2 ^ 32;
        message = none;
      },
      ground (arith),
      record { length = ground arith; type = ground arith; stream = s; plain = ground arith },
      refl,
      le,
    )

    module _ (l : r.message_length ≡ h.message_length)
        (k : r.message_type_id ≡ h.message_type_id) where
      same_length-Completes :
          Behind exact ((in_.last_absolute_timestamp + h.timestamp) % 2 ^ 32) limit
          → h.fmt ≡ 2
          → Completes exact in_ h limit
      unfolding complete
      same_length-Completes le f = (
        record {
          header = record (carried h) {
            message_stream_id = r.message_stream_id;
            message_length = r.message_length;
            message_type_id = r.message_type_id;
          };
          time = (in_.last_absolute_timestamp + h.timestamp) % 2 ^ 32;
          message = none;
        },
        ground (arith),
        record { length = l; type = k; stream = s; plain = ground arith },
        refl,
        le,
      )

      continuation-Completes :
          Behind exact in_.last_absolute_timestamp limit → h.fmt ≡ 3 → Completes exact in_ h limit
      unfolding complete
      continuation-Completes le f = (
        record {
          header = record (carried h) {
            message_stream_id = r.message_stream_id;
            message_length = r.message_length;
            message_type_id = r.message_type_id;
            timestamp = r.timestamp;
          };
          time = in_.last_absolute_timestamp;
          message = none;
        },
        ground (arith),
        record { length = l; type = k; stream = s; plain = ground arith },
        refl,
        le,
      )

by_format {ℓ} :
    {P : Type ℓ} (f : ℕ) → f < 4 → (f ≡ 0 → P) → (f ≡ 1 → P) → (f ≡ 2 → P) → (f ≡ 3 → P) → P
by_format zero h a b c d = a refl
by_format (suc zero) h a b c d = b refl
by_format (suc (suc zero)) h a b c d = c refl
by_format (suc (suc (suc f))) h a b c d = d (omega arith)

module _ (cs : OutChunkStream) (msg : Message) where
  abbrev h : Header
  h = (new_header cs msg).0

  pub new_header-plain :
      msg.timestamp < extended_mark
      → (h.extended_timestamp ≡ 0)
        × (h.timestamp < extended_mark)
        × (h.fmt < 4)
        × (h.chunk_stream_id ≡ msg.chunk_stream_id)
        × (h.message_length ≡ msg.size)
        × (h.message_type_id ≡ msg.type)
        × (h.message_stream_id ≡ msg.stream_id)
  unfolding new_header
  new_header-plain early = ground arith

  pub new_header-fits :
      2 ≤ msg.chunk_stream_id
      → msg.chunk_stream_id ≤ 319
      → msg.timestamp < extended_mark
      → msg.size < 2 ^ 24
      → msg.stream_id < 2 ^ 32
      → IsValid h
  new_header-fits above below early length stream =
      let (x, t, f, id, l, k, s) = new_header-plain early in
      record {
        fmt_range = f;
        id_above = omega arith;
        id_below = omega arith;
        timestamp_range = omega arith;
        length_range = omega arith;
        stream_range = omega arith;
        extended_range = omega arith;
      }

  pub new_header-IsValid : IsSendable msg → IsValid h
  new_header-IsValid v = new_header-fits v.id_above v.id_below v.early v.length_range v.stream_range

  -- The time that the new header stands for.
  new_header-time :
      msg.timestamp < extended_mark
      → (h.fmt ≡ 0 → h.timestamp ≡ msg.timestamp)
        × ((h.fmt ≡ 1) ⊎ (h.fmt ≡ 2) → cs.last_absolute_timestamp + h.timestamp ≡ msg.timestamp)
        × (h.fmt ≡ 3 → cs.last_absolute_timestamp ≤ msg.timestamp)
  unfolding new_header
  new_header-time early = ground arith

  pub new_header-last : (new_header cs msg).1.last_absolute_timestamp ≡ msg.timestamp
  unfolding new_header
  new_header-last = refl

  -- What the new header leaves out is what the last header has.
  new_header-leaves_out :
      (w : Header)
      → cs.last_header ≡ some w
      → (1 ≤ h.fmt → w.message_stream_id ≡ msg.stream_id)
        × (2 ≤ h.fmt → (w.message_length ≡ msg.size) × (w.message_type_id ≡ msg.type))
  unfolding new_header
  new_header-leaves_out w e = ground arith

  new_header-full : cs.last_header ≡ none → h.fmt ≡ 0
  unfolding new_header
  new_header-full e = ground arith

  module _ {exact : Bool} (in_ : InChunkStream) (i : InStep exact cs in_) where
    pub not_extended : h.fmt ≡ 3 → was_extended in_.last_header ≡ false
    not_extended f = elim i.known [
      | inl e ↦ absurd (omega (arith, new_header-full e))
      | inr (w, r, e, e', k) ↦ rw e' (ground (arith, k.plain))
    ]

    -- The reader completes the header, from a full one or from its last one, and begins a message.
    pub complete-new_header :
        IsPunctual exact cs msg
        → msg.timestamp < extended_mark
        → Completes exact in_ h msg.timestamp
    complete-new_header punctual early =
        let (x, t, f, id, l, k, s) = new_header-plain early in
        let (at_once, step, repeat) = new_header-time early in
        let last = cs.last_absolute_timestamp in
        let last' = in_.last_absolute_timestamp in
        let moved : last + h.timestamp ≡ msg.timestamp
            → Behind exact ((last' + h.timestamp) % 2 ^ 32) msg.timestamp =
          λ e. Behind-add exact last' last h.timestamp msg.timestamp i.late e (omega arith) in
        let stayed : h.fmt ≡ 3 → last ≤ msg.timestamp → Behind exact last' msg.timestamp =
          λ n le. Behind-stay exact last' last msg.timestamp (λ e. punctual e n) i.late le in
        let full : h.fmt ≡ 0 → Completes exact in_ h msg.timestamp = λ f₀.
          full-Completes exact in_ h t msg.timestamp
            (Behind-eq exact h.timestamp msg.timestamp (at_once f₀)) f₀ in
        elim i.known [
          | inl e ↦ full (new_header-full e)
          | inr (w, r, e, e', known) ↦
              let (same_stream, same_rest) = new_header-leaves_out w e in
              let stream : 1 ≤ h.fmt → r.message_stream_id ≡ h.message_stream_id =
                λ le. known.stream ∙ same_stream le ∙ sym s in
              let length : 2 ≤ h.fmt → r.message_length ≡ h.message_length =
                λ le. known.length ∙ (same_rest le).0 ∙ sym l in
              let type : 2 ≤ h.fmt → r.message_type_id ≡ h.message_type_id =
                λ le. known.type ∙ (same_rest le).1 ∙ sym k in
              by_format h.fmt f full
                (λ n.
                  same_stream-Completes exact in_ h t msg.timestamp r e' i.idle
                    (stream (omega arith)) (moved (step (inl n))) n)
                (λ n.
                  same_length-Completes exact in_ h t msg.timestamp r e' i.idle
                    (stream (omega arith)) (length (omega arith)) (type (omega arith))
                    (moved (step (inr n))) n)
                (λ n.
                  continuation-Completes exact in_ h t msg.timestamp r e' i.idle
                    (stream (omega arith)) (length (omega arith)) (type (omega arith))
                    (stayed n (repeat n)) n)
        ]
