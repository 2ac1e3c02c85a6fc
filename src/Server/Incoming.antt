-- ===== src/Server/Incoming.antt =====
-- The messages that a reader makes, given to `conn.OnMessage` between whatever else happens to the server.
pub mod Client
use Prim.Native.String.{String}
use gortmp.Base.{ℕ, ◌≡◌, refl, sym, ap, ◌∙◌, Bool, true, false, List, [], ◌∷◌, Option, map}
use gortmp.Base.{◌==◌, if◌then◌else◌, ◌||◌, inl, inr, Bool-cases, arith, subst}
use gortmp.Message.{Message, command_amf0, command_amf3}
use gortmp.Reader
use gortmp.Reader.{on_message, on_window_full}
use gortmp.Reader.Payload.{messages_of}
use gortmp.Command.{Amf, Command, Result}
use gortmp.Command.Raw.{Values}
use gortmp.Command.Whole.{parse_command, parse_command_same}
use gortmp.Loopback.{Delivers}
use gortmp.Loopback.Sequence.{DeliversAll, nothing, followed}
use gortmp.Server.{World, Act, Ending, ok, failed, fail, crashed}
use gortmp.Server.Streams.{on_stream_receive}
use gortmp.Server.Connection.{on_message as connection_message, on_receive, on_command}
use gortmp.Server.Events.{Event, message, window_full, ended, round, react, run}

-- The messages that arrive on a connection.
abbrev pub messages_at : ℕ → List Event → List Message
messages_at c [] = []
messages_at c (message i msg ∷ es) =
    let later = messages_at c es in if i == c then msg ∷ later else later
messages_at c (window_full i n ∷ es) = messages_at c es
messages_at c (ended i ∷ es) = messages_at c es
messages_at c (round p tag ∷ es) = messages_at c es

-- The calls that a reader makes of its handler, the connection, and the end of `readFrom`.
abbrev pub arrivals : ℕ → List Reader.Event → List Event
arrivals c [] = ended c ∷ []
arrivals c (on_message msg ∷ es) = message c msg ∷ arrivals c es
arrivals c (on_window_full n ∷ es) = window_full c n ∷ arrivals c es

pub messages_at-arrivals :
    (c : ℕ) (es : List Reader.Event) → messages_at c (arrivals c es) ≡ messages_of es
messages_at-arrivals c [] = refl
messages_at-arrivals c (on_message msg ∷ es) =
    let same : (c == c) ≡ true = ground arith in
    rw same (ap (λ ms. msg ∷ ms) (messages_at-arrivals c es))
messages_at-arrivals c (on_window_full n ∷ es) = messages_at-arrivals c es

-- The next of `msgs`, in the place of a message.
abbrev next_message : Bool → Message → List Message → Message
next_message true msg (m ∷ msgs) = m
next_message _ msg msgs = msg

abbrev others : Bool → List Message → List Message
others true (m ∷ msgs) = msgs
others _ msgs = msgs

-- The events with `msgs` in the place of the messages of a connection.
abbrev pub given : ℕ → List Message → List Event → List Event
given c msgs [] = []
given c msgs (message i msg ∷ es) =
    message i (next_message (i == c) msg msgs) ∷ given c (others (i == c) msgs) es
given c msgs (window_full i n ∷ es) = window_full i n ∷ given c msgs es
given c msgs (ended i ∷ es) = ended i ∷ given c msgs es
given c msgs (round p tag ∷ es) = round p tag ∷ given c msgs es

-- The message as it arrives: its timestamp is the absolute one.
abbrev pub arrived : Message → Message
arrived msg = record msg { absolute_timestamp = msg.timestamp }

-- What a connection looks at in a message that is no command.
abbrev looked_at : Message → Message
looked_at msg = record msg { chunk_stream_id = 0; timestamp = 0; is_inbound = false }

looked_at_same : (m msg : Message) → Delivers true m msg → looked_at m ≡ looked_at (arrived msg)
looked_at_same m msg d = ground (arith, d.size, d.type, d.stream, d.buf, d.time)

on_receive-looked_at : (c : ℕ) (msg : Message) → on_receive c msg ≡ on_receive c (looked_at msg)
unfolding on_receive on_stream_receive
on_receive-looked_at c msg = refl

on_receive_same :
    (c : ℕ) (m msg : Message) → Delivers true m msg → on_receive c m ≡ on_receive c (arrived msg)
on_receive_same c m msg d =
    on_receive-looked_at c m
    ∙ ap (on_receive c) (looked_at_same m msg d)
    ∙ sym (on_receive-looked_at c (arrived msg))

module _ (a : Amf) (v : Values a) (app_of : a.Object → Option String) where
  -- A connection does the same with the message that the reader makes as with the one that was sent.
  on_message_same :
      (c : ℕ) (m msg : Message)
      → Delivers true m msg
      → connection_message a v app_of c m ≡ connection_message a v app_of c (arrived msg)
  unfolding connection_message
  on_message_same c m msg d =
      let answer : ℕ → Result (Command a) → Act (Unit {0}) → Act (Unit {0}) = λ type parsed receive.
        if (type == command_amf3) || (type == command_amf0)
        then elim parsed [
          | Result.ok cmd ↦ on_command app_of c cmd
          | Result.err e ↦ receive
          | Result.panics ↦ fail crashed
        ]
        else receive in
      ap (λ type. answer type (parse_command a v m) (on_receive c m)) d.type
      ∙ ap (λ p. answer msg.type p (on_receive c m))
          (parse_command_same a v m (arrived msg) d.type d.stream d.buf)
      ∙ ap (answer msg.type (parse_command a v (arrived msg))) (on_receive_same c m msg d)

  after : Ending (Unit {0}) → List Event → World
  after (ok _ w) es = run a v app_of w es
  after (failed f w) es = w

  run-after :
      (w : World) (e : Event) (es : List Event)
      → run a v app_of w (e ∷ es) ≡ after (react a v app_of e w) es
  unfolding run after
  run-after w e es =
      elim (react a v app_of e w)
        as (λ x. elim x [ ok _ w' ↦ run a v app_of w' es | failed f w' ↦ w' ] ≡ after x es) [
          | ok u w' ↦ refl
          | failed f w' ↦ refl
        ]

  after_same :
      (es es' : List Event) (x : Ending (Unit {0}))
      → ((w : World) → run a v app_of w es ≡ run a v app_of w es')
      → after x es ≡ after x es'
  unfolding after
  after_same es es' (ok _ w) later = later w
  after_same es es' (failed f w) later = refl

  -- The same first reaction, and then the same.
  run_same :
      (w : World) (e e' : Event) (es es' : List Event)
      → react a v app_of e w ≡ react a v app_of e' w
      → ((w' : World) → run a v app_of w' es ≡ run a v app_of w' es')
      → run a v app_of w (e ∷ es) ≡ run a v app_of w (e' ∷ es')
  run_same w e e' es es' same later =
      run-after w e es
      ∙ ap (λ x. after x es) same
      ∙ after_same es es' (react a v app_of e' w) later
      ∙ sym (run-after w e' es')

  -- A message of the connection is the next one that was sent.
  run-given_here :
      (c i : ℕ) (got : Message) (es : List Event) (w : World) {ms msgs : List Message}
      → (i == c) ≡ true
      → DeliversAll true ms msgs
      → got ∷ messages_at c es ≡ ms
      → ((sent : List Message) (w' : World)
          → DeliversAll true (messages_at c es) sent
          → run a v app_of w' es ≡ run a v app_of w' (given c (map arrived sent) es))
      → run a v app_of w (message i got ∷ es)
        ≡ run a v app_of w (given c (map arrived msgs) (message i got ∷ es))
  run-given_here c i got es w here nothing e later = absurd (cc)
  run-given_here c i got es w here (followed {m} {msg} {ms} {msgs} d ds) e later =
      let first : got ≡ m = cc in
      let rest : messages_at c es ≡ ms = cc in
      rw here (
        run_same w (message i got) (message i (arrived msg)) es (given c (map arrived msgs) es)
          (unfold react in
            ap (λ f. f w)
              (on_message_same i got msg (subst (λ x. Delivers true x msg) (sym first) d)))
          λ w'. later msgs w' (subst (λ x. DeliversAll true x msgs) (sym rest) ds))

  pub run-given :
      (c : ℕ) (es : List Event) (ms msgs : List Message) (w : World)
      → DeliversAll true ms msgs
      → messages_at c es ≡ ms
      → run a v app_of w es ≡ run a v app_of w (given c (map arrived msgs) es)
  run-given c [] ms msgs w d e = refl
  run-given c (message i msg ∷ es) ms msgs w d e = elim (Bool-cases (i == c)) [
    | inl here ↦
        run-given_here c i msg es w here d (sym (rw here refl) ∙ e)
          λ sent w' ds. run-given c es (messages_at c es) sent w' ds refl
    | inr other ↦
        let skipped : messages_at c es ≡ ms = sym (rw other refl) ∙ e in
        rw other (
          run_same w (message i msg) (message i msg) es (given c (map arrived msgs) es) refl
            λ w'. run-given c es ms msgs w' d skipped)
  ]
  run-given c (window_full i n ∷ es) ms msgs w d e =
      run_same w (window_full i n) (window_full i n) es (given c (map arrived msgs) es) refl
        λ w'. run-given c es ms msgs w' d e
  run-given c (ended i ∷ es) ms msgs w d e =
      run_same w (ended i) (ended i) es (given c (map arrived msgs) es) refl
        λ w'. run-given c es ms msgs w' d e
  run-given c (round p tag ∷ es) ms msgs w d e =
      run_same w (round p tag) (round p tag) es (given c (map arrived msgs) es) refl
        λ w'. run-given c es ms msgs w' d e
