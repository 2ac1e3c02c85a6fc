-- ===== src/Server/Session/Scene.antt =====
-- A publisher and a viewer, from a new server on: what their commands lead to, and the tags after them.
use Prim.Native.String.{String}
use text.Mathlib.Text.{◌==◌ as str_eq}
use text.Mathlib.TextEquality.{eq_iff}
use gortmp.Base.{
  ℕ, ◌+◌, ◌≡◌, ◌≢◌, refl, ap, ◌∙◌, List, [], ◌∷◌, ◌++◌, Option, none, some, true, false, arith,
}
use gortmp.Base.{append_assoc, ◌==◌}
use gortmp.Base.Maps.{lookup}
use gortmp.Message.{Message}
use gortmp.Command.{Amf, Command, PublishCommand, PlayCommand, Result}
use gortmp.Command.Raw.{Values}
use gortmp.Command.Whole.{parse_command}
use gortmp.Server.{World, Stream, Effect, Content, sent, on_publish, on_play}
use gortmp.Server.Streams.{publish_start, play_reset, play_start}
use gortmp.Server.Events.{Event, message, run}
use gortmp.Server.Registry.Invariant.{with_stream}
use gortmp.Server.Publishing.{IsAddressed, CanPublish, after_publish, on_command-accepted}
use gortmp.Server.Playing.Accepted.{CanPlay, after_play, on_command-play}
use gortmp.Server.Session.Opening.{Opened, first_stream, opening_answers}
use gortmp.Server.Session.Steps.{run-command}

-- The stream that a client was given when it connected, addressed.
Opened-IsAddressed :
    (c txn txn' : ℕ) (w w' : World) (id : ℕ)
    → Opened c txn txn' w w'
    → id ≡ 1
    → IsAddressed c w.next_stream id w'
unfolding lookup
Opened-IsAddressed c txn txn' w w' id o one = record {
  nonzero = omega arith;
  entered = ap (λ i. lookup i (w'.conns c).streams) one ∙ ap (λ t. lookup 1 t) o.entered;
  handled = ap (λ x. x.handled) o.stream;
}

-- What a client is sent for a publish and a play, and what the handler is told.
abbrev pub publish_answers : ℕ → ℕ → ℕ → ℕ → ℕ → List Effect
publish_answers c s id txn m =
    sent c 3 id (Content.on_status txn publish_start) ∷ on_publish s (some m) ∷ []

abbrev pub play_answers : ℕ → ℕ → String → ℕ → List Effect
play_answers c s name p =
    sent c 5 1 (Content.play_info play_reset name)
    ∷ sent c 5 1 (Content.play_info play_start name)
    ∷ on_play s (some p)
    ∷ []

-- The world behind a publish on that stream.
module _ (c txn txn' : ℕ) (cmd : PublishCommand) (w w' : World) (o : Opened c txn txn' w w')
    (named : cmd.name ≢ "") (free : w.streams cmd.name ≡ none) where
  abbrev s : ℕ
  s = w.next_stream

  abbrev pub behind_publish : World
  behind_publish = after_publish s cmd (with_stream s cmd.name w')

  Opened-CanPublish : CanPublish s cmd.name w'
  Opened-CanPublish = record {
    lucky = o.lucky;
    named = named;
    handled = ap (λ x. x.handled) o.stream;
  }

  pub published_name : behind_publish.streams cmd.name ≡ some w.next_media
  published_name =
      let same : str_eq cmd.name cmd.name ≡ true = (eq_iff cmd.name cmd.name).1 refl in
      rw same (ap (λ m. some m) o.next_media)

  pub published_alive : (behind_publish.media w.next_media).closed ≡ false
  published_alive = let same = o.next_media in ground arith

  pub published_source : (behind_publish.stream s).media_stream ≡ some w.next_media
  published_source = let same : (s == s) ≡ true = ground arith in rw same published_name

  pub published_handled : (behind_publish.stream s).handled ≡ true
  published_handled =
      let same : (s == s) ≡ true = ground arith in rw same (ap (λ x. x.handled) o.stream)

  pub published_next : behind_publish.next_stream ≡ w.next_stream + 1
  published_next = o.next

  pub published_trace :
      behind_publish.trace
      ≡ w.trace
        ++ (opening_answers c s txn txn'
            ++ publish_answers c s cmd.stream_id cmd.transaction_id w.next_media)
  published_trace =
      let told : ℕ → Effect =
        λ i. sent i 3 cmd.stream_id (Content.on_status cmd.transaction_id publish_start) in
      let opened = opening_answers c s txn txn' in
      ap
        (λ (i : ℕ).
          (w'.trace ++ (told i ∷ [])) ++ (on_publish s (behind_publish.streams cmd.name) ∷ []))
        (ap (λ x. x.conn) o.stream)
      ∙ ap (λ x. (w'.trace ++ (told c ∷ [])) ++ (on_publish s x ∷ [])) published_name
      ∙ append_assoc w'.trace (told c ∷ []) (on_publish s (some w.next_media) ∷ [])
      ∙ ap (λ t. t ++ (told c ∷ on_publish s (some w.next_media) ∷ [])) o.trace
      ∙ append_assoc w.trace opened (told c ∷ on_publish s (some w.next_media) ∷ [])

  pub run-publish :
      (a : Amf) (v : Values a) (app_of : a.Object → Option String) (msg : Message) (es : List Event)
      → cmd.stream_id ≡ 1
      → parse_command a v msg ≡ Result.ok (Command.publish cmd)
      → run a v app_of w' (message c msg ∷ es) ≡ run a v app_of behind_publish es
  run-publish a v app_of msg es one parsed =
      run-command a v app_of c msg (Command.publish cmd) w' behind_publish es parsed (
        on_command-accepted a app_of c s cmd w'
          (Opened-IsAddressed c txn txn' w w' cmd.stream_id o one) Opened-CanPublish
          (ap (λ f. f cmd.name) o.names ∙ free))

-- The world behind a play of a name that stands for an open media stream.
module _ {a : Amf} (c txn txn' : ℕ) (cmd : PlayCommand a) (m : ℕ) (w w' : World)
    (o : Opened c txn txn' w w') (named : cmd.name ≢ "") (idle : w.players w.next_stream ≡ none)
    (stands : w.streams cmd.name ≡ some m) (alive : (w.media m).closed ≡ false) where
  abbrev pub behind_play : World
  behind_play = after_play w.next_stream cmd m w'

  Opened-CanPlay : CanPlay w.next_stream cmd.name m w'
  Opened-CanPlay = record {
    lucky = o.lucky;
    named = named;
    handled = ap (λ x. x.handled) o.stream;
    idle = ap (λ f. f w.next_stream) o.players ∙ idle;
    stands = ap (λ f. f cmd.name) o.names ∙ stands;
    live = ap (λ f. (f m).closed) o.media ∙ alive;
  }

  pub played_player : behind_play.player w.next_player ≡ record {
    stream = w.next_stream;
    source = m;
    started = true;
    closed = false;
    finished = false;
  }
  played_player = let next = o.next_player in ground arith

  pub played_entry : behind_play.players w.next_stream ≡ some w.next_player
  played_entry = let next = o.next_player in ground arith

  pub played_others : (j : ℕ) → j ≢ w.next_stream → behind_play.stream j ≡ w.stream j
  played_others j n =
      let same : behind_play.stream j ≡ w'.stream j = ground arith in same ∙ o.others j n

  pub played_trace :
      behind_play.trace
      ≡ w.trace
        ++ (opening_answers c w.next_stream txn txn'
            ++ play_answers c w.next_stream cmd.name w.next_player)
  played_trace =
      let s = w.next_stream in
      let told : Stream → Option ℕ → List Effect = λ x p.
        sent x.conn x.csid x.id (Content.play_info play_reset cmd.name)
        ∷ sent x.conn x.csid x.id (Content.play_info play_start cmd.name)
        ∷ on_play s p
        ∷ [] in
      let same : (s == s) ≡ true = ground arith in
      rw same (simp append_assoc)
      ∙ ap (λ x. w'.trace ++ told x (some w'.next_player)) o.stream
      ∙ ap (λ p. w'.trace ++ told (first_stream c) (some p)) o.next_player
      ∙ ap (λ t. t ++ play_answers c s cmd.name w.next_player) o.trace
      ∙ append_assoc w.trace (opening_answers c s txn txn')
          (play_answers c s cmd.name w.next_player)

  pub run-play :
      (v : Values a) (app_of : a.Object → Option String) (msg : Message) (es : List Event)
      → cmd.stream_id ≡ 1
      → parse_command a v msg ≡ Result.ok (Command.play cmd)
      → run a v app_of w' (message c msg ∷ es) ≡ run a v app_of behind_play es
  run-play v app_of msg es one parsed =
      run-command a v app_of c msg (Command.play cmd) w' behind_play es parsed (
        on_command-play a app_of c w.next_stream cmd m w'
          (Opened-IsAddressed c txn txn' w w' cmd.stream_id o one) Opened-CanPlay)
