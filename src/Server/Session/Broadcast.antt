-- ===== src/Server/Session/Broadcast.antt =====
-- A publisher and a viewer on a new server, from their first messages to the tags that go through.
use Prim.Native.String.{String}
use gortmp.Base.{
  ℕ, ◌≡◌, ◌≢◌, sym, ap, ◌∙◌, List, [], ◌∷◌, ◌++◌, Option, none, some, true, false, arith, map,
}
use gortmp.Base.{append-nil, All, subst}
use gortmp.Base.Maps.{lookup}
use gortmp.Message.{Message}
use gortmp.Command.{Amf, Command, PublishCommand, PlayCommand}
use gortmp.Command.Raw.{Values}
use gortmp.Server.{World, Player, Effect, published, new_server}
use gortmp.Server.Streams.{is_media, tag_of}
use gortmp.Server.Events.{Event, message, run}
use gortmp.Server.Session.Opening.{opening_answers, run-Opened}
use gortmp.Server.Session.Steps.{run-media}
use gortmp.Server.Session.Scene.{
  publish_answers, play_answers, behind_play, played_player, played_entry, played_others,
  played_trace, run-play,
}
use gortmp.Server.Session.Publisher.{Begins, opened, IsPublished, IsUntouched, run-IsPublished}

-- The player of stream `s`, started, with the media stream `m` as its source.
abbrev pub playing_from : ℕ → ℕ → Player
playing_from s m = record {
  stream = s;
  source = m;
  started = true;
  closed = false;
  finished = false;
}

-- And played on stream 1 by player 0.
pub record IsPlayed (w : World) : Type 0 where
  pub placed : w.players 1 ≡ some 0
  pub player : w.player 0 ≡ playing_from 1 0

module _ (a : Amf) (v : Values a) (app_of : a.Object → Option String) where
  run-IsPlayed :
      (c d : ℕ) (name : String) (told : List Effect) (play : PlayCommand a) (n₁ n₂ n₃ : Message)
      (w : World) (es : List Event) (q : Begins a v app_of (Command.play play) n₁ n₂ n₃)
      → IsPublished c name told w
      → IsUntouched c w
      → d ≢ c
      → play.name ≢ ""
      → play.name ≡ name
      → play.stream_id ≡ 1
      → (w' : World) × IsPublished c name
          (told ++ (opened a v app_of d 1 q ++ play_answers d 1 play.name 0))
          w'
        × IsPlayed w'
        × (run a v app_of w (message d n₁ ∷ message d n₂ ∷ message d n₃ ∷ es)
            ≡ run a v app_of w' es)
  run-IsPlayed c d name told play n₁ n₂ n₃ w es q k u apart named same one =
      let t = q.connect.transaction_id in
      let t' = q.create_txn in
      let (w', o, begun) =
        run-Opened a v app_of d t' q.connect n₁ n₂ w (message d n₃ ∷ es) (u.others d apart) q.app
          q.connects q.creates in
      let idle : w.players w.next_stream ≡ none = ap w.players u.next ∙ u.players in
      let stands : w.streams play.name ≡ some 0 = ap w.streams same ∙ k.stands in
      let first : 0 ≢ w.next_stream = λ e. omega (arith, e, u.next) in
      let w'' = behind_play d t t' play 0 w w' o named idle stands k.alive in
      let seen : ℕ → ℕ → List Effect =
        λ s p. opening_answers d s t t' ++ play_answers d s play.name p in
      let s₀ : w''.stream 0 ≡ w.stream 0 =
        played_others d t t' play 0 w w' o named idle stands k.alive 0 first in
      (
        w'',
        record {
          stands = ap (λ f. f name) o.names ∙ k.stands;
          alive = ap (λ f. (f 0).closed) o.media ∙ k.alive;
          entered = ap (λ x. lookup 1 x.streams) (o.conns c (λ e. apart (sym e))) ∙ k.entered;
          source = ap (λ x. x.media_stream) s₀ ∙ k.source;
          handled = ap (λ x. x.handled) s₀ ∙ k.handled;
          trace =
              played_trace d t t' play 0 w w' o named idle stands k.alive
              ∙ ap (λ x. x ++ seen w.next_stream w.next_player) k.trace
              ∙ ap (λ s. told ++ seen s w.next_player) u.next
              ∙ ap (λ p. told ++ seen 1 p) u.next_player;
        },
        record {
          placed =
              ap w''.players (sym u.next)
              ∙ played_entry d t t' play 0 w w' o named idle stands k.alive
              ∙ ap (λ p. some p) u.next_player;
          player =
              ap w''.player (sym u.next_player)
              ∙ played_player d t t' play 0 w w' o named idle stands k.alive
              ∙ ap (λ s. playing_from s 0) u.next;
        },
        begun
            ∙ run-play d t t' play 0 w w' o named idle stands k.alive v app_of n₃ es one q.commands,
      )

  -- On a new server with sends that succeed, a client connects to the application, creates a stream and
  -- publishes on it, under a name that is not empty, and another one connects, creates a stream and plays
  -- that name; then the first sends audio, video and data messages. At the end the name stands for an open
  -- media stream, the first client's stream passes its tags to it, and the player of the second client's
  -- stream has started with it as its source. The effects are, in order, what the first client is
  -- answered, what the second client is answered, each with what the server's handler is told, and that
  -- the tag of each of the messages is published to that media stream.
  pub run-IsBroadcast :
      (c d : ℕ) (publish : PublishCommand) (play : PlayCommand a) (m₁ m₂ m₃ n₁ n₂ n₃ : Message)
      (msgs : List Message) (p : Begins a v app_of (Command.publish publish) m₁ m₂ m₃)
      (q : Begins a v app_of (Command.play play) n₁ n₂ n₃)
      → d ≢ c
      → play.name ≢ ""
      → play.name ≡ publish.name
      → publish.stream_id ≡ 1
      → play.stream_id ≡ 1
      → All (λ (msg : Message). (is_media msg.type ≡ true) × (msg.stream_id ≡ 1)) msgs
      → let w : World = run a v app_of (new_server []) (
          message c m₁
          ∷ message c m₂
          ∷ message c m₃
          ∷ message d n₁
          ∷ message d n₂
          ∷ message d n₃
          ∷ map (message c) msgs) in
        IsPublished c publish.name
          (((opened a v app_of c 0 p ++ publish_answers c 0 1 publish.transaction_id 0)
              ++ (opened a v app_of d 1 q ++ play_answers d 1 play.name 0))
            ++ map (λ msg. published 0 (tag_of msg)) msgs)
          w
        × IsPlayed w
  unfolding run
  run-IsBroadcast c d publish play m₁ m₂ m₃ n₁ n₂ n₃ msgs p q apart named same one one' media =
      let es = map (message c) msgs in
      let (w, k, u, first) =
        run-IsPublished a v app_of c publish m₁ m₂ m₃
          (message d n₁ ∷ message d n₂ ∷ message d n₃ ∷ es) p (λ e. named (same ∙ e)) one in
      let (w', k', l, second) =
        run-IsPlayed c d publish.name _ play n₁ n₂ n₃ w es q k u apart named same one' in
      let w'' : World = record w' {
        trace = w'.trace ++ map (λ msg. published 0 (tag_of msg)) msgs;
      } in
      let end =
        first
        ∙ second
        ∙ ap (run a v app_of w') (sym (append-nil es))
        ∙ run-media a v app_of c 0 0 msgs w' [] media k'.entered k'.source k'.handled k'.alive in
      let told =
        (opened a v app_of c 0 p ++ publish_answers c 0 1 publish.transaction_id 0)
        ++ (opened a v app_of d 1 q ++ play_answers d 1 play.name 0) in
      let tags : List Effect = map (λ msg. published 0 (tag_of msg)) msgs in
      subst (λ x. IsPublished c publish.name (told ++ tags) x × IsPlayed x) (sym end)
        (
          record {
            stands = k'.stands;
            alive = k'.alive;
            entered = k'.entered;
            source = k'.source;
            handled = k'.handled;
            trace = ap (λ t. t ++ tags) k'.trace;
          },
          record { placed = l.placed; player = l.player },
        )
