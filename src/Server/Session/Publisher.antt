-- ===== src/Server/Session/Publisher.antt =====
-- A client on a new server that connects, creates a stream and publishes on it.
use Prim.Native.String.{String}
use gortmp.Base.{ℕ, ◌≡◌, ◌≢◌, refl, ap, ◌∙◌, List, [], ◌∷◌, ◌++◌, Option, none, some, true, false}
use gortmp.Base.Maps.{lookup}
use gortmp.Message.{Message}
use gortmp.Command.{Amf, Command, ConnectCommand, PublishCommand, Result}
use gortmp.Command.Raw.{Values}
use gortmp.Command.Whole.{parse_command}
use gortmp.Server.{World, Effect, new_server}
use gortmp.Server.Events.{Event, message, run}
use gortmp.Server.Session.Opening.{IsNew, opening_answers, run-Opened}
use gortmp.Server.Session.Scene.{
  publish_answers, behind_publish, published_name, published_alive, published_source,
  published_handled, published_trace, run-publish,
}

-- The server with the name published by stream 0, which is the first of connection `c`; all the
-- effects are `told`.
pub record IsPublished (c : ℕ) (name : String) (told : List Effect) (w : World) : Type 0 where
  pub stands : w.streams name ≡ some 0
  pub alive : (w.media 0).closed ≡ false
  pub entered : lookup 1 (w.conns c).streams ≡ some 0
  pub source : (w.stream 0).media_stream ≡ some 0
  pub handled : (w.stream 0).handled ≡ true
  pub trace : w.trace ≡ told

-- Nobody else has done anything.
pub record IsUntouched (c : ℕ) (w : World) : Type 0 where
  pub next : w.next_stream ≡ 1
  pub next_player : w.next_player ≡ 0
  pub players : w.players 1 ≡ none
  pub others : (d : ℕ) → d ≢ c → IsNew d w

new-IsNew : (c : ℕ) → IsNew c (new_server [])
unfolding new_server
new-IsNew c = record { streams = refl; writer = refl; lucky = refl }

module _ (a : Amf) (v : Values a) (app_of : a.Object → Option String) where
  -- The first three messages of a client: it connects to the application, creates a stream and gives a
  -- command.
  pub record Begins (cmd : Command a) (first second third : Message) : Type 0 where
    pub connect : ConnectCommand a
    pub create_txn : ℕ
    pub app : app_of connect.properties ≡ some "app"
    pub connects : parse_command a v first ≡ Result.ok (Command.connect connect)
    pub creates :
        parse_command a v second
        ≡ Result.ok (Command.create_stream (record { transaction_id = create_txn }))
    pub commands : parse_command a v third ≡ Result.ok cmd

  abbrev pub opened :
      {cmd : Command a} {m₁ m₂ m₃ : Message} → ℕ → ℕ → Begins cmd m₁ m₂ m₃ → List Effect
  opened c s b = opening_answers c s b.connect.transaction_id b.create_txn

  pub run-IsPublished :
      (c : ℕ) (publish : PublishCommand) (m₁ m₂ m₃ : Message) (es : List Event)
      (p : Begins (Command.publish publish) m₁ m₂ m₃)
      → publish.name ≢ ""
      → publish.stream_id ≡ 1
      → (w : World) × IsPublished c publish.name
          (opened c 0 p ++ publish_answers c 0 1 publish.transaction_id 0)
          w
        × IsUntouched c w
        × (run a v app_of (new_server []) (message c m₁ ∷ message c m₂ ∷ message c m₃ ∷ es)
            ≡ run a v app_of w es)
  unfolding new_server lookup
  run-IsPublished c publish m₁ m₂ m₃ es p named one =
      let w = new_server [] in
      let t = p.connect.transaction_id in
      let t' = p.create_txn in
      let (w', o, begun) =
        run-Opened a v app_of c t' p.connect m₁ m₂ w (message c m₃ ∷ es) (new-IsNew c) p.app
          p.connects p.creates in
      (
        behind_publish c t t' publish w w' o named refl,
        record {
          stands = published_name c t t' publish w w' o named refl;
          alive = published_alive c t t' publish w w' o named refl;
          entered = ap (λ s. lookup 1 s) o.entered;
          source = published_source c t t' publish w w' o named refl;
          handled = published_handled c t t' publish w w' o named refl;
          trace =
              published_trace c t t' publish w w' o named refl
              ∙ ap (λ i. opened c 0 p ++ publish_answers c 0 i publish.transaction_id 0) one;
        },
        record {
          next = o.next;
          next_player = o.next_player;
          players = ap (λ f. f 1) o.players;
          others = λ d apart. record {
            streams = ap (λ x. x.streams) (o.conns d apart);
            writer = ap (λ x. x.writer) (o.conns d apart);
            lucky = o.lucky;
          };
        },
        begun ∙ run-publish c t t' publish w w' o named refl a v app_of m₃ es one p.commands,
      )
