-- ===== src/Server/Answers.antt =====
-- What a client is answered, in order, while sends succeed.
use Prim.Native.String.{String}
use text.Mathlib.Text.{◌==◌ as str_eq}
use text.Mathlib.TextEquality.{eq_iff}
use gortmp.Base.{if◌then◌else◌, Bool, true, false, Bool-cases, inl, inr}
use gortmp.Base.{ℕ, ◌≡◌, ◌≢◌, refl, ap, ◌∙◌, List, [], ◌∷◌, ◌++◌, Option, none, some, arith}
use gortmp.Base.{append_assoc}
use gortmp.Command.{Amf, Command, ConnectCommand}
use gortmp.Command.Parse.{raw_command}
use gortmp.Server.{
  World, Effect, Content, sent, on_connect, ok, failed, update, send, connect_rejected,
}
use gortmp.Server.Connection.{
  control, set_app, invoke_connect, server_connect, conn_invoke, dispatch, on_command, fatal,
}
use gortmp.Server.Keeps.{bind_ok, catch_ok, catch_failed}
use gortmp.Server.Publishing.{closing, fatal_lem}

abbrev pub with_effect : Effect → World → World
with_effect e w = record w { trace = w.trace ++ (e ∷ []) }

pub send_lem :
    (c csid sid : ℕ) (m : Content) (w : World)
    → w.fates ≡ []
    → send c csid sid m w ≡ ok tt (with_effect (sent c csid sid m) w)
unfolding send
send_lem c csid sid m w lucky = ground arith

pub control_lem :
    (c : ℕ) (m : Content) (w : World)
    → w.fates ≡ []
    → control c m w ≡ ok tt (with_effect (sent c 2 0 m) w)
unfolding control
control_lem c m w lucky = catch_ok (send c 2 0 m) _ w _ tt (send_lem c 2 0 m w lucky)

-- The answers to an accepted `connect`.
abbrev pub connect_answers : ℕ → ℕ → List Effect
connect_answers c txn =
    sent c 2 0 (Content.window_size 2500000)
    ∷ sent c 2 0 (Content.peer_bandwidth 2500000 2)
    ∷ sent c 2 0 (Content.stream_begin 0)
    ∷ sent c 2 0 (Content.chunk_size 4096)
    ∷ sent c 3 0 (Content.connect_result txn)
    ∷ on_connect c
    ∷ []

abbrev with_app : ℕ → String → World → World
with_app c app w = record w { conns = update w.conns c (record (w.conns c) { app = app }) }

-- The world behind a `connect` to the application "app".
abbrev pub connected : ℕ → ℕ → World → World
connected c txn w = record (with_app c "app" w) { trace = w.trace ++ connect_answers c txn }

invoke_connect_lem :
    (c txn : ℕ) (app : String) (w : World)
    → w.fates ≡ []
    → invoke_connect c txn (some app) w
      ≡ ok tt (record (with_app c app w) { trace = w.trace ++ connect_answers c txn })
unfolding invoke_connect set_app
invoke_connect_lem c txn app w lucky =
    let w₁ = with_app c app w in
    let w₂ = with_effect (sent c 2 0 (Content.window_size 2500000)) w₁ in
    let w₃ = with_effect (sent c 2 0 (Content.peer_bandwidth 2500000 2)) w₂ in
    let w₄ = with_effect (sent c 2 0 (Content.stream_begin 0)) w₃ in
    let w₅ = with_effect (sent c 2 0 (Content.chunk_size 4096)) w₄ in
    bind_ok (control c _) _ w₁ _ tt (control_lem c (Content.window_size 2500000) w₁ lucky)
    ∙ bind_ok (control c _) _ w₂ _ tt (control_lem c (Content.peer_bandwidth 2500000 2) w₂ lucky)
    ∙ bind_ok (control c _) _ w₃ _ tt (control_lem c (Content.stream_begin 0) w₃ lucky)
    ∙ bind_ok (control c _) _ w₄ _ tt (control_lem c (Content.chunk_size 4096) w₄ lucky)
    ∙ bind_ok (send c 3 0 _) _ w₅ _ tt (send_lem c 3 0 (Content.connect_result txn) w₅ lucky)
    ∙ ap (λ t. ok tt (record (with_app c app w) { trace = t })) (simp append_assoc)

-- The application that a server has.
abbrev pub is_served : Option String → Bool
is_served none = false
is_served (some app) = str_eq app "app"

is_served-path : (x : Option String) → is_served x ≡ true → x ≡ some "app"
is_served-path none e = absurd (cc)
is_served-path (some app) e = ap (λ (t : String). some t) ((eq_iff app "app").0 e)

not_served : (x : Option String) → is_served x ≡ false → x ≢ some "app"
not_served x e same = let served : is_served x ≡ true = rw same refl in absurd (cc)

module _ (a : Amf) (app_of : a.Object → Option String) where
  dispatch-connect :
      (c : ℕ) (cmd : ConnectCommand a) (w : World)
      → dispatch {a = a} app_of c (Command.connect cmd) w
        ≡ server_connect c cmd.transaction_id (app_of cmd.properties) w
  unfolding dispatch raw_command conn_invoke
  dispatch-connect c cmd w = refl

  server_connect_lem :
      (c txn : ℕ) (w : World)
      → server_connect c txn (some "app") w ≡ invoke_connect c txn (some "app") w
  unfolding server_connect
  server_connect_lem c txn w = refl

  server_connect_refused :
      (c txn : ℕ) (app : Option String) (w : World)
      → app ≢ some "app"
      → server_connect c txn app w ≡ failed connect_rejected w
  unfolding server_connect
  server_connect_refused c txn none w n = refl
  server_connect_refused c txn (some app) w n =
      ground (arith, eq_iff app "app", ap (λ (t : String). some t))

  pub connect_answered :
      (c : ℕ) (cmd : ConnectCommand a) (w : World)
      → w.fates ≡ []
      → app_of cmd.properties ≡ some "app"
      → on_command {a = a} app_of c (Command.connect cmd) w
        ≡ ok tt (connected c cmd.transaction_id w)
  unfolding on_command
  connect_answered c cmd w lucky known =
      catch_ok (dispatch {a = a} app_of c (Command.connect cmd)) _ w _ tt (
        dispatch-connect c cmd w
        ∙ ap (λ x. server_connect c cmd.transaction_id x w) known
        ∙ server_connect_lem c cmd.transaction_id w
        ∙ invoke_connect_lem c cmd.transaction_id "app" w lucky)

  connect_refused :
      (c : ℕ) (cmd : ConnectCommand a) (w : World)
      → w.fates ≡ []
      → app_of cmd.properties ≢ some "app"
      → on_command {a = a} app_of c (Command.connect cmd) w ≡ ok tt (closing c w)
  unfolding on_command
  connect_refused c cmd w lucky unknown =
      catch_failed (dispatch {a = a} app_of c (Command.connect cmd)) (λ f. fatal c) w w
        connect_rejected
        (dispatch-connect c cmd w
          ∙ server_connect_refused c cmd.transaction_id (app_of cmd.properties) w unknown)
      ∙ fatal_lem c w lucky

  -- What becomes of a `connect` while sends succeed. To the application "app": its connection has the
  -- application, no other connection changes, and the client is sent the window size, the peer
  -- bandwidth, that stream 0 begins, the chunk size and the result, in this order, before the handler
  -- is told. To any other, or none: the connection is closed, its application and all else stay as
  -- they are, and the client is sent only NetConnection.Connect.Closed.
  pub on_command-connect :
      (c : ℕ) (cmd : ConnectCommand a) (w : World)
      → w.fates ≡ []
      → on_command {a = a} app_of c (Command.connect cmd) w
        ≡ ok tt (
            if is_served (app_of cmd.properties)
            then connected c cmd.transaction_id w
            else closing c w)
  on_command-connect c cmd w lucky = elim (Bool-cases (is_served (app_of cmd.properties))) [
    | inl y ↦ rw y (connect_answered c cmd w lucky (is_served-path (app_of cmd.properties) y))
    | inr n ↦ rw n (connect_refused c cmd w lucky (not_served (app_of cmd.properties) n))
  ]
