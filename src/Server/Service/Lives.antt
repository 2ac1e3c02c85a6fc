-- ===== src/Server/Service/Lives.antt =====
-- What holds at every point of a connection's life, and what a move does to the counters.
use gortmp.Base.{ℕ, ◌+◌, ◌≡◌, Bool, true, false, Option, none, some}
use gortmp.Server.Service.{
  Loop, runs, offers, returned, Waiter, selects, closes, selects_again, reports, counts_down,
  finished, Life, Phase, shaking, failing, refused, alive, Effect, handshake_failed, left, on_close,
}

abbrev pub has_returned : Loop → ℕ
has_returned runs = 0
has_returned (offers e) = 0
has_returned returned = 1

-- How many loops the waiter has heard of.
abbrev pub heard : Waiter → ℕ
heard selects = 0
heard (closes e) = 1
heard (selects_again e) = 1
heard (reports e) = 2
heard counts_down = 2
heard finished = 2

-- Whether the waiter has closed the connection.
abbrev pub has_closed : Waiter → Bool
has_closed selects = false
has_closed (closes e) = false
has_closed _ = true

-- A loop returns when the waiter has heard of it, and both ends are closed by the waiter.
pub record IsLife (l : Life) : Type 0 where
  pub loops : has_returned l.reading + has_returned l.writing ≡ heard l.waiter
  pub net : l.net_closed ≡ has_closed l.waiter
  pub writer : l.writer_closed ≡ has_closed l.waiter

abbrev pub IsPhase : Phase → Type 0
IsPhase (alive l) = IsLife l
IsPhase _ = Unit {0}

-- Whether the server counts a connection, counts it as failed, and has told the handler of its end.
abbrev pub counted : Phase → ℕ
counted shaking = 1
counted failing = 1
counted refused = 0
counted (alive l) = elim l.waiter [ finished ↦ 0 | _ ↦ 1 ]

abbrev pub failed_count : Phase → ℕ
failed_count shaking = 0
failed_count failing = 1
failed_count refused = 1
failed_count (alive l) = 0

abbrev pub reported : Phase → ℕ
reported (alive l) = elim l.waiter [ counts_down ↦ 1 | finished ↦ 1 | _ ↦ 0 ]
reported _ = 0

abbrev pub leaves : Effect → ℕ
leaves left = 1
leaves _ = 0

abbrev pub fails : Effect → ℕ
fails handshake_failed = 1
fails _ = 0

abbrev pub tells : Effect → ℕ
tells (on_close e) = 1
tells _ = 0

-- A move from `p` to `q` that does `e`.
pub record Keeps (p q : Phase) (e : Effect) : Type 0 where
  pub is_phase : IsPhase q
  pub counts : counted q + leaves e ≡ counted p
  pub failures : failed_count q ≡ failed_count p + fails e
  pub told : reported q ≡ reported p + tells e

abbrev pub OnMove : Phase → Option (Phase × Effect) → Type 0
OnMove p none = Unit {0}
OnMove p (some (q, e)) = Keeps p q e
