-- ===== src/Chunks/Create.antt =====
-- Which ID `CreateChunkStream` gives out, and when it gives none.
use gortmp.Base.{ℕ, zero, suc, ◌+◌, ◌≤◌, ◌<◌, ◌≡◌, ◌≢◌, refl, Option, none, some, arith}
use gortmp.Base.{◌⊎◌, inl, inr, Option-cases, le-or-lt, subst}
use gortmp.Wire.{Outcome, ok, err, invalid_priority, max_chunk_streams}
use gortmp.Writer.{Priority, fresh_stream}
use gortmp.Chunks.{Table, ChunkStreamWriter, update, find_free, create_chunk_stream, queue_of}

abbrev InUse : Table → ℕ → Type 0
InUse t i = t i ≢ none

-- What a search found: the first free place of the range, or that there is none.
data Searched (t : Table) (lo hi : ℕ) : Option ℕ → Type 0 where
  found :
      (i : ℕ)
      → lo ≤ i
      → i < hi
      → t i ≡ none
      → ((j : ℕ) → lo ≤ j → j < i → InUse t j)
      → Searched t lo hi (some i)
  full : ((j : ℕ) → lo ≤ j → j < hi → InUse t j) → Searched t lo hi none

from_next :
    (t : Table) (lo hi : ℕ) {r : Option ℕ}
    → InUse t lo
    → Searched t (suc lo) hi r
    → Searched t lo hi r
from_next t lo hi u (found i a b e before) = found i (omega arith) b e (λ j l m.
    elim (le-or-lt j lo) [ inl le ↦ subst (InUse t) (omega arith) u | inr lt ↦ before j lt m ])
from_next t lo hi u (full every) = full (λ j l m. elim (le-or-lt j lo) [
  | inl le ↦ subst (InUse t) (omega arith) u
  | inr lt ↦ every j lt m
])

find_free-Searched :
    (rounds i hi : ℕ) (t : Table) → i + rounds ≡ hi → Searched t i hi (find_free rounds i t)
unfolding find_free
find_free-Searched zero i hi t e = full (λ j l m. absurd (omega arith))
find_free-Searched (suc rounds) i hi t e = elim (Option-cases (t i)) [
  | inl free ↦
      rw (free, find_free)
        (found i (omega arith) (omega arith) free (λ j l m. absurd (omega arith)))
  | inr (cs, taken) ↦
      rw (taken, find_free)
        (from_next t i hi (λ n. cc) (find_free-Searched rounds (suc i) hi t (omega arith)))
]

-- What `CreateChunkStream` did to `csw`.
pub data Created (csw : ChunkStreamWriter) (p : ℕ) : Outcome ChunkStreamWriter ℕ → Type 0 where
  created :
      (i : ℕ) (queue : Priority)
      → queue_of p ≡ some queue
      → 2 ≤ i
      → i < 100
      → csw.chunk_streams i ≡ none
      → ((j : ℕ) → 2 ≤ j → j < i → InUse csw.chunk_streams j)
      → Created csw p
          (ok i (record csw { chunk_streams = update csw.chunk_streams i (fresh_stream queue) }))
  no_priority : 3 ≤ p → Created csw p (err invalid_priority csw)
  no_room :
      ((j : ℕ) → 2 ≤ j → j < 100 → InUse csw.chunk_streams j)
      → Created csw p (err max_chunk_streams csw)

chosen :
    (csw : ChunkStreamWriter) (p : ℕ) (queue : Priority) {r : Option ℕ}
    → queue_of p ≡ some queue
    → Searched csw.chunk_streams 2 100 r
    → Created csw p (elim r [
      | none ↦ err max_chunk_streams csw
      | some i ↦
          ok i (record csw { chunk_streams = update csw.chunk_streams i (fresh_stream queue) })
    ])
chosen csw p queue e (found i a b f before) = created i queue e a b f before
chosen csw p queue e (full every) = no_room every

queue_cases : (p : ℕ) → (3 ≤ p) ⊎ ((queue : Priority) × (queue_of p ≡ some queue))
unfolding queue_of
queue_cases zero = inr (Priority.high, refl)
queue_cases (suc zero) = inr (Priority.medium, refl)
queue_cases (suc (suc zero)) = inr (Priority.low, refl)
queue_cases (suc (suc (suc p))) = inl (omega arith)

queue_none : (p : ℕ) → 3 ≤ p → queue_of p ≡ none
unfolding queue_of
queue_none p h = ground arith

-- For every table and priority: a priority of at least 3 is refused; else the call gives out the
-- smallest ID from 2 to 99 that is not in use and enters a fresh stream with the priority's queue
-- there and nothing else; if all of them are in use, it returns the error. An error changes nothing.
pub create_chunk_stream-Created :
    (p : ℕ) (csw : ChunkStreamWriter) → Created csw p (create_chunk_stream p csw)
unfolding create_chunk_stream
create_chunk_stream-Created p csw = elim (queue_cases p) [
  | inl bad ↦ rw (queue_none p bad, create_chunk_stream) (no_priority bad)
  | inr (queue, e) ↦
      rw (e, create_chunk_stream)
        (chosen csw p queue e (find_free-Searched 98 2 100 csw.chunk_streams (omega arith)))
]
