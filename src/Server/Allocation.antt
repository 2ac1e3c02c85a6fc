-- ===== src/Server/Allocation.antt =====
-- The stream ID that `allocateStream` finds: the loop ends, with the least one that is free.
use gortmp.Base.{
  ℕ, zero, suc, ◌+◌, ◌≤◌, ◌<◌, ◌≡◌, ◌≢◌, refl, List, [], ◌∷◌, Option, none, some, arith,
}
use gortmp.Base.{if◌then◌else◌, leb, length, ◌⊎◌, inl, inr, Bool, true, false, sym, ap, ◌∙◌}
use gortmp.Base.Maps.{lookup}
use gortmp.Server.{World, ok, Stream, left_by, update}
use gortmp.Server.Connection.{first_free, allocate_stream}

-- How many entries have a key of at least `i`.
abbrev count_from : ℕ → List (ℕ × ℕ) → ℕ
count_from i [] = 0
count_from i ((j, v) ∷ t) = (if leb i j then 1 else 0) + count_from i t

count_from-le_length : (i : ℕ) (t : List (ℕ × ℕ)) → count_from i t ≤ length t
count_from-le_length i [] = omega arith
count_from-le_length i ((j, v) ∷ t) = ground (arith, count_from-le_length i t)

count_from_mono : (i : ℕ) (t : List (ℕ × ℕ)) → count_from (suc i) t ≤ count_from i t
count_from_mono i [] = omega arith
count_from_mono i ((j, v) ∷ t) = ground (arith, count_from_mono i t)

count_from_falls :
    (i s : ℕ) (t : List (ℕ × ℕ)) → lookup i t ≡ some s → count_from (suc i) t < count_from i t
unfolding lookup
count_from_falls i s [] e = absurd (cc)
count_from_falls i s ((j, v) ∷ t) e = ground (arith, count_from_falls i s t, count_from_mono i t)

-- What the search finds: a free ID from `i` on, with all those before it taken.
pub record IsLeast (i r : ℕ) (t : List (ℕ × ℕ)) : Type 0 where
  pub above : i ≤ r
  pub free : lookup r t ≡ none
  pub least : (j : ℕ) → i ≤ j → j < r → lookup j t ≢ none

taken_below :
    (i s j : ℕ) (t : List (ℕ × ℕ)) → lookup i t ≡ some s → i ≤ j → j < suc i → lookup j t ≢ none
taken_below i s j t e le lt free =
    let same : j ≡ i = omega arith in
    let ends : lookup i t ≡ none = sym (ap (λ k. lookup k t) same) ∙ free in absurd (cc)

at_or_above : (i j : ℕ) → i ≤ j → j < suc i ⊎ suc i ≤ j
at_or_above i j le = by_test (leb j i) refl
  where
    by_test : (b : Bool) → leb j i ≡ b → j < suc i ⊎ suc i ≤ j
    by_test true e = inl (ground arith)
    by_test false e = inr (ground arith)

one_more :
    (i s r : ℕ) (t : List (ℕ × ℕ)) → lookup i t ≡ some s → IsLeast (suc i) r t → IsLeast i r t
one_more i s r t e x = record {
  above = (let h = x.above in omega arith);
  free = x.free;
  least = λ j le lt. elim (at_or_above i j le) [
    | inl h ↦ taken_below i s j t e le h
    | inr h ↦ x.least j h lt
  ];
}

first_free-IsLeast :
    (rounds i : ℕ) (t : List (ℕ × ℕ))
    → count_from i t < rounds
    → IsLeast i (first_free rounds i t) t
unfolding first_free
first_free-IsLeast zero i t h = absurd (omega arith)
first_free-IsLeast (suc rounds) i t h =
    go (lookup i t) refl
      (λ s e. first_free-IsLeast rounds (suc i) t (let f = count_from_falls i s t e in omega arith))
  where
    go :
        (x : Option ℕ)
        → lookup i t ≡ x
        → ((s : ℕ) → lookup i t ≡ some s → IsLeast (suc i) (first_free rounds (suc i) t) t)
        → IsLeast i (elim x [ none ↦ i | some s ↦ first_free rounds (suc i) t ]) t
    go none e later = record {
      above = omega arith;
      free = e;
      least = λ j le lt. absurd (omega arith);
    }
    go (some s) e later = one_more i s (first_free rounds (suc i) t) t e (later s e)

at_update : {A : Type 0} (f : ℕ → A) (i : ℕ) (x : A) → update f i x i ≡ x
at_update f i x = ground arith

abbrev idle_stream : ℕ → ℕ → ℕ → Stream
idle_stream c csid i = record {
  id = i;
  csid = csid;
  conn = c;
  name = "";
  publishing = false;
  playing = false;
  handled = false;
  media_stream = none;
  media_player = none;
}

lookup_above : (i s j : ℕ) (t : List (ℕ × ℕ)) → j ≢ i → lookup j ((i, s) ∷ t) ≡ lookup j t
unfolding lookup
lookup_above i s j t ne = ground arith

-- `allocateStream` ends, whatever the table: the new stream has the least ID from 1 on that has no
-- stream in the connection's table, is entered under it beside all that the table had, has its pointer
-- and chunk stream, and is neither publishing nor playing, without a handler.
pub record Allocates (c csid s : ℕ) (w w' : World) : Type 0 where
  pub least : IsLeast 1 (w'.stream s).id (w.conns c).streams
  pub entered : (w'.conns c).streams ≡ ((w'.stream s).id, s) ∷ (w.conns c).streams
  pub others :
      (j : ℕ) → j ≢ (w'.stream s).id → lookup j (w'.conns c).streams ≡ lookup j (w.conns c).streams
  pub conn : (w'.stream s).conn ≡ c
  pub chunk_stream : (w'.stream s).csid ≡ csid
  pub idle :
      (w'.stream s).publishing ≡ false
      × ((w'.stream s).playing ≡ false × (w'.stream s).handled ≡ false)

pub allocate_stream-Allocates :
    (c csid : ℕ) (w : World)
    → allocate_stream c csid w ≡ ok w.next_stream (left_by (allocate_stream c csid w))
      × Allocates c csid w.next_stream w (left_by (allocate_stream c csid w))
unfolding allocate_stream
allocate_stream-Allocates c csid w =
    let t = (w.conns c).streams in
    let i = first_free (suc (length t)) 1 t in
    let x = idle_stream c csid i in
    let conns = update w.conns c (record (w.conns c) { streams = (i, w.next_stream) ∷ t }) in
    let self : update w.stream w.next_stream x w.next_stream ≡ x =
      at_update w.stream w.next_stream x in
    let table : conns c ≡ record (w.conns c) { streams = (i, w.next_stream) ∷ t } =
      at_update w.conns c _ in
    (
      refl,
      record {
        least = rw (self) (
            first_free-IsLeast (suc (length t)) 1 t
              (let h = count_from-le_length 1 t in omega arith));
        entered = rw (self, table) refl;
        others = λ j. rw (self, table) (lookup_above i w.next_stream j t);
        conn = ap (λ x. x.conn) self;
        chunk_stream = ap (λ x. x.csid) self;
        idle = (ap (λ x. x.publishing) self, (ap (λ x. x.playing) self, ap (λ x. x.handled) self));
      },
    )
