-- ===== src/Starvation.antt =====
-- cmd/rtmpserver/server.go: TrackStarvation, which the handler starts for each stream that is
-- published. The loop is a step function over what its select can meet: a tag from the channel of the
-- media stream, the end of that channel, or a tick, with the nanoseconds that time.Since gives.
--
-- An int64 is its 64 bits. `lastClock.IsZero()` holds until the first tick; the clock itself is only
-- read through time.Since. What the loop logs is a list of reports. The quotient of floating-point
-- numbers that is compared with 0.05 is left out.
pub mod Window
pub mod Reports
use gortmp.Base.{ℕ, suc, ◌-◌, ◌/◌, ◌%◌, ◌^◌, List, [], ◌∷◌, ◌++◌, Bool, true, false}
use gortmp.Base.{Option, none, some, ◌==◌, ltb, if◌then◌else◌, length}
use gortmp.Message.{video_type}
use gortmp.Media.{FlvTag}
use gortmp.Media.Stream.{add64, sub64}

-- `a / n` of an int64 and a positive number rounds towards 0.
abbrev pub divide64 : ℕ → ℕ → ℕ
divide64 a n = if ltb a (2 ^ 63) then a / n else (2 ^ 64 - (2 ^ 64 - a) / n) % 2 ^ 64

-- A division by 0 is a panic.
abbrev pub quotient : ℕ → ℕ → Option ℕ
quotient a n = if n == 0 then none else some (divide64 a n)

-- `time.Since(lastClock).Nanoseconds() / 1000000`
abbrev pub milliseconds : ℕ → ℕ
milliseconds elapsed = divide64 elapsed 1000000

-- The logged `sum`, `len` and `starvation`; there is none where the division panics.
pub record Report : Type 0 where
  pub sum : ℕ
  pub len : ℕ
  pub starvation : Option ℕ

pub record Tracker : Type 0 where
  pub cur_ts : ℕ
  pub last_ts : ℕ
  pub clock_set : Bool
  pub history : List ℕ
  pub reports : List Report
  pub ended : Bool

abbrev pub new_tracker : Tracker
new_tracker = record {
  cur_ts = 0;
  last_ts = 0;
  clock_set = false;
  history = [];
  reports = [];
  ended = false;
}

pub data Event : Type 0 where
  tagged : FlvTag → Event
  closed : Event
  ticked : ℕ → Event

-- `history.Remove(history.Back())`
pub drop_back : List ℕ → List ℕ
drop_back [] = []
drop_back (x ∷ []) = []
drop_back (x ∷ y ∷ rest) = x ∷ drop_back (y ∷ rest)

abbrev pub history_limit : ℕ
history_limit = 25

unfoldable pub trim : List ℕ → List ℕ
unfolding drop_back
trim history = if ltb history_limit (length history) then drop_back history else history

-- `for e := history.Front(); e != nil; e = e.Next() { sum += e.Value }`
unfoldable pub add_from : ℕ → List ℕ → ℕ
add_from sum [] = sum
add_from sum (x ∷ rest) = add_from (add64 sum x) rest

abbrev pub report : List ℕ → Report
report history =
    let sum = add_from 0 history in
    record { sum = sum; len = length history; starvation = quotient sum (length history) }

-- `case <-ticker.C`
unfoldable pub tick : ℕ → Tracker → Tracker
tick elapsed t =
    if t.clock_set
    then (let stream_delta = sub64 t.cur_ts t.last_ts in
        let history = trim (sub64 (milliseconds elapsed) stream_delta ∷ t.history) in
        record t {
          last_ts = t.cur_ts;
          history = history;
          reports = t.reports ++ (report history ∷ []);
        })
    else record t { last_ts = t.cur_ts; clock_set = true }

unfoldable pub handle : Event → Tracker → Tracker
handle (tagged tag) t = if tag.type == video_type then record t { cur_ts = tag.timestamp } else t
handle closed t = record t { ended = true }
handle (ticked elapsed) t = tick elapsed t

-- The loop returns when the channel is closed.
unfoldable pub step : Tracker → Event → Tracker
step t e = if t.ended then t else handle e t

unfoldable pub run : Tracker → List Event → Tracker
run t [] = t
run t (e ∷ es) = run (step t e) es
