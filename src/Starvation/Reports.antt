-- ===== src/Starvation/Reports.antt =====
-- The run of the tracker, report by report.
use gortmp.Base.{ℕ, ◌<◌, ◌^◌, ◌≡◌, refl, sym, ap, ◌∙◌, arith}
use gortmp.Base.{List, [], ◌∷◌, ◌++◌, true, false, ◌==◌, length, take, All}
use gortmp.Base.{append_assoc, append-nil, inl, inr, ltb, Bool-cases}
use gortmp.Media.{FlvTag}
use gortmp.Message.{video_type}
use gortmp.Media.Stream.{sub64}
use gortmp.Starvation.{
  Tracker, Event, tagged, closed, ticked, new_tracker, trim, history_limit, report, tick, handle,
  step, run, milliseconds,
}
use gortmp.Starvation.Window.{
  Sample, samples, IsSample, delays, trim-take, expected, expected_all, report-expected,
  timestamp_at,
}

-- The tracker behind the samples `seen`.
record Tracks (t : Tracker) (seen : List Sample) : Type 0 where
  last : t.last_ts ≡ timestamp_at 0 seen
  clock : t.clock_set ≡ ltb 0 (length seen)
  kept : t.history ≡ take history_limit (delays seen)
  current : t.cur_ts < 2 ^ 32
  sampled : All IsSample seen

-- What an event can be: timestamps are uint32 and elapsed times int64.
abbrev pub IsEvent : Event → Type 0
IsEvent (tagged tag) = tag.timestamp < 2 ^ 32
IsEvent closed = Unit {0}
IsEvent (ticked elapsed) = elapsed < 2 ^ 64

run-ended : (t : Tracker) (es : List Event) → t.ended ≡ true → run t es ≡ t
unfolding run step
run-ended t [] e = refl
run-ended t (x ∷ es) e =
    let stays : step t x ≡ t = ground arith in ap (λ u. run u es) stays ∙ run-ended t es e

module _ (t : Tracker) (ns : ℕ) (range : ns < 2 ^ 64) where
  abbrev sample : Sample
  sample = record { timestamp = t.cur_ts; elapsed = milliseconds ns }

  sample-IsSample : t.cur_ts < 2 ^ 32 → IsSample sample
  sample-IsSample h = (h, ground arith)

  first_tick : Tracks t [] → tick ns t ≡ record t { last_ts = t.cur_ts; clock_set = true }
  unfolding tick
  first_tick k = ground (arith, k.clock)

  first_tick-Tracks :
      Tracks t [] → Tracks (record t { last_ts = t.cur_ts; clock_set = true }) (sample ∷ [])
  unfolding delays
  first_tick-Tracks k = record {
    last = refl;
    clock = refl;
    kept = k.kept;
    current = k.current;
    sampled = (sample-IsSample k.current, tt);
  }

  module _ (r : Sample) (seen : List Sample) (k : Tracks t (r ∷ seen)) where
    abbrev behind_tick : Tracker
    behind_tick = record t {
      last_ts = t.cur_ts;
      history = take history_limit (delays (sample ∷ r ∷ seen));
      reports = t.reports ++ (expected (sample ∷ r ∷ seen) ∷ []);
    }

    history_behind :
        trim (sub64 (milliseconds ns) (sub64 t.cur_ts t.last_ts) ∷ t.history)
        ≡ take history_limit (delays (sample ∷ r ∷ seen))
    unfolding delays
    history_behind =
        ap (λ l. trim (sub64 (milliseconds ns) (sub64 t.cur_ts l) ∷ t.history)) k.last
        ∙ ap (λ xs. trim (sub64 (milliseconds ns) (sub64 t.cur_ts r.timestamp) ∷ xs)) k.kept
        ∙ trim-take (sub64 (milliseconds ns) (sub64 t.cur_ts r.timestamp)) (delays (r ∷ seen))

    later_tick : tick ns t ≡ behind_tick
    unfolding tick
    later_tick =
        let set : t.clock_set ≡ true = k.clock ∙ (ground arith) in
        let logged =
          ap report history_behind
          ∙ report-expected sample r seen (sample-IsSample k.current, k.sampled) in
        ground (arith, history_behind, logged)

    later_tick-Tracks : Tracks behind_tick (sample ∷ r ∷ seen)
    later_tick-Tracks = record {
      last = refl;
      clock = ground arith;
      kept = refl;
      current = k.current;
      sampled = (sample-IsSample k.current, k.sampled);
    }

step-running : (t : Tracker) (e : Event) → t.ended ≡ false → step t e ≡ handle e t
unfolding step
step-running t e h = ground arith

-- What `run` does from the tracker that the first event leads to.
run-step :
    (t u : Tracker) (e : Event) (es : List Event)
    → t.ended ≡ false
    → handle e t ≡ u
    → run t (e ∷ es) ≡ run u es
unfolding run
run-step t u e es h eq = ap (λ x. run x es) (step-running t e h ∙ eq)

module _ (tag : FlvTag) (t : Tracker) where
  video_tag :
      (tag.type == video_type) ≡ true → handle (tagged tag) t ≡ record t { cur_ts = tag.timestamp }
  unfolding handle
  video_tag e = ground arith

  other_tag : (tag.type == video_type) ≡ false → handle (tagged tag) t ≡ t
  unfolding handle
  other_tag e = ground arith

run-expected_all :
    (es : List Event) (t : Tracker) (seen : List Sample)
    → All IsEvent es
    → t.ended ≡ false
    → Tracks t seen
    → (run t es).reports ≡ t.reports ++ expected_all seen (samples t.cur_ts es)
run-expected_all [] t seen v e k = unfold run in sym (append-nil t.reports)
run-expected_all (tagged tag ∷ es) t seen v e k = elim (Bool-cases (tag.type == video_type)) [
  | inl video ↦
      let u : Tracker = record t { cur_ts = tag.timestamp } in
      rw video (
        ap (λ x. x.reports) (run-step t u (tagged tag) es e (video_tag tag t video))
        ∙ run-expected_all es u seen v.1 e (record {
          last = k.last;
          clock = k.clock;
          kept = k.kept;
          current = v.0;
          sampled = k.sampled;
        }))
  | inr other ↦ rw other (
      ap (λ x. x.reports) (run-step t t (tagged tag) es e (other_tag tag t other))
      ∙ run-expected_all es t seen v.1 e k)
]
run-expected_all (closed ∷ es) t seen v e k =
    let u : Tracker = record t { ended = true } in
    ap (λ x. x.reports) (run-step t u closed es e (unfold handle in refl) ∙ run-ended u es refl)
    ∙ sym (append-nil t.reports)
run-expected_all (ticked ns ∷ es) t [] v e k =
    let u : Tracker = record t { last_ts = t.cur_ts; clock_set = true } in
    ap (λ x. x.reports) (run-step t u (ticked ns) es e (unfold handle in first_tick t ns v.0 k))
    ∙ run-expected_all es u (sample t ns v.0 ∷ []) v.1 e (first_tick-Tracks t ns v.0 k)
run-expected_all (ticked ns ∷ es) t (r ∷ seen) v e k =
    let u = behind_tick t ns v.0 r seen k in
    let s = sample t ns v.0 in
    ap (λ x. x.reports)
      (run-step t u (ticked ns) es e (unfold handle in later_tick t ns v.0 r seen k))
    ∙ run-expected_all es u (s ∷ r ∷ seen) v.1 e (later_tick-Tracks t ns v.0 r seen k)
    ∙ append_assoc t.reports (expected (s ∷ r ∷ seen) ∷ [])
        (expected_all (s ∷ r ∷ seen) (samples t.cur_ts es))

-- From the start, for every sequence of tags with uint32 timestamps and ticks with int64 times, up to
-- the end of the channel: there is one report for each tick but the first. With n the number of ticks
-- behind the first one, but at most 25, it says n, the milliseconds that the last n ticks took less
-- what the timestamp of the last video tag advanced meanwhile, modulo 2 ^ 64, and the quotient of that
-- by n, for which nothing panics.
pub run-reports :
    (es : List Event)
    → All IsEvent es
    → (run new_tracker es).reports ≡ expected_all [] (samples 0 es)
run-reports es v = run-expected_all es new_tracker [] v refl (record {
  last = refl;
  clock = refl;
  kept = unfold delays in refl;
  current = omega arith;
  sampled = tt;
})
