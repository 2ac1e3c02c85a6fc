-- ===== src/Tests/StarvationRuns.antt =====
-- A stream that stalls between two ticks.
use gortmp.Base.{ℕ, ◌≡◌, refl, List, [], ◌∷◌, some, arith}
use gortmp.Starvation.{
  Event, tagged, closed, ticked, new_tracker, run, step, handle, tick, trim, add_from,
}
use gortmp.Starvation.Window.{samples, expected_all}
use gortmp.Starvation.Reports.{run-reports}

abbrev video_at : ℕ → Event
video_at ts = tagged (record { type = 9; timestamp = ts; size = 1; bytes = 23 ∷ [] })

abbrev five_seconds : Event
five_seconds = ticked 5000000000

abbrev stalled : List Event
stalled =
    video_at 1000
    ∷ five_seconds
    ∷ video_at 6000
    ∷ five_seconds
    ∷ video_at 7000
    ∷ five_seconds
    ∷ closed
    ∷ five_seconds
    ∷ []

run-stalled :
    (run new_tracker stalled).reports
    ≡ record { sum = 0; len = 1; starvation = some 0 }
      ∷ record { sum = 4000; len = 2; starvation = some 2000 }
      ∷ []
unfolding run step handle tick trim add_from
run-stalled = refl

run-reports_example : (run new_tracker stalled).reports ≡ expected_all [] (samples 0 stalled)
run-reports_example = run-reports stalled (omega arith)
