-- ===== src/Tests/Window.antt =====
-- The sliding window on short runs.
use goresilience.Prelude.{◌≡◌, refl, none, some, List, [], ◌∷◌, arith}
use goresilience.Errors.{external}
use goresilience.CircuitBreaker.Window.{
  BucketWindow, empty, sized, reset, new_bucket_window, replace_oldest, slide, count, inc,
  total_requests, total_errors,
}
use goresilience.CircuitBreaker.Window.Sliding.{
  Op, record_result, tick, replay, new_bucket_window-replay_panics,
}
use goresilience.CircuitBreaker.Window.History.{remember, history, latest, replay-latest}

abbrev fresh : BucketWindow
fresh = record {
  next_index_to_replace = 1;
  window_size = 3;
  window = empty ∷ empty ∷ empty ∷ [];
  current = 0;
}

fresh-reset : fresh ≡ reset (sized 3)
unfolding reset
fresh-reset = refl

-- Two ticks and a failure: the window turns.
turned :
    replay (tick ∷ tick ∷ tick ∷ record_result (some (external 1)) ∷ []) fresh
    ≡ some (record {
      next_index_to_replace = 1;
      window_size = 3;
      window = record { total = 1; errs = 1 } ∷ empty ∷ empty ∷ [];
      current = 0;
    })
unfolding replay slide replace_oldest inc count
turned = refl

new_bucket_window-replay_panics_example :
    replay (record_result none ∷ tick ∷ []) (reset (sized 1)) ≡ none
unfolding new_bucket_window
new_bucket_window-replay_panics_example =
    new_bucket_window-replay_panics 1 (reset (sized 1)) (record_result none ∷ tick ∷ [])
      (omega arith) refl refl

abbrev busy : List Op
busy =
    record_result none
    ∷ tick
    ∷ record_result (some (external 1))
    ∷ tick
    ∷ record_result none
    ∷ record_result none
    ∷ []

-- The first result is older than two intervals.
replay-latest_example :
    (c : BucketWindow) × (replay busy (reset (sized 2)) ≡ some c)
    × (total_requests c ≡ 3)
    × (total_errors c ≡ 1)
unfolding new_bucket_window history remember latest count
replay-latest_example = replay-latest 0 busy (reset (sized 2)) refl
