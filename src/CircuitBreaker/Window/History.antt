-- ===== src/CircuitBreaker/Window/History.antt =====
-- The sliding window against its history: the results by the intervals between the ticks, which knows
-- of no indices.
use goresilience.Prelude.{
  ℕ, zero, suc, ◌≤◌, ◌≡◌, refl, sym, ap, ◌∙◌, Option, some, List, [], ◌∷◌, ◌++◌, replicate, arith,
}
use goresilience.Prelude.Int.{pos}
use goresilience.Errors.{Error}
use goresilience.CircuitBreaker.Window.{
  Bucket, BucketWindow, empty, sized, reset, new_bucket_window, replace_oldest, count, inc,
  total_requests, total_errors,
}
use goresilience.CircuitBreaker.Window.Shape.{
  IsWellFormed, reset-IsWellFormed, inc-IsWellFormed, replace_oldest-IsWellFormed, slide_total,
}
use goresilience.CircuitBreaker.Window.Sliding.{Op, record_result, tick, restart, replay}
use goresilience.CircuitBreaker.Window.Totals.{sum_by, total_requests-recent, total_errors-recent}
use goresilience.CircuitBreaker.Window.Recent.{
  recent, recent-inc, recent-replace_oldest, recent-reset,
}

-- The history since the last reset, an entry for each interval, newest first.
abbrev pub History : Type 0
History = List Bucket

abbrev count_newest : Option Error → History → History
count_newest err [] = count err empty ∷ []
count_newest err (x ∷ h) = count err x ∷ h

unfoldable pub remember : Op → History → History
remember (record_result err) h = count_newest err h
remember tick h = empty ∷ h
remember restart h = empty ∷ []

unfoldable pub history : List Op → History → History
unfolding remember
history [] h = h
history (o ∷ os) h = history os (remember o h)

-- The newest `n` intervals, empty where the history is shorter.
unfoldable pub latest : ℕ → History → List Bucket
latest zero h = []
latest (suc n) [] = empty ∷ latest n []
latest (suc n) (x ∷ h) = x ∷ latest n h

latest-nil : (n : ℕ) → latest n [] ≡ replicate n empty
unfolding latest
latest-nil zero = refl
latest-nil (suc n) = ap (◌∷◌ empty) (latest-nil n)

-- A list without its last entry.
abbrev init : List Bucket → List Bucket
init [] = []
init (x ∷ []) = []
init (x ∷ y ∷ xs) = x ∷ init (y ∷ xs)

init-append : (xs : List Bucket) (y : Bucket) → init (xs ++ y ∷ []) ≡ xs
init-append [] y = refl
init-append (x ∷ []) y = refl
init-append (x ∷ z ∷ xs) y = ap (◌∷◌ x) (init-append (z ∷ xs) y)

init-latest : (n : ℕ) (h : History) → init (latest (suc n) h) ≡ latest n h
unfolding latest
init-latest zero [] = refl
init-latest zero (x ∷ h) = refl
init-latest (suc n) [] = ap (◌∷◌ empty) (init-latest n [])
init-latest (suc n) (x ∷ []) = ap (◌∷◌ x) (init-latest n [])
init-latest (suc n) (x ∷ y ∷ h) = ap (◌∷◌ x) (init-latest n (y ∷ h))

count_newest-latest :
    (err : Option Error) (n : ℕ) (h : History)
    → count_newest err (latest (suc n) h) ≡ latest (suc n) (count_newest err h)
unfolding latest
count_newest-latest err n [] = refl
count_newest-latest err n (x ∷ h) = refl

window_size-inc : (err : Option Error) (b : BucketWindow) → (inc err b).window_size ≡ b.window_size
unfolding inc
window_size-inc err b = ground arith

-- The window refines the history: it holds the newest intervals, as many as it has buckets.
record Refines (n : ℕ) (b : BucketWindow) (h : History) : Type 0 where
  shape : IsWellFormed b
  size : b.window_size ≡ suc n
  newest : recent b ≡ latest (suc n) h

inc-Refines :
    (err : Option Error) {n : ℕ} {b : BucketWindow} {h : History}
    → Refines n b h
    → Refines n (inc err b) (count_newest err h)
inc-Refines err {n} {b} {h} r =
    let (x, rest, old, new) = recent-inc err b r.shape in
    record {
      shape = inc-IsWellFormed err b r.shape;
      size = window_size-inc err b ∙ r.size;
      newest = new ∙ ap (count_newest err) (sym old ∙ r.newest) ∙ count_newest-latest err n h;
    }

tick-Refines :
    {n : ℕ} {b : BucketWindow} {h : History}
    → Refines n b h
    → Refines n (replace_oldest b) (empty ∷ h)
unfolding latest replace_oldest
tick-Refines {n} {b} {h} r =
    let (y, rest, old, new) = recent-replace_oldest b r.shape in
    let dropped : rest ≡ latest n h =
      sym (init-append rest y) ∙ ap init (sym old ∙ r.newest) ∙ init-latest n h in
    record {
      shape = replace_oldest-IsWellFormed b r.shape;
      size = r.size;
      newest = new ∙ ap (◌∷◌ empty) dropped;
    }

reset-Refines :
    {n : ℕ} (b : BucketWindow)
    → 2 ≤ b.window_size
    → b.window_size ≡ suc n
    → Refines n (reset b) (empty ∷ [])
unfolding latest reset
reset-Refines {n} b two size = record {
  shape = reset-IsWellFormed b two;
  size = size;
  newest = recent-reset b n size ∙ ap (◌∷◌ empty) (sym (latest-nil n));
}

replay-Refines :
    (os : List Op) {n : ℕ} {b : BucketWindow} {h : History}
    → Refines n b h
    → (c : BucketWindow) × (replay os b ≡ some c) × Refines n c (history os h)
unfolding replay history
replay-Refines [] {b} r = (b, refl, r)
replay-Refines (record_result err ∷ os) r = replay-Refines os (inc-Refines err r)
replay-Refines (tick ∷ os) {b} r =
    let (c, e, r') = replay-Refines os (tick-Refines r) in
    (c, rw (slide_total b r.shape, replay) e, r')
replay-Refines (restart ∷ os) {b} r = replay-Refines os (reset-Refines b r.shape.two r.size)

-- A window of `n + 2` buckets never panics, and after any run of results, ticks and resets its
-- totals are those of the newest `n + 2` intervals since the last reset.
pub replay-latest :
    (n : ℕ) (os : List Op) (b : BucketWindow)
    → new_bucket_window (pos (suc (suc n))) ≡ some b
    → let newest = latest (suc (suc n)) (history os (empty ∷ [])) in
      (c : BucketWindow) × (replay os b ≡ some c)
      × (total_requests c ≡ sum_by (λ x. x.total) newest)
      × (total_errors c ≡ sum_by (λ x. x.errs) newest)
unfolding new_bucket_window
replay-latest n os b e =
    let (c, done, r) = replay-Refines os start in
    (
      c,
      rw (← made) done,
      total_requests-recent c ∙ ap (sum_by (λ x. x.total)) r.newest,
      total_errors-recent c ∙ ap (sum_by (λ x. x.errs)) r.newest,
    )
  where
    made : reset (sized (suc (suc n))) ≡ b
    made = cc

    start : Refines (suc n) (reset (sized (suc (suc n)))) (empty ∷ [])
    start = reset-Refines (sized (suc (suc n))) (omega arith) refl
