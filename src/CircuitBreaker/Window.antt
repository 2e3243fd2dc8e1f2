-- ===== src/CircuitBreaker/Window.antt =====
-- circuitbreaker/metrics.go: the sliding window of buckets that a circuit breaker records in.
-- Counters are float64 in the source, and exact there up to 2^53. The pointers to buckets are
-- indices into the window: a bucket is made for one place in it, and `currentBucket` is always one
-- of its entries.
use goresilience.Prelude.{
  ℕ, zero, suc, ◌+◌, Option, none, some, List, [], ◌∷◌, length, get_elem?, set, replicate, ltb, leb,
  if◌then◌else◌,
}
use goresilience.Prelude.Int.{ℤ, pos, negsuc}
use goresilience.Errors.{Error}
pub mod Shape
pub mod Sliding
pub mod Totals
pub mod Recent
pub mod History

pub record Bucket : Type 0 where
  pub total : ℕ
  pub errs : ℕ

abbrev pub empty : Bucket
empty = record { total = 0; errs = 0 }

pub record BucketWindow : Type 0 where
  pub next_index_to_replace : ℕ
  pub window_size : ℕ
  pub window : List Bucket
  pub current : ℕ  -- the index of `currentBucket`

unfoldable pub reset : BucketWindow → BucketWindow
reset b = record b {
  window = replicate b.window_size empty;
  current = 0;
  next_index_to_replace = 1;
}

abbrev pub sized : ℕ → BucketWindow
sized n = record { next_index_to_replace = 0; window_size = n; window = []; current = 0 }

-- `none` is a panic: `make` is called with a negative length.
unfoldable pub new_bucket_window : ℤ → Option BucketWindow
unfolding reset
new_bucket_window (pos zero) = some (reset (sized 1))
new_bucket_window (pos (suc n)) = some (reset (sized (suc n)))
new_bucket_window (negsuc n) = none

-- A tick of `windowSlider`: an empty bucket at the next index becomes the current one.
unfoldable pub replace_oldest : BucketWindow → BucketWindow
replace_oldest b = record b {
  window = set b.window next empty;
  current = next;
  next_index_to_replace = if leb (length b.window) (next + 1) then 0 else next + 1;
}
  where
    open b use {next_index_to_replace as next}

-- `none` is a panic: the index is out of range.
unfoldable pub slide : BucketWindow → Option BucketWindow
slide b = if ltb b.next_index_to_replace (length b.window) then some (replace_oldest b) else none

unfoldable pub count : Option Error → Bucket → Bucket
count none b = record b { total = b.total + 1 }
count (some e) b = record { total = b.total + 1; errs = b.errs + 1 }

unfoldable pub inc : Option Error → BucketWindow → BucketWindow
inc err b = elim (get_elem? b.window b.current) [
  | none ↦ b
  | some x ↦ record b { window = set b.window b.current (count err x) }
]

-- The loops that sum over the window.
unfoldable pub sum_total : ℕ → List Bucket → ℕ
sum_total acc [] = acc
sum_total acc (x ∷ xs) = sum_total (acc + x.total) xs

unfoldable pub sum_errs : ℕ → List Bucket → ℕ
sum_errs acc [] = acc
sum_errs acc (x ∷ xs) = sum_errs (acc + x.errs) xs

unfoldable pub total_requests : BucketWindow → ℕ
unfolding sum_total
total_requests b = sum_total 0 b.window

-- The numerator of `errorRate`.
unfoldable pub total_errors : BucketWindow → ℕ
unfolding sum_errs
total_errors b = sum_errs 0 b.window
