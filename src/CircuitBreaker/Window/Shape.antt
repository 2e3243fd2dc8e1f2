-- ===== src/CircuitBreaker/Window/Shape.antt =====
-- The shape of the window: its size and its indices.
use goresilience.Prelude.{
  ℕ, zero, suc, ◌+◌, ◌≤◌, ◌<◌, ◌≡◌, refl, ◌⊎◌, inl, inr, Option, some, length, arith, length-set,
  length-replicate, get_elem?, Option-cases,
}
use goresilience.Prelude.Int.{pos}
use goresilience.Errors.{Error}
use goresilience.CircuitBreaker.Window.{
  BucketWindow, empty, sized, reset, new_bucket_window, replace_oldest, slide, count, inc,
}

-- The next bucket to replace follows the current one, round the end of the window.
pub record IsWellFormed (b : BucketWindow) : Type 0 where
  pub sized : length b.window ≡ b.window_size
  pub two : 2 ≤ b.window_size
  pub inside : b.current < b.window_size
  pub next :
      ((b.current + 1 < b.window_size) × (b.next_index_to_replace ≡ b.current + 1))
      ⊎ ((b.current + 1 ≡ b.window_size) × (b.next_index_to_replace ≡ 0))

pub reset-IsWellFormed : (b : BucketWindow) → 2 ≤ b.window_size → IsWellFormed (reset b)
unfolding reset
reset-IsWellFormed b h = record {
  sized = length-replicate b.window_size empty;
  two = h;
  inside = omega arith;
  next = inl (omega arith, refl);
}

pub inc-IsWellFormed :
    (err : Option Error) (b : BucketWindow) → IsWellFormed b → IsWellFormed (inc err b)
unfolding inc
inc-IsWellFormed err b v = elim (Option-cases (get_elem? b.window b.current)) [
  | inl e ↦ rw (e, inc) v
  | inr (x, e) ↦ rw (e, inc) (ground (arith, length-set b.window b.current (count err x)))
]

pub replace_oldest-IsWellFormed :
    (b : BucketWindow) → IsWellFormed b → IsWellFormed (replace_oldest b)
unfolding replace_oldest
replace_oldest-IsWellFormed b v = ground (arith, length-set b.window b.next_index_to_replace empty)

-- A tick never panics on a well-formed window.
pub slide_total : (b : BucketWindow) → IsWellFormed b → slide b ≡ some (replace_oldest b)
unfolding slide
slide_total b v = ground arith

pub new_bucket_window-IsWellFormed :
    (n : ℕ) → 2 ≤ n → (b : BucketWindow) × (new_bucket_window (pos n) ≡ some b) × IsWellFormed b
unfolding new_bucket_window
new_bucket_window-IsWellFormed zero h = absurd (omega arith)
new_bucket_window-IsWellFormed (suc n) h =
    (reset (sized (suc n)), refl, reset-IsWellFormed (sized (suc n)) h)
