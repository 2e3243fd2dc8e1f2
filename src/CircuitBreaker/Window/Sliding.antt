-- ===== src/CircuitBreaker/Window/Sliding.antt =====
-- Runs of the window: the calls of the circuit breaker and the ticks of the slider, in the order in
-- which they take the lock; and the window of one bucket.
use goresilience.Prelude.{
  ℕ, zero, suc, ◌≤◌, ◌≡◌, refl, inl, inr, Bool, true, false, Option, none, some, List, [], ◌∷◌,
  length, get_elem?, arith, length-set, Option-cases,
}
use goresilience.Prelude.Int.{pos}
use goresilience.Errors.{Error}
use goresilience.CircuitBreaker.Window.{
  BucketWindow, sized, reset, new_bucket_window, replace_oldest, slide, count, inc,
}
use goresilience.CircuitBreaker.Window.Shape.{
  IsWellFormed, reset-IsWellFormed, inc-IsWellFormed, replace_oldest-IsWellFormed, slide_total,
}

pub data Op : Type 0 where
  record_result : Option Error → Op
  tick : Op
  restart : Op

unfoldable pub apply : Op → BucketWindow → Option BucketWindow
apply (record_result err) b = some (inc err b)
apply tick b = slide b
apply restart b = some (reset b)

-- `none` when one of the operations panics.
unfoldable pub replay : List Op → BucketWindow → Option BucketWindow
unfolding apply
replay [] b = some b
replay (o ∷ os) b = elim (apply o b) [ none ↦ none | some c ↦ replay os c ]

-- Every operation keeps the shape of a well-formed window and its size, and none panics.
pub apply-IsWellFormed :
    (o : Op) (b : BucketWindow)
    → IsWellFormed b
    → (c : BucketWindow) × (apply o b ≡ some c) × IsWellFormed c × (c.window_size ≡ b.window_size)
unfolding apply inc reset replace_oldest
apply-IsWellFormed (record_result err) b v =
    (inc err b, refl, inc-IsWellFormed err b v, ground arith)
apply-IsWellFormed tick b v =
    (replace_oldest b, slide_total b v, replace_oldest-IsWellFormed b v, refl)
apply-IsWellFormed restart b v = (reset b, refl, reset-IsWellFormed b v.two, refl)

abbrev pub ticks : List Op → Bool
ticks [] = false
ticks (tick ∷ os) = true
ticks (o ∷ os) = ticks os

record IsSingle (b : BucketWindow) : Type 0 where
  one : b.window_size ≡ 1
  alone : length b.window ≡ 1
  next : b.next_index_to_replace ≡ 1

reset-IsSingle : (b : BucketWindow) → b.window_size ≡ 1 → IsSingle (reset b)
unfolding reset
reset-IsSingle b e = rw (e, reset) (record { one = refl; alone = refl; next = refl })

inc-IsSingle : (err : Option Error) (b : BucketWindow) → IsSingle b → IsSingle (inc err b)
unfolding inc
inc-IsSingle err b v = elim (Option-cases (get_elem? b.window b.current)) [
  | inl e ↦ rw (e, inc) v
  | inr (x, e) ↦ rw (e, inc) (ground (arith, length-set b.window b.current (count err x)))
]

single-replay_panics :
    (os : List Op) (b : BucketWindow) → IsSingle b → ticks os ≡ true → replay os b ≡ none
unfolding replay slide
single-replay_panics [] b v h = cc
single-replay_panics (record_result err ∷ os) b v h =
    single-replay_panics os (inc err b) (inc-IsSingle err b v) h
single-replay_panics (tick ∷ os) b v h = ground arith
single-replay_panics (restart ∷ os) b v h =
    single-replay_panics os (reset b) (reset-IsSingle b v.one) h

-- A window that is made with the quantity 0 or 1 panics in the first tick of its slider, whatever is
-- recorded or reset before: its one bucket has the index 0, and a reset leaves 1 as the next index.
pub new_bucket_window-replay_panics :
    (q : ℕ) (b : BucketWindow) (os : List Op)
    → q ≤ 1
    → new_bucket_window (pos q) ≡ some b
    → ticks os ≡ true
    → replay os b ≡ none
unfolding new_bucket_window
new_bucket_window-replay_panics zero b os h e t =
    single-replay_panics os b (ground (arith, reset-IsSingle (sized 1) refl)) t
new_bucket_window-replay_panics (suc q) b os h e t =
    single-replay_panics os b (ground (arith, reset-IsSingle (sized 1) refl)) t
