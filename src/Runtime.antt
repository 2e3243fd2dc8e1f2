-- ===== src/Runtime.antt =====
-- What the runners use of Go itself: effects on a shared state, variables in it, clock and sleep.
-- `W` is everything that a call can read or change: variables, the clock, the metrics, what the
-- functions that a user passes in work on.
use goresilience.Prelude.{ℕ, ◌+◌, ◌≤◌, ◌≡◌}

abbrev pub Effect : Type 0 → Type 0 → Type 0
Effect W A = W → A × W

infixl 5 ◌>>=◌ ◌>>◌
abbrev pub ◌>>=◌ : {W A B : Type 0} → Effect W A → (A → Effect W B) → Effect W B
◌>>=◌ m f w = let r = m w in f r.0 r.1

abbrev pub ◌>>◌ : {W A B : Type 0} → Effect W A → Effect W B → Effect W B
m >> k = m >>= λ _. k

abbrev pub return : {W A : Type 0} → A → Effect W A
return a w = (a, w)

-- A call that returns nothing.
abbrev pub perform : {W : Type 0} → (W → W) → Effect W (Unit {0})
perform f w = (tt, f w)

-- A variable of the program, such as the fields behind a pointer receiver.
pub record Cell (W A : Type 0) : Type 0 where
  pub get : W → A
  pub put : A → W → W
  pub get-put : (a : A) (w : W) → get (put a w) ≡ a
  pub put-put : (a b : A) (w : W) → put b (put a w) ≡ put b w

abbrev pub modify : {W A : Type 0} → Cell W A → (A → A) → W → W
modify c f w = c.put (f (c.get w)) w

-- The monotonic clock in nanoseconds, and `time.Sleep`, which pauses at least so long. What other
-- goroutines do during a sleep is part of the change that it makes.
pub record Clock (W : Type 0) : Type 0 where
  pub now : W → ℕ
  pub sleep : ℕ → W → W
  pub sleep_lasts : (d : ℕ) (w : W) → now w + d ≤ now (sleep d w)
