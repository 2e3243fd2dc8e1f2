-- ===== src/CircuitBreaker/Window/Totals.antt =====
-- The sums that `totalRequests` and `errorRate` take over the window.
use mathlib.Core.List.{reverse, reverse-cons}
use goresilience.Prelude.{
  ℕ, zero, suc, ◌+◌, ◌≤◌, ◌≡◌, refl, sym, ap, ◌∙◌, inl, inr, Option, none, some, List, [], ◌∷◌,
  ◌++◌, get_elem?, set, take, drop, replicate, arith, take-append-drop, Option-cases,
}
use goresilience.Errors.{Error}
use goresilience.CircuitBreaker.Window.{
  Bucket, BucketWindow, empty, reset, replace_oldest, count, inc, sum_total, sum_errs,
  total_requests, total_errors,
}
use goresilience.CircuitBreaker.Window.Shape.{IsWellFormed}
use goresilience.CircuitBreaker.Window.Recent.{recent, recent-inc}

abbrev pub sum_by : (Bucket → ℕ) → List Bucket → ℕ
sum_by f [] = 0
sum_by f (x ∷ xs) = f x + sum_by f xs

module _ (f : Bucket → ℕ) where
  sum_by-append : (xs ys : List Bucket) → sum_by f (xs ++ ys) ≡ sum_by f xs + sum_by f ys
  sum_by-append [] ys = omega arith
  sum_by-append (x ∷ xs) ys = omega (arith, sum_by-append xs ys)

  sum_by-reverse : (xs : List Bucket) → sum_by f (reverse xs) ≡ sum_by f xs
  sum_by-reverse [] = refl
  sum_by-reverse (x ∷ xs) =
      ap (sum_by f) (reverse-cons x xs)
      ∙ sum_by-append (reverse xs) (x ∷ [])
      ∙ omega (arith, sum_by-reverse xs)

  -- The order of the buckets does not matter for a sum.
  pub sum_by-recent : (b : BucketWindow) → sum_by f (recent b) ≡ sum_by f b.window
  unfolding recent
  sum_by-recent b =
      let xs = take (suc b.current) b.window in
      let ys = drop (suc b.current) b.window in
      sum_by-append (reverse xs) (reverse ys)
      ∙ omega (arith, sum_by-reverse xs, sum_by-reverse ys, sum_by-append xs ys)
      ∙ ap (sum_by f) (take-append-drop (suc b.current) b.window)

sum_total-sum_by : (acc : ℕ) (xs : List Bucket) → sum_total acc xs ≡ acc + sum_by (λ x. x.total) xs
unfolding sum_total
sum_total-sum_by acc [] = omega arith
sum_total-sum_by acc (x ∷ xs) = omega (arith, sum_total-sum_by (acc + x.total) xs)

sum_errs-sum_by : (acc : ℕ) (xs : List Bucket) → sum_errs acc xs ≡ acc + sum_by (λ x. x.errs) xs
unfolding sum_errs
sum_errs-sum_by acc [] = omega arith
sum_errs-sum_by acc (x ∷ xs) = omega (arith, sum_errs-sum_by (acc + x.errs) xs)

pub total_requests-recent : (b : BucketWindow) → total_requests b ≡ sum_by (λ x. x.total) (recent b)
unfolding total_requests
total_requests-recent b =
    sum_total-sum_by 0 b.window ∙ omega (arith, sum_by-recent (λ x. x.total) b)

pub total_errors-recent : (b : BucketWindow) → total_errors b ≡ sum_by (λ x. x.errs) (recent b)
unfolding total_errors
total_errors-recent b = sum_errs-sum_by 0 b.window ∙ omega (arith, sum_by-recent (λ x. x.errs) b)

-- No bucket counts more errors than requests.
abbrev pub IsCounted : List Bucket → Type 0
IsCounted [] = Unit {0}
IsCounted (x ∷ xs) = (x.errs ≤ x.total) × IsCounted xs

IsCounted-set :
    (xs : List Bucket) (i : ℕ) (y : Bucket)
    → y.errs ≤ y.total
    → IsCounted xs
    → IsCounted (set xs i y)
IsCounted-set [] i y h v = tt
IsCounted-set (x ∷ xs) zero y h v = (h, v.1)
IsCounted-set (x ∷ xs) (suc i) y h v = (v.0, IsCounted-set xs i y h v.1)

IsCounted-get_elem? :
    (xs : List Bucket) (i : ℕ) (y : Bucket)
    → get_elem? xs i ≡ some y
    → IsCounted xs
    → y.errs ≤ y.total
IsCounted-get_elem? [] i y e v = cc
IsCounted-get_elem? (x ∷ xs) zero y e v = ground arith
IsCounted-get_elem? (x ∷ xs) (suc i) y e v = IsCounted-get_elem? xs i y e v.1

IsCounted-replicate : (n : ℕ) → IsCounted (replicate n empty)
IsCounted-replicate zero = tt
IsCounted-replicate (suc n) = (omega arith, IsCounted-replicate n)

count-IsCounted :
    (err : Option Error) (x : Bucket) → x.errs ≤ x.total → (count err x).errs ≤ (count err x).total
unfolding count
count-IsCounted none x h = omega arith
count-IsCounted (some e) x h = omega arith

pub inc-IsCounted :
    (err : Option Error) (b : BucketWindow) → IsCounted b.window → IsCounted (inc err b).window
unfolding inc
inc-IsCounted err b v = elim (Option-cases (get_elem? b.window b.current)) [
  | inl e ↦ rw (e, inc) v
  | inr (x, e) ↦
      rw (e, inc)
        (IsCounted-set b.window b.current (count err x)
          (count-IsCounted err x (IsCounted-get_elem? b.window b.current x e v)) v)
]

pub replace_oldest-IsCounted :
    (b : BucketWindow) → IsCounted b.window → IsCounted (replace_oldest b).window
unfolding replace_oldest
replace_oldest-IsCounted b v = IsCounted-set b.window b.next_index_to_replace empty (omega arith) v

pub reset-IsCounted : (b : BucketWindow) → IsCounted (reset b).window
unfolding reset
reset-IsCounted b = IsCounted-replicate b.window_size

-- So the rate is at most 1.
sum_by-le : (xs : List Bucket) → IsCounted xs → sum_by (λ x. x.errs) xs ≤ sum_by (λ x. x.total) xs
sum_by-le [] v = omega arith
sum_by-le (x ∷ xs) v = omega (arith, sum_by-le xs v.1, v.0)

pub total_errors-le : (b : BucketWindow) → IsCounted b.window → total_errors b ≤ total_requests b
unfolding total_errors total_requests
total_errors-le b v =
    omega (arith, sum_errs-sum_by 0 b.window, sum_total-sum_by 0 b.window, sum_by-le b.window v)

sum_by-replicate : (f : Bucket → ℕ) (n : ℕ) → f empty ≡ 0 → sum_by f (replicate n empty) ≡ 0
sum_by-replicate f zero e = refl
sum_by-replicate f (suc n) e = omega (arith, sum_by-replicate f n e)

-- A reset forgets every count.
pub totals-reset :
    (b : BucketWindow) → (total_requests (reset b) ≡ 0) × (total_errors (reset b) ≡ 0)
unfolding reset total_requests total_errors
totals-reset b =
    let cleared = replicate b.window_size empty in
    (
      sum_total-sum_by 0 cleared
          ∙ omega (arith, sum_by-replicate (λ x. x.total) b.window_size refl),
      sum_errs-sum_by 0 cleared ∙ omega (arith, sum_by-replicate (λ x. x.errs) b.window_size refl),
    )

abbrev pub error_count : Option Error → ℕ
error_count none = 0
error_count (some e) = 1

sum_by-count :
    (err : Option Error) (x : Bucket) (rest : List Bucket)
    → (sum_by (λ x. x.total) (count err x ∷ rest) ≡ sum_by (λ x. x.total) (x ∷ rest) + 1)
      × (sum_by (λ x. x.errs) (count err x ∷ rest)
          ≡ sum_by (λ x. x.errs) (x ∷ rest) + error_count err)
unfolding count
sum_by-count none x rest = omega arith
sum_by-count (some e) x rest = omega arith

-- A result adds one request, and one error if it is one.
pub totals-inc :
    (err : Option Error) (b : BucketWindow)
    → IsWellFormed b
    → (total_requests (inc err b) ≡ total_requests b + 1)
      × (total_errors (inc err b) ≡ total_errors b + error_count err)
totals-inc err b v =
    let (x, rest, old, new) = recent-inc err b v in
    let (total, errs) = sum_by-count err x rest in
    (
      total_requests-recent (inc err b)
          ∙ ap (sum_by (λ x. x.total)) new
          ∙ total
          ∙ ap (λ n. n + 1) (ap (sum_by (λ x. x.total)) (sym old) ∙ sym (total_requests-recent b)),
      total_errors-recent (inc err b)
          ∙ ap (sum_by (λ x. x.errs)) new
          ∙ errs
          ∙ ap (λ n. n + error_count err)
              (ap (sum_by (λ x. x.errs)) (sym old) ∙ sym (total_errors-recent b)),
    )
