-- ===== src/ConcurrencyLimit/Queue/Dynamic/Weights.antt =====
-- Jobs counted by a weight, and where the goroutines of the dynamic queue hold them.
use mathlib.Core.List.{map, map-append}
use goresilience.Prelude.{
  ℕ, ◌+◌, ◌≡◌, ◌≢◌, refl, sym, ap, ◌∙◌, Option, none, some, List, [], ◌∷◌, ◌++◌, arith,
}
use goresilience.ConcurrencyLimit.Queue.{lifo_dequeue_policy, fifo_dequeue_policy}
use goresilience.ConcurrencyLimit.Queue.Order.{lifo_at_end}
use goresilience.ConcurrencyLimit.Queue.Dynamic.{
  Policy, fifo, lifo, dequeue, Enqueuer, receiving, received_job, counted_job, signalling,
  enqueuer_stopped, Dequeuer, looking, checking, sleeping, awake, popping, popped, sending,
  dequeuer_stopped,
}

-- Jobs are compared by any weight, as multisets are: a weight that is 1 on one job counts it.
abbrev pub total : {J : Type 0} → (J → ℕ) → List J → ℕ
total weight [] = 0
total weight (j ∷ js) = weight j + total weight js

pub total-append :
    {J : Type 0} (weight : J → ℕ) (xs ys : List J)
    → total weight (xs ++ ys) ≡ total weight xs + total weight ys
total-append weight [] ys = omega arith
total-append weight (x ∷ xs) ys = omega (arith, total-append weight xs ys)

-- The job of the enqueuer, and the job of the dequeuer.
abbrev pub incoming : {J : Type 0} → Enqueuer J → List J
incoming (received_job j) = j ∷ []
incoming (counted_job j) = j ∷ []
incoming receiving = []
incoming signalling = []
incoming enqueuer_stopped = []

abbrev pub outgoing : {J : Type 0} → Dequeuer J → List (Option J)
outgoing (sending j) = j ∷ []
outgoing (popped j) = j ∷ []
outgoing looking = []
outgoing checking = []
outgoing sleeping = []
outgoing awake = []
outgoing popping = []
outgoing dequeuer_stopped = []

-- The jobs of a list without its nil jobs.
abbrev pub jobs_of : {J : Type 0} → List (Option J) → List J
jobs_of [] = []
jobs_of (some j ∷ js) = j ∷ jobs_of js
jobs_of (none ∷ js) = jobs_of js

pub jobs_of-append :
    {J : Type 0} (xs ys : List (Option J)) → jobs_of (xs ++ ys) ≡ jobs_of xs ++ jobs_of ys
jobs_of-append [] ys = refl
jobs_of-append (some x ∷ xs) ys = ap (◌∷◌ x) (jobs_of-append xs ys)
jobs_of-append (none ∷ xs) ys = jobs_of-append xs ys

-- No job is nil.
abbrev pub IsFull : {J : Type 0} → List (Option J) → Type 0
IsFull out = out ≡ map some (jobs_of out)

pub IsFull-along : {J : Type 0} {xs ys : List (Option J)} → xs ≡ ys → IsFull xs → IsFull ys
IsFull-along e full = rw (sym e) full

pub jobs_of-snoc :
    {J : Type 0} (job : J) (xs : List (Option J)) → IsFull xs → IsFull (xs ++ some job ∷ [])
jobs_of-snoc job xs full =
    ap (λ ys. ys ++ some job ∷ []) full
    ∙ sym (map-append some (jobs_of xs) (job ∷ []))
    ∙ sym (ap (map some) (jobs_of-append xs (some job ∷ [])))

pub snoc-full : {J : Type 0} (xs : List J) (y : J) → xs ++ y ∷ [] ≢ []
snoc-full [] y e = ground (arith, e)
snoc-full (x ∷ xs) y e = ground (arith, e)

pub snoc-cases :
    {J : Type 0} (x : J) (xs : List J) → (ys : List J) × (y : J) × (x ∷ xs ≡ ys ++ y ∷ [])
snoc-cases x [] = ([], x, refl)
snoc-cases x (z ∷ xs) = let (ys, y, eq) = snoc-cases z xs in (x ∷ ys, y, ap (◌∷◌ x) eq)

-- Either policy takes one job out of a queue that is not empty, and leaves the others.
pub dequeue-takes :
    {J : Type 0} (weight : J → ℕ) (p : Policy) (jobs : List J)
    → jobs ≢ []
    → (j : J) × (rest : List J) × (dequeue p jobs ≡ (some j, rest))
      × (total weight jobs ≡ weight j + total weight rest)
unfolding dequeue fifo_dequeue_policy
dequeue-takes weight p [] full = ground (arith, full)
dequeue-takes weight fifo (x ∷ xs) full = (x, xs, refl, refl)
dequeue-takes weight lifo (x ∷ xs) full =
    let (ys, y, eq) = snoc-cases x xs in
    (
      y,
      ys,
      ap lifo_dequeue_policy eq ∙ lifo_at_end y ys,
      ap (total weight) eq ∙ omega (arith, total-append weight ys (y ∷ [])),
    )
