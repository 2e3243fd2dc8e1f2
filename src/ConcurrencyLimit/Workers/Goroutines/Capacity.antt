-- ===== src/ConcurrencyLimit/Workers/Goroutines/Capacity.antt =====
-- How many jobs the pool runs at once, and which workers have ended.
use native.Mathlib.Nat.{le_refl}
use goresilience.Prelude.{
  ℕ, zero, suc, ◌+◌, ◌-◌, ◌≤◌, ◌<◌, ◌≡◌, ◌≢◌, refl, ap, some, List, [], ◌∷◌, ◌++◌, length,
  get_elem?, take, arith, ◌==◌, ltb, inl, inr, Bool-cases, length-append,
}
use goresilience.Prelude.Int.{ℤ, pos, negsuc}
use goresilience.Prelude.Families.{tally, tally-tail, tally-only}
use goresilience.ConcurrencyLimit.Workers.{
  WorkerPool, new_worker_pool, increase_workers, decrease_workers, set_worker_quantity,
}
use goresilience.ConcurrencyLimit.Workers.Accounts.{IsAccounted, channels, set_worker_quantity-lem}
use goresilience.ConcurrencyLimit.Workers.Goroutines.{
  Worker, idle, running, gone, System, Step, set_quantity, finish, leave, Reach, start, later,
}

abbrev pub runs : Worker → ℕ
runs running = 1
runs idle = 0
runs gone = 0

channels-length : (n k : ℕ) → length (channels n k) ≡ k
channels-length n zero = refl
channels-length n (suc k) = ap suc (channels-length (suc n) k)

-- All channels are numbered in the order in which they are closed.
channels-prefix :
    (n k : ℕ) (xs ys : List ℕ) (j i : ℕ)
    → xs ++ ys ≡ channels n k
    → get_elem? xs j ≡ some i
    → i ≡ n + j
channels-prefix n k [] ys j i e h = cc
channels-prefix n zero (x ∷ xs) ys j i e h = cc
channels-prefix n (suc k) (x ∷ xs) ys zero i e h = ground (arith, e, h)
channels-prefix n (suc k) (x ∷ xs) ys (suc j) i e h =
    omega (arith, channels-prefix (suc n) k xs ys j i (cc) h)

get_elem?-lt : (xs : List ℕ) (j : ℕ) {i : ℕ} → get_elem? xs j ≡ some i → j < length xs
get_elem?-lt [] j h = cc
get_elem?-lt (x ∷ xs) zero h = omega arith
get_elem?-lt (x ∷ xs) (suc j) h = omega (arith, get_elem?-lt xs j h)

-- Channels are only added, and only closed.
increase_workers-grows :
    (n : ℕ) (w : WorkerPool)
    → ((increase_workers n w).closed ≡ w.closed) × (w.fresh ≤ (increase_workers n w).fresh)
unfolding increase_workers
increase_workers-grows zero w = (refl, omega arith)
increase_workers-grows (suc n) w =
    let (same, more) =
      increase_workers-grows n
        (record w { worker_stoppers = w.worker_stoppers ++ w.fresh ∷ []; fresh = suc w.fresh }) in
    (same, omega (arith, more))

set_worker_quantity-grows :
    (q : ℤ) (w : WorkerPool)
    → (length w.closed ≤ length (set_worker_quantity q w).closed)
      × (w.fresh ≤ (set_worker_quantity q w).fresh)
unfolding set_worker_quantity decrease_workers
set_worker_quantity-grows (negsuc n) w = (le_refl _, le_refl _)
set_worker_quantity-grows (pos n) w =
    let grown = increase_workers-grows (n - length w.worker_stoppers) w in
    let closed = length-append w.closed (take (length w.worker_stoppers - n) w.worker_stoppers) in
    elim (Bool-cases (length w.worker_stoppers == n)) [
      | inl same ↦ rw same (le_refl _, le_refl _)
      | inr other ↦ elim (Bool-cases (ltb (length w.worker_stoppers) n)) [
        | inl less ↦ rw (other, less) (omega (arith, ap length grown.0), grown.1)
        | inr more ↦ rw (other, more) (omega (arith, closed), le_refl _)
      ]
    ]

record Inv (s : System) : Type 0 where
  accounted : IsAccounted s.pool
  ended : (i : ℕ) → s.workers i ≡ gone → i < length s.pool.closed
  unmade : (i : ℕ) → s.pool.fresh ≤ i → s.workers i ≡ idle

-- As many channels were made as are closed or open.
made_channels :
    (w : WorkerPool) → IsAccounted w → w.fresh ≡ length w.closed + length w.worker_stoppers
made_channels w v =
    omega (arith, ap length v, channels-length 0 w.fresh, length-append w.closed w.worker_stoppers)

Step-Inv : {s t : System} → Step s t → Inv s → Inv t
Step-Inv {s} (set_quantity q) v = record {
  accounted = (set_worker_quantity-lem q s.pool v.accounted).0;
  ended = λ i g. omega (arith, v.ended i g, (set_worker_quantity-grows q s.pool).0);
  unmade = λ i g. v.unmade i (omega (arith, g, (set_worker_quantity-grows q s.pool).1));
}
Step-Inv (Step.take k l e) v = record {
  accounted = v.accounted;
  ended = λ i g. ground (arith, v.ended i);
  unmade = λ i g. ground (arith, v.unmade i);
}
Step-Inv (finish k e) v = record {
  accounted = v.accounted;
  ended = λ i g. ground (arith, v.ended i);
  unmade = λ i g. ground (arith, v.unmade i);
}
Step-Inv {s} (leave k j c e) v = record {
  accounted = v.accounted;
  ended = λ i g. ground (
    arith,
    v.ended i,
    channels-prefix 0 s.pool.fresh s.pool.closed s.pool.worker_stoppers j k v.accounted c,
    get_elem?-lt s.pool.closed j c,
  );
  unmade = λ i g. ground (
    arith,
    v.unmade i,
    g,
    channels-prefix 0 s.pool.fresh s.pool.closed s.pool.worker_stoppers j k v.accounted c,
    get_elem?-lt s.pool.closed j c,
    made_channels s.pool v.accounted,
  );
}

Reach-Inv : {s : System} → Reach s → Inv s
unfolding new_worker_pool
Reach-Inv start = record { accounted = refl; ended = λ i g. cc; unmade = λ i g. refl }
Reach-Inv (later before st) = Step-Inv st (Reach-Inv before)

runs-le : (a : Worker) → runs a ≤ 1
runs-le a = ground arith

-- In every interleaving of jobs, calls of `SetWorkerQuantity` and ends of workers, a worker whose
-- stop channel is open has not ended, and at most as many jobs run, on workers with any number, as
-- channels are open, and those that workers with a closed channel, the first ones, still run.
pub Reach-runs_le :
    {s : System} (m i : ℕ)
    → Reach s
    → length s.pool.closed ≤ i
    → (s.workers i ≢ gone)
      × (tally runs m s.workers
          ≤ tally runs (length s.pool.closed) s.workers + length s.pool.worker_stoppers)
Reach-runs_le {s} m i reach h =
    let v = Reach-Inv reach in
    let k = length s.pool.closed in
    let n = length s.pool.worker_stoppers in
    let all = made_channels s.pool v.accounted in
    let made : tally runs s.pool.fresh s.workers ≤ tally runs k s.workers + n =
      rw all (tally-tail runs runs-le n k s.workers) in
    let only = tally-only runs s.workers s.pool.fresh m (λ j g. ap runs (v.unmade j g)) in
    (λ g. absurd (omega (arith, v.ended i g)), omega (arith, only, made))
