-- ===== src/ConcurrencyLimit/Workers/Accounts.antt =====
-- Which workers of the pool run, and which stop channels are closed.
use mathlib.Core.List.{append_assoc}
use goresilience.Prelude.{
  ℕ, zero, suc, ◌+◌, ◌-◌, ◌≡◌, refl, sym, ap, ◌∙◌, inl, inr, List, [], ◌∷◌, ◌++◌, length, take,
  drop, arith, ltb, ◌==◌, Bool-cases, length-append, length-drop, take-append-drop,
}
use goresilience.Prelude.Int.{ℤ, pos, negsuc}
use goresilience.ConcurrencyLimit.Workers.{
  WorkerPool, new_worker_pool, increase_workers, decrease_workers, set_worker_quantity,
}

-- The channels `n, n + 1, …`, as many as `k`.
abbrev pub channels : ℕ → ℕ → List ℕ
channels n zero = []
channels n (suc k) = n ∷ channels (suc n) k

-- The channels that are closed, in the order in which that happened, and those of the workers make
-- up all that were made, in order: none is closed twice, and none that is closed belongs to a worker.
abbrev pub IsAccounted : WorkerPool → Type 0
IsAccounted w = w.closed ++ w.worker_stoppers ≡ channels 0 w.fresh

channels-snoc : (n k : ℕ) → channels n k ++ (n + k) ∷ [] ≡ channels n (suc k)
channels-snoc n zero = ap (λ x. x ∷ []) (omega arith)
channels-snoc n (suc k) =
    ap (◌∷◌ n) (ap (λ x. channels (suc n) k ++ x ∷ []) (omega arith) ∙ channels-snoc (suc n) k)

increase_workers-length :
    (n : ℕ) (w : WorkerPool)
    → length (increase_workers n w).worker_stoppers ≡ length w.worker_stoppers + n
unfolding increase_workers
increase_workers-length zero w = omega arith
increase_workers-length (suc n) w =
    omega (arith, increase_workers-length n _, length-append w.worker_stoppers (w.fresh ∷ []))

increase_workers-IsAccounted :
    (n : ℕ) (w : WorkerPool) → IsAccounted w → IsAccounted (increase_workers n w)
unfolding increase_workers
increase_workers-IsAccounted zero w v = v
increase_workers-IsAccounted (suc n) w v = increase_workers-IsAccounted n _ (
    sym (append_assoc w.closed w.worker_stoppers (w.fresh ∷ []))
    ∙ ap (λ xs. xs ++ w.fresh ∷ []) v
    ∙ ap (λ x. channels 0 w.fresh ++ x ∷ []) (omega arith)
    ∙ channels-snoc 0 w.fresh)

decrease_workers-IsAccounted :
    (n : ℕ) (w : WorkerPool) → IsAccounted w → IsAccounted (decrease_workers n w)
unfolding decrease_workers
decrease_workers-IsAccounted n w v =
    append_assoc w.closed (take n w.worker_stoppers) (drop n w.worker_stoppers)
    ∙ ap (◌++◌ w.closed) (take-append-drop n w.worker_stoppers)
    ∙ v

decrease_workers-length :
    (n : ℕ) (w : WorkerPool)
    → length (decrease_workers n w).worker_stoppers ≡ length w.worker_stoppers - n
unfolding decrease_workers
decrease_workers-length n w = length-drop n w.worker_stoppers

-- A quantity that is not negative becomes the number of workers; a negative one is ignored.
abbrev pub wanted : ℤ → ℕ → ℕ
wanted (pos n) now = n
wanted (negsuc n) now = now

pub set_worker_quantity-lem :
    (q : ℤ) (w : WorkerPool)
    → IsAccounted w
    → IsAccounted (set_worker_quantity q w)
      × (length (set_worker_quantity q w).worker_stoppers ≡ wanted q (length w.worker_stoppers))
unfolding set_worker_quantity
set_worker_quantity-lem (negsuc n) w v = (v, refl)
set_worker_quantity-lem (pos n) w v = elim (Bool-cases (length w.worker_stoppers == n)) [
  | inl same ↦ rw same (v, ground arith)
  | inr other ↦ elim (Bool-cases (ltb (length w.worker_stoppers) n)) [
    | inl less ↦
        rw (other, less)
          (
            increase_workers-IsAccounted (n - length w.worker_stoppers) w v,
            increase_workers-length (n - length w.worker_stoppers) w ∙ ground arith,
          )
    | inr more ↦
        rw (other, more)
          (
            decrease_workers-IsAccounted (length w.worker_stoppers - n) w v,
            decrease_workers-length (length w.worker_stoppers - n) w ∙ ground arith,
          )
  ]
]

-- A sequence of calls of `SetWorkerQuantity`.
unfoldable pub set_all : List ℤ → WorkerPool → WorkerPool
set_all [] w = w
set_all (q ∷ qs) w = set_all qs (set_worker_quantity q w)

abbrev pub last_wanted : List ℤ → ℕ → ℕ
last_wanted [] now = now
last_wanted (q ∷ qs) now = last_wanted qs (wanted q now)

set_all-keeps :
    (qs : List ℤ) (w : WorkerPool)
    → IsAccounted w
    → IsAccounted (set_all qs w)
      × (length (set_all qs w).worker_stoppers ≡ last_wanted qs (length w.worker_stoppers))
unfolding set_all
set_all-keeps [] w v = (v, refl)
set_all-keeps (q ∷ qs) w v =
    let (kept, size) = set_worker_quantity-lem q w v in
    let (after, last) = set_all-keeps qs (set_worker_quantity q w) kept in
    (after, last ∙ ap (last_wanted qs) size)

-- After any calls of `SetWorkerQuantity` on a new pool as many workers run as the last quantity that
-- was not negative asks for, and each stop channel is closed at most once, oldest worker first.
pub set_all_accounts :
    (qs : List ℤ)
    → IsAccounted (set_all qs new_worker_pool)
      × (length (set_all qs new_worker_pool).worker_stoppers ≡ last_wanted qs 0)
unfolding new_worker_pool
set_all_accounts qs = set_all-keeps qs new_worker_pool refl
