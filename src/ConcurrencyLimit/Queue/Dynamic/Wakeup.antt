-- ===== src/ConcurrencyLimit/Queue/Dynamic/Wakeup.antt =====
-- The signals of the enqueuer to the dequeuer.
use goresilience.Prelude.{◌≡◌, ◌≢◌, refl, ◌⊎◌, inl, inr, true, [], arith}
use goresilience.ConcurrencyLimit.Queue.{enqueue_at_end_policy}
use goresilience.ConcurrencyLimit.Queue.Dynamic.{
  Policy, signalling, sleeping, Queue, Step, set_dequeue_policy, ask_since_last_empty, close_stop,
  receive, count_in, enqueue, signal, stop_enqueuer, find_empty, Reach, start, later,
}

-- A dequeuer that sleeps on jobs has its signal, or will get it from the enqueuer.
abbrev IsAwaited : {J : Type 0} → Queue J → Type 0
IsAwaited q = q.dequeuer ≡ sleeping → (q.jobs ≡ []) ⊎ (q.wake_up ≡ true) ⊎ (q.enqueuer ≡ signalling)

Step-IsAwaited : {J : Type 0} {q r : Queue J} → Step q r → IsAwaited q → IsAwaited r
unfolding enqueue_at_end_policy
Step-IsAwaited (set_dequeue_policy p) v s = v s
Step-IsAwaited (ask_since_last_empty now) v s = v s
Step-IsAwaited close_stop v s = v s
Step-IsAwaited (receive job e) v s = ground (arith, v s, e)
Step-IsAwaited {q = q} (count_in now job e) v s = ground (arith, v s, e)
Step-IsAwaited (enqueue job e) v s = inr (inr refl)
Step-IsAwaited (signal e) v s = inr (inl refl)
Step-IsAwaited (stop_enqueuer e f) v s = ground (arith, v s, e)
Step-IsAwaited (find_empty e f empty) v s = inl empty
Step-IsAwaited st v s = ground arith

Reach-IsAwaited : {J : Type 0} {p : Policy} {q : Queue J} → Reach p q → IsAwaited q
Reach-IsAwaited start s = ground arith
Reach-IsAwaited (later before st) s = Step-IsAwaited st (Reach-IsAwaited before) s

-- No wake-up is lost: whenever the dequeuer sleeps and a job waits, the signal is in the buffer, or
-- the enqueuer is about to send it. This holds in every interleaving, changes of policy and stops
-- included.
pub Reach-wakes_up :
    {J : Type 0} {p : Policy} {q : Queue J}
    → Reach p q
    → q.dequeuer ≡ sleeping
    → q.jobs ≢ []
    → (q.wake_up ≡ true) ⊎ (q.enqueuer ≡ signalling)
Reach-wakes_up reach asleep full = elim (Reach-IsAwaited reach asleep) [
  | inl empty ↦ absurd (full empty)
  | inr signalled ↦ signalled
]
