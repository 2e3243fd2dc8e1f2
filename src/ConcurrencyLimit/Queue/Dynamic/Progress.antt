-- ===== src/ConcurrencyLimit/Queue/Dynamic/Progress.antt =====
-- The steps that the two goroutines can take while jobs wait.
use goresilience.Prelude.{◌≡◌, ◌≢◌, refl, ◌⊎◌, inl, inr, [], arith, Bool-cases}
use goresilience.ConcurrencyLimit.Queue.Dynamic.{
  Policy, dequeue, Enqueuer, receiving, received_job, counted_job, signalling, enqueuer_stopped,
  Dequeuer, looking, checking, sleeping, awake, popping, popped, sending, dequeuer_stopped, Queue,
  Step, signal, stop_dequeuer, go_on, find_job, wake, woken_by_job, pop, count_out, deliver, Reach,
}
use goresilience.ConcurrencyLimit.Queue.Dynamic.Wakeup.{Reach-wakes_up}

signalling-cases : {J : Type 0} (e : Enqueuer J) → (e ≡ signalling) ⊎ (e ≢ signalling)
signalling-cases receiving = inr (λ h. ground arith)
signalling-cases (received_job j) = inr (λ h. ground arith)
signalling-cases (counted_job j) = inr (λ h. ground arith)
signalling-cases signalling = inl refl
signalling-cases enqueuer_stopped = inr (λ h. ground arith)

-- The dequeuer leaves its place, or the enqueuer sends its signal and releases the lock.
abbrev pub Advances : {J : Type 0} → Queue J → Queue J → Type 0
Advances q r = (r.dequeuer ≢ q.dequeuer) ⊎ ((q.enqueuer ≡ signalling) × (r.enqueuer ≡ receiving))

abbrev Advance : {J : Type 0} → Queue J → Type 0
Advance q = (r : Queue _) × Step q r × Advances q r

by_signal : {J : Type 0} (q : Queue J) → q.enqueuer ≡ signalling → Advance q
by_signal q e = (_, signal e, inr (e, refl))

advance :
    {J : Type 0} {p : Policy} (q : Queue J)
    → Reach p q
    → q.jobs ≢ []
    → q.dequeuer ≢ dequeuer_stopped
    → q.enqueuer ≢ signalling
    → (d : Dequeuer J) → q.dequeuer ≡ d
    → Advance q
advance q reach full running free looking e = elim (Bool-cases q.stopped) [
  | inl h ↦ (_, stop_dequeuer e h, inl (λ x. ground (arith, x, e)))
  | inr h ↦ (_, go_on e h, inl (λ x. ground (arith, x, e)))
]
advance q reach full running free checking e =
    (_, find_job e free full, inl (λ h. ground (arith, h, e)))
advance q reach full running free sleeping e = elim (Reach-wakes_up reach e full) [
  | inl w ↦ (_, wake e w, inl (λ h. ground (arith, h, e)))
  | inr s ↦ by_signal q s
]
advance q reach full running free awake e =
    (_, woken_by_job e free full, inl (λ h. ground (arith, h, e)))
advance q reach full running free popping e = (
  _,
  pop (dequeue q.policy q.jobs).0 (dequeue q.policy q.jobs).1 e free refl,
  inl (λ h. ground (arith, h, e)),
)
advance q reach full running free (popped j) e =
    (_, count_out 0 j e, inl (λ h. ground (arith, h, e)))
advance q reach full running free (sending j) e = (_, deliver j e, inl (λ h. ground (arith, h, e)))
advance q reach full running free dequeuer_stopped e = absurd (running e)

-- While jobs wait, a dequeuer at any place but the stopped one can go on (or stop, if told to), or the enqueuer can send
-- its signal, which releases the lock for it: the two never block one another. A job that is sent
-- is taken to be received.
pub Reach-Advances :
    {J : Type 0} {p : Policy} {q : Queue J}
    → Reach p q
    → q.jobs ≢ []
    → q.dequeuer ≢ dequeuer_stopped
    → (r : Queue J) × Step q r × Advances q r
Reach-Advances {q} reach full running = elim (signalling-cases q.enqueuer) [
  | inl e ↦ by_signal q e
  | inr free ↦ advance q reach full running free q.dequeuer refl
]
