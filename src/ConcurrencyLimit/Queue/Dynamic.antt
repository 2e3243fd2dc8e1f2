-- ===== src/ConcurrencyLimit/Queue/Dynamic.antt =====
-- The two goroutines of the dynamic queue, `enqueuer` and `dequeuer` of queue.go, and what happens
-- to a queue around them, in any order. Each step is what happens under the lock of the jobs, or one
-- operation on a channel.
use goresilience.Prelude.Int.{pos}
use goresilience.Prelude.{ℕ, ◌≡◌, ◌≢◌, Bool, true, false, Option, none, some, List, [], ◌∷◌, ◌++◌}
use goresilience.ConcurrencyLimit.Queue.{
  QueueStats, inc, decr, since_last_empty, enqueue_at_end_policy, lifo_dequeue_policy,
  fifo_dequeue_policy,
}
pub mod Wakeup
pub mod Weights
pub mod Jobs
pub mod Size
pub mod Progress
pub mod Asleep

-- `SetDequeuePolicy` is called with one of these.
pub data Policy : Type 0 where
  fifo : Policy
  lifo : Policy

unfoldable pub dequeue : {J : Type 0} → Policy → List J → Option J × List J
dequeue fifo jobs = fifo_dequeue_policy jobs
dequeue lifo jobs = lifo_dequeue_policy jobs

-- Where the enqueuer stands.
pub data Enqueuer (J : Type 0) : Type 0 where
  receiving : Enqueuer J  -- in the outer `select`
  received_job : J → Enqueuer J  -- before `d.queueStats.inc()`
  counted_job : J → Enqueuer J  -- before `jobsMu.Lock()`
  signalling : Enqueuer J  -- in the inner `select`, holding `jobsMu`
  enqueuer_stopped : Enqueuer J

-- Where the dequeuer stands.
pub data Dequeuer (J : Type 0) : Type 0 where
  looking : Dequeuer J  -- at the `select` at the head of the loop
  checking : Dequeuer J  -- before the first `queueIsEmpty`
  sleeping : Dequeuer J  -- at `<-d.wakeUpDequeuerC`
  awake : Dequeuer J  -- before the second `queueIsEmpty`
  popping : Dequeuer J  -- before `jobsMu.Lock()`
  popped : Option J → Dequeuer J  -- before `d.queueStats.decr()`; `none` is a nil job
  sending : Option J → Dequeuer J  -- at `d.out <- job`
  dequeuer_stopped : Dequeuer J

pub record Queue (J : Type 0) : Type 0 where
  pub jobs : List J
  pub policy : Policy
  pub stats : QueueStats
  pub wake_up : Bool  -- whether the buffer of `wakeUpDequeuerC` is full
  pub stopped : Bool
  pub enqueuer : Enqueuer J
  pub dequeuer : Dequeuer J
  -- what has come in, and what has gone out
  pub arrived : List J
  pub delivered : List (Option J)

abbrev pub new_dynamic_queue : {J : Type 0} → Policy → Queue J
new_dynamic_queue policy = record {
  jobs = [];
  policy = policy;
  stats = record { last_time_empty = 0; size = pos 0 };
  wake_up = false;
  stopped = false;
  enqueuer = receiving;
  dequeuer = looking;
  arrived = [];
  delivered = [];
}

-- A step leaves alone what it does not name. The dequeuer reads or takes jobs only while the lock is
-- free; `signalling` holds it.
pub data Step {J : Type 0} (q : Queue J) : Queue J → Type 0 where
  set_dequeue_policy : (p : Policy) → Step q (record q { policy = p })
  ask_since_last_empty : (now : ℕ) → Step q (record q { stats = (since_last_empty now q.stats).1 })
  close_stop : Step q (record q { stopped = true })
  receive :
      (job : J)
      → q.enqueuer ≡ receiving
      → Step q (record q { enqueuer = received_job job; arrived = q.arrived ++ job ∷ [] })
  count_in :
      (now : ℕ) (job : J)
      → q.enqueuer ≡ received_job job
      → Step q (record q { enqueuer = counted_job job; stats = inc now q.stats })
  enqueue :
      (job : J)
      → q.enqueuer ≡ counted_job job
      → Step q (record q { enqueuer = signalling; jobs = enqueue_at_end_policy job q.jobs })
  -- The send is taken if the buffer is empty, and the default case if it is full.
  signal : q.enqueuer ≡ signalling → Step q (record q { enqueuer = receiving; wake_up = true })
  stop_enqueuer :
      q.enqueuer ≡ receiving → q.stopped ≡ true → Step q (record q { enqueuer = enqueuer_stopped })
  stop_dequeuer :
      q.dequeuer ≡ looking → q.stopped ≡ true → Step q (record q { dequeuer = dequeuer_stopped })
  go_on : q.dequeuer ≡ looking → q.stopped ≡ false → Step q (record q { dequeuer = checking })
  find_empty :
      q.dequeuer ≡ checking
      → q.enqueuer ≢ signalling
      → q.jobs ≡ []
      → Step q (record q { dequeuer = sleeping })
  find_job :
      q.dequeuer ≡ checking
      → q.enqueuer ≢ signalling
      → q.jobs ≢ []
      → Step q (record q { dequeuer = popping })
  wake :
      q.dequeuer ≡ sleeping
      → q.wake_up ≡ true
      → Step q (record q { dequeuer = awake; wake_up = false })
  still_empty :
      q.dequeuer ≡ awake
      → q.enqueuer ≢ signalling
      → q.jobs ≡ []
      → Step q (record q { dequeuer = looking })
  woken_by_job :
      q.dequeuer ≡ awake
      → q.enqueuer ≢ signalling
      → q.jobs ≢ []
      → Step q (record q { dequeuer = popping })
  pop :
      (job : Option J) (rest : List J)
      → q.dequeuer ≡ popping
      → q.enqueuer ≢ signalling
      → dequeue q.policy q.jobs ≡ (job, rest)
      → Step q (record q { dequeuer = popped job; jobs = rest })
  count_out :
      (now : ℕ) (job : Option J)
      → q.dequeuer ≡ popped job
      → Step q (record q { dequeuer = sending job; stats = decr now q.stats })
  deliver :
      (job : Option J)
      → q.dequeuer ≡ sending job
      → Step q (record q { dequeuer = looking; delivered = q.delivered ++ job ∷ [] })

pub data Reach {J : Type 0} (p : Policy) : Queue J → Type 0 where
  start : Reach p (new_dynamic_queue p)
  later : {q r : Queue J} → Reach p q → Step q r → Reach p r

-- Any further steps.
pub data Steps {J : Type 0} (q : Queue J) : Queue J → Type 0 where
  here : Steps q q
  more : {r s : Queue J} → Steps q r → Step r s → Steps q s
