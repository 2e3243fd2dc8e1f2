-- ===== src/ConcurrencyLimit/Queued.antt =====
-- concurrencylimit/execute/lifo.go and codel.go: an executor as a whole. Any number of calls of
-- `Execute`, the dynamic queue, the goroutine `fromQueueToWorkerPool` and the worker pool, as steps in
-- any order. Calls are numbered, and a job is the number of its call. What `SinceLastEmpty` and
-- `SetDequeuePolicy` do at the head of `Execute` of codel.go are steps of the queue.
use goresilience.Prelude.{
  ℕ, ◌<◌, ◌≡◌, Bool, true, false, Option, none, some, List, [], ◌∷◌, ◌++◌, get_elem?,
}
use goresilience.Prelude.Int.{ℤ}
use goresilience.Prelude.Families.{write}
use goresilience.Errors.{Error, err_rejected_execution}
use goresilience.ConcurrencyLimit.Handshake.{
  Kind, stays, Caller, waiting, cancelling, collecting, returned,
}
use goresilience.ConcurrencyLimit.Queue.Dynamic
use goresilience.ConcurrencyLimit.Queue.Dynamic.{
  Policy, fifo, lifo, Queue, new_dynamic_queue, sending, received_job, looking,
}
use goresilience.ConcurrencyLimit.Workers.{WorkerPool, new_worker_pool, set_worker_quantity}
pub mod Stages
pub mod Work
pub mod Refines
pub mod Alone
pub mod Simulates
pub mod Capacity
pub mod Progress

-- The variables of one call of `Execute`. A call has two goroutines: its own, and the one that sends
-- its job to the queue.
pub record Call : Type 0 where
  pub entered : Bool  -- whether `Execute` is called
  pub sent : Bool  -- whether the job is in the queue, or has been
  pub caller : Caller
  pub dequeued : Bool  -- whether `dequeuedJob` is closed
  pub canceled : Bool  -- whether there is something to receive from `canceledJob`
  pub res : Option (Option Error)
  pub outcomes : List (Option Error)  -- what the runs of `f` have returned

-- Where `fromQueueToWorkerPool` stands; `none` is a nil job.
pub data Forwarder : Type 0 where
  receiving : Forwarder
  forwarding : Option ℕ → Forwarder
  forwarder_stopped : Forwarder

-- Where a worker stands; the number is that of the job.
pub data Worker : Type 0 where
  idle : Worker  -- at its `select`, or not started
  holding : ℕ → Worker  -- before `close(dequeuedJob)`
  started : ℕ → Worker  -- at the `select` of the job
  running : ℕ → Worker  -- in `f`
  gone : Worker

pub record System : Type 0 where
  pub calls : ℕ → Call
  pub queue : Queue ℕ
  pub forwarder : Forwarder
  pub workers : ℕ → Worker
  pub pool : WorkerPool

abbrev pub not_called : Call
not_called = record {
  entered = false;
  sent = false;
  caller = waiting;
  dequeued = false;
  canceled = false;
  res = none;
  outcomes = [];
}

-- The policy that the queue of `NewLIFO` and of `NewAdaptiveLIFOCodel` is made with.
abbrev pub first_policy : Kind → Policy
first_policy Kind.lifo = lifo
first_policy Kind.codel = fifo

-- `NewLIFO` and `NewAdaptiveLIFOCodel`
unfoldable pub new_executor : Kind → System
new_executor kind = record {
  calls = λ c. not_called;
  queue = new_dynamic_queue (first_policy kind);
  forwarder = receiving;
  workers = λ i. idle;
  pool = new_worker_pool;
}

-- The queue after a job has come in, and after one has gone out.
abbrev pub take_in : ℕ → Queue ℕ → Queue ℕ
take_in c q = record q { enqueuer = received_job c; arrived = q.arrived ++ c ∷ [] }

abbrev pub let_out : Option ℕ → Queue ℕ → Queue ℕ
let_out job q = record q { dequeuer = looking; delivered = q.delivered ++ job ∷ [] }

module _ (kind : Kind) where
  pub data Step (s : System) : System → Type 0 where
    call :
        (c : ℕ)
        → (s.calls c).entered ≡ false
        → Step s (record s { calls = write s.calls c (record (s.calls c) { entered = true }) })
    send :
        (c : ℕ)
        → (s.calls c).entered ≡ true
        → (s.calls c).sent ≡ false
        → s.queue.enqueuer ≡ Dynamic.receiving
        → Step s (record s {
          calls = write s.calls c (record (s.calls c) { sent = true });
          queue = take_in c s.queue;
        })
    -- Any step of the queue but the two in which it meets others.
    within_queue :
        {q : Queue ℕ}
        → Dynamic.Step s.queue q
        → q.arrived ≡ s.queue.arrived
        → q.delivered ≡ s.queue.delivered
        → Step s (record s { queue = q })
    forward :
        (job : Option ℕ)
        → s.forwarder ≡ receiving
        → s.queue.dequeuer ≡ sending job
        → Step s (record s { forwarder = forwarding job; queue = let_out job s.queue })
    hand :
        (c i : ℕ)
        → s.forwarder ≡ forwarding (some c)
        → i < s.pool.fresh
        → s.workers i ≡ idle
        → Step s (record s { forwarder = receiving; workers = write s.workers i (holding c) })
    stop_forwarder :
        s.forwarder ≡ receiving
        → s.queue.stopped ≡ true
        → Step s (record s { forwarder = forwarder_stopped })
    begin :
        (c i : ℕ)
        → s.workers i ≡ holding c
        → Step s (record s {
          calls = write s.calls c (record (s.calls c) { dequeued = true });
          workers = write s.workers i (started c);
        })
    skip :
        (c i : ℕ)
        → s.workers i ≡ started c
        → (s.calls c).canceled ≡ true
        → Step s (record s {
          calls = write s.calls c (record (s.calls c) { canceled = stays kind });
          workers = write s.workers i idle;
        })
    go :
        (c i : ℕ)
        → s.workers i ≡ started c
        → (s.calls c).canceled ≡ false
        → Step s (record s { workers = write s.workers i (running c) })
    finish :
        (c i : ℕ) (err : Option Error)
        → s.workers i ≡ running c
        → (s.calls c).res ≡ none
        → Step s (record s {
          calls =
              write s.calls c
                (record (s.calls c) { res = some err; outcomes = err ∷ (s.calls c).outcomes });
          workers = write s.workers i idle;
        })
    notice :
        (c : ℕ)
        → (s.calls c).entered ≡ true
        → (s.calls c).caller ≡ waiting
        → (s.calls c).dequeued ≡ true
        → Step s (record s { calls = write s.calls c (record (s.calls c) { caller = collecting }) })
    expire :
        (c : ℕ)
        → (s.calls c).entered ≡ true
        → (s.calls c).caller ≡ waiting
        → Step s (record s { calls = write s.calls c (record (s.calls c) { caller = cancelling }) })
    cancel :
        (c : ℕ)
        → (s.calls c).caller ≡ cancelling
        → Step s (record s {
          calls = write s.calls c (record (s.calls c) {
            caller = returned (some err_rejected_execution);
            canceled = true;
          });
        })
    collect :
        (c : ℕ) (err : Option Error)
        → (s.calls c).caller ≡ collecting
        → (s.calls c).res ≡ some err
        → Step s (record s {
          calls = write s.calls c (record (s.calls c) { caller = returned err; res = none });
        })
    set_quantity : (q : ℤ) → Step s (record s { pool = set_worker_quantity q s.pool })
    -- A worker whose channel is closed may take one more job, since its `select` is free to choose.
    leave :
        (i k : ℕ)
        → get_elem? s.pool.closed k ≡ some i
        → s.workers i ≡ idle
        → Step s (record s { workers = write s.workers i gone })

  pub data Reach : System → Type 0 where
    start : Reach (new_executor kind)
    later : {s t : System} → Reach s → Step s t → Reach t
