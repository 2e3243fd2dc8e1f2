-- ===== src/Bulkhead/Counts.antt =====
-- How many calls execute, and what the recorders count.
use goresilience.Prelude.{ℕ, ◌+◌, ◌≤◌, ◌≡◌, Option, none, some, List, [], ◌∷◌, arith}
use goresilience.Prelude.Int.{pos_part}
use goresilience.Prelude.Families.{tally, tally-write, tally-le, tally-const}
use goresilience.Errors.{Error}
use goresilience.Bulkhead.{
  Config, Caller, outside, queued, handed, returned, Call, Worker, idle, holding, running, gone,
  System, not_called, pool_started, Step, enter, hand, give_up, process, finish, collect, close,
  leave, Reach, start, later,
}
use goresilience.Bulkhead.Invariant.{Inv, Reach-Inv}

-- A call whose job a worker has, and a worker that has one.
abbrev executes : Caller → Option (Option Error) → ℕ
executes handed none = 1
executes handed (some err) = 0
executes outside r = 0
executes queued r = 0
executes (returned err) r = 0

abbrev pub executing : Call → ℕ
executing c = executes c.caller c.res_c

abbrev pub busy : Worker → ℕ
busy (holding c) = 1
busy (running c) = 1
busy idle = 0
busy gone = 0

-- A job that a worker has and has not counted yet.
abbrev pub uncounted : Worker → ℕ
uncounted (holding c) = 1
uncounted (running c) = 0
uncounted idle = 0
uncounted gone = 0

abbrev waits : Caller → ℕ
waits queued = 1
waits outside = 0
waits handed = 0
waits (returned err) = 0

abbrev pub waiting : Call → ℕ
waiting c = waits c.caller

-- A call that has returned without a run.
abbrev gives_up : Caller → List (Option Error) → ℕ
gives_up (returned err) [] = 1
gives_up (returned err) (x ∷ xs) = 0
gives_up outside xs = 0
gives_up queued xs = 0
gives_up handed xs = 0

abbrev pub gave_up : Call → ℕ
gave_up c = gives_up c.caller c.outcomes

module _ (cfg : Config) (calls : ℕ) where
  abbrev pub size : ℕ
  size = pos_part cfg.workers

  pub record Counted (s : System) : Type 0 where
    pub served : tally executing calls s.calls ≡ tally busy size s.workers
    pub queued :
        s.queued_total
        ≡ tally waiting calls s.calls
          + s.timeouts_total
          + s.processed_total
          + tally uncounted size s.workers
    pub timeouts : s.timeouts_total ≡ tally gave_up calls s.calls

  ruleset counting = (arith, tally-write)

  Step-Counted : {s t : System} → Step cfg calls s t → Inv cfg calls s → Counted s → Counted t
  Step-Counted (enter d l e) v n = grind (counting, v.fits d)
  Step-Counted (hand d k l m e f) v n = grind (counting, v.fits d)
  Step-Counted (give_up d l x e) v n = grind (counting, v.fits d)
  Step-Counted (process d k l e) v n = grind counting
  Step-Counted (finish d k err l e f) v n = grind (counting, v.linked k d)
  Step-Counted (collect d err e f) v n = grind (counting, v.fits d, v.known d)
  Step-Counted (close e) v n = record {
    served = n.served;
    queued = n.queued;
    timeouts = n.timeouts;
  }
  Step-Counted (leave k l e f) v n = grind counting

  pool_started-Counted : Counted pool_started
  pool_started-Counted = record {
    served = omega (arith, tally-const executing not_called calls, tally-const busy idle size);
    queued = omega (arith, tally-const waiting not_called calls, tally-const uncounted idle size);
    timeouts = omega (arith, tally-const gave_up not_called calls);
  }

  Reach-Counted : {n : ℕ} {s : System} → Reach cfg calls n s → Counted s
  Reach-Counted start = pool_started-Counted
  Reach-Counted (later before st) =
      Step-Counted st (Reach-Inv cfg calls before) (Reach-Counted before)

  busy-le : (a : Worker) → busy a ≤ 1
  busy-le a = ground arith

  -- In every interleaving the jobs that execute are as many as the busy workers, and so at most
  -- `Workers`, however many calls there are.
  pub Reach-capacity :
      {n : ℕ} {s : System}
      → Reach cfg calls n s
      → (tally executing calls s.calls ≡ tally busy size s.workers)
        × (tally executing calls s.calls ≤ size)
  Reach-capacity {s = s} reach =
      let c = Reach-Counted reach in
      (c.served, omega (arith, c.served, tally-le busy 1 busy-le size s.workers))

  -- In every interleaving what was counted as queued is what waits, what was counted as timed out,
  -- what was counted as processed, and the jobs that a worker is about to count; and the timeouts
  -- that were counted are the calls that have returned without a run.
  pub Reach-totals :
      {n : ℕ} {s : System}
      → Reach cfg calls n s
      → (s.queued_total
          ≡ tally waiting calls s.calls
            + s.timeouts_total
            + s.processed_total
            + tally uncounted size s.workers)
        × (s.timeouts_total ≡ tally gave_up calls s.calls)
  Reach-totals reach = let c = Reach-Counted reach in (c.queued, c.timeouts)
