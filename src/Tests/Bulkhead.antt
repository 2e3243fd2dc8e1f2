-- ===== src/Tests/Bulkhead.antt =====
-- A bulkhead with one worker, two calls, and no wait time where none is named.
use goresilience.Prelude.{
  ◌⊎◌, ℕ, ◌+◌, ◌*◌, ◌≤◌, ◌<◌, ◌≡◌, refl, true, false, none, some, [], ◌∷◌, arith,
}
use goresilience.Prelude.Int.{pos, pos_part}
use goresilience.Prelude.Families.{write, tally}
use goresilience.Errors.{external}
use goresilience.Bulkhead.{
  Config, defaults, queued, handed, returned, idle, holding, running, gone, System, not_called,
  pool_started, stand, Step, enter, hand, process, finish, collect, Reach, start, later,
}
use goresilience.Bulkhead.Invariant.{Settled, Reach-Settled}
use goresilience.Bulkhead.Counts.{
  executing, busy, uncounted, waiting, gave_up, Reach-capacity, Reach-totals,
}
use goresilience.Bulkhead.Runs.{HasReturned, Reach-ends_or_goes_on}
use goresilience.Bulkhead.Stopped.{here, more, Steps-queued}

abbrev config : Config
config = record { workers = pos 1; max_wait_time = pos 0 }

-- The second call waits.
abbrev waited : System
waited = record pool_started {
  calls = write pool_started.calls 1 (stand not_called queued);
  queued_total = 1;
}

abbrev both : System
both = record waited { calls = write waited.calls 0 (stand not_called queued); queued_total = 2 }

abbrev taken : System
taken = record both {
  calls = write both.calls 0 (stand (both.calls 0) handed);
  workers = write both.workers 0 (holding 0);
}

abbrev runs : System
runs = record taken { workers = write taken.workers 0 (running 0); processed_total = 1 }

abbrev ran : System
ran = record runs {
  calls = write runs.calls 0 (record (runs.calls 0) {
    res_c = some (some (external 7));
    outcomes = some (external 7) ∷ [];
  });
  workers = write runs.workers 0 idle;
}

abbrev answered : System
answered = record ran {
  calls =
      write ran.calls 0
        (record (ran.calls 0) { caller = returned (some (external 7)); res_c = none });
}

runs-Reach : Reach config 2 4 runs
runs-Reach =
    later
      (later (later (later start (enter 1 (omega arith) refl)) (enter 0 (omega arith) refl))
        (hand 0 0 (omega arith) (omega arith) refl refl))
      (process 0 0 (omega arith) refl)

answered-Reach : Reach config 2 6 answered
answered-Reach =
    later (later runs-Reach (finish 0 0 (some (external 7)) (omega arith) refl refl))
      (collect 0 (some (external 7)) refl refl)

Reach-Settled_example : Settled (answered.calls 0) (some (external 7))
Reach-Settled_example = Reach-Settled config 2 0 (some (external 7)) answered-Reach refl

Reach-capacity_example :
    (tally executing 2 runs.calls ≡ tally busy 1 runs.workers) × (tally executing 2 runs.calls ≤ 1)
Reach-capacity_example = Reach-capacity config 2 runs-Reach

Reach-totals_example :
    (2 ≡ tally waiting 2 runs.calls + 0 + 1 + tally uncounted 1 runs.workers)
    × (0 ≡ tally gave_up 2 runs.calls)
Reach-totals_example = Reach-totals config 2 runs-Reach

-- The first call has returned, and the second can go on.
Reach-ends_or_goes_on_example :
    (6 ≤ 5 * 2 + pos_part config.workers + 1)
    × ((answered.stopped ≡ true)
        ⊎ (((c : ℕ) → c < 2 → HasReturned answered c)
            ⊎ ((t : System) × Step config 2 answered t × (t.stopped ≡ false))))
unfolding defaults
Reach-ends_or_goes_on_example = Reach-ends_or_goes_on config 2 answered-Reach

abbrev all_gone : System
all_gone = record both { workers = write both.workers 0 gone; stopped = true }

abbrev three_wait : System
three_wait = record all_gone {
  calls = write all_gone.calls 2 (stand (all_gone.calls 2) queued);
  queued_total = 3;
}

gone-first : (i : ℕ) → i < 1 → all_gone.workers i ≡ gone
gone-first i h = ground arith

Steps-queued_example : (three_wait.calls 1).caller ≡ queued
Steps-queued_example =
    Steps-queued config 3 {s = all_gone} {t = three_wait} 1 (more here (enter 2 (omega arith) refl))
      refl gone-first refl
