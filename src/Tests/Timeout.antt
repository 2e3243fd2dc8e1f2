-- ===== src/Tests/Timeout.antt =====
-- Calls that end in time and too late.
use goresilience.Prelude.{◌⊎◌, refl, true, none, some}
use goresilience.Prelude.Int.{pos}
use goresilience.Errors.{err_timeout}
use goresilience.Timeout.{Config, Call, waiting, returned, close, give_up, Reach, start, later}
use goresilience.Timeout.Outcome.{Finished, TimedOut, Reach-returned}

abbrev config : Config
config = record { timeout = pos 5; cancel = true }

abbrev late : Call
late = record { errc = none; finished = none; done = true; caller = waiting; timeouts = 0 }

late-Reach : Reach config late
late-Reach = later start close

abbrev timed_out : Call
timed_out = record {
  errc = none;
  finished = none;
  done = true;
  caller = returned (some err_timeout);
  timeouts = 1;
}

timed_out-Reach : Reach config timed_out
timed_out-Reach = later late-Reach (give_up refl refl)

Reach-returned_example :
    Finished timed_out (some err_timeout) ⊎ TimedOut timed_out (some err_timeout)
Reach-returned_example = Reach-returned config (some err_timeout) timed_out-Reach refl
