-- ===== src/ConcurrencyLimit/Queued/Stages.antt =====
-- Where the job of one call stands in an executor that has a queue.
use goresilience.Prelude.{
  ℕ, ◌≡◌, refl, ◌∙◌, Bool, true, false, Option, some, List, if◌then◌else◌, ◌==◌,
}
use goresilience.ConcurrencyLimit.Handshake
use goresilience.ConcurrencyLimit.Queue.Dynamic.Weights.{total, jobs_of}
use goresilience.ConcurrencyLimit.Queued.{
  Call, Forwarder, forwarding, Worker, idle, holding, started, running, gone,
}

-- A call as the handshake sees it, with a place of its job.
abbrev pub shown : Call → Handshake.Job → Handshake.Call
shown q job = record {
  caller = q.caller;
  job = job;
  dequeued = q.dequeued;
  canceled = q.canceled;
  res = q.res;
  outcomes = q.outcomes;
}

-- What a worker has to do with a job.
pub data Mark : Type 0 where
  elsewhere : Mark
  holds : Mark
  starts : Mark
  runs : Mark

abbrev pub about : ℕ → Worker → Mark
about c idle = elsewhere
about c gone = elsewhere
about c (holding d) = if c == d then holds else elsewhere
about c (started d) = if c == d then starts else elsewhere
about c (running d) = if c == d then runs else elsewhere

-- The way of a job; the number is that of its worker.
pub data Stage : Type 0 where
  waits : Stage  -- not yet out of the queue
  passes : Stage  -- with the forwarder
  held : ℕ → Stage
  begun : ℕ → Stage
  runs_at : ℕ → Stage
  skipped : Stage
  done : Stage

abbrev pub mark_of : Stage → ℕ → Mark
mark_of (held i) k = if i == k then holds else elsewhere
mark_of (begun i) k = if i == k then starts else elsewhere
mark_of (runs_at i) k = if i == k then runs else elsewhere
mark_of _ k = elsewhere

-- How often the queue has let the job out.
abbrev pub handed_of : Stage → ℕ
handed_of waits = 0
handed_of _ = 1

abbrev pub passing : Stage → Bool
passing passes = true
passing _ = false

abbrev pub job_of : Stage → Handshake.Job
job_of (begun i) = Handshake.started
job_of (runs_at i) = Handshake.running
job_of skipped = Handshake.skipped
job_of done = Handshake.done
job_of _ = Handshake.queued

abbrev pub is : ℕ → ℕ → ℕ
is c d = if c == d then 1 else 0

abbrev pub times : ℕ → List ℕ → ℕ
times c jobs = total (is c) jobs

abbrev pub is_passing : ℕ → Forwarder → Bool
is_passing c (forwarding (some d)) = c == d
is_passing c _ = false

-- The job of `c` is at a stage, and nowhere else.
pub record At (workers : ℕ → Worker) (out : List (Option ℕ)) (f : Forwarder) (c : ℕ) (st : Stage)
    : Type 0 where
  pub marks : (k : ℕ) → about c (workers k) ≡ mark_of st k
  pub handed : times c (jobs_of out) ≡ handed_of st
  pub passed : is_passing c f ≡ passing st

-- What is known of a call seen alone, by its number.
abbrev pub View : Type 1
View = ℕ → Handshake.Call → Type 0

-- The job of the call is at a stage, and `P` is known of the call with this place of its job.
pub record Follows (P : View) (workers : ℕ → Worker) (out : List (Option ℕ)) (f : Forwarder) (c : ℕ)
    (q : Call) : Type 0 where
  pub stage : Stage
  pub at_stage : At workers out f c stage
  pub run : P c (shown q (job_of stage))

-- `Q` is known after one step of the handshake, or none, from where `P` is known.
pub record Advances (kind : Handshake.Kind) (P Q : View) : Type 0 where
  pub still : (c : ℕ) (x : Handshake.Call) → P c x → Q c x
  pub onward : (c : ℕ) (x y : Handshake.Call) → P c x → Handshake.Step kind x y → Q c y

module _ (kind : Handshake.Kind) (P Q : View) (advances : Advances kind P Q) where
  -- The same job, while others move.
  pub Follows-others :
      (ws ws' : ℕ → Worker) (out out' : List (Option ℕ)) (f f' : Forwarder) (c : ℕ) (q : Call)
      → ((k : ℕ) → about c (ws' k) ≡ about c (ws k))
      → times c (jobs_of out') ≡ times c (jobs_of out)
      → is_passing c f' ≡ is_passing c f
      → Follows P ws out f c q
      → Follows Q ws' out' f' c q
  Follows-others ws ws' out out' f f' c q same_marks same_out same_f v = record {
    stage = v.stage;
    at_stage = record {
      marks = λ k. same_marks k ∙ v.at_stage.marks k;
      handed = same_out ∙ v.at_stage.handed;
      passed = same_f ∙ v.at_stage.passed;
    };
    run = advances.still c _ v.run;
  }

  pub Follows-still :
      (ws : ℕ → Worker) (out : List (Option ℕ)) (f : Forwarder) (c : ℕ) (q : Call)
      → Follows P ws out f c q
      → Follows Q ws out f c q
  Follows-still ws out f c q v = Follows-others ws ws out out f f c q (λ k. refl) refl refl v

  -- A step that leaves the job where it is.
  pub Follows-stays :
      (ws : ℕ → Worker) (out : List (Option ℕ)) (f : Forwarder) (c : ℕ) (q r : Call)
      → ((j : Handshake.Job) → Handshake.Step kind (shown q j) (shown r j))
      → Follows P ws out f c q
      → Follows Q ws out f c r
  Follows-stays ws out f c q r st v = record {
    stage = v.stage;
    at_stage = v.at_stage;
    run = advances.onward c _ _ v.run (st (job_of v.stage));
  }
