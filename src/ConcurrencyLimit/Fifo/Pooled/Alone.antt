-- ===== src/ConcurrencyLimit/Fifo/Pooled/Alone.antt =====
-- Every call of the FIFO executor, seen alone, is a run of one caller and one job.
use mathlib.Core.Path.{subst}
use goresilience.Prelude.{
  ℕ, ◌+◌, ◌≡◌, ◌≢◌, refl, sym, ◌∙◌, ◌⊎◌, inl, inr, Bool, true, false, Option, none, some, [], ◌∷◌,
  arith, ◌==◌,
}
use goresilience.Prelude.Families.{write, write-each}
use goresilience.Errors.{Error, err_rejected_execution}
use goresilience.ConcurrencyLimit.Fifo
use goresilience.ConcurrencyLimit.Fifo.{Caller, waiting, handed, returned}
use goresilience.ConcurrencyLimit.Fifo.Outcome
use goresilience.ConcurrencyLimit.Fifo.Outcome.{Concluded, Reach-Concluded, Stands}
use goresilience.ConcurrencyLimit.Fifo.Pooled.{
  Call, Worker, idle, running, gone, System, new_fifo, Step, call, hand, reject, finish, collect,
  set_quantity, leave, Reach, start, later,
}

-- A call with a place of its job.
abbrev pub shown : Call → Fifo.Job → Fifo.Call
shown q job = record { caller = q.caller; job = job; result = q.result; outcomes = q.outcomes }

-- Whether a worker runs the job of `c`.
abbrev runs : ℕ → Worker → Bool
runs c (running d) = c == d
runs c _ = false

data Stage : Type 0 where
  before : Stage
  runs_at : ℕ → Stage
  after : Stage

abbrev mark_of : Stage → ℕ → Bool
mark_of (runs_at i) k = i == k
mark_of _ k = false

abbrev job_of : Stage → Fifo.Job
job_of before = Fifo.offered
job_of (runs_at i) = Fifo.running
job_of after = Fifo.done

-- The job runs at the worker of its stage and at no other, and the call, seen alone, is a run.
record Follows (workers : ℕ → Worker) (c : ℕ) (q : Call) : Type 0 where
  stage : Stage
  marks : (k : ℕ) → runs c (workers k) ≡ mark_of stage k
  steps : ℕ
  run : Fifo.Reach steps (shown q (job_of stage))

abbrev AllFollow : System → Type 0
AllFollow s = (c : ℕ) → Follows s.workers c (s.calls c)

others :
    (ws ws' : ℕ → Worker) (c : ℕ) (q : Call)
    → ((k : ℕ) → runs c (ws' k) ≡ runs c (ws k))
    → Follows ws c q
    → Follows ws' c q
others ws ws' c q same v = record {
  stage = v.stage;
  marks = λ k. same k ∙ v.marks k;
  steps = v.steps;
  run = v.run;
}

stays :
    (ws : ℕ → Worker) (c : ℕ) (q r : Call)
    → ((j : Fifo.Job) → Fifo.Step (shown q j) (shown r j))
    → Follows ws c q
    → Follows ws c r
stays ws c q r st v = record {
  stage = v.stage;
  marks = v.marks;
  steps = v.steps + 1;
  run = Fifo.later v.run (st (job_of v.stage));
}

-- A worker writes about the job `d`, whose call may change.
works :
    (s : System) (i d : ℕ) (w : Worker) (r : Call)
    → ((c : ℕ) → d ≢ c → runs c (s.workers i) ≡ false)
    → ((c : ℕ) → d ≢ c → runs c w ≡ false)
    → Follows (write s.workers i w) d r
    → AllFollow s
    → (c : ℕ) → Follows (write s.workers i w) c (write s.calls d r c)
works s i d w r old new mine all =
    write-each (λ c q. Follows (write s.workers i w) c q) s.calls d r mine
      (λ c h.
        others s.workers (write s.workers i w) c (s.calls c) (λ k. ground (arith, old c h, new c h))
          (all c))

abbrev Located : (ℕ → Worker) → ℕ → Call → Stage → Type 0
Located ws d q st =
    (n : ℕ) × ((k : ℕ) → runs d (ws k) ≡ mark_of st k) × Fifo.Reach n (shown q (job_of st))

-- A call that waits has not handed its job.
before_only : (st : Stage) → job_of st ≡ Fifo.offered → st ≡ before
before_only before e = refl
before_only (runs_at i) e = cc
before_only after e = cc

runs_only : (st : Stage) (i : ℕ) → mark_of st i ≡ true → st ≡ runs_at i
runs_only before i e = cc
runs_only (runs_at j) i e = ground arith
runs_only after i e = cc

module _ (ws : ℕ → Worker) (d i : ℕ) (q : Call) (v : Follows ws d q) where
  hands :
      q.caller ≡ waiting
      → ws i ≡ idle
      → Follows (write ws i (running d)) d (record q { caller = handed })
  hands e w =
      let stands : Stands (shown q (job_of v.stage)) waiting =
        rw e at (Outcome.Reach-Inv v.run).stands in
      let (n, marks, run) =
        subst (Located ws d q) (before_only v.stage stands.2) (v.steps, v.marks, v.run) in
      record {
        stage = runs_at i;
        marks = λ k. ground (arith, marks k);
        steps = n + 1;
        run = Fifo.later run (Fifo.hand e refl);
      }

  finishes :
      (err : Option Error)
      → ws i ≡ running d
      → q.result ≡ none
      → Follows (write ws i idle) d (record q { result = some err; outcomes = err ∷ q.outcomes })
  finishes err w r =
      let (n, marks, run) =
        subst (Located ws d q) (runs_only v.stage i (sym (v.marks i) ∙ ground (arith, w)))
          (v.steps, v.marks, v.run) in
      record {
        stage = after;
        marks = λ k. ground (arith, marks k);
        steps = n + 1;
        run = Fifo.later run (Fifo.finish err refl r);
      }

moves :
    (s : System) (d : ℕ) (r : Call)
    → Follows s.workers d r
    → AllFollow s
    → AllFollow (record s { calls = write s.calls d r })
moves s d r mine all = write-each (λ c q. Follows s.workers c q) s.calls d r mine (λ c h. all c)

Step-AllFollow : {s t : System} → AllFollow s → Step s t → AllFollow t
Step-AllFollow {s} all (call c e) =
    let v = all c in
    moves s c _ (record { stage = v.stage; marks = v.marks; steps = v.steps; run = v.run }) all
Step-AllFollow {s} all (hand c i n e l w) =
    works s i c (running c) _ (λ d h. rw w refl) (λ d h. ground arith)
      (hands s.workers c i (s.calls c) (all c) e w) all
Step-AllFollow {s} all (reject c n e) =
    moves s c _ (stays s.workers c (s.calls c) _ (λ j. Fifo.reject e) (all c)) all
Step-AllFollow {s} all (finish c i err w r) =
    works s i c idle _ (λ d h. rw w (ground arith)) (λ d h. refl)
      (finishes s.workers c i (s.calls c) (all c) err w r) all
Step-AllFollow {s} all (collect c err e r) =
    moves s c _ (stays s.workers c (s.calls c) _ (λ j. Fifo.collect err e r) (all c)) all
Step-AllFollow {s} all (set_quantity q) = all
Step-AllFollow {s} all (leave i k e w) =
    λ c. others s.workers (write s.workers i gone) c (s.calls c) (λ j. ground (arith, w)) (all c)

Reach-AllFollow : {s : System} → Reach s → AllFollow s
unfolding new_fifo
Reach-AllFollow start =
    λ c. record { stage = before; marks = λ k. refl; steps = 0; run = Fifo.start }
Reach-AllFollow (later prior st) = Step-AllFollow (Reach-AllFollow prior) st

free :
    {ws : ℕ → Worker} {c : ℕ} {q : Call} (v : Follows ws c q) (i : ℕ)
    → job_of v.stage ≡ Fifo.offered
    → ws i ≢ running c
free v i e w =
    let nowhere : mark_of v.stage i ≡ false = rw (before_only v.stage e) refl in
    ground (arith, v.marks i, nowhere, w)

-- Any number of calls and the workers may take their steps in any order: a call that has returned has
-- either run its own function exactly once, and returns what that returned, or returns the error of a
-- rejected execution, and then its function has not run, and no worker has its job.
pub Reach-concludes :
    {s : System} (c : ℕ) (err : Option Error)
    → Reach s
    → (s.calls c).caller ≡ returned err
    → ((s.calls c).outcomes ≡ err ∷ [])
      ⊎ (((s.calls c).outcomes ≡ [])
          × ((i : ℕ) → s.workers i ≢ running c)
          × (err ≡ some err_rejected_execution))
Reach-concludes {s} c err reach e =
    let v = Reach-AllFollow reach c in
    elim (Reach-Concluded err v.run e) [
      | inl same ↦ inl same
      | inr g ↦ inr (g.0, λ i w. free v i g.1 w, g.2)
    ]
