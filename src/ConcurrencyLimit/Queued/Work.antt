-- ===== src/ConcurrencyLimit/Queued/Work.antt =====
-- What the steps of a worker do to the job that it has, and to the other jobs.
use mathlib.Core.Path.{subst}
use goresilience.Prelude.{
  ℕ, ◌+◌, ◌≡◌, ◌≢◌, refl, sym, ap, ◌∙◌, true, false, Option, none, some, List, [], ◌∷◌, ◌++◌, arith,
}
use goresilience.Prelude.Families.{write}
use goresilience.Errors.{Error}
use goresilience.ConcurrencyLimit.Handshake
use goresilience.ConcurrencyLimit.Handshake.{Kind, stays}
use goresilience.ConcurrencyLimit.Queue.Dynamic.Weights.{
  total, total-append, jobs_of, jobs_of-append,
}
use goresilience.ConcurrencyLimit.Queued.{
  Call, Forwarder, receiving, forwarding, Worker, idle, holding, started, running,
}
use goresilience.ConcurrencyLimit.Queued.Stages.{
  shown, Mark, elsewhere, holds, starts, runs, about, Stage, waits, passes, held, begun, runs_at,
  skipped, done, mark_of, job_of, handed_of, passing, is, times, At, View, Follows, Advances,
}

-- A worker that writes about the job `d` alone does not touch the others.
pub about-other :
    (ws : ℕ → Worker) (i c d : ℕ) (w : Worker)
    → d ≢ c
    → about c (ws i) ≡ elsewhere
    → about c w ≡ elsewhere
    → (k : ℕ) → about c (write ws i w k) ≡ about c (ws k)
about-other ws i c d w h old new k = ground (arith, old, new)

-- The stage of a job at a worker.
abbrev stage_of : Mark → ℕ → Stage
stage_of elsewhere i = waits
stage_of holds i = held i
stage_of starts i = begun i
stage_of runs i = runs_at i

placed : (st : Stage) (m : Mark) (i : ℕ) → mark_of st i ≡ m → m ≢ elsewhere → st ≡ stage_of m i
placed waits m i e h = absurd (h (cc))
placed passes m i e h = absurd (h (cc))
placed (held j) m i e h = ground arith
placed (begun j) m i e h = ground arith
placed (runs_at j) m i e h = ground arith
placed skipped m i e h = absurd (h (cc))
placed done m i e h = absurd (h (cc))

passes_only : (st : Stage) → passing st ≡ true → st ≡ passes
passes_only passes e = refl
passes_only waits e = cc
passes_only st e = cc

waits_only : (st : Stage) → handed_of st ≡ 0 → st ≡ waits
waits_only waits e = refl
waits_only st e = absurd (omega (arith, e))

pub times-snoc :
    (c d : ℕ) (out : List (Option ℕ))
    → times c (jobs_of (out ++ some d ∷ [])) ≡ times c (jobs_of out) + is c d
times-snoc c d out =
    ap (total (is c)) (jobs_of-append out (some d ∷ []))
    ∙ total-append (is c) (jobs_of out) (d ∷ [])
    ∙ omega arith

module _ (kind : Kind) (P Q : View) (advances : Advances kind P Q) (ws : ℕ → Worker)
    (out : List (Option ℕ)) (f : Forwarder) (d i : ℕ) (q : Call) (v : Follows P ws out f d q) where
  abbrev Located : Stage → Type 0
  Located st = At ws out f d st × P d (shown q (job_of st))

  -- A worker that has to do with the job tells its stage.
  located : (m : Mark) → about d (ws i) ≡ m → m ≢ elsewhere → Located (stage_of m i)
  located m e h =
      subst Located (placed v.stage m i (sym (v.at_stage.marks i) ∙ e) h) (v.at_stage, v.run)

  pub begins :
      ws i ≡ holding d → Follows Q (write ws i (started d)) out f d (record q { dequeued = true })
  begins e =
      let (a, run) = located holds (ground (arith, e)) (λ g. cc) in
      record {
        stage = begun i;
        at_stage = record {
          marks = λ k. ground (arith, a.marks k);
          handed = a.handed;
          passed = a.passed;
        };
        run = advances.onward d _ _ run (Handshake.dequeue refl);
      }

  pub skips :
      ws i ≡ started d
      → q.canceled ≡ true
      → Follows Q (write ws i idle) out f d (record q { canceled = stays kind })
  skips e c =
      let (a, run) = located starts (ground (arith, e)) (λ g. cc) in
      record {
        stage = skipped;
        at_stage = record {
          marks = λ k. ground (arith, a.marks k);
          handed = a.handed;
          passed = a.passed;
        };
        run = advances.onward d _ _ run (Handshake.skip refl c);
      }

  pub goes : ws i ≡ started d → q.canceled ≡ false → Follows Q (write ws i (running d)) out f d q
  goes e c =
      let (a, run) = located starts (ground (arith, e)) (λ g. cc) in
      record {
        stage = runs_at i;
        at_stage = record {
          marks = λ k. ground (arith, a.marks k);
          handed = a.handed;
          passed = a.passed;
        };
        run = advances.onward d _ _ run (Handshake.go refl c);
      }

  pub finishes :
      (err : Option Error)
      → ws i ≡ running d
      → q.res ≡ none
      → Follows Q
          (write ws i idle)
          out
          f
          d
          (record q { res = some err; outcomes = err ∷ q.outcomes })
  finishes err e r =
      let (a, run) = located runs (ground (arith, e)) (λ g. cc) in
      record {
        stage = done;
        at_stage = record {
          marks = λ k. ground (arith, a.marks k);
          handed = a.handed;
          passed = a.passed;
        };
        run = advances.onward d _ _ run (Handshake.finish err refl r);
      }

  -- The forwarder hands the job to a worker that is free.
  pub taken :
      f ≡ forwarding (some d) → ws i ≡ idle → Follows Q (write ws i (holding d)) out receiving d q
  taken e w =
      let (a, run) =
        subst Located (passes_only v.stage (sym v.at_stage.passed ∙ ground (arith, e)))
          (v.at_stage, v.run) in
      record {
        stage = held i;
        at_stage = record {
          marks = λ k. ground (arith, a.marks k, w);
          handed = a.handed;
          passed = refl;
        };
        run = advances.still d _ run;
      }

-- The queue lets the job out for the first time.
pub let_out-Follows :
    (kind : Kind) (P Q : View) (advances : Advances kind P Q) (ws : ℕ → Worker)
    (out : List (Option ℕ)) (f : Forwarder) (d : ℕ) (q : Call)
    → times d (jobs_of out) ≡ 0
    → Follows P ws out f d q
    → Follows Q ws (out ++ some d ∷ []) (forwarding (some d)) d q
let_out-Follows kind P Q advances ws out f d q none_yet v =
    let (a, run) =
      subst (λ st. At ws out f d st × P d (shown q (job_of st)))
        (waits_only v.stage (sym v.at_stage.handed ∙ none_yet)) (v.at_stage, v.run) in
    record {
      stage = passes;
      at_stage = record {
        marks = a.marks;
        handed = times-snoc d d out ∙ ground (arith, none_yet);
        passed = ground arith;
      };
      run = advances.still d _ run;
    }
