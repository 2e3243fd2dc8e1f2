-- ===== src/Bulkhead/Stopped.antt =====
-- What becomes of calls when the workers have left (bulkhead/bulkhead.go, startWorkerPool).
use goresilience.Prelude.{ℕ, ◌<◌, ◌≡◌, sym, ◌∙◌, arith}
use goresilience.Prelude.Int.{pos, pos_part}
use goresilience.Bulkhead.{
  Config, queued, idle, gone, System, Step, enter, hand, give_up, process, finish, collect, close,
  leave,
}

module _ (cfg : Config) (calls : ℕ) where
  -- Any further steps.
  pub data Steps (s : System) : System → Type 0 where
    here : Steps s s
    more : {t u : System} → Steps s t → Step cfg calls t u → Steps s u

  abbrev pub AllGone : System → Type 0
  AllGone s = (i : ℕ) → i < pos_part cfg.workers → s.workers i ≡ gone

  Step-blocked :
      {s t : System}
      → Step cfg calls s t
      → cfg.max_wait_time ≡ pos 0
      → AllGone s
      → (c : ℕ) → (s.calls c).caller ≡ queued
      → AllGone t × ((t.calls c).caller ≡ queued)
  Step-blocked (enter d l e) never all c q = (all, ground arith)
  Step-blocked (hand d k l m e f) never all c q = absurd (idle_gone (sym f ∙ all k m))
    where
      idle_gone : idle ≡ gone → ⊥
      idle_gone h = cc
  Step-blocked (give_up d l x e) never all c q = absurd (x never)
  Step-blocked (process d k l e) never all c q = ground (arith, all k l)
  Step-blocked (finish d k err l e f) never all c q = ground (arith, all k l)
  Step-blocked (collect d err e f) never all c q = (all, ground arith)
  Step-blocked (close e) never all c q = (all, q)
  Step-blocked (leave k l e f) never all c q = ground (arith, all k l)

  Steps-blocked :
      {s t : System}
      → Steps s t
      → cfg.max_wait_time ≡ pos 0
      → AllGone s
      → (c : ℕ) → (s.calls c).caller ≡ queued
      → AllGone t × ((t.calls c).caller ≡ queued)
  Steps-blocked here never all c q = (all, q)
  Steps-blocked (more before st) never all c q =
      let (still, waits) = Steps-blocked before never all c q in Step-blocked st never still c waits

  -- Without a wait time a call that still stands at the `select` when all workers have left never
  -- returns, whatever happens.
  pub Steps-queued :
      {s t : System} (c : ℕ)
      → Steps s t
      → cfg.max_wait_time ≡ pos 0
      → ((i : ℕ) → i < pos_part cfg.workers → s.workers i ≡ gone)
      → (s.calls c).caller ≡ queued
      → (t.calls c).caller ≡ queued
  Steps-queued c path never all q = (Steps-blocked path never all c q).1
