-- ===== src/Bulkhead/Runs.antt =====
-- Whole runs of the bulkhead: how long they are, and when a call can go on.
use mathlib.Core.Path.{subst}
use goresilience.Prelude.{
  ◌⊎◌, inl, inr, zero, suc, ◌==◌, Bool-cases, ℕ, ◌+◌, ◌*◌, ◌≤◌, ◌<◌, ◌≡◌, ◌≢◌, refl, ap, Bool, true,
  false, Option, none, some, arith,
}
use goresilience.Prelude.Int.{pos_part}
use goresilience.Prelude.Families.{tally, tally-write, tally-const, same_index}
use goresilience.Errors.{Error}
use goresilience.Bulkhead.{
  Config, defaults, Caller, outside, queued, handed, returned, Call, Worker, idle, holding, running,
  gone, System, not_called, Step, enter, hand, give_up, process, finish, collect, close, leave,
  Reach, start, later,
}
use goresilience.Bulkhead.Invariant.{Inv, Reach-Inv, works}

-- How many steps a call, a worker and the channel `StopC` have before them.
abbrev to_go : Caller → ℕ
to_go outside = 5
to_go queued = 4
to_go handed = 1
to_go (returned err) = 0

abbrev call_steps : Call → ℕ
call_steps c = to_go c.caller

abbrev worker_steps : Worker → ℕ
worker_steps idle = 1
worker_steps (holding c) = 3
worker_steps (running c) = 2
worker_steps gone = 0

abbrev stop_steps : Bool → ℕ
stop_steps true = 0
stop_steps false = 1

module _ (cfg : Config) (calls : ℕ) where
  abbrev steps_left : System → ℕ
  steps_left s =
      tally call_steps calls s.calls
      + tally worker_steps (pos_part cfg.workers) s.workers
      + stop_steps s.stopped

  ruleset counting = (arith, tally-write)

  Step-steps_left :
      {s t : System} → Step cfg calls s t → Inv cfg calls s → steps_left t + 1 ≤ steps_left s
  Step-steps_left (enter d l e) v = grind (counting, v.fits d)
  Step-steps_left (hand d k l m e f) v = grind (counting, v.fits d)
  Step-steps_left (give_up d l x e) v = grind (counting, v.fits d)
  Step-steps_left (process d k l e) v = grind counting
  Step-steps_left (finish d k err l e f) v = grind (counting, v.linked k d)
  Step-steps_left (collect d err e f) v = grind (counting, v.fits d, v.known d)
  Step-steps_left (close e) v = ground arith
  Step-steps_left (leave k l e f) v = grind counting

  Reach-steps_left :
      {n : ℕ} {s : System}
      → Reach cfg calls n s
      → n + steps_left s ≤ 5 * calls + pos_part cfg.workers + 1
  Reach-steps_left start = omega (
    arith,
    tally-const call_steps not_called calls,
    tally-const worker_steps idle (pos_part cfg.workers),
  )
  Reach-steps_left (later before st) =
      omega (arith, Reach-steps_left before, Step-steps_left st (Reach-Inv cfg calls before))

  Reach-ends : {n : ℕ} {s : System} → Reach cfg calls n s → n ≤ 5 * calls + pos_part cfg.workers + 1
  Reach-ends reach = omega (arith, Reach-steps_left reach)

  Step-gone :
      {s t : System}
      → Step cfg calls s t
      → (i : ℕ) → (s.workers i ≡ gone → s.stopped ≡ true)
      → t.workers i ≡ gone
      → t.stopped ≡ true
  Step-gone (enter d l e) i h g = h g
  Step-gone (hand d k l m e f) i h g = ground arith
  Step-gone (give_up d l x e) i h g = h g
  Step-gone (process d k l e) i h g = ground arith
  Step-gone (finish d k err l e f) i h g = ground arith
  Step-gone (collect d err e f) i h g = h g
  Step-gone (close e) i h g = refl
  Step-gone (leave k l e f) i h g = e

  Reach-gone :
      {n : ℕ} {s : System} → Reach cfg calls n s → (i : ℕ) → s.workers i ≡ gone → s.stopped ≡ true
  Reach-gone start i g = cc
  Reach-gone (later before st) i g = Step-gone st i (Reach-gone before i) g

  -- A step that does not close `StopC`.
  abbrev GoesOn : System → Type 0
  GoesOn s = (t : System) × Step cfg calls s t × (t.stopped ≡ s.stopped)

  -- A worker that has a job can go on with it.
  works_on :
      (s : System) (i c : ℕ) (w : Worker)
      → Inv cfg calls s
      → i < pos_part cfg.workers
      → s.workers i ≡ w
      → works w ≡ some c
      → GoesOn s
  works_on s i c (holding d) v l e h = (_, process d i l e, refl)
  works_on s i c (running d) v l e h = (_, finish d i none l e (v.linked i d (ap works e)).2, refl)
  works_on s i c idle v l e h = cc
  works_on s i c gone v l e h = cc

  -- The first worker can take a job, or go on with the one that it has.
  serves :
      (s : System) (c : ℕ) (w : Worker)
      → Inv cfg calls s
      → c < calls
      → 0 < pos_part cfg.workers
      → (s.calls c).caller ≡ queued
      → s.workers 0 ≡ w
      → w ≢ gone
      → GoesOn s
  serves s c idle v l some_worker e f h = (_, hand c 0 l some_worker e f, refl)
  serves s c (holding d) v l some_worker e f h = works_on s 0 d (holding d) v some_worker f refl
  serves s c (running d) v l some_worker e f h = works_on s 0 d (running d) v some_worker f refl
  serves s c gone v l some_worker e f h = absurd (h refl)

  goes_on :
      (s : System) (c : ℕ) (at : Caller) (r : Option (Option Error))
      → Inv cfg calls s
      → c < calls
      → 0 < pos_part cfg.workers
      → s.workers 0 ≢ gone
      → (s.calls c).caller ≡ at
      → (s.calls c).res_c ≡ r
      → ((err : Option Error) → at ≢ returned err)
      → GoesOn s
  goes_on s c outside r v l some_worker there e f h = (_, enter c l e, refl)
  goes_on s c queued r v l some_worker there e f h =
      serves s c (s.workers 0) v l some_worker e refl there
  goes_on s c handed none v l some_worker there e f h =
      let (i, m, w) = v.served c e f in works_on s i c (s.workers i) v m refl w
  goes_on s c handed (some err) v l some_worker there e f h = (_, collect c err e f, refl)
  goes_on s c (returned err) r v l some_worker there e f h = absurd (h err refl)

  Reach-one_more :
      {n : ℕ} {s : System} (c : ℕ)
      → Reach cfg calls n s
      → c < calls
      → 0 < pos_part cfg.workers
      → s.stopped ≡ false
      → ((err : Option Error) → (s.calls c).caller ≢ returned err)
      → GoesOn s
  Reach-one_more {s = s} c reach l some_worker opened h =
      goes_on s c (s.calls c).caller (s.calls c).res_c (Reach-Inv cfg calls reach) l some_worker
        (λ g. cc (Reach-gone reach 0 g)) refl refl h

-- The defaults leave at least one worker.
defaults-workers : (cfg : Config) → 0 < pos_part (defaults cfg).workers
unfolding defaults
defaults-workers cfg = ground arith

abbrev pub HasReturned : System → ℕ → Type 0
HasReturned s c = (err : Option Error) × ((s.calls c).caller ≡ returned err)

returned_or_not :
    (s : System) (c : ℕ) (at : Caller)
    → (s.calls c).caller ≡ at
    → HasReturned s c ⊎ ((err : Option Error) → (s.calls c).caller ≢ returned err)
returned_or_not s c (returned err) e = inl (err, e)
returned_or_not s c outside e = inr (λ err g. cc)
returned_or_not s c queued e = inr (λ err g. cc)
returned_or_not s c handed e = inr (λ err g. cc)

-- All of the first calls have returned, or there is one that has not.
all_or_one :
    (s : System) (n : ℕ)
    → ((c : ℕ) → c < n → HasReturned s c)
      ⊎ ((c : ℕ) × (c < n) × ((err : Option Error) → (s.calls c).caller ≢ returned err))
all_or_one s zero = inl (λ c l. absurd (omega (arith, l)))
all_or_one s (suc n) = elim (all_or_one s n) [
  | inr (c, l, h) ↦ inr (c, omega (arith, l), h)
  | inl all ↦ elim (returned_or_not s n (s.calls n).caller refl) [
    | inr h ↦ inr (n, omega arith, h)
    | inl done ↦ inl (λ c l. elim (Bool-cases (n == c)) [
      | inl e ↦ subst (HasReturned s) (same_index n c e) done
      | inr e ↦ all c (ground (arith, l, e))
    ])
  ]
]

-- A run with `calls` calls has at most five steps for each of them, one for each worker and one for the
-- closing of `StopC`; and where it stands, `StopC` is closed, or all calls have returned, or a step
-- other than the closing of `StopC` is possible, whatever the settings are.
pub Reach-ends_or_goes_on :
    (config : Config) (calls : ℕ) {n : ℕ} {s : System}
    → let cfg = defaults config in
      Reach cfg calls n s
      → (n ≤ 5 * calls + pos_part cfg.workers + 1)
        × ((s.stopped ≡ true)
            ⊎ (((c : ℕ) → c < calls → HasReturned s c)
                ⊎ ((t : System) × Step cfg calls s t × (t.stopped ≡ s.stopped))))
Reach-ends_or_goes_on config calls {s = s} reach = (
  Reach-ends (defaults config) calls reach,
  elim (Bool-cases s.stopped) [
    | inl closed ↦ inl closed
    | inr opened ↦ inr (elim (all_or_one s calls) [
      | inl all ↦ inl all
      | inr (c, l, h) ↦
          inr (Reach-one_more (defaults config) calls c reach l (defaults-workers config) opened h)
    ])
  ],
)

-- While `StopC` is open, a call that has not returned leaves a step other than its closing.
Reach-goes_on :
    (config : Config) (calls : ℕ) {n : ℕ} {s : System} (c : ℕ)
    → let cfg = defaults config in
      Reach cfg calls n s
      → c < calls
      → s.stopped ≡ false
      → ((err : Option Error) → (s.calls c).caller ≢ returned err)
      → (n ≤ 5 * calls + pos_part cfg.workers + 1)
        × ((t : System) × Step cfg calls s t × (t.stopped ≡ s.stopped))
Reach-goes_on config calls c reach l opened h = (
  Reach-ends (defaults config) calls reach,
  Reach-one_more (defaults config) calls c reach l (defaults-workers config) opened h,
)
