-- ===== src/Failer/Turns.antt =====
-- Which calls of the failer of examples/extend/extend.go fail.
use native.Mathlib.Nat.{mod-add-mod, mod_self, mod-lt, mod-eq_of_lt}
use goresilience.Prelude.{
  ℕ, zero, suc, ◌+◌, ◌%◌, ◌<◌, ◌≡◌, refl, sym, ap, ◌∙◌, inl, inr, Bool, true, false, some, arith,
  if◌then◌else◌, ◌==◌, Bool-cases,
}
use goresilience.Prelude.Int.{ℤ, pos, ◌+ℤ◌, eqb_ℤ}
use goresilience.Errors.{Error}
use goresilience.Runtime.{Cell}
use goresilience.Metrics.{Context}
use goresilience.Runner.{Func, Runner}
use goresilience.Failer.{Config, called, run}

-- The call fails at this count.
abbrev pub is_turn : ℕ → ℕ → Bool
is_turn n c = c + 1 == n

eqb-turn : (n c : ℕ) → eqb_ℤ (pos (c + 1)) (pos n) ≡ is_turn n c
eqb-turn n c = ground arith

-- At its turn the count starts anew, and no other count is a multiple of the period.
next_count :
    (n k : ℕ)
    → 0 < n
    → (suc k % n ≡ (if is_turn n (k % n) then 0 else k % n + 1))
      × ((suc k % n == 0) ≡ is_turn n (k % n))
next_count n k l =
    let whole : suc k % n ≡ (k % n + 1) % n =
      sym (mod-add-mod k n 1 ∙ ap (λ a. a % n) (omega arith)) in
    elim (Bool-cases (is_turn n (k % n))) [
      | inl e ↦
          let full : k % n + 1 ≡ n = ground arith in
          let none_left = whole ∙ ap (λ a. a % n) full ∙ mod_self n in
          rw e (none_left, rw none_left refl)
      | inr e ↦
          let small : k % n + 1 < n = ground (arith, mod-lt k l) in
          let one_more = whole ∙ mod-eq_of_lt small in rw e (one_more, rw one_more (ground arith))
    ]

module _ {W : Type 0} (called_times : Cell W ℤ) (failed : Error) (cfg : Config) where
  pub called-get :
      (c : ℕ) (w : W)
      → called_times.get w ≡ pos c
      → called_times.get (called called_times failed cfg w) ≡ pos (c + 1)
  called-get c w e = called_times.get-put _ w ∙ ap (λ n. n +ℤ pos 1) e ∙ ground arith

  pub run-turn :
      (next : Runner W) (ctx : Context W) (f : Func W) (n c : ℕ) (w : W)
      → cfg.fail_every_times ≡ pos n
      → called_times.get w ≡ pos c
      → run called_times failed cfg next ctx f w ≡ (
          if is_turn n c
          then (some failed, called_times.put (pos 0) (called called_times failed cfg w))
          else next ctx f (called called_times failed cfg w))
  unfolding run
  run-turn next ctx f n c w e g =
      let test : eqb_ℤ (called_times.get (called called_times failed cfg w)) cfg.fail_every_times
          ≡ is_turn n c =
        ap (λ a. eqb_ℤ a cfg.fail_every_times) (called-get c w g)
        ∙ ap (λ a. eqb_ℤ (pos (c + 1)) a) e
        ∙ eqb-turn n c in
      ap
        (λ b.
          if b
          then (some failed, called_times.put (pos 0) (called called_times failed cfg w))
          else next ctx f (called called_times failed cfg w))
        test

  module _ (next : Runner W) (ctx : Context W) (f : Func W) where
    -- The world after a number of calls.
    unfoldable pub calls : ℕ → W → W
    calls zero w = w
    calls (suc k) w = (run called_times failed cfg next ctx f (calls k w)).1

    module _ (n : ℕ) (every : cfg.fail_every_times ≡ pos n) (l : 0 < n)
        (keeps : (w : W) → called_times.get (next ctx f w).1 ≡ called_times.get w) where
      -- The count that a call leaves.
      after :
          (turn : Bool) (c : ℕ) (w : W)
          → called_times.get w ≡ pos c
          → called_times.get
              (if turn
                then (some failed, called_times.put (pos 0) (called called_times failed cfg w))
                else next ctx f (called called_times failed cfg w)).1
            ≡ pos (if turn then 0 else c + 1)
      after true c w e = called_times.get-put _ _
      after false c w e = keeps _ ∙ called-get c w e

      calls-count :
          (k : ℕ) (w : W) → called_times.get w ≡ pos 0 → called_times.get (calls k w) ≡ pos (k % n)
      unfolding calls
      calls-count zero w e = e ∙ ap pos (sym (mod-eq_of_lt l))
      calls-count (suc k) w e =
          let c = calls-count k w e in
          ap (λ r. called_times.get r.1) (run-turn next ctx f n (k % n) (calls k w) every c)
          ∙ after (is_turn n (k % n)) (k % n) (calls k w) c
          ∙ ap pos (sym (next_count n k l).0)

      -- Of the calls that follow one another every `FailEveryTimes`-th fails with the error of the
      -- failer, and does not reach the next runner, and every other call is the one of the next runner,
      -- if that leaves the counter alone.
      pub calls-every :
          (k : ℕ) (w : W)
          → called_times.get w ≡ pos 0
          → (run called_times failed cfg next ctx f (calls k w)).0 ≡ (
              if suc k % n == 0
              then some failed
              else (next ctx f (called called_times failed cfg (calls k w))).0)
      calls-every k w e =
          let turn = is_turn n (k % n) in
          ap (λ r. r.0) (run-turn next ctx f n (k % n) (calls k w) every (calls-count k w e))
          ∙ outcome_if turn
          ∙ ap
              (λ b.
                if b
                then some failed
                else (next ctx f (called called_times failed cfg (calls k w))).0)
              (sym (next_count n k l).1)
        where
          outcome_if :
              (b : Bool)
              → (if b
                  then (
                    some failed,
                    called_times.put (pos 0) (called called_times failed cfg (calls k w)),
                  )
                  else next ctx f (called called_times failed cfg (calls k w))).0
                ≡ (if b
                    then some failed
                    else (next ctx f (called called_times failed cfg (calls k w))).0)
          outcome_if true = refl
          outcome_if false = refl
