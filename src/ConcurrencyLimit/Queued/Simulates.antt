-- ===== src/ConcurrencyLimit/Queued/Simulates.antt =====
-- An executor that has a queue takes the steps of the handshakes of its calls, and no others.
use mathlib.Core.Path.{subst}
use goresilience.Prelude.{ℕ, ◌≡◌, refl, ◌⊎◌, inl, inr}
use goresilience.ConcurrencyLimit.Handshake
use goresilience.ConcurrencyLimit.Handshake.{Kind, submitted}
use goresilience.ConcurrencyLimit.Queued.{System, new_executor, Step, Reach}
use goresilience.ConcurrencyLimit.Queued.Stages.{shown, waits, job_of, Advances}
use goresilience.ConcurrencyLimit.Queued.Refines.{AllFollow, Step-AllFollow}
use goresilience.ConcurrencyLimit.Queued.Alone

-- The state `qs c` of the handshake is that of the call `c`: its job is where the queue, the forwarder and
-- the workers have it, and nowhere else, and its variables are those of the call.
abbrev pub Shows : (ℕ → Handshake.Call) → System → Type 0
Shows qs s = AllFollow (λ c x. x ≡ qs c) s

-- Each handshake has taken one step, or none.
abbrev pub OneStep : Kind → (ℕ → Handshake.Call) → (ℕ → Handshake.Call) → Type 0
OneStep kind qs rs = (c : ℕ) → (rs c ≡ qs c) ⊎ Handshake.Step kind (qs c) (rs c)

pub new_executor-Shows : (kind : Kind) → Shows (λ c. submitted) (new_executor kind)
unfolding new_executor
new_executor-Shows kind c = record {
  stage = waits;
  at_stage = record { marks = λ k. refl; handed = refl; passed = refl };
  run = refl;
}

module _ (kind : Kind) (qs : ℕ → Handshake.Call) where
  advances : Advances kind (λ c x. x ≡ qs c) (λ c x. (x ≡ qs c) ⊎ Handshake.Step kind (qs c) x)
  advances = record {
    still = λ c x e. inl e;
    onward = λ c x y e st. inr (subst (λ z. Handshake.Step kind z y) e st);
  }

  -- Any number of calls, the goroutines of the queue, the goroutine that forwards and the workers may take
  -- their steps in any order: whatever step they take from a state that was reached, the handshake of
  -- each call takes one of its own steps from its state, or none, to a state that again has the job where
  -- the queue, the forwarder and the workers have it, and the variables of the call.
  pub Step-simulates :
      {s t : System}
      → Reach kind s
      → Step kind s t
      → Shows qs s
      → (rs : ℕ → Handshake.Call) × Shows rs t × OneStep kind qs rs
  Step-simulates {t = t} reach st shows =
      let all = Step-AllFollow kind _ _ advances (Alone.Reach-Inv kind reach) st shows in
      (
        λ c. shown (t.calls c) (job_of (all c).stage),
        λ c. record { stage = (all c).stage; at_stage = (all c).at_stage; run = refl },
        λ c. (all c).run,
      )

-- Every state that is reached shows the handshakes of its calls.
pub Reach-Shows : (kind : Kind) {s : System} → Reach kind s → (qs : ℕ → Handshake.Call) × Shows qs s
Reach-Shows kind {s} reach =
    let all = (Alone.Reach-Inv kind reach).follows in
    (
      λ c. shown (s.calls c) (job_of (all c).stage),
      λ c. record { stage = (all c).stage; at_stage = (all c).at_stage; run = refl },
    )
