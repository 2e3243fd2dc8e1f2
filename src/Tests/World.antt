-- ===== src/Tests/World.antt =====
-- A world with a clock that a sleep moves by its duration, one variable, and a log of measurements.
use native.Mathlib.Nat.{le_refl}
use goresilience.Prelude.{ℕ, String, ◌+◌, refl, false, none, some, List, ◌∷◌}
use goresilience.Runtime.{Cell, Clock}
use goresilience.Metrics.{Measurement, measuring, Context}

pub record World (A : Type 0) : Type 0 where
  pub time : ℕ
  pub own : A
  pub log : List (String × Measurement)

module _ {A : Type 0} where
  abbrev pub clock : Clock (World A)
  clock = record {
    now = λ w. w.time;
    sleep = λ d w. record w { time = w.time + d };
    sleep_lasts = λ d w. le_refl (w.time + d);
  }

  abbrev pub own_cell : Cell (World A) A
  own_cell = record {
    get = λ w. w.own;
    put = λ a w. record w { own = a };
    get-put = λ a w. refl;
    put-put = λ a b w. refl;
  }

  abbrev pub write_log : String → Measurement → World A → World A
  write_log id m w = record w { log = (id, m) ∷ w.log }

  abbrev pub background : Context (World A)
  background = record { done = λ w. false; recorder = none }

  abbrev pub logged : Context (World A)
  logged = record { done = λ w. false; recorder = some (measuring write_log "main") }
