-- ===== src/ConcurrencyLimit/Limited/Concurrent/Counts.antt =====
-- The counts of the executions in flight and of the executing ones, while calls overlap.
use goresilience.Prelude.{ℕ, ◌+◌, ◌<◌, ◌≡◌, refl, sym, ap, ◌∙◌, Option, arith}
use goresilience.Prelude.Int.{ℤ, pos, ◌+ℤ◌, ◌-ℤ◌}
use goresilience.Prelude.Families.{write, tally, tally-write, tally-const}
use goresilience.Errors.{Error}
use goresilience.Runtime.{Clock}
use goresilience.ConcurrencyLimit.Limit.{Result, success, failure, ignore, Limiter}
use goresilience.ConcurrencyLimit.Workers.{WorkerPool}
use goresilience.ConcurrencyLimit.Limited.Concurrent.{
  Caller, counted, waiting, answered, Job, begun, running, ran, Call, System, not_called, made,
  become, after_policy, tell_sample, Step, pass, enter, count_in, submit, dequeue, show_queued,
  begin, show_begun, run, end, show_ended, answer, reject, count_out, show_left, judge, tell,
  show_limit, tune, Steps, here, more,
}
use goresilience.ConcurrencyLimit.Limited.Concurrent.Answers.{AllInv, made-AllInv, Steps-AllInv}

-- Whether a call is in flight, and whether its job is executing.
abbrev pub flies : Caller → ℕ
flies (counted n) = 1
flies waiting = 1
flies (answered err) = 1
flies _ = 0

abbrev pub executes : Job → ℕ
executes (begun n) = 1
executes running = 1
executes (ran err) = 1
executes _ = 0

abbrev pub in_flight : Call → ℕ
in_flight q = flies q.caller

abbrev pub in_execution : Call → ℕ
in_execution q = executes q.job

count_up : (n : ℕ) → pos n +ℤ pos 1 ≡ pos (n + 1)
count_up n = ground arith

count_down : (n : ℕ) → pos (n + 1) -ℤ pos 1 ≡ pos n
count_down n = ground arith

module _ {W : Type 0} (clock : Clock W) (limiter : Limiter W) (policy : ℕ → Option Error → Result)
    (calls : ℕ) where
  abbrev pub Counted : System W → Type 0
  Counted s =
      (s.inflights ≡ pos (tally in_flight calls s.calls))
      × (s.executing ≡ pos (tally in_execution calls s.calls))

  same_tally :
      (w : Call → ℕ) (f : ℕ → Call) (c : ℕ) (q : Call)
      → c < calls
      → w q ≡ w (f c)
      → tally w calls (write f c q) ≡ tally w calls f
  same_tally w f c q h e = omega (arith, tally-write w calls f c q h, e)

  -- A call moves that is counted neither more nor less.
  stays :
      (s : System W) (c : ℕ) (q : Call)
      → c < calls
      → in_flight q ≡ in_flight (s.calls c)
      → in_execution q ≡ in_execution (s.calls c)
      → Counted s
      → Counted (become c q s)
  stays s c q h e g v = (
    v.0 ∙ ap pos (sym (same_tally in_flight s.calls c q h e)),
    v.1 ∙ ap pos (sym (same_tally in_execution s.calls c q h g)),
  )

  one_more :
      (w : Call → ℕ) (f : ℕ → Call) (c : ℕ) (q : Call) (n : ℤ)
      → c < calls
      → w (f c) ≡ 0
      → w q ≡ 1
      → n ≡ pos (tally w calls f)
      → n +ℤ pos 1 ≡ pos (tally w calls (write f c q))
  one_more w f c q n h old new e =
      let more : tally w calls (write f c q) ≡ tally w calls f + 1 =
        omega (arith, tally-write w calls f c q h, old, new) in
      ap (λ m. m +ℤ pos 1) e ∙ count_up (tally w calls f) ∙ sym (ap pos more)

  one_less :
      (w : Call → ℕ) (f : ℕ → Call) (c : ℕ) (q : Call) (n : ℤ)
      → c < calls
      → w (f c) ≡ 1
      → w q ≡ 0
      → n ≡ pos (tally w calls f)
      → n -ℤ pos 1 ≡ pos (tally w calls (write f c q))
  one_less w f c q n h old new e =
      let less : tally w calls f ≡ tally w calls (write f c q) + 1 =
        omega (arith, tally-write w calls f c q h, old, new) in
      ap (λ m. m -ℤ pos 1) (e ∙ ap pos less) ∙ count_down (tally w calls (write f c q))

  keeps :
      (w : Call → ℕ) (f : ℕ → Call) (c : ℕ) (q : Call) (n : ℤ)
      → c < calls
      → w q ≡ w (f c)
      → n ≡ pos (tally w calls f)
      → n ≡ pos (tally w calls (write f c q))
  keeps w f c q n h e g = g ∙ ap pos (sym (same_tally w f c q h e))

  after_policy-flies : (err : Option Error) (n : ℤ) (r : Result) → flies (after_policy err n r) ≡ 0
  unfolding after_policy
  after_policy-flies err n success = refl
  after_policy-flies err n failure = refl
  after_policy-flies err n ignore = refl

  Step-Counted :
      {s t : System W}
      → Step clock limiter policy calls s t
      → AllInv clock limiter policy calls s
      → Counted s
      → Counted t
  unfolding tell_sample
  Step-Counted (pass d) i v = v
  Step-Counted {s} (enter c h e) i v = stays s c _ h (rw e refl) refl v
  Step-Counted {s} (count_in c h e) i v = (
    one_more in_flight s.calls c _ s.inflights h (rw e refl) refl v.0,
    keeps in_execution s.calls c _ s.executing h refl v.1,
  )
  Step-Counted {s} (submit c n h e) i v =
      stays s c _ h (rw e refl) (let j = (i c).stands in ground (arith, e)) v
  Step-Counted {s} (dequeue c h e) i v = stays s c _ h refl (rw e refl) v
  Step-Counted {s} (show_queued c h e) i v = stays s c _ h refl (rw e refl) v
  Step-Counted {s} (begin c h e) i v = (
    keeps in_flight s.calls c _ s.inflights h refl v.0,
    one_more in_execution s.calls c _ s.executing h (rw e refl) refl v.1,
  )
  Step-Counted {s} (show_begun c n h e) i v = stays s c _ h refl (rw e refl) v
  Step-Counted {s} (run c err h e) i v = stays s c _ h refl (rw e refl) v
  Step-Counted {s} (end c err h e) i v = (
    keeps in_flight s.calls c _ s.inflights h refl v.0,
    one_less in_execution s.calls c _ s.executing h (rw e refl) refl v.1,
  )
  Step-Counted {s} (show_ended c err n h e) i v = stays s c _ h refl (rw e refl) v
  Step-Counted {s} (answer c err h e g) i v = stays s c _ h (rw e refl) refl v
  Step-Counted {s} (reject c h e) i v = stays s c _ h (rw e refl) refl v
  Step-Counted {s} (count_out c err h e) i v = (
    one_less in_flight s.calls c _ s.inflights h (rw e refl) refl v.0,
    keeps in_execution s.calls c _ s.executing h refl v.1,
  )
  Step-Counted {s} (show_left c err n h e) i v = stays s c _ h (rw e refl) refl v
  Step-Counted {s} (judge c err n h e) i v =
      stays s c _ h (after_policy-flies err n (policy c err) ∙ rw e refl) refl v
  Step-Counted {s} (tell c err n r h e) i v = stays s c _ h (rw e refl) refl v
  Step-Counted {s} (show_limit c err n h e) i v = stays s c _ h (rw e refl) refl v
  Step-Counted {s} (tune c err n h e) i v = stays s c _ h (rw e refl) refl v

  made-Counted : (w : W) (p : WorkerPool) → Counted (made w p)
  made-Counted w p = (
    ap pos (sym (nothing (λ q. in_flight q) refl)),
    ap pos (sym (nothing (λ q. in_execution q) refl)),
  )
    where
      nothing :
          (weight : Call → ℕ) → weight not_called ≡ 0 → tally weight calls (λ c. not_called) ≡ 0
      nothing weight e = grind (arith, tally-const weight not_called calls, e)

  -- However calls overlap, the count of the executions in flight is the number of the calls that are between
  -- the two writes of it, and the count of the executing ones is the number of such jobs.
  pub Steps-Counted :
      {w : W} {p : WorkerPool} {s : System W}
      → Steps clock limiter policy calls (made w p) s
      → Counted s
  Steps-Counted {w} {p} here = made-Counted w p
  Steps-Counted {w} {p} (more before st) =
      Step-Counted st
        (Steps-AllInv clock limiter policy calls before
          (made-AllInv clock limiter policy calls w p))
        (Steps-Counted before)
