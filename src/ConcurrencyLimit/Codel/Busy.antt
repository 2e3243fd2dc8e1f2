-- ===== src/ConcurrencyLimit/Codel/Busy.antt =====
-- The statistics of the queue against the history of the queue, and what a call chooses by it.
use goresilience.Prelude.{
  ℕ, ◌≡◌, refl, ap, inl, inr, Bool, false, not, ◌&&◌, List, [], ◌∷◌, arith, if◌then◌else◌,
  Bool-cases,
}
use goresilience.Prelude.Int.{ℤ, pos, negsuc, ◌+ℤ◌, ◌-ℤ◌, leb_ℤ, ltb_ℤ}
use goresilience.ConcurrencyLimit.Queue.{QueueStats, inc, decr, since_last_empty}
use goresilience.ConcurrencyLimit.Queue.Dynamic.{fifo, lifo}
use goresilience.ConcurrencyLimit.Codel.{AdaptiveLifoCodelConfig, queue_congested, adapt}

-- What happened to the queue, with the time: a job came, a job left, a call asked.
pub data Event : Type 0 where
  came : ℕ → Event
  left : ℕ → Event
  asked : ℕ → Event

-- A history has the newest event first.
abbrev pub History : Type 0
History = List Event

abbrev pub new_stats : QueueStats
new_stats = record { last_time_empty = 0; size = pos 0 }

unfoldable pub replay : History → QueueStats
unfolding inc decr since_last_empty
replay [] = new_stats
replay (came t ∷ h) = inc t (replay h)
replay (left t ∷ h) = decr t (replay h)
replay (asked t ∷ h) = (since_last_empty t (replay h)).1

-- How many jobs there are, from the events alone.
unfoldable pub jobs : History → ℤ
jobs [] = pos 0
jobs (came t ∷ h) = jobs h +ℤ pos 1
jobs (left t ∷ h) = jobs h -ℤ pos 1
jobs (asked t ∷ h) = jobs h

abbrev pub is_empty : History → Bool
is_empty h = leb_ℤ (jobs h) (pos 0)

-- When the first job came after the queue was last empty, for a queue that is not.
unfoldable pub busy_since : History → ℕ
unfolding jobs
busy_since [] = 0
busy_since (came t ∷ h) = if leb_ℤ (jobs h) (pos 0) then t else busy_since h
busy_since (left t ∷ h) = busy_since h
busy_since (asked t ∷ h) = busy_since h

record Tracks (h : History) : Type 0 where
  size : (replay h).size ≡ jobs h
  since : leb_ℤ (jobs h) (pos 0) ≡ false → (replay h).last_time_empty ≡ busy_since h

fewer : (n : ℤ) → leb_ℤ (n -ℤ pos 1) (pos 0) ≡ false → leb_ℤ n (pos 0) ≡ false
fewer (pos n) h = ground arith
fewer (negsuc n) h = ground arith

replay-Tracks : (h : History) → Tracks h
unfolding replay jobs busy_since
replay-Tracks [] = record { size = refl; since = λ e. refl }
replay-Tracks (came t ∷ h) =
    let v = replay-Tracks h in
    record {
      size = ap (λ n. n +ℤ pos 1) v.size;
      since = λ busy. rw v.size (elim (Bool-cases (leb_ℤ (jobs h) (pos 0))) [
        | inl e ↦ rw e refl
        | inr e ↦ rw e (v.since e)
      ]);
    }
replay-Tracks (left t ∷ h) =
    let v = replay-Tracks h in
    record {
      size = ap (λ n. n -ℤ pos 1) v.size;
      since = λ busy. rw v.size (rw busy (v.since (fewer (jobs h) busy)));
    }
replay-Tracks (asked t ∷ h) =
    let v = replay-Tracks h in
    record { size = v.size; since = λ busy. rw v.size (rw busy (v.since busy)) }

no_time : (now : ℕ) → pos now -ℤ pos now ≡ pos 0
no_time now = ground arith

-- `SinceLastEmpty` answers 0 while the queue is empty, and else the time since the first job came
-- into the empty queue, whatever jobs have come and left and whatever calls have asked since.
pub since_last_empty-replay :
    (now : ℕ) (h : History)
    → (since_last_empty now (replay h)).0
      ≡ (if is_empty h then pos 0 else pos now -ℤ pos (busy_since h))
unfolding since_last_empty
since_last_empty-replay now h =
    let v = replay-Tracks h in
    rw v.size (elim (Bool-cases (leb_ℤ (jobs h) (pos 0))) [
      | inl e ↦ rw e (no_time now)
      | inr e ↦ rw (e, v.since e) refl
    ])

-- The queue has not been empty for more than the interval.
abbrev pub is_late : AdaptiveLifoCodelConfig → ℕ → History → Bool
is_late cfg now h = not (is_empty h) && ltb_ℤ cfg.codel_interval (pos now -ℤ pos (busy_since h))

queue_congested-is_late :
    (cfg : AdaptiveLifoCodelConfig) (interval now : ℕ) (h : History)
    → cfg.codel_interval ≡ pos interval
    → (queue_congested cfg now (replay h)).0 ≡ is_late cfg now h
unfolding queue_congested
queue_congested-is_late cfg interval now h e =
    rw (since_last_empty-replay now h)
      (elim (Bool-cases (is_empty h)) [ inl f ↦ rw f (rw e (ground arith)) | inr f ↦ rw f refl ])

asked-size :
    (cfg : AdaptiveLifoCodelConfig) (now : ℕ) (h : History)
    → (queue_congested cfg now (replay h)).1.size ≡ jobs h
unfolding queue_congested since_last_empty
asked-size cfg now h = (replay-Tracks h).size

-- A call that comes when the queue has not been empty for more than the interval sets the LIFO policy
-- and waits for the target delay, and any other call sets the FIFO policy and waits for the interval;
-- the number of jobs in the statistics is right, and asking does not change it. The interval is taken
-- not to be negative.
pub adapt-replay :
    (cfg : AdaptiveLifoCodelConfig) (interval now : ℕ) (h : History)
    → cfg.codel_interval ≡ pos interval
    → let r = adapt cfg now (replay h) in
      (r.0 ≡ (if is_late cfg now h then lifo else fifo))
      × (r.1 ≡ (if is_late cfg now h then cfg.codel_target_delay else cfg.codel_interval))
      × (r.2.size ≡ jobs h)
unfolding adapt
adapt-replay cfg interval now h e =
    let c = queue_congested-is_late cfg interval now h e in
    rw c (elim (Bool-cases (is_late cfg now h)) [
      | inl f ↦ rw f (refl, refl, asked-size cfg now h)
      | inr f ↦ rw f (refl, refl, asked-size cfg now h)
    ])
