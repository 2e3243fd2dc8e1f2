-- ===== src/ConcurrencyLimit/Queue.antt =====
-- concurrencylimit/execute/queue.go: the policies of the queue and its statistics. A job is any value.
use goresilience.Prelude.{
  ℕ, zero, suc, ◌+◌, ◌-◌, Option, none, some, List, [], ◌∷◌, ◌++◌, length, get_elem?, take, drop,
  if◌then◌else◌,
}
use goresilience.Prelude.Int.{ℤ, pos, negsuc, ◌+ℤ◌, ◌-ℤ◌, leb_ℤ}
pub mod Order
pub mod Dynamic

abbrev pub DequeuePolicy : Type 0 → Type 0
DequeuePolicy J = List J → Option J × List J

abbrev pub EnqueuePolicy : Type 0 → Type 0
EnqueuePolicy J = J → List J → List J

module _ {J : Type 0} where
  unfoldable pub enqueue_at_end_policy : EnqueuePolicy J
  enqueue_at_end_policy job jobqueue = jobqueue ++ job ∷ []

  -- `queue[length-1], queue[:length-1]` on two jobs or more.
  unfoldable pub lifo_dequeue_policy : DequeuePolicy J
  lifo_dequeue_policy [] = (none, [])
  lifo_dequeue_policy (job ∷ []) = (some job, [])
  lifo_dequeue_policy (a ∷ b ∷ rest) =
      let queue = a ∷ b ∷ rest in
      let last = length queue - 1 in (get_elem? queue last, take last queue)

  unfoldable pub fifo_dequeue_policy : DequeuePolicy J
  fifo_dequeue_policy [] = (none, [])
  fifo_dequeue_policy (job ∷ rest) = (some job, rest)

pub record QueueStats : Type 0 where
  pub last_time_empty : ℕ
  pub size : ℤ

-- Each method with the time at which it runs.
unfoldable pub inc : ℕ → QueueStats → QueueStats
inc now q =
    let t = if leb_ℤ q.size (pos 0) then now else q.last_time_empty in
    record { last_time_empty = t; size = q.size +ℤ pos 1 }

unfoldable pub decr : ℕ → QueueStats → QueueStats
decr now q =
    let size = q.size -ℤ pos 1 in
    record { last_time_empty = if leb_ℤ size (pos 0) then now else q.last_time_empty; size = size }

unfoldable pub since_last_empty : ℕ → QueueStats → ℤ × QueueStats
since_last_empty now q =
    let t = if leb_ℤ q.size (pos 0) then now else q.last_time_empty in
    (pos now -ℤ pos t, record q { last_time_empty = t })
