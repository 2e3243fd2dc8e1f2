-- ===== src/ConcurrencyLimit/Queued/Refines.antt =====
-- The calls of an executor that has a queue, each seen alone.
use mathlib.Core.Path.{subst}
use goresilience.Prelude.{
  ℕ, ◌+◌, ◌≡◌, ◌≢◌, refl, sym, ap, ◌∙◌, Bool, true, false, Option, none, some, List, [], ◌∷◌, ◌++◌,
  map, arith, if◌then◌else◌,
}
use goresilience.Prelude.Families.{write, write-each, split-index}
use goresilience.ConcurrencyLimit.Handshake
use goresilience.ConcurrencyLimit.Handshake.{Kind}
use goresilience.ConcurrencyLimit.Queue.Dynamic
use goresilience.ConcurrencyLimit.Queue.Dynamic.{Queue, sending}
use goresilience.ConcurrencyLimit.Queue.Dynamic.Weights.{jobs_of, outgoing, IsFull}
use goresilience.ConcurrencyLimit.Queue.Dynamic.Jobs.{Reach-keeps_jobs}
use goresilience.ConcurrencyLimit.Queued.{
  Call, Forwarder, receiving, forwarding, forwarder_stopped, Worker, idle, holding, started,
  running, gone, System, first_policy, Step, call, send, within_queue, forward, hand,
  stop_forwarder, begin, skip, go, finish, notice, expire, cancel, collect, set_quantity, leave,
}
use goresilience.ConcurrencyLimit.Queued.Stages.{
  shown, elsewhere, about, job_of, is, times, is_passing, View, Follows, Advances, Follows-still,
  Follows-others, Follows-stays,
}
use goresilience.ConcurrencyLimit.Queued.Work.{
  about-other, times-snoc, begins, skips, goes, finishes, taken, let_out-Follows,
}

abbrev all_some : List (Option ℕ) → Bool
all_some [] = true
all_some (none ∷ xs) = false
all_some (some x ∷ xs) = all_some xs

all_some-map : (xs : List ℕ) → all_some (map some xs) ≡ true
all_some-map [] = refl
all_some-map (x ∷ xs) = all_some-map xs

all_some-snoc : (xs : List (Option ℕ)) → all_some (xs ++ none ∷ []) ≡ false
all_some-snoc [] = refl
all_some-snoc (none ∷ xs) = refl
all_some-snoc (some x ∷ xs) = all_some-snoc xs

-- A call seen alone that is reached in the handshake.
abbrev pub Reached : Kind → View
Reached kind c x = (n : ℕ) × Handshake.Reach kind n x

-- What is known of all calls.
abbrev pub AllFollow : View → System → Type 0
AllFollow P s = (c : ℕ) → Follows P s.workers s.queue.delivered s.forwarder c (s.calls c)

module _ (kind : Kind) where
  abbrev pub QueueReach : Queue ℕ → Type 0
  QueueReach q = Dynamic.Reach (first_policy kind) q

  -- The queue lets out no nil job.
  pub sends_job : (q : Queue ℕ) → QueueReach q → q.dequeuer ≢ sending none
  sends_job q reach e =
      let full : IsFull (q.delivered ++ none ∷ []) =
        rw (ap (λ d. q.delivered ++ outgoing d) e) at (Reach-keeps_jobs (λ j. 0) reach).0 in
      cc (
        all_some-snoc q.delivered,
        ap all_some full,
        all_some-map (jobs_of (q.delivered ++ none ∷ [])),
      )

  -- A job that came in once and is about to go out has not been let out before.
  first_time :
      (q : Queue ℕ) (d : ℕ) (n : Bool)
      → QueueReach q
      → times d q.arrived ≡ (if n then 1 else 0)
      → q.dequeuer ≡ sending (some d)
      → times d (jobs_of q.delivered) ≡ 0
  first_time q d n reach once e =
      let kept = (Reach-keeps_jobs (is d) reach).1 in
      let out : times d (jobs_of (q.delivered ++ outgoing q.dequeuer))
          ≡ times d (jobs_of q.delivered) + is d d =
        ap (λ a. times d (jobs_of (q.delivered ++ outgoing a))) e ∙ times-snoc d d q.delivered in
      ground (arith, kept, out, once)

  pub record Inv (s : System) : Type 0 where
    pub queue : QueueReach s.queue
    pub arrived : (c : ℕ) → times c s.queue.arrived ≡ (if (s.calls c).sent then 1 else 0)
    pub passes_job : s.forwarder ≢ forwarding none
    pub follows :
        (c : ℕ) → Follows (Reached kind) s.workers s.queue.delivered s.forwarder c (s.calls c)

module _ (kind : Kind) (P Q : View) (advances : Advances kind P Q) where
  -- One call takes a step that does not move its job.
  moves :
      (s : System) (d : ℕ) (r : Call)
      → ((j : Handshake.Job) → Handshake.Step kind (shown (s.calls d) j) (shown r j))
      → AllFollow P s
      → AllFollow Q (record s { calls = write s.calls d r })
  moves s d r st all =
      write-each (λ c q. Follows Q s.workers s.queue.delivered s.forwarder c q) s.calls d r
        (Follows-stays kind P Q advances s.workers s.queue.delivered s.forwarder d (s.calls d) r st
          (all d))
        (λ c h.
          Follows-still kind P Q advances s.workers s.queue.delivered s.forwarder c (s.calls c)
            (all c))

  -- A call changes what the handshake does not see.
  unseen :
      (s : System) (d : ℕ) (r : Call)
      → ((j : Handshake.Job) → shown r j ≡ shown (s.calls d) j)
      → AllFollow P s
      → AllFollow Q (record s { calls = write s.calls d r })
  unseen s d r same all =
      write-each (λ c q. Follows Q s.workers s.queue.delivered s.forwarder c q) s.calls d r
        (record {
          stage = (all d).stage;
          at_stage = (all d).at_stage;
          run = subst (Q d) (sym (same (job_of (all d).stage))) (advances.still d _ (all d).run);
        })
        (λ c h.
          Follows-still kind P Q advances s.workers s.queue.delivered s.forwarder c (s.calls c)
            (all c))

  -- A worker writes about the job `d`, whose call may change.
  works :
      (s : System) (i d : ℕ) (w : Worker) (r : Call)
      → ((c : ℕ) → d ≢ c → about c (s.workers i) ≡ elsewhere)
      → ((c : ℕ) → d ≢ c → about c w ≡ elsewhere)
      → Follows Q (write s.workers i w) s.queue.delivered s.forwarder d r
      → AllFollow P s
      → (c : ℕ)
      → Follows Q (write s.workers i w) s.queue.delivered s.forwarder c (write s.calls d r c)
  works s i d w r old new mine all =
      write-each (λ c q. Follows Q (write s.workers i w) s.queue.delivered s.forwarder c q) s.calls
        d r mine
        (λ c h.
          Follows-others kind P Q advances s.workers (write s.workers i w) s.queue.delivered
            s.queue.delivered s.forwarder s.forwarder c (s.calls c)
            (about-other s.workers i c d w h (old c h) (new c h)) refl refl (all c))

  -- A worker moves the job `d`, whose call does not change.
  places :
      (s : System) (i d : ℕ) (w : Worker) (f : Forwarder)
      → ((c : ℕ) → d ≢ c → about c (s.workers i) ≡ elsewhere)
      → ((c : ℕ) → d ≢ c → about c w ≡ elsewhere)
      → ((c : ℕ) → d ≢ c → is_passing c f ≡ is_passing c s.forwarder)
      → Follows Q (write s.workers i w) s.queue.delivered f d (s.calls d)
      → AllFollow P s
      → (c : ℕ) → Follows Q (write s.workers i w) s.queue.delivered f c (s.calls c)
  places s i d w f old new passed mine all =
      split-index (λ c. Follows Q (write s.workers i w) s.queue.delivered f c (s.calls c)) d mine
        (λ c h.
          Follows-others kind P Q advances s.workers (write s.workers i w) s.queue.delivered
            s.queue.delivered s.forwarder f c (s.calls c)
            (about-other s.workers i c d w h (old c h) (new c h)) refl (passed c h) (all c))

  -- The forwarder, the queue or an idle worker moves, and no job with it.
  idles :
      (s : System) (ws : ℕ → Worker) (out : List (Option ℕ)) (f : Forwarder)
      → ((c k : ℕ) → about c (ws k) ≡ about c (s.workers k))
      → out ≡ s.queue.delivered
      → ((c : ℕ) → is_passing c f ≡ is_passing c s.forwarder)
      → AllFollow P s
      → (c : ℕ) → Follows Q ws out f c (s.calls c)
  idles s ws out f same_marks same_out same_f all c =
      Follows-others kind P Q advances s.workers ws s.queue.delivered out s.forwarder f c
        (s.calls c) (same_marks c) (ap (λ o. times c (jobs_of o)) same_out) (same_f c) (all c)

  pub Step-AllFollow : {s t : System} → Inv kind s → Step kind s t → AllFollow P s → AllFollow Q t
  Step-AllFollow {s} inv (call c e) all = unseen s c _ (λ j. refl) all
  Step-AllFollow {s} inv (send c e n r) all = unseen s c _ (λ j. refl) all
  Step-AllFollow {s} inv (within_queue {q} st a d) all =
      idles s s.workers q.delivered s.forwarder (λ c k. refl) d (λ c. refl) all
  Step-AllFollow {s} inv (forward none f q) all = absurd (sends_job kind s.queue inv.queue q)
  Step-AllFollow {s} inv (forward (some d) f q) all =
      split-index
        (λ c.
          Follows Q s.workers (s.queue.delivered ++ some d ∷ []) (forwarding (some d)) c
            (s.calls c))
        d
        (let_out-Follows kind P Q advances s.workers s.queue.delivered s.forwarder d (s.calls d)
          (first_time kind s.queue d (s.calls d).sent inv.queue (inv.arrived d) q) (all d))
        (λ c h.
          Follows-others kind P Q advances s.workers s.workers s.queue.delivered
            (s.queue.delivered ++ some d ∷ []) s.forwarder (forwarding (some d)) c (s.calls c)
            (λ k. refl) (times-snoc c d s.queue.delivered ∙ ground arith) (ground (arith, f))
            (all c))
  Step-AllFollow {s} inv (hand c i f n w) all =
      places s i c (holding c) receiving (λ d h. rw w refl) (λ d h. ground arith)
        (λ d h. ground (arith, f))
        (taken kind P Q advances s.workers s.queue.delivered s.forwarder c i (s.calls c) (all c) f
          w)
        all
  Step-AllFollow {s} inv (stop_forwarder f q) all =
      idles s s.workers s.queue.delivered forwarder_stopped (λ c k. refl) refl (λ c. rw f refl) all
  Step-AllFollow {s} inv (begin c i w) all =
      works s i c (started c) _ (λ d h. rw w (ground arith)) (λ d h. ground arith)
        (begins kind P Q advances s.workers s.queue.delivered s.forwarder c i (s.calls c) (all c) w)
        all
  Step-AllFollow {s} inv (skip c i w e) all =
      works s i c idle _ (λ d h. rw w (ground arith)) (λ d h. refl)
        (skips kind P Q advances s.workers s.queue.delivered s.forwarder c i (s.calls c) (all c) w
          e)
        all
  Step-AllFollow {s} inv (go c i w e) all =
      places s i c (running c) s.forwarder (λ d h. rw w (ground arith)) (λ d h. ground arith)
        (λ d h. refl)
        (goes kind P Q advances s.workers s.queue.delivered s.forwarder c i (s.calls c) (all c) w e)
        all
  Step-AllFollow {s} inv (finish c i err w e) all =
      works s i c idle _ (λ d h. rw w (ground arith)) (λ d h. refl)
        (finishes kind P Q advances s.workers s.queue.delivered s.forwarder c i (s.calls c) (all c)
          err w e)
        all
  Step-AllFollow {s} inv (notice c n e d) all = moves s c _ (λ j. Handshake.notice e d) all
  Step-AllFollow {s} inv (expire c n e) all = moves s c _ (λ j. Handshake.expire e) all
  Step-AllFollow {s} inv (cancel c e) all = moves s c _ (λ j. Handshake.cancel e) all
  Step-AllFollow {s} inv (collect c err e r) all = moves s c _ (λ j. Handshake.collect err e r) all
  Step-AllFollow {s} inv (set_quantity q) all = λ c.
      Follows-still kind P Q advances s.workers s.queue.delivered s.forwarder c (s.calls c) (all c)
  Step-AllFollow {s} inv (leave i k e w) all =
      idles s (write s.workers i gone) s.queue.delivered s.forwarder (λ c j. ground (arith, w)) refl
        (λ c. refl) all
