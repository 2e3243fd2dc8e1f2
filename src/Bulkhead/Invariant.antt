-- ===== src/Bulkhead/Invariant.antt =====
-- The links between calls and workers, and what a call has when it returns.
use goresilience.Prelude.{
  ℕ, ◌<◌, ◌≡◌, ◌≢◌, refl, ◌⊎◌, inl, inr, Option, none, some, [], ◌∷◌, held, arith, ◌==◌, Bool-cases,
}
use goresilience.Prelude.Int.{pos_part}
use goresilience.Errors.{Error, err_timeout_waiting_for_execution}
use goresilience.Bulkhead.{
  Config, Caller, outside, queued, handed, returned, Call, Worker, idle, holding, running, gone,
  System, pool_started, Step, enter, hand, give_up, process, finish, collect, close, leave, Reach,
  start, later,
}

-- The call whose job a worker has.
abbrev pub works : Worker → Option ℕ
works idle = none
works (holding c) = some c
works (running c) = some c
works gone = none

-- What a call that has returned has run: once, with what it returns, or not at all.
abbrev pub Settled : Call → Option Error → Type 0
Settled r err =
    (r.outcomes ≡ err ∷ []) ⊎ ((r.outcomes ≡ []) × (err ≡ some err_timeout_waiting_for_execution))

abbrev Fits : Call → Caller → Type 0
Fits r outside = (r.res_c ≡ none) × (r.outcomes ≡ [])
Fits r queued = (r.res_c ≡ none) × (r.outcomes ≡ [])
Fits r handed = r.outcomes ≡ held r.res_c
Fits r (returned err) = (r.res_c ≡ none) × Settled r err

module _ (cfg : Config) (calls : ℕ) where
  pub record Inv (s : System) : Type 0 where
    pub linked :
        (i c : ℕ)
        → works (s.workers i) ≡ some c
        → (c < calls)
          × ((s.calls c).caller ≡ handed)
          × ((s.calls c).res_c ≡ none)
          × ((s.calls c).outcomes ≡ [])
    pub unique : (i j c : ℕ) → works (s.workers i) ≡ some c → works (s.workers j) ≡ some c → i ≡ j
    pub fits : (c : ℕ) → Fits (s.calls c) (s.calls c).caller
    pub served :
        (c : ℕ)
        → (s.calls c).caller ≡ handed
        → (s.calls c).res_c ≡ none
        → (i : ℕ) × (i < pos_part cfg.workers) × (works (s.workers i) ≡ some c)
    pub known : (c : ℕ) → (s.calls c).caller ≢ outside → c < calls

  Linked : System → ℕ → ℕ → Type 0
  Linked s i c =
      (c < calls)
      × ((s.calls c).caller ≡ handed)
      × ((s.calls c).res_c ≡ none)
      × ((s.calls c).outcomes ≡ [])

  Step-Linked :
      {s t : System}
      → Step cfg calls s t
      → Inv s
      → (i c : ℕ) → works (t.workers i) ≡ some c
      → Linked t i c
  unfolding Linked
  Step-Linked (enter d l e) v i c w = ground (arith, v.linked i c, v.fits d)
  Step-Linked (hand d k l m e f) v i c w = ground (arith, v.linked i c, v.fits d)
  Step-Linked (give_up d l x e) v i c w = ground (arith, v.linked i c)
  Step-Linked (process d k l e) v i c w = ground (arith, v.linked i c, v.linked k d)
  Step-Linked (finish d k err l e f) v i c w = ground (arith, v.linked i c, v.unique i k d)
  Step-Linked (collect d err e f) v i c w = ground (arith, v.linked i c)
  Step-Linked (close e) v i c w = v.linked i c w
  Step-Linked (leave k l e f) v i c w = ground (arith, v.linked i c)

  Step-unique :
      {s t : System}
      → Step cfg calls s t
      → Inv s
      → (i j c : ℕ) → works (t.workers i) ≡ some c
      → works (t.workers j) ≡ some c
      → i ≡ j
  Step-unique (enter d l e) v i j c p q = v.unique i j c p q
  Step-unique (hand d k l m e f) v i j c p q =
      ground (arith, v.unique i j c, v.linked i c, v.linked j c)
  Step-unique (give_up d l x e) v i j c p q = v.unique i j c p q
  Step-unique (process d k l e) v i j c p q = ground (arith, v.unique i j c)
  Step-unique (finish d k err l e f) v i j c p q = ground (arith, v.unique i j c)
  Step-unique (collect d err e f) v i j c p q = v.unique i j c p q
  Step-unique (close e) v i j c p q = v.unique i j c p q
  Step-unique (leave k l e f) v i j c p q = ground (arith, v.unique i j c)

  Step-Fits :
      {s t : System} → Step cfg calls s t → Inv s → (c : ℕ) → Fits (t.calls c) (t.calls c).caller
  Step-Fits (enter d l e) v c = ground (arith, v.fits c)
  Step-Fits (hand d k l m e f) v c = ground (arith, v.fits c)
  Step-Fits (give_up d l x e) v c = ground (arith, v.fits c)
  Step-Fits (process d k l e) v c = v.fits c
  Step-Fits (finish d k err l e f) v c = ground (arith, v.fits c, v.linked k d)
  Step-Fits (collect d err e f) v c = ground (arith, v.fits c)
  Step-Fits (close e) v c = v.fits c
  Step-Fits (leave k l e f) v c = v.fits c

  Served : System → ℕ → Type 0
  Served s c = (i : ℕ) × (i < pos_part cfg.workers) × (works (s.workers i) ≡ some c)

  Step-Served :
      {s t : System}
      → Step cfg calls s t
      → Inv s
      → (c : ℕ) → (t.calls c).caller ≡ handed
      → (t.calls c).res_c ≡ none
      → Served t c
  unfolding Served
  Step-Served (enter d l e) v c p q = v.served c (ground (arith, p, q)) (ground (arith, p, q))
  Step-Served (hand d k l m e f) v c p q = elim (Bool-cases (d == c)) [
    | inl same ↦ (k, m, ground arith)
    | inr other ↦
        let (i, r, w) = v.served c (ground arith) (ground arith) in (i, r, ground (arith, w))
  ]
  Step-Served (give_up d l x e) v c p q = v.served c (ground arith) (ground arith)
  Step-Served (process d k l e) v c p q =
      let (i, r, w) = v.served c p q in (i, r, ground (arith, w))
  Step-Served (finish d k err l e f) v c p q =
      let (i, r, w) = v.served c (ground arith) (ground arith) in (i, r, ground (arith, w))
  Step-Served (collect d err e f) v c p q = v.served c (ground arith) (ground arith)
  Step-Served (close e) v c p q = v.served c p q
  Step-Served (leave k l e f) v c p q = let (i, r, w) = v.served c p q in (i, r, ground (arith, w))

  Step-known :
      {s t : System}
      → Step cfg calls s t
      → Inv s
      → (c : ℕ) → (t.calls c).caller ≢ outside
      → c < calls
  Step-known (enter d l e) v c p = ground (arith, v.known c)
  Step-known (hand d k l m e f) v c p = ground (arith, v.known c)
  Step-known (give_up d l x e) v c p = ground (arith, v.known c)
  Step-known (process d k l e) v c p = v.known c p
  Step-known (finish d k err l e f) v c p = ground (arith, v.known c)
  Step-known (collect d err e f) v c p = ground (arith, v.known c)
  Step-known (close e) v c p = v.known c p
  Step-known (leave k l e f) v c p = v.known c p

  Step-Inv : {s t : System} → Step cfg calls s t → Inv s → Inv t
  unfolding Linked Served
  Step-Inv st v = record {
    linked = Step-Linked st v;
    unique = Step-unique st v;
    fits = Step-Fits st v;
    served = Step-Served st v;
    known = Step-known st v;
  }

  pool_started-Inv : Inv pool_started
  pool_started-Inv = record {
    linked = λ i c w. cc;
    unique = λ i j c p q. cc;
    fits = λ c. (refl, refl);
    served = λ c p q. cc;
    known = λ c p. absurd (p refl);
  }

  pub Reach-Inv : {n : ℕ} {s : System} → Reach cfg calls n s → Inv s
  Reach-Inv start = pool_started-Inv
  Reach-Inv (later before st) = Step-Inv st (Reach-Inv before)

  -- In every interleaving a call that has returned has either run the next runner exactly once, and
  -- returns what that returned, or has not run it at all, and returns the error of a wait that was
  -- too long.
  pub Reach-Settled :
      {n : ℕ} {s : System} (c : ℕ) (err : Option Error)
      → Reach cfg calls n s
      → (s.calls c).caller ≡ returned err
      → Settled (s.calls c) err
  Reach-Settled c err reach e = ground (arith, (Reach-Inv reach).fits c, e)
