-- ===== src/CircuitBreaker/Window/Recent.antt =====
-- The buckets of a window from the current one back to the oldest, and how each operation changes
-- that list.
use mathlib.Core.List.{reverse, reverse-append, reverse-cons, append-nil, append_assoc}
use goresilience.Prelude.{
  ℕ, zero, suc, ◌<◌, ◌≡◌, refl, sym, ap, ◌∙◌, Option, some, List, [], ◌∷◌, ◌++◌, length, get_elem?,
  set, take, drop, replicate, arith,
}
use goresilience.Errors.{Error}
use goresilience.CircuitBreaker.Window.{
  Bucket, BucketWindow, empty, reset, replace_oldest, count, inc,
}
use goresilience.CircuitBreaker.Window.Shape.{IsWellFormed}

abbrev pub from_index : ℕ → List Bucket → List Bucket
from_index i xs = reverse (take (suc i) xs) ++ reverse (drop (suc i) xs)

unfoldable pub recent : BucketWindow → List Bucket
recent b = from_index b.current b.window

module _ {ℓ} {A : Type ℓ} where
  -- A list around the entry at an index.
  pub record Around (xs : List A) (i : ℕ) : Type ℓ where
    pub before : List A
    pub entry : A
    pub after : List A
    pub index : length before ≡ i
    pub whole : xs ≡ before ++ entry ∷ after

  pub around : (xs : List A) (i : ℕ) → i < length xs → Around xs i
  around [] i h = elim h [ ]
  around (x ∷ xs) zero h = record { before = []; entry = x; after = xs; index = refl; whole = refl }
  around (x ∷ xs) (suc i) h =
      let r = around xs i (omega arith) in
      record {
        before = x ∷ r.before;
        entry = r.entry;
        after = r.after;
        index = ap suc r.index;
        whole = ap (◌∷◌ x) r.whole;
      }

  pub get_elem?-middle :
      (xs : List A) (y : A) (ys : List A) → get_elem? (xs ++ y ∷ ys) (length xs) ≡ some y
  get_elem?-middle [] y ys = refl
  get_elem?-middle (x ∷ xs) y ys = get_elem?-middle xs y ys

  pub set-middle :
      (xs : List A) (y z : A) (ys : List A) → set (xs ++ y ∷ ys) (length xs) z ≡ xs ++ z ∷ ys
  set-middle [] y z ys = refl
  set-middle (x ∷ xs) y z ys = ap (◌∷◌ x) (set-middle xs y z ys)

  take-middle :
      (xs : List A) (y : A) (ys : List A) → take (suc (length xs)) (xs ++ y ∷ ys) ≡ xs ++ y ∷ []
  take-middle [] y ys = refl
  take-middle (x ∷ xs) y ys = ap (◌∷◌ x) (take-middle xs y ys)

  drop-middle : (xs : List A) (y : A) (ys : List A) → drop (suc (length xs)) (xs ++ y ∷ ys) ≡ ys
  drop-middle [] y ys = refl
  drop-middle (x ∷ xs) y ys = drop-middle xs y ys

  take-before : (xs ys : List A) → take (length xs) (xs ++ ys) ≡ xs
  take-before [] [] = refl
  take-before [] (y ∷ ys) = refl
  take-before (x ∷ xs) ys = ap (◌∷◌ x) (take-before xs ys)

  drop-before : (xs ys : List A) → drop (length xs) (xs ++ ys) ≡ ys
  drop-before [] [] = refl
  drop-before [] (y ∷ ys) = refl
  drop-before (x ∷ xs) ys = drop-before xs ys

-- The entry at the index comes first, then those before it, then those after it, each backwards.
from_index-middle :
    (xs : List Bucket) (y : Bucket) (ys : List Bucket)
    → from_index (length xs) (xs ++ y ∷ ys) ≡ y ∷ (reverse xs ++ reverse ys)
from_index-middle xs y ys =
    simp (take-middle xs y ys, drop-middle xs y ys, reverse-append xs (y ∷ []))

recent-middle :
    (b : BucketWindow) (xs : List Bucket) (y : Bucket) (ys : List Bucket)
    → length xs ≡ b.current
    → b.window ≡ xs ++ y ∷ ys
    → recent b ≡ y ∷ (reverse xs ++ reverse ys)
unfolding recent
recent-middle b xs y ys i w = rw (w, ← i) (from_index-middle xs y ys)

-- Where the current entry is the last of the first part.
recent-split :
    (b : BucketWindow) (xs ys : List Bucket)
    → length xs ≡ suc b.current
    → b.window ≡ xs ++ ys
    → recent b ≡ reverse xs ++ reverse ys
unfolding recent
recent-split b xs ys i w = rw (w, ← i, take-before xs ys, drop-before xs ys)

-- A recorded result changes the current entry only.
inc-middle :
    (err : Option Error) (b : BucketWindow) (xs : List Bucket) (y : Bucket) (ys : List Bucket)
    → length xs ≡ b.current
    → b.window ≡ xs ++ y ∷ ys
    → inc err b ≡ record b { window = xs ++ count err y ∷ ys }
unfolding inc
inc-middle err b xs y ys i w = rw (here, inc) (ap (λ ws. record b { window = ws }) written)
  where
    here : get_elem? b.window b.current ≡ some y
    here = rw (w, ← i) (get_elem?-middle xs y ys)

    written : set b.window b.current (count err y) ≡ xs ++ count err y ∷ ys
    written = rw (w, ← i) (set-middle xs y (count err y) ys)

-- A result is counted in the first bucket.
pub recent-inc :
    (err : Option Error) (b : BucketWindow)
    → IsWellFormed b
    → (x : Bucket) × (rest : List Bucket) × (recent b ≡ x ∷ rest)
      × (recent (inc err b) ≡ count err x ∷ rest)
recent-inc err b v =
    let record { before = xs; entry = y; after = ys; index = i; whole = w } =
      around b.window b.current (omega (arith, v.sized, v.inside)) in
    (
      y,
      reverse xs ++ reverse ys,
      recent-middle b xs y ys i w,
      rw (inc-middle err b xs y ys i w) (recent-middle _ xs (count err y) ys i refl),
    )

oldest-split :
    (b : BucketWindow) (xs : List Bucket) (y : Bucket) (ys : List Bucket)
    → IsWellFormed b
    → length xs ≡ b.next_index_to_replace
    → b.window ≡ xs ++ y ∷ ys
    → recent b ≡ (reverse xs ++ reverse ys) ++ y ∷ []
oldest-split b [] y ys v i w =
    recent-split b (y ∷ ys) [] (ap length (sym w) ∙ last) (w ∙ sym (append-nil (y ∷ ys)))
    ∙ append-nil (reverse (y ∷ ys))
    ∙ reverse-cons y ys
  where
    last : length b.window ≡ suc b.current
    last = omega (arith, v)
oldest-split b (x ∷ xs) y ys v i w =
    recent-split b (x ∷ xs) (y ∷ ys) next w
    ∙ ap (◌++◌ (reverse (x ∷ xs))) (reverse-cons y ys)
    ∙ sym (append_assoc (reverse (x ∷ xs)) (reverse ys) (y ∷ []))
  where
    next : length (x ∷ xs) ≡ suc b.current
    next = omega (arith, v)

-- A tick puts an empty bucket in front, and drops the last.
pub recent-replace_oldest :
    (b : BucketWindow)
    → IsWellFormed b
    → (y : Bucket) × (rest : List Bucket) × (recent b ≡ rest ++ y ∷ [])
      × (recent (replace_oldest b) ≡ empty ∷ rest)
unfolding replace_oldest
recent-replace_oldest b v =
    let record { before = xs; entry = y; after = ys; index = i; whole = w } =
      around b.window b.next_index_to_replace (omega (arith, v)) in
    (
      y,
      reverse xs ++ reverse ys,
      oldest-split b xs y ys v i w,
      recent-middle (replace_oldest b) xs empty ys i (written xs y ys i w),
    )
  where
    written :
        (xs : List Bucket) (y : Bucket) (ys : List Bucket)
        → length xs ≡ b.next_index_to_replace
        → b.window ≡ xs ++ y ∷ ys
        → set b.window b.next_index_to_replace empty ≡ xs ++ empty ∷ ys
    written xs y ys i w = rw (w, ← i) (set-middle xs y empty ys)

replicate-snoc : (n : ℕ) → replicate n empty ++ empty ∷ [] ≡ empty ∷ replicate n empty
replicate-snoc zero = refl
replicate-snoc (suc n) = ap (◌∷◌ empty) (replicate-snoc n)

reverse-replicate : (n : ℕ) → reverse (replicate n empty) ≡ replicate n empty
reverse-replicate zero = refl
reverse-replicate (suc n) =
    reverse-cons empty (replicate n empty)
    ∙ ap (λ xs. xs ++ empty ∷ []) (reverse-replicate n)
    ∙ replicate-snoc n

-- After a reset every bucket is empty.
pub recent-reset :
    (b : BucketWindow) (n : ℕ) → b.window_size ≡ suc n → recent (reset b) ≡ replicate (suc n) empty
unfolding reset
recent-reset b n e =
    recent-middle (reset b) [] empty (replicate n empty) refl (rw e)
    ∙ ap (◌∷◌ empty) (reverse-replicate n)
