-- ===== src/Prelude/Families.antt =====
-- Families indexed by all numbers, of which the first few count: a write at one index, and sums.
use Prim.Native.Nat.{ℕ, zero, suc, ◌+◌, ◌*◌, ◌≤◌, ◌<◌}
use mathlib.Core.Path.{◌≡◌, refl, subst, fun_ext}
use native.Mathlib.Omega.{arith}
use mathlib.Core.Logic.{◌≢◌, inl, inr}
use mathlib.Core.Bool.{true, false}
use goresilience.Prelude.Tests.{◌==◌, if◌then◌else◌, Bool-cases}

abbrev pub write {ℓ} : {A : Type ℓ} → (ℕ → A) → ℕ → A → ℕ → A
write f i a j = if i == j then a else f j

-- A family that is seen through a function.
pub map-write {ℓ ℓ'} :
    {A : Type ℓ} {B : Type ℓ'} (g : A → B) (f : ℕ → A) (i : ℕ) (a : A)
    → write (λ j. g (f j)) i (g a) ≡ (λ j. g (write f i a j))
map-write g f i a =
    fun_ext (λ j. elim (Bool-cases (i == j)) [ inl e ↦ rw e refl | inr e ↦ rw e refl ])

module _ {ℓ} {A : Type ℓ} (w : A → ℕ) where
  -- w (f 0) + … + w (f (n - 1))
  pub tally : ℕ → (ℕ → A) → ℕ
  tally zero f = 0
  tally (suc n) f = w (f n) + tally n f

  tally-write_above :
      (n : ℕ) (f : ℕ → A) (i : ℕ) (a : A) → n ≤ i → tally n (write f i a) ≡ tally n f
  unfolding tally
  tally-write_above zero f i a h = refl
  tally-write_above (suc n) f i a h = ground (arith, tally-write_above n f i a)

  pub tally-write :
      (n : ℕ) (f : ℕ → A) (i : ℕ) (a : A)
      → i < n
      → tally n (write f i a) + w (f i) ≡ tally n f + w a
  unfolding tally
  tally-write zero f i a h = elim h [ ]
  tally-write (suc n) f i a h = ground (arith, tally-write n f i a, tally-write_above n f i a)

  pub tally-le : (k : ℕ) → ((a : A) → w a ≤ k) → (n : ℕ) (f : ℕ → A) → tally n f ≤ n * k
  unfolding tally
  tally-le k small zero f = omega arith
  tally-le k small (suc n) f = grind (arith, small (f n), tally-le k small n f)

  pub tally-const : (a : A) (n : ℕ) → tally n (λ i. a) ≡ n * w a
  unfolding tally
  tally-const a zero = omega arith
  tally-const a (suc n) = grind (arith, tally-const a n)

  pub tally-tail : ((a : A) → w a ≤ 1) → (n k : ℕ) (f : ℕ → A) → tally (k + n) f ≤ tally k f + n
  unfolding tally
  tally-tail small zero k f = let e : k + 0 ≡ k = omega arith in rw e (omega arith)
  tally-tail small (suc n) k f =
      let e : k + suc n ≡ suc (k + n) = omega arith in
      rw e (omega (arith, small (f (k + n)), tally-tail small n k f))

module _ {ℓ} {A : Type ℓ} (w : A → ℕ) (f : ℕ → A) where
  tally_mono : (j m : ℕ) → tally w m f ≤ tally w (m + j) f
  unfolding tally
  tally_mono zero m = let e : m + 0 ≡ m = omega arith in rw e (omega arith)
  tally_mono (suc j) m =
      let e : m + suc j ≡ suc (m + j) = omega arith in rw e (omega (arith, tally_mono j m))

  tally-beyond : (k j : ℕ) → ((i : ℕ) → k ≤ i → w (f i) ≡ 0) → tally w (k + j) f ≡ tally w k f
  unfolding tally
  tally-beyond k zero none = let e : k + 0 ≡ k = omega arith in rw e refl
  tally-beyond k (suc j) none =
      let e : k + suc j ≡ suc (k + j) = omega arith in
      rw e (omega (arith, none (k + j) (omega arith), tally-beyond k j none))

  -- If nothing counts from `k` on, then no more counts than what counts before `k`.
  pub tally-only : (k m : ℕ) → ((i : ℕ) → k ≤ i → w (f i) ≡ 0) → tally w m f ≤ tally w k f
  tally-only k m none =
      let e : m + k ≡ k + m = omega arith in
      let all : tally w (m + k) f ≡ tally w k f = rw e (tally-beyond k m none) in
      omega (arith, tally_mono k m, all)

module _ {ℓ} {A : Type ℓ} (P : A → Type 0) where
  -- What holds of the new entry and of the old ones holds of all.
  pub write-all :
      (f : ℕ → A) (i : ℕ) (a : A) → P a → ((j : ℕ) → P (f j)) → (j : ℕ) → P (write f i a j)
  write-all f i a new old j = elim (Bool-cases (i == j)) [ inl e ↦ rw e new | inr e ↦ rw e (old j) ]

pub same_index : (i j : ℕ) → (i == j) ≡ true → i ≡ j
same_index i j e = ground arith

pub other_index : (i j : ℕ) → i ≢ j → (i == j) ≡ false
other_index i j e = ground arith

differs : (i j : ℕ) → (i == j) ≡ false → i ≡ j → ⊥
differs i j e g = ground arith

module _ {ℓ} {A : Type ℓ} (P : ℕ → A → Type 0) where
  -- What holds of the new entry at its index, and of the old ones at the others, holds of all.
  pub write-each :
      (f : ℕ → A) (i : ℕ) (a : A)
      → P i a
      → ((j : ℕ) → i ≢ j → P j (f j))
      → (j : ℕ) → P j (write f i a j)
  write-each f i a new old j = elim (Bool-cases (i == j)) [
    | inl e ↦ rw e (subst (λ k. P k a) (same_index i j e) new)
    | inr e ↦ rw e (old j (λ g. differs i j e g))
  ]

-- A split at one index.
pub split-index : (P : ℕ → Type 0) (i : ℕ) → P i → ((j : ℕ) → i ≢ j → P j) → (j : ℕ) → P j
split-index P i new old j = elim (Bool-cases (i == j)) [
  | inl e ↦ subst P (same_index i j e) new
  | inr e ↦ old j (λ g. differs i j e g)
]
