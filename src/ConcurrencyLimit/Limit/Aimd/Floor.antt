-- ===== src/ConcurrencyLimit/Limit/Aimd/Floor.antt =====
-- The limit after a decrease and after an increase (aimd.go), and the float64 laws for it.
use goresilience.Prelude.{
  ℕ, suc, ◌^◌, ◌≤◌, ◌≡◌, refl, Bool, true, false, ◌||◌, arith, if◌then◌else◌,
}
use goresilience.Prelude.Int.{pos, ltb_ℤ, eqb_ℤ}
use goresilience.Float64.{Float64}
use goresilience.ConcurrencyLimit.Limit.Aimd.{Aimd, decrease_limit, increase_limit}

-- What is used of float64: an order on all but NaN, and results that are rounded to the nearest
-- number, so that they stay on their side of an operand.
pub record LimitLaws {F : Type 0} (fl : Float64 F) : Type 0 where
  pub trans : (x y z : F) → fl.le x y ≡ true → fl.le y z ≡ true → fl.le x z ≡ true
  pub number_left : (x y : F) → fl.le x y ≡ true → fl.le x x ≡ true
  pub number_right : (x y : F) → fl.le x y ≡ true → fl.le y y ≡ true
  pub other : (x y : F) → fl.le x x ≡ true → fl.le y y ≡ true → fl.le x y ≡ false → fl.le y x ≡ true
  pub other_lt :
      (x y : F) → fl.le x x ≡ true → fl.le y y ≡ true → fl.lt x y ≡ false → fl.le y x ≡ true
  pub ints : (m n : ℕ) → m ≤ n → n ≤ 2 ^ 53 → fl.le (fl.of_int (pos m)) (fl.of_int (pos n)) ≡ true
  pub half_nine :
      (fl.le (fl.decimal 5 1) (fl.decimal 9 1) ≡ true)
      × (fl.le (fl.decimal 9 1) (fl.of_int (pos 1)) ≡ true)
  pub scaled :
      (x r : F)
      → fl.le (fl.of_int (pos 1)) x ≡ true
      → fl.le (fl.decimal 5 1) r ≡ true
      → fl.le r (fl.of_int (pos 1)) ≡ true
      → fl.le (fl.mul x r) x ≡ true
  pub grows :
      (x d : F)
      → fl.le (fl.of_int (pos 1)) x ≡ true
      → fl.le (fl.of_int (pos 0)) d ≡ true
      → fl.le x (fl.add x d) ≡ true
  pub reciprocal :
      (x : F)
      → fl.le (fl.of_int (pos 1)) x ≡ true
      → fl.le (fl.of_int (pos 0)) (fl.mul (fl.of_int (pos 1)) (fl.div (fl.of_int (pos 1)) x)) ≡ true

module _ {F : Type 0} (fl : Float64 F) (laws : LimitLaws fl) where
  infix 50 ◌≤F◌
  abbrev pub ◌≤F◌ : F → F → Type 0
  x ≤F y = fl.le x y ≡ true

  abbrev pub one : F
  one = fl.of_int (pos 1)

  -- The limit is at least the minimum `m + 1`, and the ratio is between 1/2 and 1.
  pub record IsBounded (m : ℕ) (a : Aimd F) : Type 0 where
    pub minimum : a.minimum_limit ≡ pos (suc m)
    pub exact : suc m ≤ 2 ^ 53
    pub half : fl.decimal 5 1 ≤F a.backoff_ratio
    pub whole : a.backoff_ratio ≤F one
    pub floor : fl.of_int (pos (suc m)) ≤F a.limit

  one_le : {m : ℕ} {a : Aimd F} → IsBounded m a → one ≤F a.limit
  one_le {m} b = laws.trans _ _ _ (laws.ints 1 (suc m) (omega arith) b.exact) b.floor

  -- A limit that is lowered, but not below the minimum.
  lowered_bounds :
      (min x l : F) (test : Bool)
      → fl.le x min ≡ test
      → min ≤F l
      → x ≤F l
      → (min ≤F (if test then min else x)) × ((if test then min else x) ≤F l)
  lowered_bounds min x l true e floor down = (laws.number_left min l floor, floor)
  lowered_bounds min x l false e floor down =
      (laws.other x min (laws.number_left x l down) (laws.number_left min l floor) e, down)

  pub decrease_limit_bounds :
      {m : ℕ} {a : Aimd F}
      → IsBounded m a
      → (fl.of_int (pos (suc m)) ≤F (decrease_limit fl a).limit)
        × ((decrease_limit fl a).limit ≤F a.limit)
  unfolding decrease_limit
  decrease_limit_bounds {m} {a} b =
      let x = fl.mul a.limit a.backoff_ratio in
      let down = laws.scaled a.limit a.backoff_ratio (one_le b) b.half b.whole in
      rw b.minimum (lowered_bounds (fl.of_int (pos (suc m))) x a.limit _ refl b.floor down)

  raised : F → Bool → F
  raised l slow = fl.add l (if slow then one else fl.mul one (fl.div one l))

  increase_limit-raised :
      (a : Aimd F)
      → let slow =
          ltb_ℤ (fl.to_int a.limit) a.slow_start_threshold
          || eqb_ℤ a.slow_start_threshold (pos 0) in
        increase_limit fl a ≡ record a { limit = raised a.limit slow }
  unfolding increase_limit raised
  increase_limit-raised a = ground arith

  raised-grows : (l : F) (slow : Bool) → one ≤F l → l ≤F raised l slow
  unfolding raised
  raised-grows l true h = laws.grows l one h (laws.ints 0 1 (omega arith) (omega arith))
  raised-grows l false h = laws.grows l _ h (laws.reciprocal l h)

  -- The settings are kept, and the limit stays above the minimum.
  with_limit :
      {m : ℕ} {a : Aimd F} {l : F}
      → IsBounded m a
      → fl.of_int (pos (suc m)) ≤F l
      → IsBounded m (record a { limit = l })
  with_limit b h = record {
    minimum = b.minimum;
    exact = b.exact;
    half = b.half;
    whole = b.whole;
    floor = h;
  }

  pub decrease_limit-IsBounded :
      {m : ℕ} {a : Aimd F} → IsBounded m a → IsBounded m (decrease_limit fl a)
  unfolding decrease_limit
  decrease_limit-IsBounded b = with_limit b (decrease_limit_bounds b).0

  pub increase_limit-IsBounded :
      {m : ℕ} {a : Aimd F}
      → IsBounded m a
      → IsBounded m (increase_limit fl a) × (a.limit ≤F (increase_limit fl a).limit)
  increase_limit-IsBounded {m} {a} b = rw (increase_limit-raised a) (
    with_limit b (laws.trans _ _ _ b.floor (raised-grows a.limit _ (one_le b))),
    raised-grows a.limit _ (one_le b),
  )
