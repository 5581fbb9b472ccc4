-- ===== src/Floats.antt =====
-- The float64 arithmetic that self_healing.go and engine_background.go do. Floats are the type of
-- `World`; their operations are a parameter, with the laws of IEEE 754 that are used.
use guard_go.Base.{ℕ, ◌^◌, ◌<◌, ◌≡◌, Bool, true, false}
use guard_go.Base.Int.{ℤ, pos, ◌≤ℤ◌}
use guard_go.Config.{World}

-- 1.0 and 0.0.
abbrev pub one : (w : World) → w.Float
one w = w.literal 100

abbrev pub nought : (w : World) → w.Float
nought w = w.literal 0

-- `less` is Go's `<`, `from_int` and `to_int` its conversions. `finite` excludes NaN and the infinities.
-- An int below 2^53 is a float64, and dividing it by 1 or more does not make it larger.
pub record Arithmetic (w : World) : Type 0 where
  pub less : w.Float → w.Float → Bool
  pub from_int : ℤ → w.Float
  pub to_int : w.Float → ℤ
  pub add : w.Float → w.Float → w.Float
  pub sub : w.Float → w.Float → w.Float
  pub mul : w.Float → w.Float → w.Float
  pub div : w.Float → w.Float → w.Float
  pub min : w.Float → w.Float → w.Float
  pub finite : w.Float → Bool
  pub literal_finite : (n : ℕ) → finite (w.literal n) ≡ true
  pub at_most_refl : (a : w.Float) → finite a ≡ true → w.at_most a a ≡ true
  pub at_most_trans :
      (a b c : w.Float) → w.at_most a b ≡ true → w.at_most b c ≡ true → w.at_most a c ≡ true
  pub at_most_total :
      (a b : w.Float)
      → finite a ≡ true
      → finite b ≡ true
      → w.at_most a b ≡ false
      → w.at_most b a ≡ true
  pub less_at_most : (a b : w.Float) → less a b ≡ true → w.at_most a b ≡ true
  pub not_less :
      (a b : w.Float) → finite a ≡ true → finite b ≡ true → less a b ≡ false → w.at_most b a ≡ true
  pub sub_finite :
      (a b : w.Float)
      → finite a ≡ true
      → finite b ≡ true
      → w.at_most (one w) a ≡ true
      → w.at_most (nought w) b ≡ true
      → finite (sub a b) ≡ true
  pub sub_at_most :
      (a b : w.Float)
      → finite a ≡ true
      → finite b ≡ true
      → w.at_most (nought w) b ≡ true
      → w.at_most (sub a b) a ≡ true
  pub min_finite :
      (a b : w.Float) → finite a ≡ true → w.at_most (one w) b ≡ true → finite (min a b) ≡ true
  pub min_at_most :
      (a b : w.Float) → finite a ≡ true → w.at_most (one w) b ≡ true → w.at_most (min a b) a ≡ true
  pub min_above :
      (c a b : w.Float) → w.at_most c a ≡ true → w.at_most c b ≡ true → w.at_most c (min a b) ≡ true
  pub quotient_at_most :
      (n : ℕ) (m : w.Float)
      → n < 2 ^ 53
      → finite m ≡ true
      → w.at_most (one w) m ≡ true
      → to_int (div (from_int (pos n)) m) ≤ℤ pos n
