-- ===== src/Prelude/Float.antt =====
-- The floating-point operations and the `math` functions that the source calls. A float is its bit
-- pattern; what the hardware and the C library compute on it is a parameter.
use Prim.Native.Nat.{ℕ}
use mathlib.Core.Path.{◌≡◌}
use mathlib.Core.Bool.{Bool, true}
use mathlib.Core.Logic.{◌⊎◌}

pub data Float : Type 0 where
  bits : ℕ → Float

-- `decimal n k` is the float that the literal n / 10^k denotes, `inf` is `float("inf")`,
-- `seconds a b` is `(a - b).total_seconds()` of two instants, and `round_to x k` is `round(x, k)`.
pub record FloatOps : Type 0 where
  pub decimal : ℕ → ℕ → Float
  pub inf : Float
  pub of_int : ℕ → Float
  pub fle : Float → Float → Bool
  pub flt : Float → Float → Bool
  pub add : Float → Float → Float
  pub mul : Float → Float → Float
  pub div : Float → Float → Float
  pub neg : Float → Float
  pub exp : Float → Float
  pub log1p : Float → Float
  pub round_to : Float → ℕ → Float
  pub seconds : ℕ → ℕ → Float

-- What IEEE comparison and rounding promise for numbers that are not NaN.
pub record FloatLaws (fl : FloatOps) : Type 0 where
  pub fle_refl : (x : Float) → fl.fle x x ≡ true
  pub fle_trans : (x y z : Float) → fl.fle x y ≡ true → fl.fle y z ≡ true → fl.fle x z ≡ true
  pub flt_fle : (x y : Float) → (fl.flt x y ≡ true) ⊎ (fl.fle y x ≡ true)
  pub round-mono :
      (x y : Float) (k : ℕ) → fl.fle x y ≡ true → fl.fle (fl.round_to x k) (fl.round_to y k) ≡ true
