-- ===== src/Examples/Floats.antt =====
-- A fixed-point arithmetic with six decimals, for numbers that are not negative.
use mirror_memory.Prelude.{ℕ, ◌+◌, ◌*◌, ◌/◌, ◌-◌, leb, ltb, arith, zero, suc}
use mirror_memory.Prelude.Float.{Float, bits, FloatOps, FloatLaws}

abbrev units : Float → ℕ
units (bits n) = n

abbrev pub of_units : ℕ → Float
of_units n = bits n

abbrev power : ℕ → ℕ
power zero = 1
power (suc k) = 10 * power k

-- The source takes `exp` of negated ages alone, so `neg` keeps the age and `exp` reads it as one.
abbrev pub fixed : FloatOps
fixed = record {
  decimal = λ n k. bits (n * 1000000 / power k);
  inf = bits 1000000000000000;
  of_int = λ n. bits (n * 1000000);
  fle = λ x y. leb (units x) (units y);
  flt = λ x y. ltb (units x) (units y);
  add = λ x y. bits (units x + units y);
  mul = λ x y. bits (units x * units y / 1000000);
  div = λ x y. bits (units x * 1000000 / units y);
  neg = λ x. x;
  exp = λ x. bits (1000000000000 / (1000000 + units x));
  log1p = λ x. x;
  round_to = λ x k. x;
  seconds = λ a b. bits (a - b);
}

pub fixed_laws : FloatLaws fixed
fixed_laws = record {
  fle_refl = λ x. ground arith;
  fle_trans = λ x y z h k. ground (arith, h, k);
  flt_fle = λ x y. ground arith;
  round-mono = λ x y k h. h;
}
