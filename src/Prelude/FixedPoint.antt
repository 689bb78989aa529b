-- ===== src/Prelude/FixedPoint.antt =====
-- Thousandths with an infinity and NaN: a type that can stand for float64 in examples. It rounds
-- where IEEE would not, and prints nothing.
use sovereign_core.Prelude.Ints.{ℤ, pos, pos_part, neg_part, sub_ℕ, ltb_ℤ, ◌+ℤ◌, ◌-ℤ◌, ◌*ℤ◌}
use sovereign_core.Prelude.Floats.{Float64}
use Prim.Native.Nat.{ℕ, ◌/◌, ◌^◌, ◌+◌}
use mathlib.Core.Bool.{Bool, true, false, ◌||◌, not}
use mathlib.Core.List.{[]}

pub data Fixed : Type 0 where
  nan neg_inf : Fixed
  fin : ℤ → Fixed

abbrev map2 : (ℤ → ℤ → ℤ) → Fixed → Fixed → Fixed
map2 f (fin a) (fin b) = fin (f a b)
map2 f _ _ = nan

abbrev scale_down : ℕ → ℤ → ℤ
scale_down d a = sub_ℕ (pos_part a / d) (neg_part a / d)

abbrev pub fixed_lt : Fixed → Fixed → Bool
fixed_lt neg_inf (fin b) = true
fixed_lt (fin a) (fin b) = ltb_ℤ a b
fixed_lt _ _ = false

abbrev fixed_eq : Fixed → Fixed → Bool
fixed_eq (fin a) (fin b) = not (ltb_ℤ a b || ltb_ℤ b a)
fixed_eq neg_inf neg_inf = true
fixed_eq _ _ = false

abbrev fixed_neg : Fixed → Fixed
fixed_neg (fin a) = fin (sub_ℕ (neg_part a) (pos_part a))
fixed_neg _ = nan

abbrev fixed_abs : Fixed → Fixed
fixed_abs (fin a) = fin (pos (pos_part a + neg_part a))
fixed_abs _ = nan

abbrev whole : Fixed → ℤ
whole (fin a) = scale_down 1000 a
whole _ = pos 0

instance unfoldable pub fixed_point : Float64 Fixed
unfolding ◌+ℤ◌ ◌-ℤ◌ ◌*ℤ◌
fixed_point = record {
  decimal = λ m e. fin (scale_down (10 ^ e) (m *ℤ pos 1000));
  of_int = λ n. fin (n *ℤ pos 1000);
  to_int = whole;
  neg_inf = neg_inf;
  neg = fixed_neg;
  abs = fixed_abs;
  add = map2 ◌+ℤ◌;
  sub = map2 ◌-ℤ◌;
  mul = map2 (λ a b. scale_down 1000 (a *ℤ b));
  lt = fixed_lt;
  eq = fixed_eq;
  fixed = λ n x. [];
}
