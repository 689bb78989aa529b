-- ===== src/Prelude/Floats.antt =====
-- What the code does with float64, as an interface: literals, arithmetic, comparison, conversion
-- and printing. IEEE rounding is left to the implementation; each law that a theorem needs is a
-- hypothesis of that theorem.
use Prim.Native.Nat.{ℕ}
use mathlib.Core.Bool.{Bool}
use sovereign_core.Prelude.Ints.{ℤ}
use sovereign_core.Prelude.Strings.{Text}

pub record Float64 (F : Type 0) : Type 0 where
  -- `decimal m e` is the literal m · 10⁻ᵉ.
  pub decimal : ℤ → ℕ → F
  pub of_int : ℤ → F
  pub to_int : F → ℤ
  pub neg_inf : F
  pub neg : F → F
  pub abs : F → F
  pub add : F → F → F
  pub sub : F → F → F
  pub mul : F → F → F
  pub lt : F → F → Bool
  pub eq : F → F → Bool
  -- `fixed n x` is x printed with the verb %.nf.
  pub fixed : ℕ → F → Text
