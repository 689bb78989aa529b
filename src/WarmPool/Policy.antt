-- ===== src/WarmPool/Policy.antt =====
-- src/controlplane/warmpool.go: the policies that set how many instances are kept warm.
use sovereign_core.Prelude.{
  Text, bytes, ℤ, ltb_ℤ, ◌≤ℤ◌, ◌<ℤ◌, Float64, if◌then◌else◌, ◌≡◌, ◌⊎◌, ◌++◌, arith,
}

-- The interface: the number of recent acquires to the number to keep warm.
pub record WarmPoolPolicy : Type 0 where
  pub target : ℤ → ℤ
  pub name : Text

pub record FixedPolicy : Type 0 where
  pub n : ℤ

pub record LoadProportionalPolicy (F : Type 0) : Type 0 where
  pub buffer : F
  pub min : ℤ
  pub max : ℤ

-- `show` prints an int as %d does.
module _ (show : ℤ → Text) where
  unfoldable pub fixed_policy : FixedPolicy → WarmPoolPolicy
  fixed_policy p = record {
    target = λ recent. p.n;
    name = bytes "fixed(N=" ++ (show p.n ++ bytes ")");
  }

module _ {F : Type 0} ⦃float : Float64 F⦄ where
  unfoldable pub load_target : LoadProportionalPolicy F → ℤ → ℤ
  load_target p recent =
      let t = float.to_int (float.mul (float.of_int recent) p.buffer) in
      let u = if ltb_ℤ t p.min then p.min else t in if ltb_ℤ p.max u then p.max else u

  unfoldable pub load_proportional_policy : (ℤ → Text) → LoadProportionalPolicy F → WarmPoolPolicy
  unfolding load_target
  load_proportional_policy show p = record {
    target = load_target p;
    name =
        bytes "load-proportional(buf="
        ++ (float.fixed 1 p.buffer
            ++ (bytes ",min=" ++ (show p.min ++ (bytes ",max=" ++ (show p.max ++ bytes ")")))));
  }

  -- Where Min ≤ Max, the load-proportional target lies between them: it is the product of demand and
  -- buffer, cut to an int, if that lies between them, Min if it is less and Max if it is greater.
  pub load_target_bounds :
      (show : ℤ → Text) (p : LoadProportionalPolicy F) (recent : ℤ)
      → p.min ≤ℤ p.max
      → let t = (load_proportional_policy show p).target recent in
        let product = float.to_int (float.mul (float.of_int recent) p.buffer) in
        (p.min ≤ℤ t)
        × (t ≤ℤ p.max)
        × ((t ≡ product) ⊎ (product <ℤ p.min) × (t ≡ p.min) ⊎ (p.max <ℤ product) × (t ≡ p.max))
  unfolding load_proportional_policy
  load_target_bounds show p recent h = (ground arith, ground arith, ground arith)
