-- ===== src/Pipeline/HardRail.antt =====
-- src/governance/change_pipeline/main.go: the structural rail holds with any adapters.
use sovereign_core.Prelude.{Float64, Option-cases, ◌≡◌, ◌⊎◌, inl, inr, arith}
use sovereign_core.Pipeline.{
  ChangeRequest, Pipeline, rejected_policy, rejected_auth_err, dev_infra_hard_rail, handle,
}
use sovereign_core.Pipeline.Approval.{TouchesInfra, dev_infra_hard_rail_iff}

-- A request of the development engine that is a resource operation, or is aimed below "infra/", is
-- rejected with any authenticator, policy, planner and executor, as REJECTED_HARDRAIL or
-- REJECTED_AUTH, and the world is as it was or as the authenticator alone has left it.
pub hard_rail_holds :
    {F W : Type 0} ⦃float : Float64 F⦄ (p : Pipeline F W) (req : ChangeRequest) (w : W)
    → TouchesInfra req
    → (((handle p req w).0 ≡ rejected_policy) ⊎ ((handle p req w).0 ≡ rejected_auth_err))
      × (((handle p req w).2 ≡ w) ⊎ ((handle p req w).2 ≡ (p.attest req w).1))
unfolding handle
hard_rail_holds p req w touches = elim (Option-cases (dev_infra_hard_rail req)) [
  | inl clear ↦ absurd ((dev_infra_hard_rail_iff req).0 clear touches)
  | inr (reason, hit) ↦ ground arith
]
