-- ===== src/Pipeline/Approval.antt =====
-- src/governance/change_pipeline/main.go: the two tests that the pipeline makes itself, needsOwner and
-- devInfraHardRail, each against what it is meant to single out.
use sovereign_core.Prelude.{
  Text, bytes, ◌==◌, ==_iff, Bool-cases, ◌≡◌, ◌↔◌, ◌⊎◌, inl, inr, true, ◌++◌, none, arith,
}
use sovereign_core.Pipeline.{
  high, irreversible, ChangeRequest, Plan, needs_owner, dev_infra_hard_rail, auto_agent,
  code_change, purpose_dev, resource_op,
}
use sovereign_core.Pipeline.Words.{has_prefix}
use sovereign_core.Pipeline.Words.Search.{has_prefix_iff}

-- An owner has to approve exactly a plan of high or irreversible risk, and a code change that claims
-- to come from an auto-agent. So a plan of low or medium risk passes with no owner for every other
-- origin and kind.
pub needs_owner_iff :
    {F : Type 0} (req : ChangeRequest) (plan : Plan F)
    → (needs_owner req plan ≡ true) ↔ (
        (plan.risk ≡ high)
        ⊎ (plan.risk ≡ irreversible)
        ⊎ ((req.origin ≡ auto_agent) × (req.kind ≡ code_change)))
unfolding needs_owner
needs_owner_iff req plan = (
  (λ h. ground (arith, ==_iff req.origin auto_agent, ==_iff req.kind code_change)),
  (λ h. ground (arith, ==_iff req.origin auto_agent, ==_iff req.kind code_change)),
)

-- What the rail is meant to stop: the development engine at the infrastructure.
abbrev pub TouchesInfra : ChangeRequest → Type 0
TouchesInfra req =
    (req.purpose ≡ purpose_dev)
    × ((req.kind ≡ resource_op) ⊎ ((path : Text) × (req.proposal.target ≡ bytes "infra/" ++ path)))

-- The structural rail lets a request pass exactly if it does not come from the development engine,
-- or is neither a resource operation nor aimed below "infra/".
pub dev_infra_hard_rail_iff :
    (req : ChangeRequest) → (dev_infra_hard_rail req ≡ none) ↔ (¬ TouchesInfra req)
unfolding dev_infra_hard_rail
dev_infra_hard_rail_iff req = (
  (λ h (dev, touch). elim touch [
    | inl op ↦ ground (arith, ==_iff req.purpose purpose_dev, ==_iff req.kind resource_op)
    | inr below ↦
        let hit = (has_prefix_iff req.proposal.target (bytes "infra/")).1 below in
        ground (arith, ==_iff req.purpose purpose_dev)
  ]),
  (λ clear. elim (Bool-cases (req.purpose == purpose_dev)) [
    | inr ops ↦ ground arith
    | inl dev ↦ elim (Bool-cases (req.kind == resource_op)) [
      | inl op ↦ absurd (clear ((==_iff req.purpose _).0 dev, inl ((==_iff req.kind _).0 op)))
      | inr other ↦ elim (Bool-cases (has_prefix req.proposal.target (bytes "infra/"))) [
        | inl below ↦ absurd (
            clear
              ((==_iff req.purpose _).0 dev, inr ((has_prefix_iff req.proposal.target _).0 below)))
        | inr above ↦ ground arith
      ]
    ]
  ]),
)
