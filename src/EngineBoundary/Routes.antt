-- ===== src/EngineBoundary/Routes.antt =====
-- src/governance/engine_boundary_sim/main.go: which way a result of the model may go.
use sovereign_core.Prelude.{
  Text, bytes, ◌==◌, ==_iff, if◌then◌else◌, ◌≡◌, refl, ◌≢◌, ◌↔◌, Bool-cases, Result-cases, inl, inr,
  ◌⊎◌, [], none, ok, arith,
}
use sovereign_core.EngineBoundary.{
  ops, dev, CallContext, Output, infer, apply_ops, route_dev, direct_write,
}

-- A context of neither purpose has a result of the empty purpose.
infer-purpose :
    (ctx : CallContext) (prompt : Text)
    → (infer ctx prompt).ctx.purpose
      ≡ (if ctx.purpose == ops then ctx.purpose else if ctx.purpose == dev then ctx.purpose else [])
unfolding infer
infer-purpose ctx prompt = elim (Bool-cases (ctx.purpose == ops)) [
  | inl same ↦ rw same refl
  | inr other ↦ elim (Bool-cases (ctx.purpose == dev)) [
    | inl same ↦ simp (other, same) refl
    | inr neither ↦ simp (other, neither) refl
  ]
]

apply_ops_iff : (o : Output) → ((t : Text) × (apply_ops o ≡ ok t)) ↔ (o.ctx.purpose ≡ ops)
unfolding apply_ops
apply_ops_iff o = elim (Bool-cases (o.ctx.purpose == ops)) [
  | inl same ↦ (
    (λ (t, e). (==_iff o.ctx.purpose ops).0 same),
    (λ e. elim (Result-cases (apply_ops o)) [ inl r ↦ r | inr (x, q) ↦ absurd (ground arith) ]),
  )
  | inr other ↦ ((λ (t, e). ground arith), (λ e. absurd (ground (arith, ==_iff o.ctx.purpose ops))))
]

route_dev_iff : (o : Output) → ((t : Text) × (route_dev o ≡ ok t)) ↔ (o.ctx.purpose ≡ dev)
unfolding route_dev
route_dev_iff o = elim (Bool-cases (o.ctx.purpose == dev)) [
  | inl same ↦ (
    (λ (t, e). (==_iff o.ctx.purpose dev).0 same),
    (λ e. elim (Result-cases (route_dev o)) [ inl r ↦ r | inr (x, q) ↦ absurd (ground arith) ]),
  )
  | inr other ↦ ((λ (t, e). ground arith), (λ e. absurd (ground (arith, ==_iff o.ctx.purpose dev))))
]

infer_for :
    (ctx : CallContext) (prompt purpose : Text)
    → (purpose ≡ ops) ⊎ (purpose ≡ dev)
    → ((infer ctx prompt).ctx.purpose ≡ purpose) ↔ (ctx.purpose ≡ purpose)
unfolding bytes
infer_for ctx prompt purpose h = (
  (λ e. ground (arith, infer-purpose ctx prompt, ==_iff ctx.purpose ops, ==_iff ctx.purpose dev)),
  (λ e. ground (arith, infer-purpose ctx prompt, ==_iff ctx.purpose ops, ==_iff ctx.purpose dev)),
)

-- What the model infers for a context can be applied at once exactly if its purpose is ops, and can
-- go to the pipeline exactly if its purpose is dev; a direct write to the infrastructure is refused
-- exactly for the purpose dev.
pub purpose_decides :
    (ctx : CallContext) (prompt : Text)
    → (((t : Text) × (apply_ops (infer ctx prompt) ≡ ok t)) ↔ (ctx.purpose ≡ ops))
      × (((t : Text) × (route_dev (infer ctx prompt) ≡ ok t)) ↔ (ctx.purpose ≡ dev))
      × ((direct_write ctx ≢ none) ↔ (ctx.purpose ≡ dev))
unfolding direct_write
purpose_decides ctx prompt = (
  (
    (λ r. (infer_for ctx prompt ops (inl refl)).0 ((apply_ops_iff (infer ctx prompt)).0 r)),
    (λ e. (apply_ops_iff (infer ctx prompt)).1 ((infer_for ctx prompt ops (inl refl)).1 e)),
  ),
  (
    (λ r. (infer_for ctx prompt dev (inr refl)).0 ((route_dev_iff (infer ctx prompt)).0 r)),
    (λ e. (route_dev_iff (infer ctx prompt)).1 ((infer_for ctx prompt dev (inr refl)).1 e)),
  ),
  (
    (λ n. elim (Bool-cases (ctx.purpose == dev)) [
      | inl same ↦ (==_iff ctx.purpose dev).0 same
      | inr other ↦ absurd (n (rw other refl))
    ]),
    (λ e n. ground (arith, ==_iff ctx.purpose dev)),
  ),
)
