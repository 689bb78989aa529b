-- ===== src/Pipeline/Attestation.antt =====
-- src/governance/change_pipeline/main.go: what the attested origin is used for.
use sovereign_core.Prelude.{Text, Float64, ◌≡◌, ◌↔◌, ◌⊎◌, sym, Result, ok}
use sovereign_core.Pipeline.{
  ChangeRequest, Plan, Pipeline, awaiting_owner, handle, high, irreversible, auto_agent,
  code_change,
}
use sovereign_core.Pipeline.Approval.{needs_owner_iff}
use sovereign_core.Pipeline.Safety.{Judged, awaiting_owner_iff}

abbrev pub with_auth :
    {F W : Type 0} → Pipeline F W → (ChangeRequest → W → Result Text × W) → Pipeline F W
with_auth p attest = record p { attest = attest }

transfer :
    {F W : Type 0} ⦃float : Float64 F⦄ (p : Pipeline F W)
    (f g : ChangeRequest → W → Result Text × W) (req : ChangeRequest) (w : W) (b : Text)
    → (g req w).0 ≡ ok b
    → (f req w).1 ≡ (g req w).1
    → (handle (with_auth p f) req w).0 ≡ awaiting_owner
    → (handle (with_auth p g) req w).0 ≡ awaiting_owner
transfer p f g req w b accepts same h =
    let (plan, j, owner) = (awaiting_owner_iff (with_auth p f) req w).0 h in
    (awaiting_owner_iff (with_auth p g) req w).1 (
      plan,
      record {
        has_id = j.has_id;
        has_kind = j.has_kind;
        origin = b;
        attested = accepts;
        off_infra = j.off_infra;
        within_rails = rw (sym same) j.within_rails;
        allowed = rw (sym same) j.allowed;
        planned = rw (sym same) j.planned;
      },
      owner,
    )

-- The origin that the authenticator attests plays no part in the approval. Of two authenticators
-- that both accept the request, with whatever origins, and leave the world the same, one makes Handle
-- await an owner exactly if the other does. And Handle awaits an owner exactly if the
-- request passes gates 1 to 4 with a plan, and that plan's risk is high or irreversible or the
-- request is a code change whose claimed origin is the auto-agent.
pub attested_origin_unused :
    {F W : Type 0} ⦃float : Float64 F⦄ (p : Pipeline F W)
    (f g : ChangeRequest → W → Result Text × W) (req : ChangeRequest) (w : W) (a b : Text)
    → (f req w).0 ≡ ok a
    → (g req w).0 ≡ ok b
    → (f req w).1 ≡ (g req w).1
    → (((handle (with_auth p f) req w).0 ≡ awaiting_owner)
        ↔ ((handle (with_auth p g) req w).0 ≡ awaiting_owner))
      × (((handle (with_auth p f) req w).0 ≡ awaiting_owner) ↔ (
          (plan : Plan F) × Judged (with_auth p f) req w plan
          × ((plan.risk ≡ high)
              ⊎ (plan.risk ≡ irreversible)
              ⊎ ((req.origin ≡ auto_agent) × (req.kind ≡ code_change)))))
attested_origin_unused p f g req w a b ef eg same =
    let held = awaiting_owner_iff (with_auth p f) req w in
    (
      (transfer p f g req w b eg same, transfer p g f req w a ef (sym same)),
      (
        (λ h. let (plan, j, owner) = held.0 h in (plan, j, (needs_owner_iff req plan).0 owner)),
        (λ (plan, j, severe). held.1 (plan, j, (needs_owner_iff req plan).1 severe)),
      ),
    )
