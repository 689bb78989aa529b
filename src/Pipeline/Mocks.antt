-- ===== src/Pipeline/Mocks.antt =====
-- src/governance/change_pipeline: the mock adapters, and the candidates that the mock generator
-- draws.
use sovereign_core.Prelude.{
  Text, bytes, ◌==◌, pos, negsuc, Float64, if◌then◌else◌, Bool, true, false, not, ◌&&◌, List, [],
  ◌∷◌, ◌++◌, Option, none, Result, ok, err,
}
use sovereign_core.Pipeline.{
  Risk, low, medium, high, irreversible, ChangeRequest, PolicyDecision, Plan, AuditLog, append,
  code_change, resource_op,
}
use sovereign_core.Pipeline.Words.{contains}
use sovereign_core.Pipeline.Solver.{Candidate}

unfoldable pub mock_attest : ChangeRequest → Result Text
mock_attest req = if req.origin == [] then err (bytes "no provenance") else ok req.origin

unfoldable pub mock_evaluate : ChangeRequest → PolicyDecision
mock_evaluate req =
    if req.kind == resource_op && contains req.proposal.summary (bytes "cross-region-key")
    then record {
      allowed = false;
      hard_rail_violated = true;
      reasons = bytes "key would leave region boundary (D24/25)" ∷ [];
    }
    else if contains req.proposal.summary (bytes "disable-isolation")
    then record {
      allowed = false;
      hard_rail_violated = true;
      reasons = bytes "would breach minimum isolation tier (66)" ∷ [];
    }
    else record { allowed = true; hard_rail_violated = false; reasons = [] }

-- The variable r of mockPlanner.Plan: each test overwrites it.
unfoldable pub mock_risk : ChangeRequest → Risk
mock_risk req =
    if contains req.proposal.summary (bytes "schema-drop")
    then high
    else if not req.proposal.reversible
    then irreversible
    else if req.kind == code_change
    then medium
    else low

abbrev rollout_steps : List Text
rollout_steps = bytes "shadow" ∷ bytes "canary-5%" ∷ bytes "rollout" ∷ []

unfoldable pub mock_planner :
    {F : Type 0} ⦃float : Float64 F⦄ → ChangeRequest → PolicyDecision → Result (Plan F)
mock_planner ⦃float⦄ req dec = ok (record {
  steps = rollout_steps;
  est_cost_delta = float.decimal (negsuc 124) 1;
  sla_impact = bytes "none";
  isolation_impact = [];
  risk = mock_risk req;
})

-- The loop of mockExecutor.Execute.
unfoldable pub note_steps : List Text → AuditLog → AuditLog
note_steps [] audit = audit
note_steps (s ∷ ss) audit =
    note_steps ss (append audit (bytes "6-execute") (bytes "step=" ++ (s ++ bytes " ok")))

unfoldable pub mock_execute : {F W : Type 0} → Plan F → AuditLog → W → Option Text × AuditLog × W
unfolding note_steps
mock_execute plan audit w = (none, note_steps plan.steps audit, w)

module _ {F : Type 0} ⦃float : Float64 F⦄ (rev : Bool) where
  aggressive_pack : Candidate F
  aggressive_pack = record {
    name = bytes "aggressive-pack";
    steps = bytes "repack node-7 to 200 timelines" ∷ [];
    cost_delta = float.decimal (negsuc 29) 0;
    density_delta = float.decimal (pos 9) 1;
    gpu_util_delta = float.decimal (pos 2) 1;
    idle_delta = float.decimal (negsuc 2) 1;
    sla_headroom = float.decimal (pos 1) 1;
    isolation_ok = false;
    sovereignty_ok = true;
    reversible = rev;
  }

  safe_pack : Candidate F
  safe_pack = record {
    name = bytes "safe-pack";
    steps =
        bytes "repack within isolation band"
        ∷ bytes "shadow"
        ∷ bytes "canary-5%"
        ∷ bytes "rollout"
        ∷ [];
    cost_delta = float.decimal (negsuc 17) 0;
    density_delta = float.decimal (pos 4) 1;
    gpu_util_delta = float.decimal (pos 15) 2;
    idle_delta = float.decimal (negsuc 1) 1;
    sla_headroom = float.decimal (pos 3) 1;
    isolation_ok = true;
    sovereignty_ok = true;
    reversible = rev;
  }

  conservative : Candidate F
  conservative = record {
    name = bytes "conservative";
    steps = bytes "minor tune" ∷ bytes "rollout" ∷ [];
    cost_delta = float.decimal (negsuc 4) 0;
    density_delta = float.decimal (pos 1) 1;
    gpu_util_delta = float.decimal (pos 5) 2;
    idle_delta = float.decimal (pos 0) 0;
    sla_headroom = float.decimal (pos 5) 1;
    isolation_ok = true;
    sovereignty_ok = true;
    reversible = rev;
  }

  direct : Candidate F
  direct = record {
    name = bytes "direct";
    steps = rollout_steps;
    cost_delta = float.decimal (negsuc 7) 0;
    density_delta = float.decimal (pos 1) 1;
    gpu_util_delta = float.decimal (pos 0) 0;
    idle_delta = float.decimal (pos 0) 0;
    sla_headroom = float.decimal (pos 4) 1;
    isolation_ok = true;
    sovereignty_ok = true;
    reversible = rev;
  }

unfoldable pub mock_generate : {F : Type 0} ⦃float : Float64 F⦄ → ChangeRequest → List (Candidate F)
unfolding aggressive_pack safe_pack conservative direct
mock_generate req =
    let rev = req.proposal.reversible in
    if req.kind == bytes "self_improve"
    then aggressive_pack rev ∷ safe_pack rev ∷ conservative rev ∷ []
    else direct rev ∷ []
