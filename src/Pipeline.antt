-- ===== src/Pipeline.antt =====
-- src/governance/change_pipeline/main.go: a change request goes through seven gates. The named
-- string types stay texts, since the code takes any string, and so does Risk stay an int; Outcome is an enumeration.
pub mod Words
pub mod Approval
pub mod Safety
pub mod Trail
pub mod HardRail
pub mod Attestation
pub mod Solver
pub mod Mocks
pub mod Demo
mod Tests
use sovereign_core.Prelude.{
  ℕ, suc, get_elem?, ℤ, pos, negsuc, eqb_ℤ, Text, bytes, ◌==◌, Float64, if◌then◌else◌, Bool, true,
  false, not, ◌&&◌, ◌||◌, List, [], ◌∷◌, ◌++◌, Option, none, some, Result, ok, err,
}
use Words.{has_prefix, join, show_list, show_ℕ}

-- Any int; the four constants are RiskLow to RiskIrreversible.
abbrev pub Risk : Type 0
Risk = ℤ

abbrev pub low : Risk
low = pos 0

abbrev pub medium : Risk
medium = pos 1

abbrev pub high : Risk
high = pos 2

abbrev pub irreversible : Risk
irreversible = pos 3

abbrev risk_names : List Text
risk_names = bytes "low" ∷ bytes "medium" ∷ bytes "high" ∷ bytes "irreversible" ∷ []

-- Risk.String, or what it panics with.
unfoldable pub risk_string : Risk → Result Text
risk_string (pos n) = elim (get_elem? risk_names n) [
  | some name ↦ ok name
  | none ↦
      err (bytes "runtime error: index out of range [" ++ (show_ℕ n ++ bytes "] with length 4"))
]
risk_string (negsuc n) =
    err (bytes "runtime error: index out of range [-" ++ (show_ℕ (suc n) ++ bytes "]"))

-- What Sprintf puts for %s: the fmt package catches the panic of a String method.
unfoldable pub show_risk : Risk → Text
show_risk r = elim (risk_string r) [
  | ok name ↦ name
  | err e ↦ bytes "%!s(PANIC=String method: " ++ (e ++ bytes ")")
]

-- `body` is the opaque payload; no code reads it.
pub record Diff : Type 0 where
  pub summary : Text
  pub target : Text
  pub reversible : Bool
  pub body : Option Text

pub record ChangeRequest : Type 0 where
  pub id : Text
  pub origin : Text
  pub purpose : Text
  pub kind : Text
  pub proposal : Diff
  pub tenant_scope : List Text
  pub created_at : ℕ

pub record PolicyDecision : Type 0 where
  pub allowed : Bool
  pub hard_rail_violated : Bool
  pub reasons : List Text

pub record Plan (F : Type 0) : Type 0 where
  pub steps : List Text
  pub est_cost_delta : F
  pub sla_impact : Text
  pub isolation_impact : Text
  pub risk : Risk

pub record AuditLog : Type 0 where
  pub entries : List Text

unfoldable pub append : AuditLog → Text → Text → AuditLog
append a gate msg = record {
  entries = a.entries ++ (bytes "  [" ++ (gate ++ (bytes "] " ++ msg))) ∷ [];
}

-- The ports, over the world `W` behind them. Each call takes the world and returns the next; an
-- Executor may also write to the log.
pub record Pipeline (F W : Type 0) : Type 0 where
  pub attest : ChangeRequest → W → Result Text × W
  pub evaluate : ChangeRequest → W → PolicyDecision × W
  pub make_plan : ChangeRequest → PolicyDecision → W → Result (Plan F) × W
  pub execute : Plan F → AuditLog → W → Option Text × AuditLog × W

pub data Outcome : Type 0 where
  executed rejected_policy awaiting_owner failed rejected_auth_err : Outcome

abbrev pub code_change : Text
code_change = bytes "code_change"

abbrev pub resource_op : Text
resource_op = bytes "resource_op"

abbrev pub auto_agent : Text
auto_agent = bytes "auto-agent"

abbrev pub purpose_dev : Text
purpose_dev = bytes "dev"

-- The reason, if the rail is violated.
unfoldable pub dev_infra_hard_rail : ChangeRequest → Option Text
dev_infra_hard_rail req =
    if not (req.purpose == purpose_dev)
    then none
    else if req.kind == resource_op
    then some (bytes "dev purpose가 ResourceOp 시도 — 인프라 변경은 운영엔진(50) reconcile 전용")
    else if has_prefix req.proposal.target (bytes "infra/")
    then some (bytes "dev purpose가 인프라 경로 타깃(" ++ (req.proposal.target ++ bytes ") — 제안(diff)만 허용"))
    else none

unfoldable pub classify : Text → Text
classify o =
    if o == bytes "c-agent"
    then bytes "IMPROVEMENT"
    else if o == bytes "owner" || o == bytes "owner-client"
    then bytes "OWNER-REQUEST"
    else bytes "scoped"

unfoldable pub needs_owner : {F : Type 0} → ChangeRequest → Plan F → Bool
needs_owner req plan =
    if eqb_ℤ plan.risk irreversible || eqb_ℤ plan.risk high
    then true
    else req.origin == auto_agent && req.kind == code_change

module _ {F W : Type 0} ⦃float : Float64 F⦄ (p : Pipeline F W) where
  -- Gates 6 and 7: a plan that needs no owner is executed.
  run_plan : Plan F → AuditLog → W → Outcome × AuditLog × W
  run_plan plan audit w =
      let (failure, audit', w') = p.execute plan audit w in
      elim failure [
        | some e ↦ (
          failed,
          append audit' (bytes "7-rollback") (bytes "failure detected → auto rolled back: " ++ e),
          w',
        )
        | none ↦
            (executed, append audit' (bytes "6-execute") (bytes "rolled out, error budget ok"), w')
      ]

  -- Gate 5.
  approve : ChangeRequest → Plan F → AuditLog → W → Outcome × AuditLog × W
  approve req plan audit w =
      if needs_owner req plan
      then (
        awaiting_owner,
        append audit (bytes "5-approve")
            (bytes "HIGH/irreversible → owner approval required (Sandwich ceiling, 66)"),
        w,
      )
      else run_plan plan
          (append audit (bytes "5-approve") (bytes "auto-approved (low-risk, trusted origin)")) w

  plan_message : Plan F → Text
  plan_message plan =
      bytes "risk="
      ++ (show_risk plan.risk
          ++ (bytes " costΔ="
              ++ (float.fixed 1 plan.est_cost_delta ++ (bytes " slaImpact=" ++ plan.sla_impact))))

  -- Gate 4.
  plan_gate : ChangeRequest → PolicyDecision → AuditLog → W → Outcome × AuditLog × W
  plan_gate req dec audit w =
      let (planned, w') = p.make_plan req dec w in
      elim planned [
        | err e ↦ (failed, append audit (bytes "4-plan") (bytes "planning failed"), w')
        | ok plan ↦ approve req plan (append audit (bytes "4-plan") (plan_message plan)) w'
      ]

  -- Gate 3.
  policy_gate : ChangeRequest → AuditLog → W → Outcome × AuditLog × W
  policy_gate req audit w =
      let (dec, w') = p.evaluate req w in
      if dec.hard_rail_violated
      then (
        rejected_policy,
        append audit (bytes "3-policy")
            (bytes "HARDRAIL violated → dies here, never reaches approval: " ++ join dec.reasons),
        w',
      )
      else if not dec.allowed
      then (
        rejected_policy,
        append audit (bytes "3-policy") (bytes "denied by policy: " ++ join dec.reasons),
        w',
      )
      else plan_gate req dec
          (append audit (bytes "3-policy")
            (bytes "constraints satisfied (SLA·isolation·sovereignty ok)"))
          w'

  -- Gate 3-0, the structural rail.
  rail_gate : ChangeRequest → AuditLog → W → Outcome × AuditLog × W
  rail_gate req audit w = elim (dev_infra_hard_rail req) [
    | some reason ↦ (
      rejected_policy,
      append audit (bytes "3-policy") (bytes "HARDRAIL(structural) 개발엔진↛인프라 (D52/66): " ++ reason),
      w,
    )
    | none ↦ policy_gate req audit w
  ]

  -- Gate 2.
  auth_gate : ChangeRequest → AuditLog → W → Outcome × AuditLog × W
  auth_gate req audit w =
      let (attested, w') = p.attest req w in
      elim attested [
        | err e ↦ (
          rejected_auth_err,
          append audit (bytes "2-authn") (bytes "attest failed → treated as intrusion"),
          w',
        )
        | ok origin ↦
            rail_gate req
              (append audit (bytes "2-authn")
                (bytes "origin=" ++ (origin ++ (bytes " (" ++ (classify origin ++ bytes ")")))))
              w'
      ]

  -- Handle, from gate 1 on.
  unfoldable pub handle : ChangeRequest → W → Outcome × AuditLog × W
  unfolding run_plan approve plan_message plan_gate policy_gate rail_gate auth_gate
  handle req w =
      let audit : AuditLog = record { entries = [] } in
      if req.id == [] || req.kind == []
      then (
        rejected_auth_err,
        append audit (bytes "1-normalize") (bytes "malformed request rejected"),
        w,
      )
      else auth_gate req
          (append audit (bytes "1-normalize")
            (bytes "kind=" ++ (req.kind ++ (bytes " scope=" ++ show_list req.tenant_scope))))
          w
