-- ===== src/Pipeline/Tests.antt =====
-- The mock pipeline of the package over a world that counts the executed plans, and requests to it.
use sovereign_core.Prelude.{
  List, sym, ◌∙◌, map, ℕ, suc, pos, negsuc, Text, bytes, ◌==◌, ◌+ℤ◌, ◌-ℤ◌, ◌*ℤ◌, ◌≡◌, refl, ◌↔◌,
  ◌⊎◌, inr, true, false, [], ◌∷◌, ◌++◌, Option, none, Result, ok, err, arith,
}
use sovereign_core.Prelude.FixedPoint.{Fixed, fin, nan, neg_inf, fixed_lt, fixed_point}
use sovereign_core.Pipeline.{
  high, irreversible, ChangeRequest, Plan, AuditLog, Pipeline, executed, rejected_policy,
  awaiting_owner, rejected_auth_err, code_change, auto_agent, purpose_dev, dev_infra_hard_rail,
  needs_owner, append, handle, Outcome, show_risk, risk_string,
}
use sovereign_core.Pipeline.Words.{show_ℕ, contains, index_of, has_prefix}
use sovereign_core.Pipeline.Approval.{TouchesInfra, needs_owner_iff}
use sovereign_core.Pipeline.Safety.{Judged, Handled, handle_cases}
use sovereign_core.Pipeline.HardRail.{hard_rail_holds}
use sovereign_core.Pipeline.Attestation.{with_auth, attested_origin_unused}
use sovereign_core.Pipeline.Solver.{
  Formats, default_weights, solve, solver_plan, score, hard_constraints, risk_of,
}
use sovereign_core.Pipeline.Solver.Optimal.{IsStrictOrder, Chosen, Bounds, solve_cases}
use sovereign_core.Pipeline.Solver.Executes.{RanModest, with_solver, handle-IsModest}
use mathlib.Core.List.{append-nil, append_assoc}
use sovereign_core.Pipeline.Trail.{Trail, OnlyAppends, handle-Trail}
use sovereign_core.Pipeline.Demo.{handle_all, mock_pipeline, cases}
use sovereign_core.Pipeline.Mocks.{
  mock_attest, mock_evaluate, note_steps, mock_execute, mock_planner, mock_generate,
}

abbrev execute_counted : Plan Fixed → AuditLog → ℕ → Option Text × AuditLog × ℕ
execute_counted plan audit w = (none, audit, suc w)

abbrev adapters : Pipeline Fixed ℕ
adapters = record {
  attest = λ req w. (mock_attest req, w);
  evaluate = λ req w. (mock_evaluate req, w);
  make_plan = λ req dec w. (mock_planner req dec, w);
  execute = execute_counted;
}

-- The development engine at a file of the infrastructure.
abbrev infra_change : ChangeRequest
infra_change = record {
  id = bytes "CR-1";
  origin = bytes "owner";
  purpose = purpose_dev;
  kind = code_change;
  proposal = record {
    summary = bytes "grow the cluster";
    target = bytes "infra/k8s.yaml";
    reversible = true;
    body = none;
  };
  tenant_scope = bytes "acme" ∷ [];
  created_at = 1;
}

-- The operations engine at a schema, from an auto-agent.
abbrev schema_change : ChangeRequest
schema_change = record {
  id = bytes "CR-2";
  origin = auto_agent;
  purpose = bytes "ops";
  kind = code_change;
  proposal = record {
    summary = bytes "schema-drop";
    target = bytes "db/users";
    reversible = true;
    body = none;
  };
  tenant_scope = [];
  created_at = 2;
}

-- An improvement by the operations engine.
abbrev tuning : ChangeRequest
tuning = record {
  id = bytes "CR-3";
  origin = bytes "c-agent";
  purpose = bytes "ops";
  kind = bytes "self_improve";
  proposal = record {
    summary = bytes "pack tighter";
    target = bytes "pool";
    reversible = true;
    body = none;
  };
  tenant_scope = [];
  created_at = 3;
}

abbrev severe_plan : Plan Fixed
severe_plan = record {
  steps = [];
  est_cost_delta = fin (pos 0);
  sla_impact = [];
  isolation_impact = [];
  risk = high;
}

-- Risks outside the four constants, as the log has them.
risks_shown :
    (show_risk (pos 12)
      ≡ bytes "%!s(PANIC=String method: runtime error: index out of range [12] with length 4)")
    × (show_risk (negsuc 0)
        ≡ bytes "%!s(PANIC=String method: runtime error: index out of range [-1])")
    × (show_risk high ≡ bytes "high")
unfolding show_risk risk_string show_ℕ bytes
risks_shown = (refl, refl, refl)

infra_touched : TouchesInfra infra_change
unfolding bytes
infra_touched = (refl, inr (bytes "k8s.yaml", refl))

handle_cases_example : Handled adapters schema_change 0 (handle adapters schema_change 0)
handle_cases_example = handle_cases adapters schema_change 0

hard_rail_holds_example :
    (((handle adapters infra_change 0).0 ≡ rejected_policy)
      ⊎ ((handle adapters infra_change 0).0 ≡ rejected_auth_err))
    × (((handle adapters infra_change 0).2 ≡ 0)
        ⊎ ((handle adapters infra_change 0).2 ≡ (adapters.attest infra_change 0).1))
hard_rail_holds_example = hard_rail_holds adapters infra_change 0 infra_touched

abbrev attest_c_agent : ChangeRequest → ℕ → Result Text × ℕ
attest_c_agent req w = (ok (bytes "c-agent"), w)

abbrev attest_owner : ChangeRequest → ℕ → Result Text × ℕ
attest_owner req w = (ok (bytes "owner"), w)

attested_origin_unused_example :
    (((handle (with_auth adapters attest_c_agent) schema_change 0).0 ≡ awaiting_owner)
      ↔ ((handle (with_auth adapters attest_owner) schema_change 0).0 ≡ awaiting_owner))
    × (((handle (with_auth adapters attest_c_agent) schema_change 0).0 ≡ awaiting_owner) ↔ (
        (plan : Plan Fixed) × Judged (with_auth adapters attest_c_agent) schema_change 0 plan
        × ((plan.risk ≡ high)
            ⊎ (plan.risk ≡ irreversible)
            ⊎ ((schema_change.origin ≡ auto_agent) × (schema_change.kind ≡ code_change)))))
attested_origin_unused_example =
    attested_origin_unused adapters attest_c_agent attest_owner schema_change 0 (bytes "c-agent")
      (bytes "owner") refl refl refl

needs_owner_iff_example : (needs_owner tuning severe_plan ≡ true) ↔ (
    (severe_plan.risk ≡ high)
    ⊎ (severe_plan.risk ≡ irreversible)
    ⊎ ((tuning.origin ≡ auto_agent) × (tuning.kind ≡ code_change)))
needs_owner_iff_example = needs_owner_iff tuning severe_plan

fixed_lt_irrefl : (a : Fixed) → fixed_lt a a ≡ false
fixed_lt_irrefl nan = refl
fixed_lt_irrefl neg_inf = refl
fixed_lt_irrefl (fin a) = ground arith

fixed_lt_trans : (a b c : Fixed) → fixed_lt a b ≡ true → fixed_lt b c ≡ true → fixed_lt a c ≡ true
fixed_lt_trans nan b c e f = absurd (cc)
fixed_lt_trans neg_inf nan c e f = absurd (cc)
fixed_lt_trans neg_inf neg_inf c e f = absurd (cc)
fixed_lt_trans neg_inf (fin b) nan e f = absurd (cc)
fixed_lt_trans neg_inf (fin b) neg_inf e f = absurd (cc)
fixed_lt_trans neg_inf (fin b) (fin c) e f = refl
fixed_lt_trans (fin a) nan c e f = absurd (cc)
fixed_lt_trans (fin a) neg_inf c e f = absurd (cc)
fixed_lt_trans (fin a) (fin b) nan e f = absurd (cc)
fixed_lt_trans (fin a) (fin b) neg_inf e f = absurd (cc)
fixed_lt_trans (fin a) (fin b) (fin c) e f = ground arith

fixed_point-IsStrictOrder : IsStrictOrder fixed_point
unfolding fixed_point
fixed_point-IsStrictOrder = record { irrefl = fixed_lt_irrefl; trans = fixed_lt_trans }

abbrev plain_formats : Formats
plain_formats = record { show_int = λ n. []; quote = λ t. t }

solve_cases_example :
    ((plan : Plan Fixed) × (solve {F = Fixed} plain_formats default_weights (mock_generate tuning)
        ≡ ok plan)
      × Chosen default_weights (mock_generate tuning) plan)
    ⊎ ((e : Text) × (solve {F = Fixed} plain_formats default_weights (mock_generate tuning) ≡ err e)
        × Bounds default_weights fixed_point.neg_inf (mock_generate tuning))
solve_cases_example =
    solve_cases default_weights fixed_point-IsStrictOrder plain_formats (mock_generate tuning)

tuning_executed : (handle (with_solver adapters plain_formats mock_generate) tuning 0).0 ≡ executed
unfolding handle solver_plan solve mock_generate default_weights score hard_constraints risk_of
    needs_owner dev_infra_hard_rail mock_attest mock_evaluate contains index_of has_prefix bytes
    ◌==◌ fixed_point ◌+ℤ◌ ◌-ℤ◌ ◌*ℤ◌
tuning_executed = refl

handle-IsModest_example :
    RanModest fixed_point-IsStrictOrder adapters plain_formats mock_generate tuning 0
      (handle (with_solver adapters plain_formats mock_generate) tuning 0)
handle-IsModest_example =
    handle-IsModest fixed_point-IsStrictOrder adapters plain_formats mock_generate tuning 0
      tuning_executed

outcome : Outcome × AuditLog → Outcome
outcome x = x.0

-- How the eight requests of the demonstration end.
cases_end :
    map outcome (handle_all {F = Fixed} {W = ℕ} (mock_pipeline plain_formats) cases 0).0
    ≡ executed ∷ executed ∷ awaiting_owner ∷ rejected_policy ∷ awaiting_owner ∷ rejected_policy
      ∷ rejected_policy ∷ executed ∷ []
unfolding outcome handle_all handle solver_plan solve mock_generate default_weights score
    hard_constraints risk_of needs_owner dev_infra_hard_rail mock_attest mock_evaluate mock_execute
    contains index_of has_prefix bytes ◌==◌ fixed_point ◌+ℤ◌ ◌-ℤ◌ ◌*ℤ◌
cases_end = refl

note_steps_append :
    (steps : List Text) (log : AuditLog)
    → (new : List Text) × ((note_steps steps log).entries ≡ log.entries ++ new)
unfolding note_steps append
note_steps_append [] log = ([], sym (append-nil log.entries))
note_steps_append (s ∷ ss) log =
    let (new, e) =
      note_steps_append ss (append log (bytes "6-execute") (bytes "step=" ++ (s ++ bytes " ok"))) in
    (_, e ∙ append_assoc log.entries _ new)

mock_execute-OnlyAppends : OnlyAppends {F = Fixed} {W = ℕ} (mock_pipeline plain_formats)
unfolding mock_execute
mock_execute-OnlyAppends plan log w = note_steps_append plan.steps log

handle-Trail_example :
    let r = handle {F = Fixed} {W = ℕ} (mock_pipeline plain_formats) tuning 0 in
    Trail r.0 r.1.entries
handle-Trail_example = handle-Trail (mock_pipeline plain_formats) mock_execute-OnlyAppends tuning 0
