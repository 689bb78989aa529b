-- ===== src/Store/Tests.antt =====
-- A store with two orgs, acme and blue, and the theorems at it.
use sovereign_core.Prelude.{
  Text, bytes, ◌==◌, pos, lookup, insert, ◌≡◌, refl, ◌≢◌, inl, inr, List, [], ◌∷◌, none, some,
  arith,
}
use sovereign_core.Prelude.FixedPoint.{Fixed, fin, fixed_point}
use sovereign_core.Model.{Endpoint, Branch, Operation, MeteringEvent}
use sovereign_core.Model.BranchState
use sovereign_core.Model.EndpointState
use sovereign_core.Store.{
  Store, put, add_metering, endpoint, branch, operation, new_store, run, step, Call, puts,
  moves_endpoint, adds_metering, completes, usage_rollup,
}
use sovereign_core.Store.Tenancy.{SameView, step-SameView}
use sovereign_core.Store.Invariant.{IsWellFormed, run-IsWellFormed}
use sovereign_core.Store.History.{Walk, run-Walk}
use sovereign_core.Store.Usage.{values, total, usage_rollup-total}

abbrev acme : Text
acme = bytes "acme"

abbrev blue : Text
blue = bytes "blue"

abbrev gate : Text
gate = bytes "ep_gate"

abbrev trunk : Text
trunk = bytes "br_trunk"

abbrev job : Text
job = bytes "op_job"

abbrev gate_endpoint : Endpoint Fixed
gate_endpoint = record {
  id = gate;
  org_id = acme;
  branch_id = trunk;
  state = EndpointState.active;
  autoscale_min = fin (pos 250);
  autoscale_max = fin (pos 2000);
  suspend_after_s = pos 300;
  connection_uri = bytes "postgresql://u:p@ep_gate";
  created_at = 7;
}

abbrev trunk_branch : Branch
trunk_branch = record {
  id = trunk;
  org_id = acme;
  project_id = bytes "proj_1";
  parent_id = [];
  state = BranchState.creating;
  created_at = 5;
}

abbrev job_operation : Operation
job_operation = record {
  id = job;
  org_id = acme;
  kind = bytes "create_branch";
  status = bytes "running";
  result = none;
  error = [];
  created = 6;
}

abbrev usage_event : MeteringEvent Fixed
usage_event = record { org_id = acme; kind = bytes "branch_ops"; value = fin (pos 1000); at = 8 }

abbrev setup : List (Call Fixed)
setup =
    puts (endpoint gate_endpoint)
    ∷ puts (branch trunk_branch)
    ∷ puts (operation job_operation)
    ∷ adds_metering usage_event
    ∷ []

abbrev shop : Store Fixed
shop = run new_store setup

acme_not_blue : acme ≢ blue
unfolding bytes
acme_not_blue e = ground arith

gate_found : lookup gate shop.endpoints ≡ some gate_endpoint
unfolding run step new_store put lookup insert bytes ◌==◌ add_metering
gate_found = refl

step-SameView_example :
    SameView blue shop (step shop (moves_endpoint acme gate EndpointState.suspended))
step-SameView_example =
    step-SameView shop acme blue acme_not_blue (moves_endpoint acme gate EndpointState.suspended)
      refl

run-IsWellFormed_example : IsWellFormed (run (new_store {F = Fixed}) setup)
run-IsWellFormed_example = run-IsWellFormed setup (inr (inl refl), (inl refl, (inl refl, (tt, tt))))

-- Another org's move, a suspension, a wake-up and the end of an operation.
abbrev day : List (Call Fixed)
day =
    moves_endpoint blue gate EndpointState.deleted
    ∷ moves_endpoint acme gate EndpointState.suspended
    ∷ moves_endpoint acme gate EndpointState.active
    ∷ completes job []
    ∷ []

run-Walk_example :
    (f : Endpoint Fixed) × (lookup gate (run shop day).endpoints ≡ some f)
    × Walk gate_endpoint f
    × (f ≡ record gate_endpoint { state = f.state })
run-Walk_example = run-Walk shop day gate gate_endpoint (tt, (tt, (tt, (tt, tt)))) gate_found

abbrev gone_endpoint : Endpoint Fixed
gone_endpoint = record gate_endpoint { state = EndpointState.deleted }

abbrev closed : Store Fixed
closed = run new_store (puts (endpoint gone_endpoint) ∷ [])

gone_found : lookup gate closed.endpoints ≡ some gone_endpoint
unfolding run step new_store put lookup insert bytes ◌==◌
gone_found = refl

usage_rollup-total_example :
    lookup (bytes "branch_ops") (usage_rollup shop acme)
    ≡ total (values acme (bytes "branch_ops") shop.metering)
usage_rollup-total_example = usage_rollup-total shop acme (bytes "branch_ops")
