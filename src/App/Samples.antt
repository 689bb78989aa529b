-- ===== src/App/Samples.antt =====
-- Sample data: a control plane over ports that count their calls.
use sovereign_core.Prelude.{
  ℕ, suc, pos, Text, bytes, ◌==◌, trim_suffix, refl, arith, List, [], ◌∷◌, none, ok, err,
}
use sovereign_core.Prelude.FixedPoint.{Fixed, fin, fixed_point}
use sovereign_core.Model.{Endpoint, Operation}
use sovereign_core.Model.EndpointState
use sovereign_core.Store.{Store, endpoint, operation, new_store, put, puts, run, step}
use sovereign_core.Store
use sovereign_core.WarmPool.Policy.{WarmPoolPolicy}
use sovereign_core.Routing.Registry.{RoutingRegistry, new_registry, register}
use sovereign_core.Routing.Identify.RoundTrip.{IsRoutable}
use sovereign_core.Tasks.{Job}
use sovereign_core.App.{Adapters, App}
use sovereign_core.App.Goroutines.{create_branch_body, start_endpoint_body}

-- Every port succeeds and counts.
abbrev pub ports : Adapters ℕ
ports = record {
  clock = record { now = λ w. (w, suc w) };
  storage = record {
    create_branch = λ o t b w. (ok (w ∷ []), suc w);
    delete_branch = λ o b w. (none, w);
    boot_instance = λ r w. (
      record { instance_id = w ∷ []; host = bytes "vm-9"; boot_ms = pos 120; err = none },
      suc w,
    );
    attach_branch = λ i b w. (none, suc w);
    suspend_endpoint = λ o e w. (none, suc w);
    delete_endpoint = λ o e w. (none, suc w);
  };
  auth = record {
    issue_token = λ o u r w. (err (bytes "no key"), w);
    verify_token = λ t w. (err (bytes "invalid token"), w);
    jwks = λ w. (([], none), w);
  };
  kms = record { provision_tenant_kek = λ o w. (ok (bytes "kek_1"), suc w) };
  secret = record { issue_db_credential = λ o e w. (ok (bytes "u", bytes "pw"), suc w) };
  payment = record { create_customer = λ o w. (ok (bytes "cus_1"), suc w) };
  random = λ n w. (w ∷ [], suc w);
  region = bytes "kr";
}

abbrev pub nothing_warm : WarmPoolPolicy
nothing_warm = record { target = λ n. pos 0; name = [] }

abbrev pub acme : Text
acme = bytes "acme"

abbrev pub gate : Text
gate = bytes "ep_gate"

abbrev pub running_op : Text → Operation
running_op id = record {
  id = id;
  org_id = acme;
  kind = bytes "create_branch";
  status = bytes "running";
  result = none;
  error = [];
  created = 1;
}

abbrev pub gate_endpoint : Endpoint Fixed
gate_endpoint = record {
  id = gate;
  org_id = acme;
  branch_id = bytes "br_1";
  state = EndpointState.suspended;
  autoscale_min = fin (pos 250);
  autoscale_max = fin (pos 2000);
  suspend_after_s = pos 300;
  connection_uri = [];
  created_at = 1;
}

abbrev pub setup : List (Store.Call Fixed)
setup =
    puts (endpoint gate_endpoint)
    ∷ puts (operation (running_op (bytes "op_1")))
    ∷ puts (operation (running_op (bytes "op_2")))
    ∷ []

abbrev pub plane_with : RoutingRegistry → App Fixed ℕ
plane_with r = record {
  core = record {
    store = run new_store setup;
    warmpool = record {
      ready = [];
      region = bytes "kr";
      policy = nothing_warm;
      hits = 0;
      misses = 0;
      recent = [];
    };
    world = 5;
  };
  registry = r;
}

abbrev pub asleep : RoutingRegistry
asleep = register new_registry gate [] (bytes "suspended")

abbrev pub plane : App Fixed ℕ
plane = plane_with asleep

abbrev pub jobs : List (Job (App Fixed ℕ))
jobs =
    record {
      op = bytes "op_1";
      rest = create_branch_body ports acme (bytes "proj_1") [] (bytes "op_1");
    }
    ∷ record {
      op = bytes "op_2";
      rest =
          start_endpoint_body ports acme (bytes "br_1") (fin (pos 250)) (fin (pos 2000))
            (bytes "op_2");
    }
    ∷ []

-- The two take turns.
abbrev pub turns : List ℕ
turns = 0 ∷ 1 ∷ 0 ∷ 1 ∷ 0 ∷ 0 ∷ 1 ∷ 0 ∷ 0 ∷ 1 ∷ 0 ∷ 0 ∷ 0 ∷ 1 ∷ 0 ∷ 0 ∷ 0 ∷ []

pub gate-IsRoutable : IsRoutable gate
unfolding bytes ◌==◌ trim_suffix
gate-IsRoutable = record {
  named = ground arith;
  no_dot = omega arith;
  no_semicolon = omega arith;
  plain = (refl, (refl, (refl, (refl, (refl, (refl, (refl, tt)))))));
  not_pooled = refl;
}
