-- ===== src/App/Tests.antt =====
-- The theorems on the control plane, at the sample data.
use sovereign_core.Prelude.{
  Text, cut, ℕ, ◌≤◌, pos, bytes, ◌==◌, lookup, insert, All, ◌≡◌, refl, ◌≢◌, inl, inr, [], ◌++◌,
  none, some, ok, arith,
}
use sovereign_core.Prelude.FixedPoint.{Fixed, fin, fixed_point}
use sovereign_core.Model.EndpointState
use sovereign_core.Store.{Store, endpoint, operation, new_store, put, puts, run, step}
use sovereign_core.Store
use sovereign_core.Store.Invariant.{IsWellFormed, run-IsWellFormed}
use sovereign_core.WarmPool.{acquire}
use sovereign_core.Routing.Registry.{Backend, RoutingRegistry, new_registry, register}
use sovereign_core.Routing.Registry.View.{
  view, IsSound, awake, new_registry-IsSound, register-IsSound,
}
use sovereign_core.Routing.Identify.{ConnAttempt, resolve_endpoint_id}
use sovereign_core.Routing.Identify.RoundTrip.{three_ways_agree}
use sovereign_core.Tasks.{interleave, run_task}
use sovereign_core.Tasks.Turns.{turns_of}
use sovereign_core.App.{signup, suspend_endpoint, resolve_connection, acquire_warm, logical}
use sovereign_core.App.Goroutines.{create_branch_body}
use sovereign_core.App.Samples.{
  ports, acme, gate, running_op, gate_endpoint, setup, asleep, plane, jobs, turns, gate-IsRoutable,
}
use sovereign_core.App.Completion.{Settled}
use sovereign_core.App.Operations.{Body, Started, operation_ends, interleave-IsWellFormed}
use sovereign_core.Base64.{encode_url, symbol}
use sovereign_core.Base64.RoundTrip.{IsByte}
use sovereign_core.Ids.{new_id, trim_right}
use sovereign_core.Mocks.Samples.{json}
use sovereign_core.Model.{Org}
use sovereign_core.App.Tokens.{with_mock_auth, owner_claims, signup_token_verifies}
use sovereign_core.App.Onboarding.{org_id, Signed, signup_cases}
use sovereign_core.App.Suspension.{Suspended, suspend_endpoint_cases}
use sovereign_core.App.Connection.{attached, connection_wakes}

asleep-IsSound : IsSound asleep
asleep-IsSound = register-IsSound new_registry gate _ _ new_registry-IsSound

op_1_stored : lookup (bytes "op_1") plane.core.store.operations ≡ some (running_op (bytes "op_1"))
unfolding run new_store Store.step put lookup insert bytes ◌==◌
op_1_stored = refl

op_2_stored : lookup (bytes "op_2") plane.core.store.operations ≡ some (running_op (bytes "op_2"))
unfolding run new_store Store.step put lookup insert bytes ◌==◌
op_2_stored = refl

gate_stored : lookup gate plane.core.store.endpoints ≡ some gate_endpoint
unfolding run new_store Store.step put lookup insert bytes ◌==◌
gate_stored = refl

jobs-Started : All (Started ports plane) jobs
jobs-Started = (
  record {
    stored = (running_op (bytes "op_1"), op_1_stored, tt);
    body = Body.branch_body acme (bytes "proj_1") [];
  },
  (
    record {
      stored = (running_op (bytes "op_2"), op_2_stored, tt);
      body = Body.endpoint_body acme (bytes "br_1") (fin (pos 250)) (fin (pos 2000));
    },
    tt,
  ),
)

enough_turns : 12 ≤ turns_of 0 turns
unfolding turns_of
enough_turns = omega arith

operation_ends_example : Settled (bytes "op_1") (interleave turns jobs plane).1.core.store
operation_ends_example =
    operation_ends Fixed ℕ ports turns jobs plane 0
      (record {
        op = bytes "op_1";
        rest = create_branch_body ports acme (bytes "proj_1") [] (bytes "op_1");
      })
      jobs-Started refl enough_turns

plane-IsWellFormed : IsWellFormed plane.core.store
plane-IsWellFormed = run-IsWellFormed setup (inr (inr (inl refl)), (inl refl, (inl refl, tt)))

interleave-IsWellFormed_example : IsWellFormed (interleave turns jobs plane).1.core.store
interleave-IsWellFormed_example =
    interleave-IsWellFormed Fixed ℕ ports turns jobs plane jobs-Started plane-IsWellFormed

signup_cases_example :
    Signed {F = Fixed} ports
      (bytes "Acme")
      (bytes "ann")
      plane
      (run_task (signup ports (bytes "Acme") (bytes "ann")) plane)
signup_cases_example = signup_cases ports (bytes "Acme") (bytes "ann") plane

suspend_endpoint_cases_example :
    Suspended ports acme gate plane (run_task (suspend_endpoint ports acme gate) plane)
suspend_endpoint_cases_example = suspend_endpoint_cases ports acme gate plane

abbrev awake_gate : Backend
awake_gate = record { addr = bytes "vm-2"; state = bytes "active" }

abbrev up : RoutingRegistry
up = register new_registry gate (bytes "vm-2") (bytes "active")

up-IsSound : IsSound up
up-IsSound = register-IsSound new_registry gate _ _ new_registry-IsSound

gate_is_up : view up gate ≡ some awake_gate
unfolding register new_registry insert lookup bytes ◌==◌
gate_is_up = refl

gate_is_down : view asleep gate ≡ some (record { addr = []; state = bytes "suspended" })
unfolding register new_registry insert lookup bytes ◌==◌
gate_is_down = refl

suspended_is_not_active : bytes "suspended" ≢ bytes "active"
unfolding bytes
suspended_is_not_active e = ground arith

abbrev attempt : ConnAttempt
attempt = record { sni = logical ports.region gate []; options = []; password = bytes "pw" }

attempt_named : resolve_endpoint_id attempt ≡ ok (gate, bytes "pw", bytes "sni")
attempt_named =
    (three_ways_agree gate (bytes "kr" ++ bytes ".internal") [] (bytes "pw") gate-IsRoutable).0

pool_gives : (acquire_warm ports plane.core).0.err ≡ none
unfolding acquire
pool_gives = refl

engine_attaches : attached ports plane.core gate gate_endpoint ≡ none
engine_attaches = refl

connection_wakes_example :
    let got = (acquire_warm ports plane.core).0 in
    let r = resolve_connection ports attempt plane in
    (r.0 ≡ (gate, got.inst.host, got.boot_ms, none))
    × (lookup gate r.1.core.store.endpoints
        ≡ some (record gate_endpoint { state = EndpointState.active }))
    × (view r.1.registry gate ≡ some (awake got.inst.host))
connection_wakes_example =
    connection_wakes ports plane attempt gate (bytes "pw") (bytes "sni")
      (record { addr = []; state = bytes "suspended" }) gate_endpoint attempt_named asleep-IsSound
      gate_is_down suspended_is_not_active gate_stored refl pool_gives engine_attaches

owner_bytes : All IsByte (json.marshal (owner_claims ports (bytes "alice") plane))
unfolding new_id trim_right encode_url symbol bytes ◌==◌
owner_bytes = omega arith

owner_restored :
    json.unmarshal (json.marshal (owner_claims ports (bytes "alice") plane))
    ≡ ok (owner_claims ports (bytes "alice") plane)
unfolding new_id trim_right encode_url symbol bytes ◌==◌ cut
owner_restored = refl

signup_token_verifies_example :
    (o : Org) × (t : Text) × ((run_task
        (signup (with_mock_auth ports json) (bytes "acme") (bytes "alice"))
        plane).0
      ≡ ok (o, t))
    × (o.id ≡ (org_id ports plane).0)
    × ((w : ℕ)
        → (with_mock_auth ports json).auth.verify_token t w
          ≡ (ok (record { org_id = o.id; user_id = bytes "alice"; role = bytes "owner" }), w))
signup_token_verifies_example =
    signup_token_verifies Fixed ℕ ports json (bytes "acme") (bytes "alice") plane (bytes "kek_1")
      (bytes "cus_1") refl refl owner_bytes owner_restored
