-- ===== src/Walkthrough/Tests.antt =====
-- A run of the walkthrough on the mocks, and a running endpoint of acme.
use sovereign_core.App.{
  App, Adapters, signup, new_app, default_policy, resolve_connection, suspend_endpoint, wake_hook,
}
use sovereign_core.App.Goroutines.{
  create_project, create_project_body, create_branch, create_branch_body, start_endpoint,
  start_endpoint_body,
}
use sovereign_core.App.Waiting.{wait_op, poll, read_clock, sleep}
use sovereign_core.Base64.{decode_url, encode_url}
use sovereign_core.Ids.{new_id, trim_right}
use sovereign_core.Mocks.{mock_kms, mock_payment, mock_storage, mock_secret}
use sovereign_core.Mocks.Auth.{mock_auth}
use sovereign_core.Mocks.Samples.{json}
use sovereign_core.Model.BranchState
use sovereign_core.Model.EndpointState
use sovereign_core.Model.Transition.{can_transition}
use sovereign_core.Ports.{Clock}
use sovereign_core.Prelude.{
  ℕ, zero, suc, ◌*◌, ◌/◌, ◌%◌, List, [], ◌∷◌, ◌≡◌, refl, cut, bytes, ◌==◌, lookup, insert,
  trim_suffix, strip,
}
use sovereign_core.Prelude.FixedPoint.{Fixed, fixed_point}
use sovereign_core.Routing.Identify.{resolve_endpoint_id, sni_label, parse_kv}
use sovereign_core.Routing.Registry.{resolve, register, new_registry, set_state}
use sovereign_core.Store.{
  op_snapshot, step, put, add_membership, new_store, complete_op, add_metering, get_project,
  transition_branch, get_branch, transition_endpoint, get_endpoint, endpoint_ref, idemp_lookup,
  idemp_store,
}
use sovereign_core.Tasks.{run_task, interleave}
use sovereign_core.Walkthrough.{walkthrough}
use sovereign_core.Model.{Endpoint}
use sovereign_core.Store.{run, puts, endpoint}
use sovereign_core.Routing.Registry.{Backend}
use sovereign_core.Routing.Registry.View.{
  view, IsSound, awake, register-IsSound, new_registry-IsSound,
}
use sovereign_core.App.{acquire_warm, logical}
use sovereign_core.App.Samples.{ports, acme, gate, gate_endpoint, plane, gate-IsRoutable}
use sovereign_core.Walkthrough.Sleep.{asleep, running_endpoint_passes}
use sovereign_core.Prelude.{none, some}
use sovereign_core.Walkthrough.Steps.{onboard, three_ways, sleep_and_wake, drained, checks}
use sovereign_core.Walkthrough.Control.{Ends, goes_on}
use sovereign_core.Walkthrough.Wiring.{mock_adapters, new_mock_app}
use sovereign_core.WarmPool.{new_warm_pool, replenish, acquire, drain}
use sovereign_core.WarmPool.Policy.{load_proportional_policy}

-- A clock that moves by a millisecond at each reading.
abbrev clock : Clock ℕ
clock = record { now = λ w. (w * 1_000_000, suc w) }

-- The bytes are those of a counter.
digits : ℕ → ℕ → List ℕ
digits zero w = []
digits (suc n) w = w % 256 ∷ digits n (w / 256)

abbrev random : ℕ → ℕ → List ℕ × ℕ
random n w = (digits n w, suc w)

abbrev turns : ℕ → ℕ → List ℕ
turns k zero = []
turns k (suc zero) = 0 ∷ 0 ∷ 0 ∷ 0 ∷ 0 ∷ []
turns k (suc (suc zero)) = 0 ∷ 0 ∷ 0 ∷ 0 ∷ 0 ∷ 0 ∷ 0 ∷ 0 ∷ 0 ∷ 0 ∷ 0 ∷ 0 ∷ []
turns k (suc (suc (suc n))) = []

abbrev none_else : ℕ → ℕ → List ℕ
none_else k n = []

abbrev adapters : Adapters ℕ
adapters = mock_adapters clock random json

final : Ends (Unit {0}) × App Fixed ℕ
final = walkthrough adapters 5 none_else turns (new_mock_app clock random json Fixed (λ n. []) 1)

goes_through : final.0 ≡ goes_on tt
unfolding final walkthrough onboard three_ways sleep_and_wake drained run_task signup mock_adapters
    mock_kms mock_payment mock_auth cut bytes ◌==◌ decode_url encode_url new_id trim_right digits
    new_mock_app new_app new_warm_pool replenish default_policy load_proportional_policy fixed_point
    mock_storage wait_op poll read_clock interleave create_project op_snapshot lookup step put
    insert add_membership new_store sleep create_project_body complete_op add_metering create_branch
    create_branch_body get_project transition_branch can_transition BranchState.transitions
    start_endpoint start_endpoint_body get_branch acquire mock_secret transition_endpoint
    EndpointState.transitions resolve_connection resolve_endpoint_id sni_label trim_suffix resolve
    register new_registry parse_kv strip suspend_endpoint get_endpoint set_state wake_hook
    endpoint_ref drain checks idemp_lookup idemp_store
goes_through = refl

abbrev on_air : Endpoint Fixed
on_air = record gate_endpoint { state = EndpointState.active }

abbrev host : Backend
host = record { addr = bytes "vm-2"; state = bytes "active" }

-- The sample control plane, with the endpoint running.
abbrev running : App Fixed ℕ
running = record {
  core = record (plane.core) { store = run new_store (puts (endpoint on_air) ∷ []) };
  registry = register new_registry gate (bytes "vm-2") (bytes "active");
}

running-IsSound : IsSound running.registry
running-IsSound = register-IsSound new_registry gate _ _ new_registry-IsSound

gate_routed : view running.registry gate ≡ some host
unfolding register new_registry insert lookup bytes ◌==◌
gate_routed = refl

gate_stored : lookup gate running.core.store.endpoints ≡ some on_air
unfolding run new_store step put lookup insert bytes ◌==◌
gate_stored = refl

pool_gives : (acquire_warm ports (asleep ports running gate host on_air).core).0.err ≡ none
unfolding acquire
pool_gives = refl

running_endpoint_passes_example :
    let sni = logical (bytes "kr") gate [] in
    let r = sleep_and_wake ports acme gate sni running in
    (three_ways ports gate sni running ≡ (goes_on tt, running))
    × (r.0 ≡ goes_on tt)
    × (lookup gate r.1.core.store.endpoints ≡ some on_air)
    × (view r.1.registry gate
        ≡ some
            (awake (acquire_warm ports (asleep ports running gate host on_air).core).0.inst.host))
running_endpoint_passes_example =
    running_endpoint_passes ports running gate host on_air gate-IsRoutable running-IsSound
      gate_routed refl gate_stored refl refl pool_gives refl
