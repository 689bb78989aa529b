-- ===== src/App/Suspension.antt =====
-- src/controlplane/app.go: SuspendEndpoint and the WakeHook, on every branch.
use sovereign_core.Prelude.{
  Text, bytes, ==_iff, lookup, insert, arith, ◌≡◌, refl, inl, inr, Option-cases, Option, none, some,
}
use sovereign_core.Model.{Endpoint}
use sovereign_core.Model.EndpointState
use sovereign_core.Store.{Store, get_endpoint, transition_endpoint}
use sovereign_core.Store.Transitions.{transition_endpoint_allowed}
use sovereign_core.Routing.Registry.{set_state}
use sovereign_core.Tasks.{run_task}
use sovereign_core.App.{Adapters, App, suspend_endpoint}

pub get_endpoint_own :
    {F : Type 0} (s : Store F) (o id : Text) (e : Endpoint F)
    → lookup id s.endpoints ≡ some e
    → e.org_id ≡ o
    → get_endpoint s o id ≡ some e
unfolding get_endpoint
get_endpoint_own s o id e found own = ground (arith, ==_iff e.org_id o)

module _ {F W : Type 0} (p : Adapters W) (org_id id : Text) where
  -- The state after the engine alone has been called.
  abbrev pub asked : App F W → App F W
  asked a = record a {
    core = record a.core { world = (p.storage.suspend_endpoint org_id id a.core.world).1 };
  }

  -- What SuspendEndpoint answers and does.
  pub data Suspended (a : App F W) : Option Text × App F W → Type 0 where
    absent :
        {r : Option Text} {b : App F W}
        → get_endpoint a.core.store org_id id ≡ none
        → r ≡ some (bytes "endpoint not found")
        → b ≡ a
        → Suspended a (r, b)
    engine_fails :
        {r : Option Text} {b : App F W} (x : Endpoint F) (e : Text)
        → get_endpoint a.core.store org_id id ≡ some x
        → (p.storage.suspend_endpoint org_id id a.core.world).0 ≡ some e
        → r ≡ some e
        → b ≡ asked a
        → Suspended a (r, b)
    tried :
        {r : Option Text} {b : App F W} (e : Endpoint F)
        → get_endpoint a.core.store org_id id ≡ some e
        → (p.storage.suspend_endpoint org_id id a.core.world).0 ≡ none
        → r ≡ (transition_endpoint a.core.store org_id id EndpointState.suspended).1
        → b.core.store ≡ (transition_endpoint a.core.store org_id id EndpointState.suspended).0
        → b.registry ≡ set_state a.registry id (bytes "suspended")
        → b.core.world ≡ (asked a).core.world
        → Suspended a (r, b)

  -- SuspendEndpoint, run by itself with any adapters. An endpoint that is not stored or is another
  -- org's is an error, and nothing changes. If the endpoint is the org's and the engine, called in that
  -- state, fails, its error is passed on, and nothing changes but the engine's world. If the engine
  -- succeeds, the registry's entry is set to suspended, and the
  -- answer and the store are those of the transition of the endpoint to suspended, also where the
  -- diagram forbids it.
  pub suspend_endpoint_cases :
      (a : App F W) → Suspended a (run_task (suspend_endpoint p org_id id) a)
  unfolding suspend_endpoint run_task
  suspend_endpoint_cases a = elim (Option-cases (get_endpoint a.core.store org_id id)) [
    | inl none_found ↦ rw (none_found, run_task) (Suspended.absent none_found refl refl)
    | inr (e, found) ↦ elim (Option-cases (p.storage.suspend_endpoint org_id id a.core.world).0) [
      | inl fine ↦ rw (found, fine, run_task) (Suspended.tried e found fine refl refl refl refl)
      | inr (x, failed) ↦
          rw (found, failed, run_task) (Suspended.engine_fails e x found failed refl refl)
    ]
  ]

  -- The state after an endpoint has been suspended.
  abbrev pub slept : App F W → Endpoint F → App F W
  slept a e = record {
    core = record (a.core) {
      store = record (a.core.store) {
        endpoints = insert id (record e { state = EndpointState.suspended }) a.core.store.endpoints;
      };
      world = (p.storage.suspend_endpoint org_id id a.core.world).1;
    };
    registry = set_state a.registry id (bytes "suspended");
  }

  pub suspend_endpoint_succeeds :
      (a : App F W) (e : Endpoint F)
      → lookup id a.core.store.endpoints ≡ some e
      → e.org_id ≡ org_id
      → e.state ≡ EndpointState.active
      → (p.storage.suspend_endpoint org_id id a.core.world).0 ≡ none
      → run_task (suspend_endpoint p org_id id) a ≡ (none, slept a e)
  unfolding suspend_endpoint run_task
  suspend_endpoint_succeeds a e found own awake fine =
      let owned : get_endpoint a.core.store org_id id ≡ some e =
        get_endpoint_own a.core.store org_id id e found own in
      let moved =
        transition_endpoint_allowed a.core.store org_id id EndpointState.suspended e
          (record { found = found; own = own; edge = EndpointState.Edge.suspend awake refl }) in
      rw (owned, fine, moved, run_task) refl
