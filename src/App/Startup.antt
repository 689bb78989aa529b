-- ===== src/App/Startup.antt =====
-- src/controlplane/app.go: from StartEndpoint to the first connection.
mod Tests
use sovereign_core.Prelude.{
  ℕ, pos, Text, Dict, bytes, ◌==◌, eq_refl, lookup, insert, lookup-insert, Option-cases, Float64,
  All, trim_suffix, ◌≡◌, refl, sym, ap, ◌∙◌, inl, inr, [], ◌++◌, Option, none, some, Result, ok,
  if◌then◌else◌, arith,
}
use sovereign_core.Model.{Endpoint, Branch, Operation, Value, MeteringEvent}
use sovereign_core.Model.EndpointState
use sovereign_core.Store.{
  Store, step, put, puts, endpoint, moves_endpoint, adds_metering, add_metering, complete_op,
  completes, get_branch, transition_endpoint,
}
use sovereign_core.Store.Transitions.{transition_endpoint_allowed}
use sovereign_core.WarmPool.{Acquired}
use sovereign_core.Routing.Registry.{register}
use sovereign_core.Routing.Registry.View.{view, IsSound, awake, registry_refines_map}
use sovereign_core.Routing.Identify.RoundTrip.{IsRoutable}
use sovereign_core.Base64.RoundTrip.{IsByte}
use sovereign_core.Ids.{new_id}
use sovereign_core.Ids.Routes.{new_id-IsRoutable}
use sovereign_core.Tasks.{run_task}
use sovereign_core.App.{Adapters, App, acquire_warm, logical, connection_uri, resolve_connection}
use sovereign_core.App.Goroutines.{start_endpoint_body, publish_endpoint}
use sovereign_core.App.Connection.{connection_reaches}

completes-endpoints :
    {F : Type 0} (s : Store F) (op : Text) (r : Dict Value)
    → (step s (completes op r)).endpoints ≡ s.endpoints
unfolding step complete_op
completes-endpoints s op r = elim (Option-cases (lookup op s.operations)) [
  | inl absent ↦ ground arith
  | inr (q, found) ↦ ground arith
]

-- A new endpoint, once it has been stored, moved to active, metered, and its operation completed.
stored_active :
    {F : Type 0} (s : Store F) (e : Endpoint F) (event : MeteringEvent F) (op : Text)
    (r : Dict Value)
    → e.state ≡ EndpointState.creating
    → let t =
        step (step s (puts (endpoint e))) (moves_endpoint e.org_id e.id EndpointState.active) in
      lookup e.id (step (step t (adds_metering event)) (completes op r)).endpoints
      ≡ some (record e { state = EndpointState.active })
unfolding step put add_metering
stored_active s e event op r new =
    let held = put s (endpoint e) in
    let found : lookup e.id held.endpoints ≡ some e = rw (lookup-insert, eq_refl e.id) refl in
    let moved =
      transition_endpoint_allowed held e.org_id e.id EndpointState.active e
        (record { found = found; own = refl; edge = EndpointState.Edge.finish new refl }) in
    rw completes-endpoints (
      ap (λ (x : Store _ × Option Text). lookup e.id x.0.endpoints) moved
      ∙ rw (lookup-insert, eq_refl e.id) refl)

module _ {F W : Type 0} (p : Adapters W) where
  -- What StartEndpoint gets from the pool, the engine, newID and the secret service, in this order.
  abbrev pub got : App F W → Acquired
  got a = (acquire_warm p a.core).0

  abbrev pub attach : Text → App F W → Option Text × W
  attach branch a = p.storage.attach_branch (got a).inst.id branch (acquire_warm p a.core).1.world

  abbrev pub named : Text → App F W → Text × W
  named branch a = new_id p.random (bytes "ep") (attach branch a).1

  abbrev pub issued : Text → Text → App F W → Result (Text × Text) × W
  issued o branch a = p.secret.issue_db_credential o (named branch a).0 (named branch a).1

module _ (F W : Type 0) ⦃float : Float64 F⦄ (p : Adapters W) (o branch : Text) (min_cu max_cu : F)
    (op : Text) where
  -- The endpoint that StartEndpoint leaves behind.
  abbrev pub running : Text → Text → Text → ℕ → Endpoint F
  running id user password now = record {
    id = id;
    org_id = o;
    branch_id = branch;
    state = EndpointState.active;
    autoscale_min = min_cu;
    autoscale_max = max_cu;
    suspend_after_s = pos 300;
    connection_uri = connection_uri user password (logical p.region id []);
    created_at = now;
  }

  published :
      (got : Acquired) (id user password : Text) (a : App F W)
      → let t = run_task (publish_endpoint p o branch min_cu max_cu op got id user password) a in
        (t.1.registry ≡ register a.registry id got.inst.host (bytes "active"))
        × (lookup id t.1.core.store.endpoints
            ≡ some (running id user password (p.clock.now a.core.world).0))
  unfolding publish_endpoint run_task
  published got id user password a = (refl, stored_active a.core.store _ _ op _ refl)

  module _ (a : App F W) where
    pub start_endpoint_publishes :
        (br : Branch) (user password : Text)
        → get_branch a.core.store o branch ≡ some br
        → (got p a).err ≡ none
        → (attach p branch a).0 ≡ none
        → (issued p o branch a).0 ≡ ok (user, password)
        → (b : App F W) × (b.registry ≡ a.registry)
          × (b.core.store ≡ a.core.store)
          × (b.core.world ≡ (issued p o branch a).1)
          × (run_task (start_endpoint_body p o branch min_cu max_cu op) a
              ≡ run_task
                  (publish_endpoint p o branch min_cu max_cu op
                    (got p a)
                    (named p branch a).0
                    user
                    password)
                  b)
    unfolding start_endpoint_body run_task
    start_endpoint_publishes br user password found fine attached given = (
      record a { core = record (acquire_warm p a.core).1 { world = (issued p o branch a).1 } },
      refl,
      refl,
      refl,
      rw (found, fine, attached, given, run_task) refl,
    )

    -- An endpoint that StartEndpoint starts, run by itself, is stored and reached: if the branch is
    -- the org's, the pool gives an instance, the engine attaches the branch and the secret service
    -- issues a credential, then on a sound registry the endpoint is stored under its new id as
    -- active, for that org and branch, with its URI; and a client that names the host of the URI, or
    -- the pooled one, gets the instance's host at boot time 0 and changes nothing. Assumed is that
    -- newID gets bytes and that the id does not end in "-pooler".
    pub started_endpoint_reached :
        (br : Branch) (user password options secret : Text)
        → get_branch a.core.store o branch ≡ some br
        → (got p a).err ≡ none
        → (attach p branch a).0 ≡ none
        → (issued p o branch a).0 ≡ ok (user, password)
        → IsSound a.registry
        → All IsByte (p.random 9 (attach p branch a).1).0
        → trim_suffix (named p branch a).0 (bytes "-pooler") ≡ (named p branch a).0
        → let b = (run_task (start_endpoint_body p o branch min_cu max_cu op) a).1 in
          let id = (named p branch a).0 in
          (lookup id b.core.store.endpoints
            ≡ some (running id user password (p.clock.now (issued p o branch a).1).0))
          × (resolve_connection p
                (record { sni = logical p.region id []; options = options; password = secret })
                b
              ≡ ((id, (got p a).inst.host, pos 0, none), b))
          × (resolve_connection p
                (record {
                  sni = logical p.region id (bytes "-pooler");
                  options = options;
                  password = secret;
                })
                b
              ≡ ((id, (got p a).inst.host, pos 0, none), b))
    started_endpoint_reached br user password options secret found fine attached given sound random
          unpooled =
        let (c, kept, _, world, runs) =
          start_endpoint_publishes br user password found fine attached given in
        let (registered, stored) = published (got p a) (named p branch a).0 user password c in
        let routable = new_id-IsRoutable p.random (attach p branch a).1 random unpooled in
        let ((sound', entry), _, _, _) =
          registry_refines_map a.registry (named p branch a).0 (got p a).inst.host (bytes "active")
            (named p branch a).0 sound in
        let b =
          (run_task
            (publish_endpoint p o branch min_cu max_cu op (got p a) (named p branch a).0 user
              password)
            c).1 in
        let registry = rw kept at registered in
        let held : view b.registry (named p branch a).0 ≡ some (awake (got p a).inst.host) =
          rw registry (entry ∙ rw (eq_refl (named p branch a).0) refl) in
        let (direct, pooled) =
          connection_reaches p b (named p branch a).0 options secret _ routable (rw registry sound')
            held refl in
        rw runs (rw world at stored, direct, pooled)
