-- ===== src/App/Connection.antt =====
-- src/controlplane/app.go: ResolveConnection and the WakeHook, from the client's attempt to the backend.
use sovereign_core.Prelude.{
  pos, Text, bytes, eq_refl, lookup, insert, lookup-insert, ◌≡◌, refl, sym, ap, ◌∙◌, ◌≢◌, [], ◌++◌,
  Option, none, some, ok,
}
use sovereign_core.Model.{Endpoint}
use sovereign_core.Model.EndpointState
use sovereign_core.Store.{Store, step, endpoint_ref, transition_endpoint}
use sovereign_core.Store.Transitions.{transition_endpoint_allowed}
use sovereign_core.Routing.Registry.{Backend, Resolved, resolve}
use sovereign_core.Routing.Registry.View.{view, IsSound, awake}
use sovereign_core.Routing.Registry.Resolve.{resolve_cases, Outcome-warm, Outcome-woken}
use sovereign_core.Routing.Identify.{ConnAttempt, resolve_endpoint_id}
use sovereign_core.Routing.Identify.RoundTrip.{IsRoutable, three_ways_agree}
use sovereign_core.Tasks.{run_task}
use sovereign_core.App.{Adapters, Core, App, wake_hook, resolve_connection, acquire_warm, logical}

abbrev activated : {F : Type 0} → Store F → Text → Endpoint F → Store F
activated s id e = record s {
  endpoints = insert id (record e { state = EndpointState.active }) s.endpoints;
}

-- A suspended endpoint may become active.
transition_to_active :
    {F : Type 0} (s : Store F) (id : Text) (e : Endpoint F)
    → lookup id s.endpoints ≡ some e
    → e.state ≡ EndpointState.suspended
    → (transition_endpoint s e.org_id id EndpointState.active).0 ≡ activated s id e
transition_to_active s id e found asleep =
    rw
      (transition_endpoint_allowed s e.org_id id EndpointState.active e
        (record { found = found; own = refl; edge = EndpointState.Edge.wake asleep refl }))
      refl

module _ {F W : Type 0} (p : Adapters W) where
  abbrev pub attached : Core F W → Text → Endpoint F → Option Text
  attached c id e =
      let (got, c') = acquire_warm p c in
      (p.storage.attach_branch got.inst.id e.branch_id c'.world).0

  wake_hook_wakes :
      (c : Core F W) (id : Text) (e : Endpoint F)
      → lookup id c.store.endpoints ≡ some e
      → e.state ≡ EndpointState.suspended
      → (acquire_warm p c).0.err ≡ none
      → attached c id e ≡ none
      → let r = run_task (wake_hook p id) c in
        let got = (acquire_warm p c).0 in
        (r.0 ≡ record { addr = got.inst.host; boot_ms = got.boot_ms; err = none })
        × (r.1.store ≡ activated c.store id e)
  unfolding wake_hook run_task endpoint_ref step
  wake_hook_wakes c id e found asleep got fine =
      rw (found, got, fine, run_task) (refl, transition_to_active c.store id e found asleep)

  -- The end of ResolveConnection, once Resolve has answered.
  resolve_connection_ok :
      (att : ConnAttempt) (a : App F W) (id password method : Text)
      → resolve_endpoint_id att ≡ ok (id, password, method)
      → (resolve (λ i s. run_task (wake_hook p i) s) a.registry id a.core).0.err ≡ none
      → let r = resolve (λ i s. run_task (wake_hook p i) s) a.registry id a.core in
        resolve_connection p att a
        ≡ ((id, r.0.addr, r.0.boot_ms, none), record { core = r.2; registry = r.1 })
  unfolding resolve_connection
  resolve_connection_ok att a id password method named fine =
      rw (named, fine, resolve_connection) refl

  pub connection_active :
      (a : App F W) (att : ConnAttempt) (id password method : Text) (b : Backend)
      → resolve_endpoint_id att ≡ ok (id, password, method)
      → IsSound a.registry
      → view a.registry id ≡ some b
      → b.state ≡ bytes "active"
      → resolve_connection p att a ≡ ((id, b.addr, pos 0, none), a)
  connection_active a att id password method b named sound found active =
      let wake : Text → Core F W → Resolved × Core F W = λ i s. run_task (wake_hook p i) s in
      let answer =
        Outcome-warm wake a.registry id a.core _ b (resolve_cases wake a.registry id a.core sound).0
          found active in
      resolve_connection_ok att a id password method named (rw answer) ∙ rw answer

  -- A client that names a running endpoint by its SNI host, with or without "-pooler", reaches its
  -- backend at boot time 0 and changes nothing, on a sound registry, for a routable id, whatever the
  -- options and the password of the attempt.
  pub connection_reaches :
      (a : App F W) (id options password : Text) (b : Backend)
      → IsRoutable id
      → IsSound a.registry
      → view a.registry id ≡ some b
      → b.state ≡ bytes "active"
      → (resolve_connection p
            (record { sni = logical p.region id []; options = options; password = password })
            a
          ≡ ((id, b.addr, pos 0, none), a))
        × (resolve_connection p
              (record {
                sni = logical p.region id (bytes "-pooler");
                options = options;
                password = password;
              })
              a
            ≡ ((id, b.addr, pos 0, none), a))
  connection_reaches a id options password b routable sound found active =
      let (direct, pooled, _, _) =
        three_ways_agree id (p.region ++ bytes ".internal") options password routable in
      (
        connection_active a _ id password _ b direct sound found active,
        connection_active a _ id password _ b pooled sound found active,
      )

  -- A client that names a suspended endpoint wakes it: if the pool gives an instance and the engine
  -- attaches the branch to it, then on a sound registry the answer is the instance's host with the
  -- boot time of the pool, the endpoint is stored as active with all else as it was, and the
  -- registry holds it as active at that host.
  pub connection_wakes :
      (a : App F W) (att : ConnAttempt) (id password method : Text) (b : Backend) (e : Endpoint F)
      → resolve_endpoint_id att ≡ ok (id, password, method)
      → IsSound a.registry
      → view a.registry id ≡ some b
      → b.state ≢ bytes "active"
      → lookup id a.core.store.endpoints ≡ some e
      → e.state ≡ EndpointState.suspended
      → (acquire_warm p a.core).0.err ≡ none
      → attached a.core id e ≡ none
      → let got = (acquire_warm p a.core).0 in
        let r = resolve_connection p att a in
        (r.0 ≡ (id, got.inst.host, got.boot_ms, none))
        × (lookup id r.1.core.store.endpoints ≡ some (record e { state = EndpointState.active }))
        × (view r.1.registry id ≡ some (awake got.inst.host))
  connection_wakes a att id password method b e named sound found asleep stored suspended got fine =
      let wake : Text → Core F W → Resolved × Core F W = λ i s. run_task (wake_hook p i) s in
      let (woken, core) = wake_hook_wakes a.core id e stored suspended got fine in
      let (answer, after, entry) =
        Outcome-woken wake a.registry id a.core _ b
          (resolve_cases wake a.registry id a.core sound).0 found asleep (rw woken) in
      let given = sym answer ∙ woken in
      let r =
        resolve_connection_ok att a id password method named (ap (λ (x : Resolved). x.err) given) in
      (
        rw r (ap (λ (x : Resolved). (id, x.addr, x.boot_ms, none)) given),
        rw (r, after, core) (rw (lookup-insert, eq_refl id) refl),
        rw r (entry ∙ ap (λ (x : Resolved). some (awake x.addr)) given),
      )
