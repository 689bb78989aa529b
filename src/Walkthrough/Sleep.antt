-- ===== src/Walkthrough/Sleep.antt =====
-- src/controlplane/main.go: parts 6 to 8 of the walkthrough on an endpoint that runs.
use sovereign_core.Prelude.{
  ℤ, Text, bytes, eq_refl, lookup, lookup-insert, ◌≡◌, ◌≢◌, refl, sym, ap, ◌∙◌, [], ◌++◌, Option,
  none, some, ok, arith,
}
use sovereign_core.Model.{Endpoint}
use sovereign_core.Model.EndpointState
use sovereign_core.Routing.Registry.{Backend}
use sovereign_core.Routing.Registry.View.{view, IsSound, awake, with_state, registry_refines_map}
use sovereign_core.Routing.Identify.{ConnAttempt, resolve_endpoint_id}
use sovereign_core.Routing.Identify.RoundTrip.{IsRoutable, three_ways_agree}
use sovereign_core.App.{Adapters, App, acquire_warm, logical, resolve_connection}
use sovereign_core.App.Connection.{attached, connection_active, connection_wakes}
use sovereign_core.App.Suspension.{get_endpoint_own, slept, suspend_endpoint_succeeds}
use sovereign_core.Walkthrough.Control.{goes_on, after, ◌>>=◌, ◌>>◌, must_none, expect}
use sovereign_core.Walkthrough.Steps.{
  conn_attempt, must_id, resolved, state_of, three_ways, sleep_and_wake,
}

module _ {F W : Type 0} (p : Adapters W) where
  resolved_ok :
      (att : ConnAttempt) (a b : App F W) (id addr : Text) (boot_ms : ℤ)
      → resolve_connection p att a ≡ ((id, addr, boot_ms, none), b)
      → resolved p att a ≡ (goes_on id, b)
  unfolding resolved
  resolved_ok att a b id addr boot_ms e = ap (must_id) e

  module _ (id : Text) (routable : IsRoutable id) (a : App F W) (b : Backend)
      (sound : IsSound a.registry) (found : view a.registry id ≡ some b)
      (active : b.state ≡ bytes "active") where
    reaches :
        (att : ConnAttempt) (password method : Text)
        → resolve_endpoint_id att ≡ ok (id, password, method)
        → resolved p att a ≡ (goes_on id, a)
    reaches att password method e =
        resolved_ok att a a id _ _ (connection_active p a att id _ _ b e sound found active)

    each_reaches :
        (resolved p (conn_attempt (logical p.region id []) [] []) a ≡ (goes_on id, a))
        × (resolved p (conn_attempt [] (bytes "endpoint=" ++ id) []) a ≡ (goes_on id, a))
        × (resolved p (conn_attempt [] [] (bytes "endpoint=" ++ (id ++ bytes ";realpw"))) a
            ≡ (goes_on id, a))
    unfolding bytes
    each_reaches =
        let (by_sni, _, by_options, _) =
          three_ways_agree id (p.region ++ bytes ".internal") [] [] routable in
        let (_, _, _, by_password) = three_ways_agree id [] [] (bytes "realpw") routable in
        (reaches _ _ _ by_sni, reaches _ _ _ by_options, reaches _ _ _ by_password)

    three_ways_pass : three_ways p id (logical p.region id []) a ≡ (goes_on tt, a)
    unfolding three_ways expect ◌>>=◌ ◌>>◌
    three_ways_pass =
        let (one, two, three) = each_reaches in
        rw (one, after, two, after, three, after, eq_refl id) refl

  module _ (a : App F W) (id : Text) (b : Backend) (e : Endpoint F) where
    abbrev pub asleep : App F W
    asleep = slept p e.org_id id a e

    abbrev off : Endpoint F
    off = record e { state = EndpointState.suspended }

    abbrev by_host : ConnAttempt
    by_host = conn_attempt (logical p.region id []) [] []

    off_stored : lookup id asleep.core.store.endpoints ≡ some off
    off_stored = rw (lookup-insert, eq_refl id) refl

    off_routed :
        IsSound a.registry
        → view a.registry id ≡ some b
        → IsSound asleep.registry
          × (view asleep.registry id ≡ some (with_state (bytes "suspended") b))
    off_routed sound found =
        let (_, (sound', entry), _, _) =
          registry_refines_map a.registry id [] (bytes "suspended") id sound in
        (sound', entry ∙ rw (eq_refl id, found) refl)

    state_shown : state_of e.org_id id asleep ≡ (goes_on EndpointState.suspended, asleep)
    unfolding state_of
    state_shown =
        rw (get_endpoint_own asleep.core.store e.org_id id off off_stored refl, state_of) refl

    not_active : bytes "suspended" ≢ bytes "active"
    unfolding bytes
    not_active h = ground arith

    woken :
        (addr : Text) (boot_ms : ℤ)
        → lookup id a.core.store.endpoints ≡ some e
        → e.state ≡ EndpointState.active
        → (p.storage.suspend_endpoint e.org_id id a.core.world).0 ≡ none
        → (resolve_connection p by_host asleep).0 ≡ (id, addr, boot_ms, none)
        → sleep_and_wake p e.org_id id (logical p.region id []) a
          ≡ (goes_on tt, (resolve_connection p by_host asleep).1)
    unfolding sleep_and_wake ◌>>=◌ ◌>>◌ must_none
    woken addr boot_ms stored running fine answer =
        let r = resolve_connection p by_host asleep in
        let up =
          resolved_ok by_host asleep r.1 id addr boot_ms
            (ap (λ (x : Text × Text × ℤ × Option Text). (x, r.1)) answer) in
        rw
          (
            suspend_endpoint_succeeds p e.org_id id a e stored refl running fine,
            after,
            state_shown,
            after,
            up,
            after,
          )
          refl

    sleep_and_wake_passes :
        IsRoutable id
        → IsSound a.registry
        → view a.registry id ≡ some b
        → lookup id a.core.store.endpoints ≡ some e
        → e.state ≡ EndpointState.active
        → (p.storage.suspend_endpoint e.org_id id a.core.world).0 ≡ none
        → (acquire_warm p asleep.core).0.err ≡ none
        → attached p asleep.core id off ≡ none
        → let r = sleep_and_wake p e.org_id id (logical p.region id []) a in
          (r.0 ≡ goes_on tt)
          × (lookup id r.1.core.store.endpoints ≡ some e)
          × (view r.1.registry id ≡ some (awake (acquire_warm p asleep.core).0.inst.host))
    sleep_and_wake_passes routable sound found stored running fine got given =
        let (by_sni, _, _, _) =
          three_ways_agree id (p.region ++ bytes ".internal") [] [] routable in
        let (sound', held) = off_routed sound found in
        let (answer, stored', entry) =
          connection_wakes p asleep by_host id _ _ _ off by_sni sound' held not_active off_stored
            refl got given in
        let same : record e { state = EndpointState.active } ≡ e =
          sym (λ i. record e { state = running i }) in
        rw (woken _ _ stored running fine answer) (refl, stored' ∙ ap some same, entry)

    -- Parts 6 to 8b of the walkthrough on a running endpoint, on a sound registry that holds it as
    -- active, for a routable id. Its SNI host, the options and the password lead to it, so part 6
    -- goes on and changes nothing. If the engine suspends it, and then the pool gives an instance
    -- and the engine attaches the branch to it, part 8 goes on as well: the endpoint is then stored
    -- as before, and the registry holds it as active at the host of that instance.
    pub running_endpoint_passes :
        IsRoutable id
        → IsSound a.registry
        → view a.registry id ≡ some b
        → b.state ≡ bytes "active"
        → lookup id a.core.store.endpoints ≡ some e
        → e.state ≡ EndpointState.active
        → (p.storage.suspend_endpoint e.org_id id a.core.world).0 ≡ none
        → (acquire_warm p asleep.core).0.err ≡ none
        → attached p asleep.core id (record e { state = EndpointState.suspended }) ≡ none
        → let sni = logical p.region id [] in
          let r = sleep_and_wake p e.org_id id sni a in
          (three_ways p id sni a ≡ (goes_on tt, a))
          × (r.0 ≡ goes_on tt)
          × (lookup id r.1.core.store.endpoints ≡ some e)
          × (view r.1.registry id ≡ some (awake (acquire_warm p asleep.core).0.inst.host))
    running_endpoint_passes routable sound found up stored running fine got given =
        let (goes, kept, entry) =
          sleep_and_wake_passes routable sound found stored running fine got given in
        (three_ways_pass id routable a b sound found up, goes, kept, entry)
