-- ===== src/App.antt =====
-- src/controlplane/app.go: the operations of the control plane over the store, the warm pool, the
-- registry and the ports. A function that runs beside others is a Task; one that starts a goroutine
-- returns the goroutine's body with its answer.
pub mod Goroutines
pub mod Completion
pub mod Deliveries
pub mod Operations
pub mod Onboarding
pub mod Suspension
pub mod Connection
pub mod Startup
pub mod Tokens
pub mod Tenants
pub mod Waiting
pub mod Samples
mod Tests
use sovereign_core.Prelude.{
  ℕ, ℤ, pos, Text, bytes, Dict, Float64, Bool, List, [], ◌∷◌, ◌++◌, Option, none, some, Result, ok,
  err,
}
use sovereign_core.Model.{
  Org, Membership, Project, Branch, Endpoint, Value, Operation, MeteringEvent, text, int, bool,
}
use sovereign_core.Model.BranchState
use sovereign_core.Model.EndpointState
use sovereign_core.Store.{
  Store, Call, new_store, org, project, branch, endpoint, operation, puts, adds_membership,
  adds_metering, completes, fails, moves_branch, moves_endpoint, get_project, get_branch,
  get_endpoint, endpoint_ref, usage_rollup, transition_endpoint,
}
use sovereign_core.Store
use sovereign_core.Ports.{Clock, StoragePort, AuthPort, KmsPort, SecretPort, PaymentPort}
use sovereign_core.WarmPool.{WarmPool, Acquired, new_warm_pool, acquire}
use sovereign_core.WarmPool.Policy.{WarmPoolPolicy, load_proportional_policy}
use sovereign_core.Routing.Registry.{
  RoutingRegistry, Resolved, new_registry, register, set_state, resolve,
}
use sovereign_core.Routing.Identify.{ConnAttempt, resolve_endpoint_id}
use sovereign_core.Tasks.{Task, done, step, atomic, run_task}
use sovereign_core.Ids.{new_id}

-- The ports, the clock and the random bytes of an App, and its region.
pub record Adapters (W : Type 0) : Type 0 where
  pub clock : Clock W
  pub storage : StoragePort W
  pub auth : AuthPort W
  pub kms : KmsPort W
  pub secret : SecretPort W
  pub payment : PaymentPort W
  pub random : ℕ → W → List ℕ × W
  pub region : Text

-- What the WakeHook works on.
pub record Core (F W : Type 0) : Type 0 where
  pub store : Store F
  pub warmpool : WarmPool
  pub world : W

pub record App (F W : Type 0) : Type 0 where
  pub core : Core F W
  pub registry : RoutingRegistry

module _ {F W : Type 0} where
  -- A step of the store, of the world, and of the registry.
  abbrev pub writes : Call F → Core F W → Unit {0} × Core F W
  writes c s = (tt, record s { store = Store.step s.store c })

  abbrev pub uses : {B : Type 0} → (W → B × W) → Core F W → B × Core F W
  uses f s = let (b, w) = f s.world in (b, record s { world = w })

  abbrev pub on_core : {B : Type 0} → (Core F W → B × Core F W) → App F W → B × App F W
  on_core f a = let (b, c) = f a.core in (b, record a { core = c })

  abbrev pub reads : {B : Type 0} → (Store F → B) → App F W → B × App F W
  reads f a = (f a.core.store, a)

  abbrev pub routes : (RoutingRegistry → RoutingRegistry) → App F W → Unit {0} × App F W
  routes f a = (tt, record a { registry = f a.registry })

  -- A goroutine that fails its operation ends.
  abbrev pub give_up : Text → Text → Task (App F W) (Unit {0})
  give_up op e = atomic (on_core (writes (fails op e))) λ u. done u

-- fmt.Sprintf("%s%s.%s.internal", epID, suffix, a.region)
abbrev pub logical : Text → Text → Text → Text
logical region id suffix = id ++ (suffix ++ (b'.' ∷ (region ++ bytes ".internal")))

abbrev pub connection_uri : Text → Text → Text → Text
connection_uri user password host =
    bytes "postgresql://"
    ++ (user ++ (b':' ∷ (password ++ (b'@' ∷ (host ++ bytes ":5432/main?sslmode=require")))))

-- The policy of NewApp.
unfoldable pub default_policy : (F : Type 0) ⦃float : Float64 F⦄ → (ℤ → Text) → WarmPoolPolicy
default_policy F ⦃float⦄ show =
    load_proportional_policy show
      (record { buffer = float.decimal (pos 15) 1; min = pos 2; max = pos 64 })

module _ {F W : Type 0} (p : Adapters W) where
  abbrev pub acquire_warm : Core F W → Acquired × Core F W
  acquire_warm s =
      let (r, q, w) = acquire p.clock p.storage s.warmpool s.world in
      (r, record s { warmpool = q; world = w })

  -- The closure that NewAppWithPolicy gives to the registry.
  unfoldable pub wake_hook : Text → Task (Core F W) Resolved
  wake_hook id =
      atomic (λ s. (endpoint_ref s.store id, s))
        λ ref. elim ref [
          | none ↦ done (record { addr = []; boot_ms = pos 0; err = some (bytes "endpoint gone") })
          | some (org_id, branch_id, min_cu, max_cu) ↦ atomic acquire_warm λ got. elim (got.err) [
            | some e ↦ done (record { addr = []; boot_ms = got.boot_ms; err = some e })
            | none ↦ atomic (uses (p.storage.attach_branch got.inst.id branch_id)) λ failure.
                elim failure [
                  | some e ↦ done (record { addr = []; boot_ms = got.boot_ms; err = some e })
                  | none ↦
                      atomic (writes (moves_endpoint org_id id EndpointState.active)) λ u.
                        done (record { addr = got.inst.host; boot_ms = got.boot_ms; err = none })
                ]
          ]
        ]

  unfoldable pub new_app : WarmPoolPolicy → W → App F W
  new_app policy w =
      let (pool, w') = new_warm_pool p.clock p.storage p.region policy w in
      record {
        core = record { store = new_store; warmpool = pool; world = w' };
        registry = new_registry;
      }

  unfoldable pub signup : Text → Text → Task (App F W) (Result (Org × Text))
  signup name owner = atomic (on_core (uses (p.kms.provision_tenant_kek []))) λ kek. elim kek [
    | err e ↦ done (err (bytes "kek: " ++ e))
    | ok kek_id ↦ atomic (on_core (uses (new_id p.random (bytes "org")))) λ id.
        atomic (on_core (uses p.clock.now)) λ now.
          atomic (on_core (uses (p.payment.create_customer id))) λ billing. elim billing [
            | err e ↦ done (err (bytes "billing: " ++ e))
            | ok billing_id ↦
                let o : Org = record {
                  id = id;
                  name = name;
                  region = p.region;
                  kms_key_id = kek_id;
                  billing_id = billing_id;
                  plan = bytes "free";
                  created_at = now;
                } in
                atomic (on_core (writes (puts (org o)))) λ _.
                  atomic
                    (on_core (
                      writes (
                        adds_membership
                          (record { org_id = id; user_id = owner; role = bytes "owner" }))))
                    λ _.
                      atomic (on_core (uses (p.auth.issue_token id owner (bytes "owner")))) λ token.
                        elim token [
                          | err e ↦ done (err (bytes "token: " ++ e))
                          | ok t ↦ done (ok (o, t))
                        ]
          ]
  ]

  unfoldable pub suspend_endpoint : Text → Text → Task (App F W) (Option Text)
  suspend_endpoint org_id id = atomic (reads (λ s. get_endpoint s org_id id)) λ found. elim found [
    | none ↦ done (some (bytes "endpoint not found"))
    | some e ↦ atomic (on_core (uses (p.storage.suspend_endpoint org_id id))) λ failure.
        elim failure [
          | some x ↦ done (some x)
          | none ↦ atomic (routes (λ r. set_state r id (bytes "suspended"))) λ _.
              atomic
                (on_core λ s.
                  let (store, failure) =
                    transition_endpoint s.store org_id id EndpointState.suspended in
                  (failure, record s { store = store }))
                λ failure. done failure
        ]
  ]

  -- The answer is (endpointID, backendAddr, bootMS, err). What other goroutines may do while Resolve
  -- wakes the endpoint is the subject of Routing.Registry.Race; here it runs by itself.
  unfoldable pub resolve_connection :
      ConnAttempt → App F W → (Text × Text × ℤ × Option Text) × App F W
  resolve_connection att a = elim (resolve_endpoint_id att) [
    | err e ↦ (([], [], pos 0, some e), a)
    | ok (id, password, method) ↦
        let (r, registry, core) = resolve (λ i s. run_task (wake_hook i) s) a.registry id a.core in
        (
          elim (r.err) [
            | some e ↦ (id, [], r.boot_ms, some e)
            | none ↦ (id, r.addr, r.boot_ms, none)
          ],
          record { core = core; registry = registry },
        )
  ]
