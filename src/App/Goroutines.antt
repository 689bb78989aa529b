-- ===== src/App/Goroutines.antt =====
-- src/controlplane/app.go: the calls that start a goroutine, each with the goroutine's body.
use sovereign_core.Prelude.{ℕ, pos, Text, bytes, Dict, Float64, [], ◌∷◌, none, some, ok, err}
use sovereign_core.Model.{Endpoint, Operation, MeteringEvent, text, int, bool}
use sovereign_core.Model.BranchState
use sovereign_core.Model.EndpointState
use sovereign_core.Store.{
  project, branch, endpoint, operation, puts, adds_metering, completes, moves_branch,
  moves_endpoint, get_project, get_branch, usage_rollup,
}
use sovereign_core.WarmPool.{Acquired}
use sovereign_core.Routing.Registry.{register}
use sovereign_core.Tasks.{Task, done, atomic}
use sovereign_core.Ids.{new_id}
use sovereign_core.App.{
  Adapters, App, writes, uses, on_core, reads, routes, give_up, logical, connection_uri,
  acquire_warm,
}

module _ {F W : Type 0} (p : Adapters W) where
  -- The first half of an asynchronous call: the operation is stored as running.
  unfoldable pub start_op :
      Text
      → Text
      → (Text → Task (App F W) (Unit {0}))
      → Task (App F W) (Operation × Task (App F W) (Unit {0}))
  start_op org_id kind body = atomic (on_core (uses (new_id p.random (bytes "op")))) λ id.
      atomic (on_core (uses p.clock.now)) λ now.
        let op : Operation = record {
          id = id;
          org_id = org_id;
          kind = kind;
          status = bytes "running";
          result = none;
          error = [];
          created = now;
        } in
        atomic (on_core (writes (puts (operation op)))) λ _. done (op, body id)

module _ {F W : Type 0} ⦃float : Float64 F⦄ (p : Adapters W) where
  abbrev pub usage_event : Text → Text → F → ℕ → MeteringEvent F
  usage_event org_id kind value now = record {
    org_id = org_id;
    kind = kind;
    value = value;
    at = now;
  }

  -- The goroutine of CreateProject.
  unfoldable pub create_project_body : Text → Text → Text → Task (App F W) (Unit {0})
  create_project_body org_id name op =
      atomic (on_core (uses (p.storage.create_branch org_id [] []))) λ made. elim made [
        | err e ↦ give_up op e
        | ok br ↦ atomic (on_core (uses (new_id p.random (bytes "proj")))) λ id.
            atomic (on_core (uses p.clock.now)) λ now.
              atomic
                (on_core (
                  writes (
                    puts (
                      project (record {
                        id = id;
                        org_id = org_id;
                        name = name;
                        region = p.region;
                        root_branch = br;
                        created_at = now;
                      })))))
                λ _. atomic (on_core (uses p.clock.now)) λ now'.
                  atomic
                    (on_core (
                      writes (
                        puts (
                          branch (record {
                            id = br;
                            org_id = org_id;
                            project_id = id;
                            parent_id = [];
                            state = BranchState.ready;
                            created_at = now';
                          })))))
                    λ _. atomic (on_core (uses p.clock.now)) λ at.
                      atomic
                        (on_core (
                          writes (
                            adds_metering (
                              usage_event org_id (bytes "branch_ops") (float.decimal (pos 1) 0)
                                at))))
                        λ _.
                          atomic
                            (on_core (
                              writes (
                                completes op (
                                  (bytes "project_id", text id)
                                  ∷ (bytes "root_branch_id", text br)
                                  ∷ []))))
                            λ u. done u
      ]

  unfoldable pub create_project :
      Text → Text → Task (App F W) (Operation × Task (App F W) (Unit {0}))
  unfolding start_op
  create_project org_id name =
      start_op p org_id (bytes "create_project") (create_project_body org_id name)

  -- The goroutine of CreateBranch.
  unfoldable pub create_branch_body : Text → Text → Text → Text → Task (App F W) (Unit {0})
  create_branch_body org_id project_id parent op =
      atomic (reads (λ s. get_project s org_id project_id)) λ found. elim found [
        | none ↦ give_up op (bytes "project not found")
        | some pr ↦
            atomic (on_core (uses (p.storage.create_branch org_id project_id parent))) λ made.
              elim made [
                | err e ↦ give_up op e
                | ok br ↦ atomic (on_core (uses p.clock.now)) λ now.
                    atomic
                      (on_core (
                        writes (
                          puts (
                            branch (record {
                              id = br;
                              org_id = org_id;
                              project_id = project_id;
                              parent_id = parent;
                              state = BranchState.creating;
                              created_at = now;
                            })))))
                      λ _. atomic (on_core (writes (moves_branch org_id br BranchState.ready))) λ _.
                        atomic (on_core (uses p.clock.now)) λ at.
                          atomic
                            (on_core (
                              writes (
                                adds_metering (
                                  usage_event org_id (bytes "branch_ops") (float.decimal (pos 1) 0)
                                    at))))
                            λ _.
                              atomic
                                (on_core
                                  (writes (completes op ((bytes "branch_id", text br) ∷ []))))
                                λ u. done u
              ]
      ]

  unfoldable pub create_branch :
      Text → Text → Text → Task (App F W) (Operation × Task (App F W) (Unit {0}))
  unfolding start_op
  create_branch org_id project_id parent =
      start_op p org_id (bytes "create_branch") (create_branch_body org_id project_id parent)

  new_endpoint : Text → Text → Text → F → F → Text → ℕ → Endpoint F
  new_endpoint id org_id branch_id min_cu max_cu uri now = record {
    id = id;
    org_id = org_id;
    branch_id = branch_id;
    state = EndpointState.creating;
    autoscale_min = min_cu;
    autoscale_max = max_cu;
    suspend_after_s = pos 300;
    connection_uri = uri;
    created_at = now;
  }

  -- From the credential on.
  unfoldable pub publish_endpoint :
      Text → Text → F → F → Text → Acquired → Text → Text → Text → Task (App F W) (Unit {0})
  unfolding new_endpoint
  publish_endpoint org_id branch_id min_cu max_cu op got id user password =
      let uri = connection_uri user password (logical p.region id []) in
      let pooled = connection_uri user password (logical p.region id (bytes "-pooler")) in
      atomic (on_core (uses p.clock.now)) λ now.
        atomic
          (on_core
            (writes (puts (endpoint (new_endpoint id org_id branch_id min_cu max_cu uri now)))))
          λ _. atomic (on_core (writes (moves_endpoint org_id id EndpointState.active))) λ _.
            atomic (routes (λ r. register r id got.inst.host (bytes "active"))) λ _.
              atomic (on_core (uses p.clock.now)) λ at.
                atomic
                  (on_core (
                    writes (
                      adds_metering
                        (usage_event org_id (bytes "cu_hours") (float.decimal (pos 0) 0) at))))
                  λ _.
                    atomic
                      (on_core (
                        writes (
                          completes op (
                            (bytes "endpoint_id", text id)
                            ∷ (bytes "connection_uri", text uri)
                            ∷ (bytes "connection_pooled", text pooled)
                            ∷ (bytes "boot_ms", int got.boot_ms)
                            ∷ (bytes "warm_hit", bool got.hit)
                            ∷ []))))
                      λ u. done u

  -- The goroutine of StartEndpoint.
  unfoldable pub start_endpoint_body : Text → Text → F → F → Text → Task (App F W) (Unit {0})
  unfolding publish_endpoint
  start_endpoint_body org_id branch_id min_cu max_cu op =
      atomic (reads (λ s. get_branch s org_id branch_id)) λ found. elim found [
        | none ↦ give_up op (bytes "branch not found")
        | some b ↦ atomic (on_core (acquire_warm p)) λ got. elim (got.err) [
          | some e ↦ give_up op e
          | none ↦
              atomic (on_core (uses (p.storage.attach_branch got.inst.id branch_id))) λ failure.
                elim failure [
                  | some e ↦ give_up op e
                  | none ↦ atomic (on_core (uses (new_id p.random (bytes "ep")))) λ id.
                      atomic (on_core (uses (p.secret.issue_db_credential org_id id))) λ issued.
                        elim issued [
                          | err e ↦ give_up op e
                          | ok (user, password) ↦
                              publish_endpoint org_id branch_id min_cu max_cu op got id user
                                password
                        ]
                ]
        ]
      ]

  unfoldable pub start_endpoint :
      Text → Text → F → F → Task (App F W) (Operation × Task (App F W) (Unit {0}))
  unfolding start_op
  start_endpoint org_id branch_id min_cu max_cu =
      start_op p org_id (bytes "start_endpoint")
        (start_endpoint_body org_id branch_id min_cu max_cu)

  unfoldable pub usage : Text → App F W → Dict F
  usage org_id a = usage_rollup a.core.store org_id
