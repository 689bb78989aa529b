-- ===== src/Store.antt =====
-- src/controlplane/store.go: the in-memory database. The mutex makes each method one step, so a
-- method that writes is a function to the new store; an error is its text, and `none` is nil.
pub mod Tenancy
pub mod Invariant
pub mod Transitions
pub mod Usage
pub mod Operations
pub mod History
mod Tests
use sovereign_core.Prelude.{
  ℕ, pos, Text, bytes, ◌==◌, Dict, lookup, insert, Float64, if◌then◌else◌, Bool, true, false, not,
  ◌||◌, List, [], ◌∷◌, ◌++◌, Option, none, some,
}
use sovereign_core.Model.{
  Org, Membership, Project, Branch, Endpoint, Value, Operation, MeteringEvent,
}
use sovereign_core.Model.BranchState
use sovereign_core.Model.EndpointState
use sovereign_core.Model.Transition.{can_transition}

pub record Store (F : Type 0) : Type 0 where
  pub orgs : Dict Org
  pub memberships : List Membership
  pub projects : Dict Project
  pub branches : Dict Branch
  pub endpoints : Dict (Endpoint F)
  pub operations : Dict Operation
  pub metering : List (MeteringEvent F)
  pub idemp : Dict Text

-- The cases of the type switch of `put`.
pub data Entity (F : Type 0) : Type 0 where
  org : Org → Entity F
  project : Project → Entity F
  branch : Branch → Entity F
  endpoint : Endpoint F → Entity F
  operation : Operation → Entity F

-- Drops a value of another tenant.
abbrev owned : {A : Type 0} → (A → Text) → Text → Option A → Option A
owned org_of org_id found = elim found [
  | none ↦ none
  | some a ↦ if not (org_of a == org_id) then none else some a
]

module _ {F : Type 0} where
  unfoldable pub new_store : Store F
  new_store = record {
    orgs = [];
    memberships = [];
    projects = [];
    branches = [];
    endpoints = [];
    operations = [];
    metering = [];
    idemp = [];
  }

  unfoldable pub get_project : Store F → Text → Text → Option Project
  get_project s org_id id = owned (λ p. p.org_id) org_id (lookup id s.projects)

  unfoldable pub get_branch : Store F → Text → Text → Option Branch
  get_branch s org_id id = owned (λ b. b.org_id) org_id (lookup id s.branches)

  unfoldable pub get_endpoint : Store F → Text → Text → Option (Endpoint F)
  get_endpoint s org_id id = owned (λ e. e.org_id) org_id (lookup id s.endpoints)

  -- (orgID, branchID, minCU, maxCU), for a caller that knows no org.
  unfoldable pub endpoint_ref : Store F → Text → Option (Text × Text × F × F)
  endpoint_ref s id = elim (lookup id s.endpoints) [
    | none ↦ none
    | some e ↦ some (e.org_id, e.branch_id, e.autoscale_min, e.autoscale_max)
  ]

  unfoldable pub put : Store F → Entity F → Store F
  put s (org t) = record s { orgs = insert t.id t s.orgs }
  put s (project t) = record s { projects = insert t.id t s.projects }
  put s (branch t) = record s { branches = insert t.id t s.branches }
  put s (endpoint t) = record s { endpoints = insert t.id t s.endpoints }
  put s (operation t) = record s { operations = insert t.id t s.operations }

  unfoldable pub add_membership : Store F → Membership → Store F
  add_membership s m = record s { memberships = s.memberships ++ m ∷ [] }

  unfoldable pub add_metering : Store F → MeteringEvent F → Store F
  add_metering s e = record s { metering = s.metering ++ e ∷ [] }

  unfoldable pub idemp_lookup : Store F → Text → Option Text
  idemp_lookup s key = if key == [] then none else lookup key s.idemp

  unfoldable pub idemp_store : Store F → Text → Text → Store F
  idemp_store s key id = if key == [] then s else record s { idemp = insert key id s.idemp }

  unfoldable pub complete_op : Store F → Text → Dict Value → Store F
  complete_op s id result = elim (lookup id s.operations) [
    | none ↦ s
    | some op ↦ record s {
      operations =
          insert id (record op { status = bytes "succeeded"; result = some result }) s.operations;
    }
  ]

  unfoldable pub fail_op : Store F → Text → Text → Store F
  fail_op s id err = elim (lookup id s.operations) [
    | none ↦ s
    | some op ↦ record s {
      operations = insert id (record op { status = bytes "failed"; error = err }) s.operations;
    }
  ]

  unfoldable pub op_snapshot : Store F → Text → Text → Option Operation
  op_snapshot s org_id id = owned (λ op. op.org_id) org_id (lookup id s.operations)

  set_branch_state : Store F → Text → Branch → Text → Store F
  set_branch_state s id b to = record s {
    branches = insert id (record b { state = to }) s.branches;
  }

  unfoldable pub transition_branch : Store F → Text → Text → Text → Store F × Option Text
  unfolding set_branch_state
  transition_branch s org_id id to = elim (lookup id s.branches) [
    | none ↦ (s, some (bytes "branch not found"))
    | some b ↦
        if not (b.org_id == org_id)
        then (s, some (bytes "branch not found"))
        else elim (can_transition BranchState.transitions b.state to) [
          | some err ↦ (s, some err)
          | none ↦ (set_branch_state s id b to, none)
        ]
  ]

  set_endpoint_state : Store F → Text → Endpoint F → Text → Store F
  set_endpoint_state s id e to = record s {
    endpoints = insert id (record e { state = to }) s.endpoints;
  }

  unfoldable pub transition_endpoint : Store F → Text → Text → Text → Store F × Option Text
  unfolding set_endpoint_state
  transition_endpoint s org_id id to = elim (lookup id s.endpoints) [
    | none ↦ (s, some (bytes "endpoint not found"))
    | some e ↦
        if not (e.org_id == org_id)
        then (s, some (bytes "endpoint not found"))
        else elim (can_transition EndpointState.transitions e.state to) [
          | some err ↦ (s, some err)
          | none ↦ (set_endpoint_state s id e to, none)
        ]
  ]

-- The loop of usageRollup; a missing key of a Go map reads as zero.
module _ {F : Type 0} ⦃float : Float64 F⦄ where
  abbrev pub zero_value : Option F → F
  zero_value none = float.decimal (pos 0) 0
  zero_value (some x) = x

  rollup : Text → Dict F → List (MeteringEvent F) → Dict F
  rollup org_id out [] = out
  rollup org_id out (e ∷ es) =
      rollup org_id
        (if e.org_id == org_id
          then insert e.kind (float.add (zero_value (lookup e.kind out)) e.value) out
          else out)
        es

  unfoldable pub usage_rollup : Store F → Text → Dict F
  unfolding rollup
  usage_rollup s org_id = rollup org_id [] s.metering

-- The calls of the methods that write.
pub data Call (F : Type 0) : Type 0 where
  puts : Entity F → Call F
  adds_membership : Membership → Call F
  adds_metering : MeteringEvent F → Call F
  stores_idemp : Text → Text → Call F
  completes : Text → Dict Value → Call F
  fails : Text → Text → Call F
  moves_branch : Text → Text → Text → Call F
  moves_endpoint : Text → Text → Text → Call F

module _ {F : Type 0} where
  unfoldable pub step : Store F → Call F → Store F
  step s (puts v) = put s v
  step s (adds_membership m) = add_membership s m
  step s (adds_metering e) = add_metering s e
  step s (stores_idemp key id) = idemp_store s key id
  step s (completes id result) = complete_op s id result
  step s (fails id err) = fail_op s id err
  step s (moves_branch org_id id to) = (transition_branch s org_id id to).0
  step s (moves_endpoint org_id id to) = (transition_endpoint s org_id id to).0

  unfoldable pub run : Store F → List (Call F) → Store F
  run s [] = s
  run s (c ∷ cs) = run (step s c) cs
