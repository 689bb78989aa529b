-- ===== src/Store/Invariant.antt =====
-- src/controlplane/store.go: what holds of the store between two calls.
use sovereign_core.Prelude.{
  Text, bytes, ◌==◌, ==_iff, Dict, lookup, insert, lookup-insert, Option-cases, Bool-cases, ◌≡◌,
  refl, ◌⊎◌, inl, inr, List, [], ◌∷◌, none, some,
}
use sovereign_core.Model.{Operation}
use sovereign_core.Model.BranchState
use sovereign_core.Model.EndpointState
use sovereign_core.Store.{
  Store, Entity, org, project, branch, endpoint, operation, new_store, put, add_metering,
  add_membership, idemp_store, complete_op, fail_op, transition_branch, transition_endpoint, Call,
  puts, adds_membership, adds_metering, stores_idemp, completes, fails, moves_branch,
  moves_endpoint, step, run,
}
use sovereign_core.Store.Transitions.{transition_branch_cases, transition_endpoint_cases}

abbrev pub IsBranchState : Text → Type 0
IsBranchState t = (t ≡ BranchState.creating) ⊎ (t ≡ BranchState.ready) ⊎ (t ≡ BranchState.deleted)

abbrev pub IsEndpointState : Text → Type 0
IsEndpointState t =
    (t ≡ EndpointState.creating)
    ⊎ (t ≡ EndpointState.active)
    ⊎ (t ≡ EndpointState.suspended)
    ⊎ (t ≡ EndpointState.deleted)

abbrev pub IsStatus : Text → Type 0
IsStatus t = (t ≡ bytes "running") ⊎ (t ≡ bytes "succeeded") ⊎ (t ≡ bytes "failed")

-- Every entry of a map, with its key.
abbrev pub Every : {A : Type 0} → (Text → A → Type 0) → Dict A → Type 0
Every {A} P m = (k : Text) (v : A) → lookup k m ≡ some v → P k v

Every-insert :
    {A : Type 0} (P : Text → A → Type 0) (k : Text) (v : A) (m : Dict A)
    → Every P m
    → P k v
    → Every P (insert k v m)
Every-insert P k v m all new j w e = elim (Bool-cases (k == j)) [
  | inl same ↦
      let f : some v ≡ some w = rw (lookup-insert, same) at e in
      let g : v ≡ w = cc in rw (← (==_iff k j).0 same, ← g) new
  | inr other ↦ all j w (rw (lookup-insert, other) at e)
]

-- Each entry stands under its own id, and states and statuses are those that the model names.
pub record IsWellFormed {F : Type 0} (s : Store F) : Type 0 where
  pub orgs : Every (λ k v. v.id ≡ k) s.orgs
  pub projects : Every (λ k v. v.id ≡ k) s.projects
  pub branches : Every (λ k v. (v.id ≡ k) × IsBranchState v.state) s.branches
  pub endpoints : Every (λ k v. (v.id ≡ k) × IsEndpointState v.state) s.endpoints
  pub operations : Every (λ k v. (v.id ≡ k) × IsStatus v.status) s.operations

-- What a call has to bring: a new branch, endpoint or operation has a state that the model names.
abbrev pub IsProper : {F : Type 0} → Call F → Type 0
IsProper (puts (org t)) = Unit
IsProper (puts (project t)) = Unit
IsProper (puts (branch t)) = IsBranchState t.state
IsProper (puts (endpoint t)) = IsEndpointState t.state
IsProper (puts (operation t)) = IsStatus t.status
IsProper (adds_membership m) = Unit
IsProper (adds_metering e) = Unit
IsProper (stores_idemp key id) = Unit
IsProper (completes id result) = Unit
IsProper (fails id err) = Unit
IsProper (moves_branch o id to) = Unit
IsProper (moves_endpoint o id to) = Unit

abbrev pub AllProper : {F : Type 0} → List (Call F) → Type 0
AllProper [] = Unit
AllProper (c ∷ cs) = IsProper c × AllProper cs

BranchEdge-target : {from to : Text} → BranchState.Edge from to → IsBranchState to
BranchEdge-target (BranchState.Edge.finish e f) = inr (inl f)
BranchEdge-target (BranchState.Edge.abort e f) = inr (inr f)
BranchEdge-target (BranchState.Edge.delete e f) = inr (inr f)

EndpointEdge-target : {from to : Text} → EndpointState.Edge from to → IsEndpointState to
EndpointEdge-target (EndpointState.Edge.finish e f) = inr (inl f)
EndpointEdge-target (EndpointState.Edge.abort e f) = inr (inr (inr f))
EndpointEdge-target (EndpointState.Edge.suspend e f) = inr (inr (inl f))
EndpointEdge-target (EndpointState.Edge.wake e f) = inr (inl f)
EndpointEdge-target (EndpointState.Edge.delete_active e f) = inr (inr (inr f))
EndpointEdge-target (EndpointState.Edge.delete_suspended e f) = inr (inr (inr f))

module _ {F : Type 0} where
  abbrev with_operations : Store F → Dict Operation → Store F
  with_operations s m = record s { operations = m }

  set_operations :
      (s : Store F) (m : Dict Operation)
      → IsWellFormed s
      → Every (λ k v. (v.id ≡ k) × IsStatus v.status) m
      → IsWellFormed (with_operations s m)
  set_operations s m w h = record {
    orgs = w.orgs;
    projects = w.projects;
    branches = w.branches;
    endpoints = w.endpoints;
    operations = h;
  }

  put-IsWellFormed :
      (s : Store F) (v : Entity F) → IsProper (puts v) → IsWellFormed s → IsWellFormed (put s v)
  unfolding put
  put-IsWellFormed s (org t) h w = record {
    orgs = Every-insert _ t.id t _ w.orgs refl;
    projects = w.projects;
    branches = w.branches;
    endpoints = w.endpoints;
    operations = w.operations;
  }
  put-IsWellFormed s (project t) h w = record {
    orgs = w.orgs;
    projects = Every-insert _ t.id t _ w.projects refl;
    branches = w.branches;
    endpoints = w.endpoints;
    operations = w.operations;
  }
  put-IsWellFormed s (branch t) h w = record {
    orgs = w.orgs;
    projects = w.projects;
    branches = Every-insert _ t.id t _ w.branches (refl, h);
    endpoints = w.endpoints;
    operations = w.operations;
  }
  put-IsWellFormed s (endpoint t) h w = record {
    orgs = w.orgs;
    projects = w.projects;
    branches = w.branches;
    endpoints = Every-insert _ t.id t _ w.endpoints (refl, h);
    operations = w.operations;
  }
  put-IsWellFormed s (operation t) h w =
      set_operations s _ w (Every-insert _ t.id t _ w.operations (refl, h))

  finish-IsWellFormed :
      (s : Store F) (id : Text) (f : Operation → Operation)
      → ((p : Operation) → ((f p).id ≡ p.id) × IsStatus (f p).status)
      → IsWellFormed s
      → IsWellFormed (elim (lookup id s.operations) [
        | none ↦ s
        | some op ↦ record s { operations = insert id (f op) s.operations }
      ])
  finish-IsWellFormed s id f keep w = elim (Option-cases (lookup id s.operations)) [
    | inl e ↦ rw e w
    | inr (op, e) ↦ rw e (
        set_operations s _ w (
          Every-insert _ id (f op) _ w.operations
            (rw (keep op).0 (w.operations id op e).0, (keep op).1)))
  ]

  transition_branch-IsWellFormed :
      (s : Store F) (o id to : Text) → IsWellFormed s → IsWellFormed (transition_branch s o id to).0
  transition_branch-IsWellFormed s o id to w = elim (transition_branch_cases s o id to) [
    | inl (x, m, e) ↦ rw e (record {
      orgs = w.orgs;
      projects = w.projects;
      branches =
          Every-insert _ id (record x { state = to }) _ w.branches
            ((w.branches id x m.found).0, BranchEdge-target m.edge);
      endpoints = w.endpoints;
      operations = w.operations;
    })
    | inr (err, e, _) ↦ rw e w
  ]

  transition_endpoint-IsWellFormed :
      (s : Store F) (o id to : Text)
      → IsWellFormed s
      → IsWellFormed (transition_endpoint s o id to).0
  transition_endpoint-IsWellFormed s o id to w = elim (transition_endpoint_cases s o id to) [
    | inl (x, m, e) ↦ rw e (record {
      orgs = w.orgs;
      projects = w.projects;
      branches = w.branches;
      endpoints =
          Every-insert _ id (record x { state = to }) _ w.endpoints
            ((w.endpoints id x m.found).0, EndpointEdge-target m.edge);
      operations = w.operations;
    })
    | inr (err, e, _) ↦ rw e w
  ]

  pub step-IsWellFormed :
      (s : Store F) (c : Call F) → IsProper c → IsWellFormed s → IsWellFormed (step s c)
  unfolding step complete_op fail_op add_membership add_metering idemp_store
  step-IsWellFormed s (puts v) h w = put-IsWellFormed s v h w
  step-IsWellFormed s (adds_membership m) h w = search w
  step-IsWellFormed s (adds_metering e) h w = search w
  step-IsWellFormed s (stores_idemp key id) h w = elim (Bool-cases (key == [])) [
    | inl e ↦ rw e w
    | inr e ↦ rw e (search w)
  ]
  step-IsWellFormed s (completes id result) h w =
      finish-IsWellFormed s id _ (λ p. (refl, inr (inl refl))) w
  step-IsWellFormed s (fails id err) h w =
      finish-IsWellFormed s id _ (λ p. (refl, inr (inr refl))) w
  step-IsWellFormed s (moves_branch o id to) h w = transition_branch-IsWellFormed s o id to w
  step-IsWellFormed s (moves_endpoint o id to) h w = transition_endpoint-IsWellFormed s o id to w

  run_from-IsWellFormed :
      (s : Store F) (cs : List (Call F)) → AllProper cs → IsWellFormed s → IsWellFormed (run s cs)
  unfolding run
  run_from-IsWellFormed s [] h w = w
  run_from-IsWellFormed s (c ∷ cs) h w =
      run_from-IsWellFormed (step s c) cs h.1 (step-IsWellFormed s c h.0 w)

  new_store-IsWellFormed : IsWellFormed (new_store {F = F})
  unfolding new_store lookup
  new_store-IsWellFormed = record {
    orgs = λ k v e. cc;
    projects = λ k v e. cc;
    branches = λ k v e. absurd (cc);
    endpoints = λ k v e. absurd (cc);
    operations = λ k v e. absurd (cc);
  }

  -- After any calls on a new store, if each brings states that the model names: every org, project,
  -- branch, endpoint and operation stands under its own id, every branch and endpoint is in a state
  -- of its diagram, and every operation is running, succeeded or failed.
  pub run-IsWellFormed :
      (cs : List (Call F)) → AllProper cs → IsWellFormed (run (new_store {F = F}) cs)
  run-IsWellFormed cs h = run_from-IsWellFormed new_store cs h new_store-IsWellFormed
