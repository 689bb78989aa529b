-- ===== src/Store/History.antt =====
-- src/controlplane/store.go: the life of one endpoint and of one branch over any calls.
use sovereign_core.Prelude.{
  Text, ◌==◌, ==_iff, lookup, lookup-insert, Bool-cases, ◌≡◌, refl, ◌∙◌, ◌≢◌, inl, inr, List, [],
  ◌∷◌, some, arith, ap,
}
use sovereign_core.Model.{Endpoint}
use sovereign_core.Model.EndpointState
use sovereign_core.Model.Transition.{Endpoint-deleted}
use sovereign_core.Store.{
  Store, org, project, branch, endpoint, operation, put, add_metering, add_membership, idemp_store,
  complete_op, fail_op, Call, puts, adds_membership, adds_metering, stores_idemp, completes, fails,
  moves_branch, moves_endpoint, transition_branch, transition_endpoint, step, run,
}
use sovereign_core.Store.Transitions.{transition_branch_cases, transition_endpoint_cases}

-- The endpoint keeps all its fields but the state, which went along edges of the diagram.
pub data Walk {F : Type 0} (e : Endpoint F) : Endpoint F → Type 0 where
  stay : Walk e e
  go :
      {f : Endpoint F} (to : Text)
      → Walk e f
      → EndpointState.Edge f.state to
      → Walk e (record f { state = to })

-- The call does not store another endpoint under the id.
abbrev pub SparesEndpoint : {F : Type 0} → Text → Call F → Type 0
SparesEndpoint id (puts (endpoint t)) = t.id ≢ id
SparesEndpoint id (puts (org t)) = Unit
SparesEndpoint id (puts (project t)) = Unit
SparesEndpoint id (puts (branch t)) = Unit
SparesEndpoint id (puts (operation t)) = Unit
SparesEndpoint id (adds_membership m) = Unit
SparesEndpoint id (adds_metering e) = Unit
SparesEndpoint id (stores_idemp k v) = Unit
SparesEndpoint id (completes k r) = Unit
SparesEndpoint id (fails k r) = Unit
SparesEndpoint id (moves_branch o k to) = Unit
SparesEndpoint id (moves_endpoint o k to) = Unit

abbrev pub AllSpareEndpoint : {F : Type 0} → Text → List (Call F) → Type 0
AllSpareEndpoint id [] = Unit
AllSpareEndpoint id (c ∷ cs) = SparesEndpoint id c × AllSpareEndpoint id cs

module _ {F : Type 0} (id : Text) (e : Endpoint F) where
  -- What stands under the id came from `e` along the diagram.
  abbrev Came : Store F → Type 0
  Came s = (f : Endpoint F) × (lookup id s.endpoints ≡ some f) × Walk e f

  transition_endpoint-Came :
      (s : Store F) (o k to : Text) → Came s → Came (transition_endpoint s o k to).0
  transition_endpoint-Came s o k to (f, found, walk) = elim (transition_endpoint_cases s o k to) [
    | inr (err, q, _) ↦ rw q (f, found, walk)
    | inl (x, m, q) ↦ elim (Bool-cases (k == id)) [
      | inr other ↦ rw q (f, rw (lookup-insert, other) found, walk)
      | inl same ↦
          let x_f : x ≡ f = cc ((==_iff k id).0 same, m.found, found) in
          rw q (
            record f { state = to },
            rw (lookup-insert, same, x_f) refl,
            Walk.go to walk (rw x_f at m.edge),
          )
    ]
  ]

  transition_branch-Came :
      (s : Store F) (o k to : Text) → Came s → Came (transition_branch s o k to).0
  transition_branch-Came s o k to (f, found, walk) = elim (transition_branch_cases s o k to) [
    | inl (x, m, q) ↦ rw q (f, found, walk)
    | inr (err, q, _) ↦ rw q (f, found, walk)
  ]

  step-Came : (s : Store F) (c : Call F) → SparesEndpoint id c → Came s → Came (step s c)
  unfolding step put add_metering add_membership idemp_store complete_op fail_op
  step-Came s (puts (endpoint t)) h (f, found, walk) =
      (f, ground (arith, lookup-insert t.id id t s.endpoints, ==_iff t.id id), walk)
  step-Came s (puts (org t)) h came = came
  step-Came s (puts (project t)) h came = came
  step-Came s (puts (branch t)) h came = came
  step-Came s (puts (operation t)) h came = came
  step-Came s (adds_membership m) h came = came
  step-Came s (adds_metering m) h came = came
  step-Came s (stores_idemp k v) h (f, found, walk) = (f, ground arith, walk)
  step-Came s (completes k r) h (f, found, walk) = (f, ground arith, walk)
  step-Came s (fails k r) h (f, found, walk) = (f, ground arith, walk)
  step-Came s (moves_branch o k to) h came = transition_branch-Came s o k to came
  step-Came s (moves_endpoint o k to) h came = transition_endpoint-Came s o k to came

  run-Came : (s : Store F) (cs : List (Call F)) → AllSpareEndpoint id cs → Came s → Came (run s cs)
  unfolding run
  run-Came s [] h came = came
  run-Came s (c ∷ cs) h came = run-Came (step s c) cs h.1 (step-Came s c h.0 came)

Walk-state : {F : Type 0} {e f : Endpoint F} → Walk e f → f ≡ record e { state = f.state }
Walk-state Walk.stay = refl
Walk-state {F} (Walk.go to w edge) = ap (λ (x : Endpoint F). record x { state = to }) (Walk-state w)

Walk-deleted : {F : Type 0} {e f : Endpoint F} → Walk e f → e.state ≡ EndpointState.deleted → f ≡ e
Walk-deleted Walk.stay gone = refl
Walk-deleted {F} (Walk.go to w edge) gone =
    absurd (Endpoint-deleted (ap (λ (x : Endpoint F). x.state) (Walk-deleted w gone) ∙ gone) edge)

-- Whatever calls follow, as long as none stores another endpoint under the id, a stored endpoint
-- stays stored and keeps its id, org, branch, autoscaling, timeout, URI and time of creation; its
-- state goes along edges of the diagram only.
pub run-Walk :
    {F : Type 0} (s : Store F) (cs : List (Call F)) (id : Text) (e : Endpoint F)
    → AllSpareEndpoint id cs
    → lookup id s.endpoints ≡ some e
    → (f : Endpoint F) × (lookup id (run s cs).endpoints ≡ some f)
      × Walk e f
      × (f ≡ record e { state = f.state })
run-Walk s cs id e h found =
    let (f, found', walk) = run-Came id e s cs h (e, found, Walk.stay) in
    (f, found', walk, Walk-state walk)

-- A deleted endpoint stays as it is: no calls wake it or change it, as long as none stores another
-- endpoint under the id.
pub deleted_absorbs :
    {F : Type 0} (s : Store F) (cs : List (Call F)) (id : Text) (e : Endpoint F)
    → AllSpareEndpoint id cs
    → lookup id s.endpoints ≡ some e
    → e.state ≡ EndpointState.deleted
    → lookup id (run s cs).endpoints ≡ some e
deleted_absorbs s cs id e h found gone =
    let (f, found', walk) = run-Came id e s cs h (e, found, Walk.stay) in
    found' ∙ ap some (Walk-deleted walk gone)
