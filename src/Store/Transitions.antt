-- ===== src/Store/Transitions.antt =====
-- src/controlplane/store.go: transitionBranch and transitionEndpoint, on every branch.
use sovereign_core.Prelude.{
  Text, ◌==◌, ==_iff, lookup, insert, bytes, Option-cases, Bool-cases, ◌≡◌, ◌⊎◌, inl, inr, none,
  some, arith,
}
use sovereign_core.Model.{Branch, Endpoint}
use sovereign_core.Model.BranchState
use sovereign_core.Model.EndpointState
use sovereign_core.Model.Transition.{can_transition, can_transition-Branch, can_transition-Endpoint}
use sovereign_core.Store.{Store, transition_branch, transition_endpoint}

-- What allows the transition of a branch: it is stored, of the org, and the diagram has the edge.
pub record MayMoveBranch {F : Type 0} (s : Store F) (o id to : Text) (b : Branch) : Type 0 where
  pub found : lookup id s.branches ≡ some b
  pub own : b.org_id ≡ o
  pub edge : BranchState.Edge b.state to

pub record MayMoveEndpoint {F : Type 0} (s : Store F) (o id to : Text) (e : Endpoint F)
    : Type 0 where
  pub found : lookup id s.endpoints ≡ some e
  pub own : e.org_id ≡ o
  pub edge : EndpointState.Edge e.state to

module _ {F : Type 0} (s : Store F) (o id to : Text) where
  -- transitionBranch succeeds exactly when the branch is stored under the id, belongs to the org
  -- and the diagram of branches has the edge; then it writes the state of that branch and nothing
  -- else. In all other cases it returns an error and changes nothing.
  pub transition_branch_cases :
      ((b : Branch) × MayMoveBranch s o id to b
        × (transition_branch s o id to
            ≡ (record s { branches = insert id (record b { state = to }) s.branches }, none)))
      ⊎ ((err : Text) × (transition_branch s o id to ≡ (s, some err))
          × ((b : Branch) → ¬ MayMoveBranch s o id to b))
  unfolding transition_branch
  transition_branch_cases = elim (Option-cases (lookup id s.branches)) [
    | inl e ↦ inr (bytes "branch not found", ground arith, λ b m. cc (e, m.found))
    | inr (b, e) ↦ elim (Bool-cases (b.org_id == o)) [
      | inr foreign ↦
          inr (bytes "branch not found", ground arith, λ x m. ground (arith, ==_iff b.org_id o))
      | inl own ↦ elim (Option-cases (can_transition BranchState.transitions b.state to)) [
        | inl allowed ↦ inl (
          b,
          record {
            found = e;
            own = (==_iff b.org_id o).0 own;
            edge = (can_transition-Branch b.state to).0 allowed;
          },
          ground arith,
        )
        | inr (err, refused) ↦
            inr (err, ground arith, λ x m. ground (arith, can_transition-Branch x.state to))
      ]
    ]
  ]

  -- transitionEndpoint succeeds exactly when the endpoint is stored under the id, belongs to the
  -- org and the diagram of endpoints has the edge; then it writes the state of that endpoint and
  -- nothing else. In all other cases it returns an error and changes nothing.
  pub transition_endpoint_cases :
      ((e : Endpoint F) × MayMoveEndpoint s o id to e
        × (transition_endpoint s o id to
            ≡ (record s { endpoints = insert id (record e { state = to }) s.endpoints }, none)))
      ⊎ ((err : Text) × (transition_endpoint s o id to ≡ (s, some err))
          × ((e : Endpoint F) → ¬ MayMoveEndpoint s o id to e))
  unfolding transition_endpoint
  transition_endpoint_cases = elim (Option-cases (lookup id s.endpoints)) [
    | inl e ↦ inr (bytes "endpoint not found", ground arith, λ y m. cc (e, m.found))
    | inr (x, e) ↦ elim (Bool-cases (x.org_id == o)) [
      | inr foreign ↦
          inr (bytes "endpoint not found", ground arith, λ y m. ground (arith, ==_iff x.org_id o))
      | inl own ↦ elim (Option-cases (can_transition EndpointState.transitions x.state to)) [
        | inl allowed ↦ inl (
          x,
          record {
            found = e;
            own = (==_iff x.org_id o).0 own;
            edge = (can_transition-Endpoint x.state to).0 allowed;
          },
          ground arith,
        )
        | inr (err, refused) ↦
            inr (err, ground arith, λ y m. ground (arith, can_transition-Endpoint y.state to))
      ]
    ]
  ]

  pub transition_endpoint_allowed :
      (e : Endpoint F)
      → MayMoveEndpoint s o id to e
      → transition_endpoint s o id to
        ≡ (record s { endpoints = insert id (record e { state = to }) s.endpoints }, none)
  transition_endpoint_allowed e may = elim (transition_endpoint_cases) [
    | inl (x, m, q) ↦ let same : x ≡ e = cc (m.found, may.found) in rw (q, same)
    | inr (x, q, never) ↦ absurd (never e may)
  ]
