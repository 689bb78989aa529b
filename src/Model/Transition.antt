-- ===== src/Model/Transition.antt =====
-- src/controlplane/model.go: canTransition, against the diagrams of the two tables.
use sovereign_core.Prelude.{
  Text, bytes, ◌==◌, ==_iff, Dict, lookup, if◌then◌else◌, ◌≡◌, ◌↔◌, List, [], ◌∷◌, ◌++◌, Option,
  none, some, arith,
}
use sovereign_core.Model.BranchState
use sovereign_core.Model.EndpointState

-- table[from], which is nil for a state that is no key.
abbrev targets : Dict (List Text) → Text → List Text
targets table from = elim (lookup from table) [ none ↦ [] | some l ↦ l ]

scan : Text → List Text → Text → Option Text
scan from [] to = some (bytes "forbidden transition " ++ from ++ bytes " -> " ++ to)
scan from (allowed ∷ rest) to = if allowed == to then none else scan from rest to

-- An error is its text; `none` is nil.
unfoldable pub can_transition : Dict (List Text) → Text → Text → Option Text
unfolding scan
can_transition table from to = scan from (targets table from) to

module _ (from to : Text) where
  Branch-sound : can_transition BranchState.transitions from to ≡ none → BranchState.Edge from to
  unfolding can_transition BranchState.transitions lookup
  Branch-sound h = grind (
    arith,
    ==_iff BranchState.creating from,
    ==_iff BranchState.ready from,
    ==_iff BranchState.ready to,
    ==_iff BranchState.deleted to,
    BranchState.Edge.finish,
    BranchState.Edge.abort,
    BranchState.Edge.delete,
  )

  Branch-complete : BranchState.Edge from to → can_transition BranchState.transitions from to ≡ none
  unfolding can_transition BranchState.transitions lookup ◌==◌ bytes
  Branch-complete (BranchState.Edge.finish e f) = rw (e, f)
  Branch-complete (BranchState.Edge.abort e f) = rw (e, f)
  Branch-complete (BranchState.Edge.delete e f) = rw (e, f)

  Endpoint-sound :
      can_transition EndpointState.transitions from to ≡ none → EndpointState.Edge from to
  unfolding can_transition EndpointState.transitions lookup
  Endpoint-sound h = grind (
    arith,
    ==_iff EndpointState.creating from,
    ==_iff EndpointState.active from,
    ==_iff EndpointState.suspended from,
    ==_iff EndpointState.active to,
    ==_iff EndpointState.suspended to,
    ==_iff EndpointState.deleted to,
    EndpointState.Edge.finish,
    EndpointState.Edge.abort,
    EndpointState.Edge.suspend,
    EndpointState.Edge.wake,
    EndpointState.Edge.delete_active,
    EndpointState.Edge.delete_suspended,
  )

  Endpoint-complete :
      EndpointState.Edge from to → can_transition EndpointState.transitions from to ≡ none
  unfolding can_transition EndpointState.transitions lookup ◌==◌ bytes
  Endpoint-complete (EndpointState.Edge.finish e f) = rw (e, f)
  Endpoint-complete (EndpointState.Edge.abort e f) = rw (e, f)
  Endpoint-complete (EndpointState.Edge.suspend e f) = rw (e, f)
  Endpoint-complete (EndpointState.Edge.wake e f) = rw (e, f)
  Endpoint-complete (EndpointState.Edge.delete_active e f) = rw (e, f)
  Endpoint-complete (EndpointState.Edge.delete_suspended e f) = rw (e, f)

-- For any two texts, canTransition allows a branch transition exactly when it is an edge of the
-- diagram: creating to ready or deleted, ready to deleted.
pub can_transition-Branch :
    (from to : Text)
    → (can_transition BranchState.transitions from to ≡ none) ↔ BranchState.Edge from to
can_transition-Branch from to = (Branch-sound from to, Branch-complete from to)

-- For any two texts, canTransition allows an endpoint transition exactly when it is an edge of the
-- diagram: creating to active or deleted, active to suspended or deleted, suspended to active or
-- deleted.
pub can_transition-Endpoint :
    (from to : Text)
    → (can_transition EndpointState.transitions from to ≡ none) ↔ EndpointState.Edge from to
can_transition-Endpoint from to = (Endpoint-sound from to, Endpoint-complete from to)

pub Endpoint-deleted :
    {from to : Text} → from ≡ EndpointState.deleted → ¬ EndpointState.Edge from to
unfolding bytes
Endpoint-deleted h (EndpointState.Edge.finish e f) = ground arith
Endpoint-deleted h (EndpointState.Edge.abort e f) = ground arith
Endpoint-deleted h (EndpointState.Edge.suspend e f) = ground arith
Endpoint-deleted h (EndpointState.Edge.wake e f) = ground arith
Endpoint-deleted h (EndpointState.Edge.delete_active e f) = ground arith
Endpoint-deleted h (EndpointState.Edge.delete_suspended e f) = ground arith
