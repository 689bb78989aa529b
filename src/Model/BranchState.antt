-- ===== src/Model/BranchState.antt =====
-- src/controlplane/model.go: the states of a branch and the table of its transitions.
use sovereign_core.Prelude.{Text, bytes, Dict, ◌≡◌, List, [], ◌∷◌}

abbrev pub creating : Text
creating = bytes "creating"

abbrev pub ready : Text
ready = bytes "ready"

abbrev pub deleted : Text
deleted = bytes "deleted"

unfoldable pub transitions : Dict (List Text)
transitions = (creating, ready ∷ deleted ∷ []) ∷ (ready, deleted ∷ []) ∷ (deleted, []) ∷ []

-- The diagram that the table is meant to be.
pub data Edge (from to : Text) : Type 0 where
  finish : from ≡ creating → to ≡ ready → Edge from to
  abort : from ≡ creating → to ≡ deleted → Edge from to
  delete : from ≡ ready → to ≡ deleted → Edge from to
