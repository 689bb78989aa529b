-- ===== src/Model/EndpointState.antt =====
-- src/controlplane/model.go: the states of an endpoint and the table of its transitions.
use sovereign_core.Prelude.{Text, bytes, Dict, ◌≡◌, List, [], ◌∷◌}

abbrev pub creating : Text
creating = bytes "creating"

abbrev pub active : Text
active = bytes "active"

abbrev pub suspended : Text
suspended = bytes "suspended"

abbrev pub deleted : Text
deleted = bytes "deleted"

unfoldable pub transitions : Dict (List Text)
transitions =
    (creating, active ∷ deleted ∷ [])
    ∷ (active, suspended ∷ deleted ∷ [])
    ∷ (suspended, active ∷ deleted ∷ [])
    ∷ (deleted, [])
    ∷ []

-- The diagram that the table is meant to be.
pub data Edge (from to : Text) : Type 0 where
  finish : from ≡ creating → to ≡ active → Edge from to
  abort : from ≡ creating → to ≡ deleted → Edge from to
  suspend : from ≡ active → to ≡ suspended → Edge from to
  wake : from ≡ suspended → to ≡ active → Edge from to
  delete_active : from ≡ active → to ≡ deleted → Edge from to
  delete_suspended : from ≡ suspended → to ≡ deleted → Edge from to
