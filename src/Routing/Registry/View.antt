-- ===== src/Routing/Registry/View.antt =====
-- src/controlplane/routing.go: the registry seen as a map from endpoint ids to backends. The
-- pointers do not show: each method is the method of that map.
use mathlib.Core.Option
use sovereign_core.Prelude.{
  ℕ, ◌<◌, Text, bytes, ◌==◌, ==_iff, lookup, lookup-insert, lookup-remove, if◌then◌else◌,
  Option-cases, length, length-append, get_elem?, ◌≡◌, refl, inl, inr, List, [], ◌∷◌, Option, none,
  some, arith,
}
use sovereign_core.Routing.Registry.{
  Backend, RoutingRegistry, update, register, set_state, deregister, new_registry,
}
use sovereign_core.Routing.Registry.Heap.{
  length-update, get_elem?-update, get_elem?-new, get_elem?-old,
}

abbrev deref : List Backend → Option ℕ → Option Backend
deref heap none = none
deref heap (some p) = get_elem? heap p

abbrev pub view : RoutingRegistry → Text → Option Backend
view r id = deref r.heap (lookup id r.tbl)

-- No pointer dangles, and no two ids share a backend.
pub record IsSound (r : RoutingRegistry) : Type 0 where
  pub bounded : (id : Text) (p : ℕ) → lookup id r.tbl ≡ some p → p < length r.heap
  pub unshared : (i j : Text) (p : ℕ) → lookup i r.tbl ≡ some p → lookup j r.tbl ≡ some p → i ≡ j

abbrev pub awake : Text → Backend
awake addr = record { addr = addr; state = bytes "active" }

abbrev pub with_state : Text → Backend → Backend
with_state st b = record b { state = st }

-- A write through the pointer of an id changes the backend of that id and no other.
pub write-view :
    (r : RoutingRegistry) (id j : Text) (p : ℕ) (f : Backend → Backend)
    → IsSound r
    → lookup id r.tbl ≡ some p
    → view (record r { heap = update r.heap p f }) j
      ≡ (if id == j then Option.map f (view r j) else view r j)
write-view r id j p f v e = elim (Option-cases (lookup j r.tbl)) [
  | inl absent ↦ ground (arith, ==_iff id j)
  | inr (q, found) ↦ ground (arith, ==_iff id j, get_elem?-update r.heap p q f, v.unshared id j p e)
]

pub write-IsSound :
    (r : RoutingRegistry) (p : ℕ) (f : Backend → Backend)
    → IsSound r
    → IsSound (record r { heap = update r.heap p f })
write-IsSound r p f v = record {
  bounded = λ id q e. rw (length-update r.heap p f) (v.bounded id q e);
  unshared = v.unshared;
}

pub register-IsSound :
    (r : RoutingRegistry) (id addr st : Text) → IsSound r → IsSound (register r id addr st)
unfolding register
register-IsSound r id addr st v = record {
  bounded = λ j q e. ground (
    arith,
    lookup-insert id j (length r.heap) r.tbl,
    v.bounded j q,
    length-append r.heap (record { addr = addr; state = st } ∷ []),
  );
  unshared = λ i j q e f. ground (
    arith,
    lookup-insert id i (length r.heap) r.tbl,
    lookup-insert id j (length r.heap) r.tbl,
    ==_iff id i,
    ==_iff id j,
    v.unshared i j q,
    v.bounded i q,
    v.bounded j q,
  );
}

pub deregister-IsSound : (r : RoutingRegistry) (id : Text) → IsSound r → IsSound (deregister r id)
unfolding deregister
deregister-IsSound r id v = record {
  bounded = λ j q e. ground (arith, lookup-remove id j r.tbl, v.bounded j q);
  unshared = λ i j q e f.
      ground (arith, lookup-remove id i r.tbl, lookup-remove id j r.tbl, v.unshared i j q);
}

register-view :
    (r : RoutingRegistry) (id addr st j : Text)
    → IsSound r
    → view (register r id addr st) j
      ≡ (if id == j then some (record { addr = addr; state = st }) else view r j)
unfolding register
register-view r id addr st j v = elim (Option-cases (lookup j r.tbl)) [
  | inl absent ↦ ground (
    arith,
    lookup-insert id j (length r.heap) r.tbl,
    get_elem?-new r.heap (record { addr = addr; state = st }),
  )
  | inr (q, found) ↦ ground (
    arith,
    lookup-insert id j (length r.heap) r.tbl,
    get_elem?-new r.heap (record { addr = addr; state = st }),
    get_elem?-old r.heap (record { addr = addr; state = st }) q (v.bounded j q found),
  )
]

deregister-view :
    (r : RoutingRegistry) (id j : Text)
    → view (deregister r id) j ≡ (if id == j then none else view r j)
unfolding deregister
deregister-view r id j = ground (arith, lookup-remove id j r.tbl)

set_state-view :
    (r : RoutingRegistry) (id st j : Text)
    → IsSound r
    → view (set_state r id st) j
      ≡ (if id == j then Option.map (with_state st) (view r j) else view r j)
unfolding set_state
set_state-view r id st j v = elim (Option-cases (lookup id r.tbl)) [
  | inl absent ↦ ground (arith, ==_iff id j)
  | inr (p, found) ↦ rw (found, set_state) (write-view r id j p (with_state st) v found)
]

pub set_state-IsSound :
    (r : RoutingRegistry) (id st : Text) → IsSound r → IsSound (set_state r id st)
unfolding set_state
set_state-IsSound r id st v = elim (Option-cases (lookup id r.tbl)) [
  | inl absent ↦ rw (absent, set_state) v
  | inr (p, found) ↦ rw (found, set_state) (write-IsSound r p (with_state st) v)
]

pub new_registry-IsSound : IsSound new_registry
unfolding new_registry lookup
new_registry-IsSound = record {
  bounded = λ id p e. absurd (cc);
  unshared = λ i j p e f. absurd (cc);
}

-- On a sound registry, Register, SetState and Deregister are the operations of a map from endpoint
-- ids to backends: Register sets the entry of its id, SetState changes the state of the entry of
-- its id if there is one, Deregister drops it, and no other entry changes. Each keeps the registry
-- sound, and the new registry is sound and empty.
pub registry_refines_map :
    (r : RoutingRegistry) (id addr st j : Text)
    → IsSound r
    → (IsSound (register r id addr st)
        × (view (register r id addr st) j
            ≡ (if id == j then some (record { addr = addr; state = st }) else view r j)))
      × (IsSound (set_state r id st)
          × (view (set_state r id st) j
              ≡ (if id == j then Option.map (with_state st) (view r j) else view r j)))
      × (IsSound (deregister r id)
          × (view (deregister r id) j ≡ (if id == j then none else view r j)))
      × (IsSound new_registry × (view new_registry j ≡ none))
unfolding new_registry lookup
registry_refines_map r id addr st j v = (
  (register-IsSound r id addr st v, register-view r id addr st j v),
  (set_state-IsSound r id st v, set_state-view r id st j v),
  (deregister-IsSound r id v, deregister-view r id j),
  (new_registry-IsSound, refl),
)
