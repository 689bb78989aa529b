-- ===== src/Routing/Registry/Race.antt =====
-- src/controlplane/routing.go: Resolve holds a pointer while it wakes, with no lock. Other calls may
-- come in between, and then it writes.
use sovereign_core.Prelude.{
  ℕ, ◌<◌, Text, ◌==◌, ==_iff, lookup, lookup-insert, lookup-remove, if◌then◌else◌, Bool-cases,
  Option-cases, length, length-append, eqb, ◌≡◌, ◌≢◌, ◌⊎◌, inl, inr, List, [], ◌∷◌, some, arith,
}
use sovereign_core.Routing.Registry.{
  Backend, RoutingRegistry, register, set_state, deregister, write_awake, Call, registers,
  sets_state, deregisters, writes_awake,
}
use sovereign_core.Routing.Registry.Heap.{length-update, get_elem?-update, get_elem?-lt}
use sovereign_core.Routing.Registry.View.{view, IsSound, awake}

abbrev pub step : RoutingRegistry → Call → RoutingRegistry
step r (registers id addr state) = register r id addr state
step r (sets_state id state) = set_state r id state
step r (deregisters id) = deregister r id
step r (writes_awake p addr) = write_awake r p addr

pub run : RoutingRegistry → List Call → RoutingRegistry
run r [] = r
run r (c ∷ cs) = run (step r c) cs

-- The pointer that Resolve holds: if any id has it, then this one.
record Holds (r : RoutingRegistry) (id : Text) (p : ℕ) : Type 0 where
  allocated : p < length r.heap
  mine : (j : Text) → lookup j r.tbl ≡ some p → j ≡ id

set_state-Holds :
    (r : RoutingRegistry) (id j st : Text) (p : ℕ) → Holds r id p → Holds (set_state r j st) id p
unfolding set_state
set_state-Holds r id j st p h = elim (Option-cases (lookup j r.tbl)) [
  | inl absent ↦ rw (absent, set_state) h
  | inr (q, found) ↦
      rw (found, set_state)
        (record {
          allocated =
              rw (length-update r.heap q (λ (b : Backend). record b { state = st })) h.allocated;
          mine = h.mine;
        })
]

step-Holds :
    (r : RoutingRegistry) (c : Call) (id : Text) (p : ℕ) → Holds r id p → Holds (step r c) id p
unfolding register deregister write_awake
step-Holds r (registers i addr st) id p h = record {
  allocated =
      omega (arith, h.allocated, length-append r.heap (record { addr = addr; state = st } ∷ []));
  mine = λ j e. ground (arith, lookup-insert i j (length r.heap) r.tbl, h.allocated, h.mine j);
}
step-Holds r (sets_state i st) id p h = set_state-Holds r id i st p h
step-Holds r (deregisters i) id p h = record {
  allocated = h.allocated;
  mine = λ j e. ground (arith, lookup-remove i j r.tbl, h.mine j);
}
step-Holds r (writes_awake q addr) id p h = record {
  allocated = rw (length-update r.heap q (λ (b : Backend). awake addr)) h.allocated;
  mine = h.mine;
}

run-Holds :
    (r : RoutingRegistry) (cs : List Call) (id : Text) (p : ℕ)
    → Holds r id p
    → Holds (run r cs) id p
unfolding run
run-Holds r [] id p h = h
run-Holds r (c ∷ cs) id p h = run-Holds (step r c) cs id p (step-Holds r c id p h)

module _ (r : RoutingRegistry) (id : Text) (p : ℕ) (addr : Text) (h : Holds r id p) where
  write_current : lookup id r.tbl ≡ some p → view (write_awake r p addr) id ≡ some (awake addr)
  unfolding write_awake
  write_current e =
      let (b, at) = get_elem?-lt r.heap p h.allocated in
      ground (arith, get_elem?-update r.heap p p (λ (x : Backend). awake addr))

  write_elsewhere : (j : Text) → lookup j r.tbl ≢ some p → view (write_awake r p addr) j ≡ view r j
  unfolding write_awake
  write_elsewhere j n = elim (Option-cases (lookup j r.tbl)) [
    | inl absent ↦ rw absent
    | inr (q, found) ↦ ground (arith, get_elem?-update r.heap p q (λ (x : Backend). awake addr))
  ]

  write_one :
      lookup id r.tbl ≡ some p
      → (j : Text)
      → view (write_awake r p addr) j ≡ (if id == j then some (awake addr) else view r j)
  write_one e j = elim (Bool-cases (id == j)) [
    | inl same ↦ rw same (rw ((==_iff id j).0 same) at (write_current e))
    | inr other ↦ rw other (write_elsewhere j λ f. ground (arith, ==_iff id j, h.mine j f))
  ]

points_to :
    (r : RoutingRegistry) (id : Text) (p : ℕ)
    → (lookup id r.tbl ≡ some p) ⊎ (lookup id r.tbl ≢ some p)
points_to r id p = elim (Option-cases (lookup id r.tbl)) [
  | inl absent ↦ inr (λ e. cc (absent, e))
  | inr (q, found) ↦ elim (Bool-cases (eqb q p)) [
    | inl same ↦ inl (ground arith)
    | inr other ↦ inr (λ e. ground arith)
  ]
]

-- Any calls of Register, SetState and Deregister, and writes of other Resolves, may come between the
-- lookup of Resolve on a sound registry and its write. If the id still has the pointer, its entry
-- becomes the new address, active, and no other changes. If it was deregistered or registered anew
-- meanwhile, the late write changes no entry: it neither brings the old endpoint back nor spoils the
-- new one.
pub resolve_race :
    (r : RoutingRegistry) (id : Text) (p : ℕ) (addr : Text) (cs : List Call)
    → IsSound r
    → lookup id r.tbl ≡ some p
    → let now = run r cs in
      let after = write_awake now p addr in
      ((lookup id now.tbl ≡ some p)
        × ((j : Text) → view after j ≡ (if id == j then some (awake addr) else view now j)))
      ⊎ ((lookup id now.tbl ≢ some p) × ((j : Text) → view after j ≡ view now j))
resolve_race r id p addr cs v e =
    let h =
      run-Holds r cs id p
        (record { allocated = v.bounded id p e; mine = λ j f. v.unshared j id p f e }) in
    elim (points_to (run r cs) id p) [
      | inl same ↦ inl (same, write_one (run r cs) id p addr h same)
      | inr gone ↦
          inr (gone, λ j. write_elsewhere (run r cs) id p addr h j λ f. gone (rw (h.mine j f) at f))
    ]
