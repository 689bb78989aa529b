-- ===== src/Store/Operations.antt =====
-- src/controlplane/store.go: the end of an operation, and the table of idempotency keys.
use mathlib.Core.Option
use sovereign_core.Prelude.{
  Text, bytes, ◌==◌, ==_iff, Dict, lookup, insert, lookup-insert, if◌then◌else◌, Option-cases, ◌≡◌,
  refl, not, ◌&&◌, inl, inr, [], none, some, arith,
}
use sovereign_core.Model.{Value, Operation}
use sovereign_core.Store.{Store, complete_op, fail_op, op_snapshot, idemp_lookup, idemp_store}

abbrev pub succeeded : Dict Value → Operation → Operation
succeeded result op = record op { status = bytes "succeeded"; result = some result }

abbrev pub failed : Text → Operation → Operation
failed err op = record op { status = bytes "failed"; error = err }

finish :
    {F : Type 0} (s : Store F) (f : Operation → Operation) (id o j : Text)
    → ((op : Operation) → (f op).org_id ≡ op.org_id)
    → op_snapshot
        (elim (lookup id s.operations) [
          | none ↦ s
          | some op ↦ record s { operations = insert id (f op) s.operations }
        ])
        o
        j
      ≡ (if id == j then Option.map f (op_snapshot s o j) else op_snapshot s o j)
unfolding op_snapshot
finish s f id o j keep = elim (Option-cases (lookup id s.operations)) [
  | inl e ↦ ground (arith, ==_iff id j)
  | inr (op, e) ↦ ground (arith, ==_iff id j, keep op, lookup-insert id j (f op) s.operations)
]

-- After completeOp or failOp, a snapshot shows the same operation to the same org, with the new
-- status and the result or the error if it has the id, and as it was if it has another id. An id
-- that is not stored stays so.
pub op_snapshot-finish :
    {F : Type 0} (s : Store F) (id : Text) (result : Dict Value) (err o j : Text)
    → (op_snapshot (complete_op s id result) o j ≡ (
        if id == j then Option.map (succeeded result) (op_snapshot s o j) else op_snapshot s o j))
      × (op_snapshot (fail_op s id err) o j
          ≡ (if id == j then Option.map (failed err) (op_snapshot s o j) else op_snapshot s o j))
unfolding complete_op fail_op
op_snapshot-finish s id result err o j =
    (finish s (succeeded result) id o j (λ op. refl), finish s (failed err) id o j (λ op. refl))

-- After idempStore with a key that is not empty, idempLookup finds the id under that key and what
-- it found before under any other; with the empty key nothing changes, and the empty key finds
-- nothing.
pub idemp_lookup-store :
    {F : Type 0} (s : Store F) (key id j : Text)
    → (idemp_lookup (idemp_store s key id) j
        ≡ (if not (key == []) && key == j then some id else idemp_lookup s j))
      × (idemp_lookup (idemp_store s key id) [] ≡ none)
unfolding idemp_lookup idemp_store
idemp_lookup-store s key id j = (
  ground (arith, ==_iff key [], ==_iff j [], ==_iff key j, lookup-insert key j id s.idemp),
  ground (arith, ==_iff [] []),
)
