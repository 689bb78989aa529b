-- ===== src/App/Completion.antt =====
-- src/controlplane/app.go: what the goroutines do to their operations and to the store, however they
-- are interleaved.
use sovereign_core.Prelude.{
  Text, Dict, bytes, ◌==◌, ==_iff, lookup, insert, lookup-insert, Bool-cases, Option-cases, ◌≡◌,
  refl, ◌≢◌, ◌⊎◌, inl, inr, [], none, some, arith, if◌then◌else◌,
}
use sovereign_core.Model.{Operation, Value}
use sovereign_core.Store.{
  Store, org, project, branch, endpoint, operation, put, add_metering, add_membership, idemp_store,
  complete_op, fail_op, Call, puts, adds_membership, adds_metering, stores_idemp, completes, fails,
  moves_branch, moves_endpoint, transition_branch, transition_endpoint, step,
}
use sovereign_core.Store.Transitions.{transition_branch_cases, transition_endpoint_cases}

-- An operation is stored under the id, and P holds of it.
abbrev pub StoredAs : {F : Type 0} → (Operation → Type 0) → Text → Store F → Type 0
StoredAs P op s = (q : Operation) × (lookup op s.operations ≡ some q) × P q

abbrev pub Stored : {F : Type 0} → Text → Store F → Type 0
Stored = StoredAs (λ q. Unit)

-- It is over.
abbrev pub IsOver : Operation → Type 0
IsOver q = (q.status ≡ bytes "succeeded") ⊎ (q.status ≡ bytes "failed")

abbrev pub Settled : {F : Type 0} → Text → Store F → Type 0
Settled = StoredAs IsOver

abbrev pub succeeded : Operation → Dict Value → Operation
succeeded q result = record q { status = bytes "succeeded"; result = some result }

abbrev pub failed : Operation → Text → Operation
failed q e = record q { status = bytes "failed"; error = e }

-- The call starts no operation.
abbrev pub StartsNone : {F : Type 0} → Call F → Type 0
StartsNone (puts (operation t)) = ⊥
StartsNone (puts (org t)) = Unit
StartsNone (puts (project t)) = Unit
StartsNone (puts (branch t)) = Unit
StartsNone (puts (endpoint t)) = Unit
StartsNone (adds_membership m) = Unit
StartsNone (adds_metering e) = Unit
StartsNone (stores_idemp k v) = Unit
StartsNone (completes k r) = Unit
StartsNone (fails k r) = Unit
StartsNone (moves_branch o k to) = Unit
StartsNone (moves_endpoint o k to) = Unit

abbrev operations_of : {F : Type 0} → Store F → Dict Operation
operations_of s = s.operations

module _ {F : Type 0} (s : Store F) where
  transition_branch-operations :
      (o k to : Text) → (transition_branch s o k to).0.operations ≡ s.operations
  transition_branch-operations o k to = elim (transition_branch_cases s o k to) [
    | inl (x, m, q) ↦ rw q
    | inr (x, q, n) ↦ rw q
  ]

  transition_endpoint-operations :
      (o k to : Text) → (transition_endpoint s o k to).0.operations ≡ s.operations
  transition_endpoint-operations o k to = elim (transition_endpoint_cases s o k to) [
    | inl (x, m, q) ↦ rw q
    | inr (x, q, n) ↦ rw q
  ]

  -- The end of the operation k, seen at the operation op.
  lookup-finish :
      (op k : Text) (f : Operation → Operation) (q : Operation)
      → lookup op s.operations ≡ some q
      → lookup op (
          operations_of (elim (lookup k s.operations) [
            | none ↦ s
            | some x ↦ record s { operations = insert k (f x) s.operations }
          ]))
        ≡ some (if k == op then f q else q)
  lookup-finish op k f q e = elim (Option-cases (lookup k s.operations)) [
    | inl absent ↦ ground (arith, ==_iff k op)
    | inr (x, found) ↦ ground (arith, ==_iff k op, lookup-insert k op (f x) s.operations)
  ]

  finish-StoredAs :
      (P Q : Operation → Type 0) (op k : Text) (f : Operation → Operation)
      → ((q : Operation) → P q → Q (f q))
      → (k ≢ op → (q : Operation) → P q → Q q)
      → StoredAs P op s
      → StoredAs Q op (elim (lookup k s.operations) [
        | none ↦ s
        | some x ↦ record s { operations = insert k (f x) s.operations }
      ])
  finish-StoredAs P Q op k f own other (q, e, h) = (
    (if k == op then f q else q),
    lookup-finish op k f q e,
    elim (Bool-cases (k == op)) [
      | inl same ↦ rw same (own q h)
      | inr different ↦ rw different (other (λ same. ground (arith, ==_iff k op)) q h)
    ],
  )

  -- What the end of an operation keeps is kept by every call that starts none.
  pub step-StoredAs :
      (P : Operation → Type 0)
      → ((q : Operation) (r : Dict Value) → P q → P (succeeded q r))
      → ((q : Operation) (e : Text) → P q → P (failed q e))
      → (op : Text) (c : Call F) → StartsNone c
      → StoredAs P op s
      → StoredAs P op (step s c)
  unfolding step put add_metering add_membership idemp_store complete_op fail_op
  step-StoredAs P yes_p no_p op (puts (operation t)) h p = absurd h
  step-StoredAs P yes_p no_p op (puts (org t)) h p = p
  step-StoredAs P yes_p no_p op (puts (project t)) h p = p
  step-StoredAs P yes_p no_p op (puts (branch t)) h p = p
  step-StoredAs P yes_p no_p op (puts (endpoint t)) h p = p
  step-StoredAs P yes_p no_p op (adds_membership m) h p = p
  step-StoredAs P yes_p no_p op (adds_metering e) h p = p
  step-StoredAs P yes_p no_p op (stores_idemp k v) h p = elim (Bool-cases (k == [])) [
    | inl e ↦ rw e p
    | inr e ↦ rw e p
  ]
  step-StoredAs P yes_p no_p op (completes k r) h (q, e, p) =
      finish-StoredAs P P op k (λ x. succeeded x r) (λ x. yes_p x r) (λ n x h. h) (q, e, p)
  step-StoredAs P yes_p no_p op (fails k r) h (q, e, p) =
      finish-StoredAs P P op k (λ x. failed x r) (λ x. no_p x r) (λ n x h. h) (q, e, p)
  step-StoredAs P yes_p no_p op (moves_branch o k to) h p =
      rw (transition_branch-operations o k to) p
  step-StoredAs P yes_p no_p op (moves_endpoint o k to) h p =
      rw (transition_endpoint-operations o k to) p

  pub step-Settled : (op : Text) (c : Call F) → StartsNone c → Settled op s → Settled op (step s c)
  step-Settled = step-StoredAs IsOver (λ q r p. inl refl) (λ q e p. inr refl)

  pub step-Stored : (op : Text) (c : Call F) → StartsNone c → Stored op s → Stored op (step s c)
  step-Stored = step-StoredAs (λ q. Unit) (λ q r p. tt) (λ q e p. tt)

  -- completeOp and failOp settle a stored operation.
  pub completes-Settled :
      (op : Text) (r : Dict Value) → Stored op s → Settled op (step s (completes op r))
  unfolding step complete_op
  completes-Settled op r =
      finish-StoredAs (λ q. Unit) IsOver op op (λ x. succeeded x r) (λ x u. inl refl)
        (λ n. absurd (n refl))

  pub fails-Settled : (op e : Text) → Stored op s → Settled op (step s (fails op e))
  unfolding step fail_op
  fails-Settled op e =
      finish-StoredAs (λ q. Unit) IsOver op op (λ x. failed x e) (λ x u. inr refl)
        (λ n. absurd (n refl))
