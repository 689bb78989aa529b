-- ===== src/Store/Tenancy.antt =====
-- src/controlplane/store.go: the tenant boundary. A read answers its own org only, and what is done
-- for one org is not seen by another.
mod Views
pub use Views.{SameView, SameView-refl, SameView-trans}
use Views.{
  owned-insert, add_metering-SameView, same_but_projects, same_but_branches, same_but_endpoints,
  same_but_operations, same_but_hidden,
}
use sovereign_core.Prelude.{
  Text, ◌==◌, ==_iff, Dict, lookup, insert, lookup-insert, Float64, Option-cases, Bool-cases, ◌≡◌,
  refl, sym, ◌∙◌, ◌≢◌, ◌↔◌, inl, inr, List, [], ◌∷◌, ◌++◌, Option, none, some, arith,
}
use sovereign_core.Model.{Org, Membership, Project, Branch, Endpoint, Operation, MeteringEvent}
use sovereign_core.Store.Transitions.{transition_branch_cases, transition_endpoint_cases}
use sovereign_core.Store.{
  Store, Entity, org, project, branch, endpoint, operation, owned, get_project, get_branch,
  get_endpoint, op_snapshot, rollup, usage_rollup, transition_branch, transition_endpoint,
  complete_op, fail_op, put, idemp_store, add_metering, add_membership, step, Call, puts,
  adds_membership, adds_metering, stores_idemp, completes, fails, moves_branch, moves_endpoint,
}

owned_iff :
    {A : Type 0} (f : A → Text) (o : Text) (found : Option A) (a : A)
    → (owned f o found ≡ some a) ↔ ((found ≡ some a) × (f a ≡ o))
owned_iff f o none a = (λ h. cc, λ h. cc)
owned_iff f o (some x) a =
    (λ h. ground (arith, ==_iff (f x) o), λ h. ground (arith, ==_iff (f x) o))

-- A read by org and id answers v exactly when v is stored under the id and belongs to the org; this
-- is so for projects, branches, endpoints and operations.
pub reads_own_org :
    {F : Type 0} (s : Store F) (o id : Text)
    → ((p : Project)
        → (get_project s o id ≡ some p) ↔ ((lookup id s.projects ≡ some p) × (p.org_id ≡ o)))
      × ((b : Branch)
          → (get_branch s o id ≡ some b) ↔ ((lookup id s.branches ≡ some b) × (b.org_id ≡ o)))
      × ((e : Endpoint F)
          → (get_endpoint s o id ≡ some e) ↔ ((lookup id s.endpoints ≡ some e) × (e.org_id ≡ o)))
      × ((p : Operation)
          → (op_snapshot s o id ≡ some p) ↔ ((lookup id s.operations ≡ some p) × (p.org_id ≡ o)))
unfolding get_project get_branch get_endpoint op_snapshot
reads_own_org s o id = (owned_iff _ o _, owned_iff _ o _, owned_iff _ o _, owned_iff _ o _)

-- The call brings nothing of the org, and touches nothing that the org reads.
abbrev pub Spares : {F : Type 0} → Store F → Text → Call F → Type 0
Spares s b (puts (org t)) = Unit
Spares s b (puts (project t)) = (t.org_id ≢ b) × (get_project s b t.id ≡ none)
Spares s b (puts (branch t)) = (t.org_id ≢ b) × (get_branch s b t.id ≡ none)
Spares s b (puts (endpoint t)) = (t.org_id ≢ b) × (get_endpoint s b t.id ≡ none)
Spares s b (puts (operation t)) = (t.org_id ≢ b) × (op_snapshot s b t.id ≡ none)
Spares s b (adds_membership m) = Unit
Spares s b (adds_metering e) = e.org_id ≢ b
Spares s b (stores_idemp key id) = Unit
Spares s b (completes id result) = op_snapshot s b id ≡ none
Spares s b (fails id err) = op_snapshot s b id ≡ none
Spares s b (moves_branch o id to) = o ≢ b
Spares s b (moves_endpoint o id to) = o ≢ b

module _ {F : Type 0} ⦃float : Float64 F⦄ (s : Store F) (b : Text) where
  put-SameView : (v : Entity F) → Spares s b (puts v) → SameView b s (put s v)
  unfolding put get_project get_branch get_endpoint op_snapshot
  put-SameView (org t) h = same_but_hidden b s _ _ _
  put-SameView (project t) h = same_but_projects b s _ λ id. owned-insert _ b id t.id t _ h.0 h.1
  put-SameView (branch t) h = same_but_branches b s _ λ id. owned-insert _ b id t.id t _ h.0 h.1
  put-SameView (endpoint t) h = same_but_endpoints b s _ λ id. owned-insert _ b id t.id t _ h.0 h.1
  put-SameView (operation t) h =
      same_but_operations b s _ λ id. owned-insert _ b id t.id t _ h.0 h.1

  idemp_store-SameView : (key id : Text) → SameView b s (idemp_store s key id)
  unfolding idemp_store
  idemp_store-SameView key id = elim (Bool-cases (key == [])) [
    | inl e ↦ rw e (same_but_hidden b s _ _ _)
    | inr e ↦ rw e (same_but_hidden b s _ _ _)
  ]

  finish-SameView :
      (id : Text) (f : Operation → Operation)
      → ((p : Operation) → (f p).org_id ≡ p.org_id)
      → op_snapshot s b id ≡ none
      → SameView b s (elim (lookup id s.operations) [
        | none ↦ s
        | some op ↦ record s { operations = insert id (f op) s.operations }
      ])
  unfolding op_snapshot
  finish-SameView id f keep h = elim (Option-cases (lookup id s.operations)) [
    | inl e ↦ rw e (same_but_hidden b s _ _ _)
    | inr (op, e) ↦
        let other : op.org_id ≢ b = λ own. ground (arith, ==_iff op.org_id b) in
        rw e (
          same_but_operations b s _
            λ k. owned-insert _ b k id (f op) _ (λ own. other (sym (keep op) ∙ own)) h)
  ]

  transition_branch-SameView :
      (o id to : Text) → o ≢ b → SameView b s (transition_branch s o id to).0
  unfolding get_branch
  transition_branch-SameView o id to n = elim (transition_branch_cases s o id to) [
    | inl (x, m, e) ↦ rw e (
        same_but_branches b s _ λ k.
          owned-insert _ b k id (record x { state = to }) _ (λ e'. n (sym m.own ∙ e'))
            (rw m.found (ground (arith, n, m.own, ==_iff x.org_id b))))
    | inr (err, e, _) ↦ rw e (same_but_hidden b s _ _ _)
  ]

  transition_endpoint-SameView :
      (o id to : Text) → o ≢ b → SameView b s (transition_endpoint s o id to).0
  unfolding get_endpoint
  transition_endpoint-SameView o id to n = elim (transition_endpoint_cases s o id to) [
    | inl (x, m, e) ↦ rw e (
        same_but_endpoints b s _ λ k.
          owned-insert _ b k id (record x { state = to }) _ (λ e'. n (sym m.own ∙ e'))
            (rw m.found (ground (arith, n, m.own, ==_iff x.org_id b))))
    | inr (err, e, _) ↦ rw e (same_but_hidden b s _ _ _)
  ]

  -- A call that spares an org changes nothing that the org reads.
  pub Spares-SameView : (c : Call F) → Spares s b c → SameView b s (step s c)
  unfolding step complete_op fail_op add_membership
  Spares-SameView (puts v) h = put-SameView v h
  Spares-SameView (adds_membership m) h = same_but_hidden b s _ _ _
  Spares-SameView (adds_metering e) h = add_metering-SameView b s e h
  Spares-SameView (stores_idemp key id) h = idemp_store-SameView key id
  Spares-SameView (completes id result) h = finish-SameView id _ (λ p. refl) h
  Spares-SameView (fails id err) h = finish-SameView id _ (λ p. refl) h
  Spares-SameView (moves_branch o id to) h = transition_branch-SameView o id to h
  Spares-SameView (moves_endpoint o id to) h = transition_endpoint-SameView o id to h

-- Nothing is found, or what is found belongs to the org.
abbrev pub OwnOrAbsent : {A : Type 0} → (A → Text) → Text → Option A → Type 0
OwnOrAbsent f o none = Unit
OwnOrAbsent f o (some a) = f a ≡ o

owned_other :
    {A : Type 0} (f : A → Text) (a b : Text) (found : Option A)
    → OwnOrAbsent f a found
    → a ≢ b
    → owned f b found ≡ none
owned_other f a b none h n = refl
owned_other f a b (some x) h n = ground (arith, ==_iff (f x) b)

-- The call is made on behalf of the org: what it brings belongs to the org, and so does what it
-- overwrites or finishes, if that is stored at all.
abbrev pub ActsFor : {F : Type 0} → Store F → Text → Call F → Type 0
ActsFor s a (puts (org t)) = Unit
ActsFor s a (puts (project t)) =
    (t.org_id ≡ a) × OwnOrAbsent (λ p. p.org_id) a (lookup t.id s.projects)
ActsFor s a (puts (branch t)) =
    (t.org_id ≡ a) × OwnOrAbsent (λ b. b.org_id) a (lookup t.id s.branches)
ActsFor s a (puts (endpoint t)) =
    (t.org_id ≡ a) × OwnOrAbsent (λ e. e.org_id) a (lookup t.id s.endpoints)
ActsFor s a (puts (operation t)) =
    (t.org_id ≡ a) × OwnOrAbsent (λ p. p.org_id) a (lookup t.id s.operations)
ActsFor s a (adds_membership m) = Unit
ActsFor s a (adds_metering e) = e.org_id ≡ a
ActsFor s a (stores_idemp key id) = Unit
ActsFor s a (completes id result) = OwnOrAbsent (λ p. p.org_id) a (lookup id s.operations)
ActsFor s a (fails id err) = OwnOrAbsent (λ p. p.org_id) a (lookup id s.operations)
ActsFor s a (moves_branch o id to) = o ≡ a
ActsFor s a (moves_endpoint o id to) = o ≡ a

module _ {F : Type 0} ⦃float : Float64 F⦄ (s : Store F) (a b : Text) (n : a ≢ b) where
  ActsFor-Spares : (c : Call F) → ActsFor s a c → Spares s b c
  unfolding get_project get_branch get_endpoint op_snapshot
  ActsFor-Spares (puts (org t)) h = tt
  ActsFor-Spares (puts (project t)) h = (λ e. n (sym h.0 ∙ e), owned_other _ a b _ h.1 n)
  ActsFor-Spares (puts (branch t)) h = (λ e. n (sym h.0 ∙ e), owned_other _ a b _ h.1 n)
  ActsFor-Spares (puts (endpoint t)) h = (λ e. n (sym h.0 ∙ e), owned_other _ a b _ h.1 n)
  ActsFor-Spares (puts (operation t)) h = (λ e. n (sym h.0 ∙ e), owned_other _ a b _ h.1 n)
  ActsFor-Spares (adds_membership m) h = tt
  ActsFor-Spares (adds_metering e) h = λ e'. n (sym h ∙ e')
  ActsFor-Spares (stores_idemp key id) h = tt
  ActsFor-Spares (completes id result) h = owned_other _ a b _ h n
  ActsFor-Spares (fails id err) h = owned_other _ a b _ h n
  ActsFor-Spares (moves_branch o id to) h = λ e. n (sym h ∙ e)
  ActsFor-Spares (moves_endpoint o id to) h = λ e. n (sym h ∙ e)

  -- Let a call be made on behalf of one org: what it brings belongs to that org, what it overwrites,
  -- completes or fails is stored as that org's own or not at all, and a transition names that org.
  -- (The methods that put, complete or fail take no org and check nothing: with another org's id they
  -- change that org's object.) Then the call changes nothing that another org reads: no project,
  -- branch, endpoint, operation or usage.
  pub step-SameView : (c : Call F) → ActsFor s a c → SameView b s (step s c)
  step-SameView c h = Spares-SameView s b c (ActsFor-Spares c h)
