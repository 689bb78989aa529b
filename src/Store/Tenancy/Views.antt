-- ===== src/Store/Tenancy/Views.antt =====
-- src/controlplane/store.go: what an org reads of the store, and changes that it does not see.
use sovereign_core.Prelude.{
  Text, ◌==◌, ==_iff, Dict, lookup, insert, lookup-insert, Float64, Bool-cases, ◌≡◌, refl, ◌∙◌, ◌≢◌,
  inl, inr, List, [], ◌∷◌, ◌++◌, none, arith,
}
use sovereign_core.Model.{Org, Membership, Project, Branch, Endpoint, Operation, MeteringEvent}
use sovereign_core.Store.{
  Store, owned, get_project, get_branch, get_endpoint, op_snapshot, rollup, usage_rollup,
  add_metering,
}

-- What replaces something that the org does not see, and is not the org's, is not seen by it.
pub owned-insert :
    {A : Type 0} (f : A → Text) (b id k : Text) (v : A) (m : Dict A)
    → f v ≢ b
    → owned f b (lookup k m) ≡ none
    → owned f b (lookup id (insert k v m)) ≡ owned f b (lookup id m)
owned-insert f b id k v m other old = elim (Bool-cases (k == id)) [
  | inl e ↦ rw (lookup-insert, e) (rw (← (==_iff k id).0 e) (ground (arith, old, ==_iff (f v) b)))
  | inr e ↦ rw (lookup-insert, e)
]

-- What the reads of the org show: the same in both stores.
pub record SameView {F : Type 0} ⦃float : Float64 F⦄ (b : Text) (s t : Store F) : Type 0 where
  pub projects : (id : Text) → get_project t b id ≡ get_project s b id
  pub branches : (id : Text) → get_branch t b id ≡ get_branch s b id
  pub endpoints : (id : Text) → get_endpoint t b id ≡ get_endpoint s b id
  pub operations : (id : Text) → op_snapshot t b id ≡ op_snapshot s b id
  pub usage : usage_rollup t b ≡ usage_rollup s b

pub SameView-refl : {F : Type 0} ⦃float : Float64 F⦄ (b : Text) (s : Store F) → SameView b s s
SameView-refl b s = record {
  projects = λ id. refl;
  branches = λ id. refl;
  endpoints = λ id. refl;
  operations = λ id. refl;
  usage = refl;
}

pub SameView-trans :
    {F : Type 0} ⦃float : Float64 F⦄ (b : Text) (s t u : Store F)
    → SameView b s t
    → SameView b t u
    → SameView b s u
SameView-trans b s t u g h = record {
  projects = λ id. h.projects id ∙ g.projects id;
  branches = λ id. h.branches id ∙ g.branches id;
  endpoints = λ id. h.endpoints id ∙ g.endpoints id;
  operations = λ id. h.operations id ∙ g.operations id;
  usage = h.usage ∙ g.usage;
}

module _ {F : Type 0} ⦃float : Float64 F⦄ where
  rollup-other :
      (b : Text) (es : List (MeteringEvent F)) (e : MeteringEvent F) (out : Dict F)
      → e.org_id ≢ b
      → rollup b out (es ++ e ∷ []) ≡ rollup b out es
  unfolding rollup
  rollup-other b [] e out n = ground (arith, ==_iff e.org_id b)
  rollup-other b (x ∷ es) e out n = rollup-other b es e _ n

  -- Stores that differ in one map, or in what no read of the org shows.
  module _ (b : Text) (s : Store F) where
    pub same_but_projects :
        (m : Dict Project)
        → ((id : Text)
            → owned (λ p. p.org_id) b (lookup id m)
              ≡ owned (λ p. p.org_id) b (lookup id s.projects))
        → SameView b s (record s { projects = m })
    unfolding get_project get_branch get_endpoint op_snapshot usage_rollup
    same_but_projects m h = record {
      projects = h;
      branches = λ id. refl;
      endpoints = λ id. refl;
      operations = λ id. refl;
      usage = refl;
    }

    pub same_but_branches :
        (m : Dict Branch)
        → ((id : Text)
            → owned (λ p. p.org_id) b (lookup id m)
              ≡ owned (λ p. p.org_id) b (lookup id s.branches))
        → SameView b s (record s { branches = m })
    unfolding get_project get_branch get_endpoint op_snapshot usage_rollup
    same_but_branches m h = record {
      projects = λ id. refl;
      branches = h;
      endpoints = λ id. refl;
      operations = λ id. refl;
      usage = refl;
    }

    pub same_but_endpoints :
        (m : Dict (Endpoint F))
        → ((id : Text)
            → owned (λ p. p.org_id) b (lookup id m)
              ≡ owned (λ p. p.org_id) b (lookup id s.endpoints))
        → SameView b s (record s { endpoints = m })
    unfolding get_project get_branch get_endpoint op_snapshot usage_rollup
    same_but_endpoints m h = record {
      projects = λ id. refl;
      branches = λ id. refl;
      endpoints = h;
      operations = λ id. refl;
      usage = refl;
    }

    pub same_but_operations :
        (m : Dict Operation)
        → ((id : Text)
            → owned (λ p. p.org_id) b (lookup id m)
              ≡ owned (λ p. p.org_id) b (lookup id s.operations))
        → SameView b s (record s { operations = m })
    unfolding get_project get_branch get_endpoint op_snapshot usage_rollup
    same_but_operations m h = record {
      projects = λ id. refl;
      branches = λ id. refl;
      endpoints = λ id. refl;
      operations = h;
      usage = refl;
    }

    pub same_but_hidden :
        (os : Dict Org) (ms : List Membership) (keys : Dict Text)
        → SameView b s (record s { orgs = os; memberships = ms; idemp = keys })
    unfolding get_project get_branch get_endpoint op_snapshot usage_rollup
    same_but_hidden os ms keys = record {
      projects = λ id. refl;
      branches = λ id. refl;
      endpoints = λ id. refl;
      operations = λ id. refl;
      usage = refl;
    }

    pub add_metering-SameView :
        (e : MeteringEvent F) → e.org_id ≢ b → SameView b s (add_metering s e)
    unfolding add_metering get_project get_branch get_endpoint op_snapshot usage_rollup
    add_metering-SameView e h = record {
      projects = λ id. refl;
      branches = λ id. refl;
      endpoints = λ id. refl;
      operations = λ id. refl;
      usage = rollup-other b s.metering e [] h;
    }
