-- ===== src/App/Onboarding.antt =====
-- src/controlplane/app.go: Signup, on every branch.
use sovereign_core.Prelude.{
  ℕ, Text, bytes, insert, ◌≡◌, refl, inl, inr, [], ◌∷◌, ◌++◌, Result, ok, err, Result-cases,
}
use sovereign_core.Model.{Org}
use sovereign_core.Store.{Store, step, put, add_membership}
use sovereign_core.Ids.{new_id}
use sovereign_core.Tasks.{run_task}
use sovereign_core.App.{Adapters, App, signup}

-- What the ports answer to a signup, each in the world that the call before it has left.
module _ {F W : Type 0} (p : Adapters W) where
  abbrev pub kek : App F W → Result Text × W
  kek a = p.kms.provision_tenant_kek [] a.core.world

  abbrev pub org_id : App F W → Text × W
  org_id a = new_id p.random (bytes "org") (kek a).1

  abbrev pub created : App F W → ℕ × W
  created a = p.clock.now (org_id a).1

  abbrev pub billing : App F W → Result Text × W
  billing a = p.payment.create_customer (org_id a).0 (created a).1

  abbrev pub issued : Text → App F W → Result Text × W
  issued owner a = p.auth.issue_token (org_id a).0 owner (bytes "owner") (billing a).1

module _ {F W : Type 0} (p : Adapters W) (name owner : Text) where
  -- The org that a signup makes of the key and the customer.
  abbrev pub founded : App F W → Text → Text → Org
  founded a key customer = record {
    id = (org_id p a).0;
    name = name;
    region = p.region;
    kms_key_id = key;
    billing_id = customer;
    plan = bytes "free";
    created_at = (created p a).0;
  }

  -- The store with the org and its owner.
  abbrev pub joined : Store F → Org → Store F
  joined s o = record s {
    orgs = insert o.id o s.orgs;
    memberships =
        s.memberships ++ record { org_id = o.id; user_id = owner; role = bytes "owner" } ∷ [];
  }

  -- Only the world and, as said, the store have changed.
  abbrev pub left : App F W → Store F → W → App F W
  left a s w = record a { core = record a.core { store = s; world = w } }

  pub data Signed (a : App F W) : Result (Org × Text) × App F W → Type 0 where
    no_key :
        {r : Result (Org × Text)} {b : App F W} (e : Text)
        → (kek p a).0 ≡ err e
        → r ≡ err (bytes "kek: " ++ e)
        → b ≡ left a a.core.store (kek p a).1
        → Signed a (r, b)
    no_customer :
        {r : Result (Org × Text)} {b : App F W} (key e : Text)
        → (kek p a).0 ≡ ok key
        → (billing p a).0 ≡ err e
        → r ≡ err (bytes "billing: " ++ e)
        → b ≡ left a a.core.store (billing p a).1
        → Signed a (r, b)
    no_token :
        {r : Result (Org × Text)} {b : App F W} (key customer e : Text)
        → (kek p a).0 ≡ ok key
        → (billing p a).0 ≡ ok customer
        → (issued p owner a).0 ≡ err e
        → r ≡ err (bytes "token: " ++ e)
        → b ≡ left a (joined a.core.store (founded a key customer)) (issued p owner a).1
        → Signed a (r, b)
    signed :
        {r : Result (Org × Text)} {b : App F W} (key customer token : Text)
        → (kek p a).0 ≡ ok key
        → (billing p a).0 ≡ ok customer
        → (issued p owner a).0 ≡ ok token
        → r ≡ ok (founded a key customer, token)
        → b ≡ left a (joined a.core.store (founded a key customer)) (issued p owner a).1
        → Signed a (r, b)

  -- Signup, run by itself with any adapters, ends as the ports answer, each called in the world that
  -- the call before it has left. The key service or, after it, the payment service fails: the answer
  -- is its error behind "kek: " or "billing: ", and nothing is stored. Both succeed: the org, with
  -- the new id, the given name, the region, the key, the customer, the plan "free" and the time, and
  -- the owner's membership are stored, and nothing else; if the token is issued, the answer is the
  -- org and the token, and if not, it is the error behind "token: ", though both stay stored. The
  -- warm pool and the registry never change.
  pub signup_cases : (a : App F W) → Signed a (run_task (signup p name owner) a)
  unfolding signup run_task step put add_membership
  signup_cases a = elim (Result-cases (kek p a).0) [
    | inr (e, keyless) ↦ rw (keyless, run_task) (Signed.no_key e keyless refl refl)
    | inl (key, made) ↦ elim (Result-cases (billing p a).0) [
      | inr (e, unpaid) ↦
          rw (made, unpaid, run_task) (Signed.no_customer key e made unpaid refl refl)
      | inl (customer, paid) ↦ elim (Result-cases (issued p owner a).0) [
        | inr (e, mute) ↦
            rw (made, paid, mute, run_task)
              (Signed.no_token key customer e made paid mute refl refl)
        | inl (token, told) ↦
            rw (made, paid, told, run_task)
              (Signed.signed key customer token made paid told refl refl)
      ]
    ]
  ]
