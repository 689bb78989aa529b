-- ===== src/App/Deliveries.antt =====
-- src/controlplane/app.go: on every path, the body of a goroutine ends by settling its operation.
use sovereign_core.Prelude.{Text, Dict, Float64, ◌≡◌, refl, ◌⊎◌, inl, inr}
use sovereign_core.Model.{Value}
use sovereign_core.Store.{Call, step, fails, completes}
use sovereign_core.Store.Invariant.{IsProper}
use sovereign_core.WarmPool.{Acquired}
use sovereign_core.Tasks.{Task, done}
use sovereign_core.Tasks
use sovereign_core.Tasks.Interleaving.{Delivers, Delivers-Option, Delivers-Result}
use sovereign_core.App.{Adapters, App, give_up, acquire_warm}
use sovereign_core.App.Goroutines.{
  create_project_body, create_branch_body, start_endpoint_body, publish_endpoint,
}
use sovereign_core.App.Completion.{Stored, Settled, StartsNone, completes-Settled, fails-Settled}

module _ {F W : Type 0} where
  -- The store is as before, or after one call that starts no operation and brings proper states.
  abbrev pub Moves : App F W → App F W → Type 0
  Moves a b =
      (b.core.store ≡ a.core.store)
      ⊎ ((c : Call F) × (IsProper c × StartsNone c) × (b.core.store ≡ step a.core.store c))

  abbrev pub StoredIn : Text → App F W → Type 0
  StoredIn op a = Stored op a.core.store

  abbrev pub SettledIn : Text → App F W → Type 0
  SettledIn op a = Settled op a.core.store

  abbrev pub SettlesOp : Text → Task (App F W) (Unit {0}) → Type 0
  SettlesOp op = Delivers Moves (StoredIn op) (SettledIn op)

  -- A step that leaves the store, and one that is a call; then the rest.
  quiet :
      (op : Text) (f : App F W → App F W) (k : App F W → Task (App F W) (Unit {0}))
      → ((s : App F W) → (f s).core.store ≡ s.core.store)
      → ((s : App F W) → SettlesOp op (k s))
      → SettlesOp op (Tasks.step f k)
  unfolding Delivers
  quiet op f k h g s = (inl (h s), inr (g s))

  calling :
      (op : Text) (f : App F W → App F W) (k : App F W → Task (App F W) (Unit {0})) (c : Call F)
      → ((s : App F W) → (f s).core.store ≡ step s.core.store c)
      → IsProper c
      → StartsNone c
      → ((s : App F W) → SettlesOp op (k s))
      → SettlesOp op (Tasks.step f k)
  unfolding Delivers
  calling op f k c h p n g s = (inr (c, (p, n), h s), inr (g s))

  ending :
      (op : Text) (f : App F W → App F W) (k : App F W → Task (App F W) (Unit {0})) (r : Dict Value)
      → ((s : App F W) → (f s).core.store ≡ step s.core.store (completes op r))
      → ((s : App F W) → k s ≡ done tt)
      → SettlesOp op (Tasks.step f k)
  unfolding Delivers
  ending op f k r h e s = (
    inr (completes op r, (tt, tt), h s),
    inl ((λ q. rw (h s) (completes-Settled s.core.store op r q)), rw (e s) tt),
  )

module _ (F W : Type 0) where
  give_up-SettlesOp : (op e : Text) → SettlesOp {F = F} {W = W} op (give_up op e)
  unfolding Delivers
  give_up-SettlesOp op e s =
      (inr (fails op e, (tt, tt), refl), inl (fails-Settled s.core.store op e, tt))

module _ (F W : Type 0) ⦃float : Float64 F⦄ (p : Adapters W) (op : Text) where
  pub create_project_body-SettlesOp :
      (org_id name : Text) → SettlesOp {F = F} op (create_project_body p org_id name op)
  unfolding create_project_body
  create_project_body-SettlesOp org_id name =
      quiet op _ _ (λ s. refl)
        λ s. Delivers-Result _ _ _ _ _ _ (give_up-SettlesOp F W op) λ br.
          quiet op _ _ (λ s. refl)
            λ s.
              quiet op _ _ (λ s. refl)
                λ s.
                  calling op _ _ _ (λ s. refl) tt tt
                    λ s.
                      quiet op _ _ (λ s. refl)
                        λ s.
                          calling op _ _ _ (λ s. refl) (inr (inl refl)) tt
                            λ s.
                              quiet op _ _ (λ s. refl)
                                λ s.
                                  calling op _ _ _ (λ s. refl) tt tt
                                    λ s. ending op _ _ _ (λ s. refl) (λ s. refl)

  pub create_branch_body-SettlesOp :
      (org_id project_id parent : Text)
      → SettlesOp {F = F} op (create_branch_body p org_id project_id parent op)
  unfolding create_branch_body
  create_branch_body-SettlesOp org_id project_id parent =
      quiet op _ _ (λ s. refl)
        λ s. Delivers-Option _ _ _ _ _ _ (give_up-SettlesOp F W op _) λ pr.
          quiet op _ _ (λ s. refl)
            λ s. Delivers-Result _ _ _ _ _ _ (give_up-SettlesOp F W op) λ br.
              quiet op _ _ (λ s. refl)
                λ s.
                  calling op _ _ _ (λ s. refl) (inl refl) tt
                    λ s.
                      calling op _ _ _ (λ s. refl) tt tt
                        λ s.
                          quiet op _ _ (λ s. refl)
                            λ s.
                              calling op _ _ _ (λ s. refl) tt tt
                                λ s. ending op _ _ _ (λ s. refl) (λ s. refl)

  publish_endpoint-SettlesOp :
      (org_id branch_id : Text) (min_cu max_cu : F) (got : Acquired) (id user password : Text)
      → SettlesOp {F = F} op
          (publish_endpoint p org_id branch_id min_cu max_cu op got id user password)
  unfolding publish_endpoint
  publish_endpoint-SettlesOp org_id branch_id min_cu max_cu got id user password =
      quiet op _ _ (λ s. refl)
        λ s.
          calling op _ _ _ (λ s. refl) (inl refl) tt
            λ s.
              calling op _ _ _ (λ s. refl) tt tt
                λ s.
                  quiet op _ _ (λ s. refl)
                    λ s.
                      quiet op _ _ (λ s. refl)
                        λ s.
                          calling op _ _ _ (λ s. refl) tt tt
                            λ s. ending op _ _ _ (λ s. refl) (λ s. refl)

  pub start_endpoint_body-SettlesOp :
      (org_id branch_id : Text) (min_cu max_cu : F)
      → SettlesOp {F = F} op (start_endpoint_body p org_id branch_id min_cu max_cu op)
  unfolding start_endpoint_body
  start_endpoint_body-SettlesOp org_id branch_id min_cu max_cu =
      quiet op _ _ (λ s. refl)
        λ s. Delivers-Option _ _ _ _ _ _ (give_up-SettlesOp F W op _) λ b.
          quiet op _ _ (λ s. refl)
            λ before.
              Delivers-Option _ _ _ _ _ _
                (quiet op _ _ (λ s. refl)
                  λ s.
                    Delivers-Option _ _ _ _ _ _
                      (quiet op _ _ (λ s. refl)
                        λ s.
                          quiet op _ _ (λ s. refl)
                            λ s.
                              Delivers-Result _ _ _ _ _ _ (give_up-SettlesOp F W op)
                                λ (user, password).
                                  publish_endpoint-SettlesOp org_id branch_id min_cu max_cu
                                    (acquire_warm p before.core).0 _ user password)
                      (give_up-SettlesOp F W op))
                (give_up-SettlesOp F W op)
