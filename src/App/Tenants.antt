-- ===== src/App/Tenants.antt =====
-- src/controlplane/app.go: what the goroutines of other tenants do is not seen by an org.
mod Tests
use sovereign_core.Prelude.{
  ℕ, Text, bytes, Float64, All, ◌≡◌, refl, sym, ◌∙◌, ◌≢◌, List, [], ◌∷◌, none, ok, err,
}
use sovereign_core.Store.{
  Store, Call, step, fails, get_project, get_branch, get_endpoint, op_snapshot,
}
use sovereign_core.Store.Tenancy.{SameView, SameView-refl, SameView-trans, Spares, Spares-SameView}
use sovereign_core.WarmPool.{Acquired}
use sovereign_core.Ids.{new_id}
use sovereign_core.Tasks.{Task, Job, interleave}
use sovereign_core.Tasks.Keeping.{Keeps, Keeps-Option, Keeps-Result, interleave-Keeps}
use sovereign_core.App.{Adapters, App, acquire_warm, give_up}
use sovereign_core.App.Goroutines.{
  create_project_body, create_branch_body, start_endpoint_body, publish_endpoint,
}

-- What is relied on of the engine and the random bytes: a new branch, project or endpoint gets no id
-- under which the org reads one already.
pub record NewToOrg {F W : Type 0} (p : Adapters W) (b : Text) (s : Store F) : Type 0 where
  pub branch_new :
      (o project parent br : Text) (w : W)
      → (p.storage.create_branch o project parent w).0 ≡ ok br
      → get_branch s b br ≡ none
  pub project_new : (w : W) → get_project s b (new_id p.random (bytes "proj") w).0 ≡ none
  pub endpoint_new : (w : W) → get_endpoint s b (new_id p.random (bytes "ep") w).0 ≡ none

-- The goroutine is of CreateProject, CreateBranch or StartEndpoint, for another org.
pub data OtherBody {F W : Type 0} ⦃float : Float64 F⦄ (p : Adapters W) (b op : Text)
    : Task (App F W) (Unit {0}) → Type 0 where
  other_project : (o name : Text) → o ≢ b → OtherBody p b op (create_project_body p o name op)
  other_branch :
      (o project parent : Text)
      → o ≢ b
      → OtherBody p b op (create_branch_body p o project parent op)
  other_endpoint :
      (o branch : Text) (min_cu max_cu : F)
      → o ≢ b
      → OtherBody p b op (start_endpoint_body p o branch min_cu max_cu op)

module _ (F W : Type 0) ⦃float : Float64 F⦄ (p : Adapters W) (b : Text) (base : Store F)
    (new : NewToOrg p b base) where
  -- The org sees what it saw at the start.
  abbrev Unseen : App F W → Type 0
  Unseen a = SameView b base a.core.store

  over : {u : Unit {0}} → Keeps Unseen (Task.done u)
  unfolding Keeps
  over = tt

  quiet :
      (f : App F W → App F W) (k : App F W → Task (App F W) (Unit {0}))
      → ((s : App F W) → (f s).core.store ≡ s.core.store)
      → ((s : App F W) → Keeps Unseen (k s))
      → Keeps Unseen (Task.step f k)
  unfolding Keeps
  quiet f k h g s seen = (rw (h s) seen, g s)

  calling :
      (f : App F W → App F W) (k : App F W → Task (App F W) (Unit {0})) (c : Call F)
      → ((s : App F W) → (f s).core.store ≡ step s.core.store c)
      → ((s : Store F) → SameView b base s → Spares s b c)
      → ((s : App F W) → Keeps Unseen (k s))
      → Keeps Unseen (Task.step f k)
  unfolding Keeps
  calling f k c h spares g s seen = (
    rw (h s) (
        SameView-trans b base s.core.store _ seen
          (Spares-SameView s.core.store b c (spares s.core.store seen))),
    g s,
  )

  module _ (op : Text) (unknown : op_snapshot base b op ≡ none) where
    give_up-Keeps : (e : Text) → Keeps Unseen (give_up {F = F} {W = W} op e)
    give_up-Keeps e =
        calling _ _ (fails op e) (λ s. refl) (λ s seen. seen.operations op ∙ unknown) λ s. over

    create_project_body-Keeps :
        (o name : Text) → o ≢ b → Keeps Unseen (create_project_body {F = F} p o name op)
    unfolding create_project_body
    create_project_body-Keeps o name n =
        quiet _ _ (λ s. refl)
          λ s. Keeps-Result Unseen _ _ _ give_up-Keeps λ br made.
            let no_branch = (new.branch_new o [] [] br s.core.world made) in
            quiet _ _ (λ s. refl)
              λ s1.
                quiet _ _ (λ s. refl)
                  λ s.
                    calling _ _ _ (λ s. refl)
                      (λ s seen. (n, seen.projects _ ∙ new.project_new s1.core.world))
                      λ s.
                        quiet _ _ (λ s. refl)
                          λ s.
                            calling _ _ _ (λ s. refl) (λ s seen. (n, seen.branches br ∙ no_branch))
                              λ s.
                                quiet _ _ (λ s. refl)
                                  λ s.
                                    calling _ _ _ (λ s. refl) (λ s seen. n)
                                      λ s.
                                        calling _ _ _ (λ s. refl)
                                          (λ s seen. seen.operations op ∙ unknown) λ s. over

    create_branch_body-Keeps :
        (o project parent : Text)
        → o ≢ b
        → Keeps Unseen (create_branch_body {F = F} p o project parent op)
    unfolding create_branch_body
    create_branch_body-Keeps o project parent n =
        quiet _ _ (λ s. refl)
          λ s. Keeps-Option Unseen _ _ _ (give_up-Keeps _) λ pr.
            quiet _ _ (λ s. refl)
              λ s. Keeps-Result Unseen _ _ _ give_up-Keeps λ br made.
                let no_branch = (new.branch_new o project parent br s.core.world made) in
                quiet _ _ (λ s. refl)
                  λ s.
                    calling _ _ _ (λ s. refl) (λ s seen. (n, seen.branches br ∙ no_branch))
                      λ s.
                        calling _ _ _ (λ s. refl) (λ s seen. n)
                          λ s.
                            quiet _ _ (λ s. refl)
                              λ s.
                                calling _ _ _ (λ s. refl) (λ s seen. n)
                                  λ s.
                                    calling _ _ _ (λ s. refl)
                                      (λ s seen. seen.operations op ∙ unknown) λ s. over

    publish_endpoint-Keeps :
        (o branch : Text) (min_cu max_cu : F) (got : Acquired) (id user password : Text)
        → o ≢ b
        → get_endpoint base b id ≡ none
        → Keeps Unseen (publish_endpoint p o branch min_cu max_cu op got id user password)
    unfolding publish_endpoint
    publish_endpoint-Keeps o branch min_cu max_cu got id user password n no_endpoint =
        quiet _ _ (λ s. refl)
          λ s.
            calling _ _ _ (λ s. refl) (λ s seen. (n, seen.endpoints id ∙ no_endpoint))
              λ s.
                calling _ _ _ (λ s. refl) (λ s seen. n)
                  λ s.
                    quiet _ _ (λ s. refl)
                      λ s.
                        quiet _ _ (λ s. refl)
                          λ s.
                            calling _ _ _ (λ s. refl) (λ s seen. n)
                              λ s.
                                calling _ _ _ (λ s. refl) (λ s seen. seen.operations op ∙ unknown)
                                  λ s. over

    start_endpoint_body-Keeps :
        (o branch : Text) (min_cu max_cu : F)
        → o ≢ b
        → Keeps Unseen (start_endpoint_body p o branch min_cu max_cu op)
    unfolding start_endpoint_body
    start_endpoint_body-Keeps o branch min_cu max_cu n =
        quiet _ _ (λ s. refl)
          λ s. Keeps-Option Unseen _ _ _ (give_up-Keeps _) λ br.
            quiet _ _ (λ s. refl)
              λ before.
                Keeps-Option Unseen _ _ _
                  (quiet _ _ (λ s. refl)
                    λ s.
                      Keeps-Option Unseen _ _ _
                        (quiet _ _ (λ s. refl)
                          λ s2.
                            quiet _ _ (λ s. refl)
                              λ s.
                                Keeps-Result Unseen _ _ _ give_up-Keeps λ (user, password) issued.
                                  publish_endpoint-Keeps o branch min_cu max_cu
                                    (acquire_warm p before.core).0 _ user password n
                                    (new.endpoint_new s2.core.world))
                        give_up-Keeps)
                  give_up-Keeps

    OtherBody-Keeps : (t : Task (App F W) (Unit {0})) → OtherBody {F = F} p b op t → Keeps Unseen t
    OtherBody-Keeps t (OtherBody.other_project o name n) = create_project_body-Keeps o name n
    OtherBody-Keeps t (OtherBody.other_branch o project parent n) =
        create_branch_body-Keeps o project parent n
    OtherBody-Keeps t (OtherBody.other_endpoint o branch x y n) =
        start_endpoint_body-Keeps o branch x y n

-- A goroutine for another org, whose operation the org does not know.
abbrev pub IsOthers :
    {F W : Type 0} ⦃float : Float64 F⦄ → Adapters W → Text → Store F → Job (App F W) → Type 0
IsOthers p b s j = OtherBody p b j.op j.rest × (op_snapshot s b j.op ≡ none)

module _ (F W : Type 0) ⦃float : Float64 F⦄ (p : Adapters W) (b : Text) where
  -- Goroutines of CreateProject, CreateBranch and StartEndpoint for other orgs, in any number and in
  -- any interleaving of their steps, change nothing that an org reads, if neither the engine nor
  -- newID gives a new branch, project or endpoint an id under which the org reads one already, and
  -- the org does not know their operations.
  pub others-SameView :
      (turns : List ℕ) (jobs : List (Job (App F W))) (a : App F W)
      → NewToOrg p b a.core.store
      → All (IsOthers p b a.core.store) jobs
      → SameView b a.core.store (interleave turns jobs a).1.core.store
  others-SameView turns jobs a new h =
      interleave-Keeps (λ t. SameView b a.core.store t.core.store) turns jobs a (all jobs h)
        (SameView-refl b a.core.store)
    where
      all :
          (js : List (Job (App F W)))
          → All (IsOthers p b a.core.store) js
          → All (λ j. Keeps (λ t. SameView b a.core.store t.core.store) j.rest) js
      all [] h = tt
      all (j ∷ js) h =
          (OtherBody-Keeps F W p b a.core.store new j.op h.0.1 j.rest h.0.0, all js h.1)
