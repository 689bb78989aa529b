-- ===== src/App/Operations.antt =====
-- src/controlplane/app.go: the operations of the control plane in every interleaving of goroutines.
use sovereign_core.Prelude.{
  ℕ, suc, ◌≤◌, Text, Float64, All, All-get_elem?, get_elem?, ◌≡◌, refl, inl, inr, List, [], ◌∷◌,
  some,
}
use sovereign_core.Store.Invariant.{IsWellFormed, step-IsWellFormed}
use sovereign_core.Tasks.{Task, Job, interleave}
use sovereign_core.Tasks.Interleaving.{
  HasEnded, IsRunning, Owes, interleave-result, interleave-invariant,
}
use sovereign_core.Tasks.Turns.{Within, Within-Option, Within-Result, turns_of, interleave-HasEnded}
use sovereign_core.App.{Adapters, App, acquire_warm, give_up}
use sovereign_core.WarmPool.{Acquired}
use sovereign_core.App.Goroutines.{
  create_project_body, create_branch_body, start_endpoint_body, publish_endpoint,
}
use sovereign_core.App.Completion.{Settled, step-Stored, step-Settled}
use sovereign_core.App.Deliveries.{
  Moves, StoredIn, SettledIn, SettlesOp, create_project_body-SettlesOp,
  create_branch_body-SettlesOp, start_endpoint_body-SettlesOp,
}

-- The body of a goroutine of CreateProject, CreateBranch or StartEndpoint.
pub data Body {F W : Type 0} ⦃float : Float64 F⦄ (p : Adapters W) (op : Text)
    : Task (App F W) (Unit {0}) → Type 0 where
  project_body : (org_id name : Text) → Body p op (create_project_body p org_id name op)
  branch_body :
      (org_id project_id parent : Text)
      → Body p op (create_branch_body p org_id project_id parent op)
  endpoint_body :
      (org_id branch_id : Text) (min_cu max_cu : F)
      → Body p op (start_endpoint_body p org_id branch_id min_cu max_cu op)

-- The goroutine has just been started, and its operation is stored.
pub record Started {F W : Type 0} ⦃float : Float64 F⦄ (p : Adapters W) (a : App F W)
    (j : Job (App F W)) : Type 0 where
  pub stored : StoredIn j.op a
  pub body : Body p j.op j.rest

module _ (F W : Type 0) where
  pub keep_Stored : (op : Text) (a b : App F W) → Moves a b → StoredIn op a → StoredIn op b
  keep_Stored op a b (inl e) h = rw e h
  keep_Stored op a b (inr (c, ok, e)) h = rw e (step-Stored a.core.store op c ok.1 h)

  pub keep_Settled : (op : Text) (a b : App F W) → Moves a b → SettledIn op a → SettledIn op b
  keep_Settled op a b (inl e) h = rw e h
  keep_Settled op a b (inr (c, ok, e)) h = rw e (step-Settled a.core.store op c ok.1 h)

  keep_IsWellFormed :
      (a b : App F W) → Moves a b → IsWellFormed a.core.store → IsWellFormed b.core.store
  keep_IsWellFormed a b (inl e) h = rw e h
  keep_IsWellFormed a b (inr (c, ok, e)) h = rw e (step-IsWellFormed a.core.store c ok.0 h)

module _ (F W : Type 0) ⦃float : Float64 F⦄ (p : Adapters W) where
  abbrev pub OwesSettled : App F W → Job (App F W) → Type 0
  OwesSettled = Owes Moves StoredIn SettledIn (keep_Stored F W) (keep_Settled F W)

  Body-SettlesOp :
      (op : Text) (t : Task (App F W) (Unit {0})) → Body p op t → SettlesOp {F = F} op t
  Body-SettlesOp op t (Body.project_body o n) = create_project_body-SettlesOp F W p op o n
  Body-SettlesOp op t (Body.branch_body o i b) = create_branch_body-SettlesOp F W p op o i b
  Body-SettlesOp op t (Body.endpoint_body o b x y) = start_endpoint_body-SettlesOp F W p op o b x y

  pub Started-Owes :
      (a : App F W) (js : List (Job (App F W))) → All (Started p a) js → All (OwesSettled a) js
  Started-Owes a [] h = tt
  Started-Owes a (j ∷ js) h =
      (inr (h.0.stored, Body-SettlesOp j.op j.rest h.0.body), Started-Owes a js h.1)

  -- The goroutines of CreateProject, CreateBranch and StartEndpoint, in any number and in any
  -- interleaving of their steps, with any adapters, keep the store well formed.
  pub interleave-IsWellFormed :
      (turns : List ℕ) (jobs : List (Job (App F W))) (a : App F W)
      → All (Started p a) jobs
      → IsWellFormed a.core.store
      → IsWellFormed (interleave turns jobs a).1.core.store
  interleave-IsWellFormed turns jobs a h w =
      interleave-invariant Moves StoredIn SettledIn (keep_Stored F W) (keep_Settled F W)
        (λ b. IsWellFormed b.core.store) (keep_IsWellFormed F W) turns jobs a
        (Started-Owes a jobs h) w

  next :
      (n : ℕ) (f : App F W → App F W) (k : App F W → Task (App F W) (Unit {0}))
      → ((s : App F W) → Within n (k s))
      → Within (suc n) (Task.step f k)
  unfolding Within
  next n f k h = h

  no_more : (n : ℕ) {u : Unit {0}} → Within {S = App F W} n (Task.done u)
  unfolding Within
  no_more n = tt

  give_up-Within : (n : ℕ) (op e : Text) → Within (suc n) (give_up {F = F} {W = W} op e)
  unfolding Within
  give_up-Within n op e s = tt

  publish_endpoint-Within :
      (o b : Text) (x y : F) (op : Text) (got : Acquired) (id user password : Text)
      → Within 7 (publish_endpoint p o b x y op got id user password)
  unfolding Within publish_endpoint
  publish_endpoint-Within o b x y op got id user password s1 s2 s3 s4 s5 s6 s7 = tt

  -- The longest body has twelve steps.
  pub Body-Within : (op : Text) (t : Task (App F W) (Unit {0})) → Body p op t → Within 12 t
  unfolding create_project_body create_branch_body start_endpoint_body
  Body-Within op t (Body.project_body o n) = next 11 _ _ λ s.
      Within-Result 11 _ _ _ (give_up-Within 10 op) λ br. next 10 _ _ λ s1. next 9 _ _ λ s2.
        next 8 _ _ λ s3.
          next 7 _ _
            λ s4. next 6 _ _ λ s5. next 5 _ _ λ s6. next 4 _ _ λ s7. next 3 _ _ λ s8. no_more 3
  Body-Within op t (Body.branch_body o i b) = next 11 _ _ λ s.
      Within-Option 11 _ _ _ (give_up-Within 10 op _) λ pr. next 10 _ _ λ s1.
        Within-Result 10 _ _ _ (give_up-Within 9 op) λ br. next 9 _ _ λ s2.
          next 8 _ _
            λ s3. next 7 _ _ λ s4. next 6 _ _ λ s5. next 5 _ _ λ s6. next 4 _ _ λ s7. no_more 4
  Body-Within op t (Body.endpoint_body o b x y) = next 11 _ _ λ s.
      Within-Option 11 _ _ _ (give_up-Within 10 op _) λ br. next 10 _ _ λ before.
        Within-Option 10 _ _ _
          (next 9 _ _ λ s2.
            Within-Option 9 _ _ _
              (next 8 _ _ λ s3. next 7 _ _ λ s4.
                Within-Result 7 _ _ _ (give_up-Within 6 op) λ (user, password).
                  publish_endpoint-Within o b x y op (acquire_warm p before.core).0 _ user password)
              (give_up-Within 8 op))
          (give_up-Within 9 op)

  pub not_running : (t : Task (App F W) (Unit {0})) → IsRunning t → ¬ HasEnded t
  not_running (Task.done u) r e = r
  not_running (Task.step f k) r e = e

  -- An asynchronous operation ends: if the goroutine at i works for the operation op and has had at
  -- least twelve turns, then op is stored as succeeded or failed. This holds with any adapters, for
  -- any number of goroutines of CreateProject, CreateBranch and StartEndpoint, and in any order of
  -- their steps.
  pub operation_ends :
      (turns : List ℕ) (jobs : List (Job (App F W))) (a : App F W) (i : ℕ) (j : Job (App F W))
      → All (Started p a) jobs
      → get_elem? jobs i ≡ some j
      → 12 ≤ turns_of i turns
      → Settled j.op (interleave turns jobs a).1.core.store
  operation_ends turns jobs a i j h e enough =
      let started = All-get_elem? (Started p a) jobs i j h e in
      let (k, at, same, ended) =
        interleave-HasEnded turns i j.op 12 jobs a
          (j, e, refl, Body-Within j.op j.rest started.body) enough in
      let result =
        interleave-result Moves StoredIn SettledIn (keep_Stored F W) (keep_Settled F W) turns jobs a
          (Started-Owes a jobs h) in
      elim (All-get_elem? _ (interleave turns jobs a).0 i k result at) [
        | inl running ↦ absurd (not_running k.rest running ended)
        | inr settled ↦ rw same at settled
      ]
