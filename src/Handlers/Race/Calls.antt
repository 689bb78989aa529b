-- ===== src/Handlers/Race/Calls.antt =====
-- src/controlplane/app.go: the calls that startOp makes, and the idempotency keys.
use sovereign_core.Prelude.{Text, Float64, refl}
use sovereign_core.Store.{step, put, idemp_lookup}
use sovereign_core.Tasks.{Task}
use sovereign_core.App.{Adapters, App}
use sovereign_core.App.Goroutines.{
  start_op, create_project, create_project_body, create_branch, create_branch_body, start_endpoint,
  start_endpoint_body,
}
use sovereign_core.Handlers.Race.{LeavesKey}

module _ {F W : Type 0} (key : Text) (p : Adapters W) where
  start_op-LeavesKey :
      (org_id kind : Text) (body : Text → Task (App F W) (Unit {0}))
      → LeavesKey key (start_op p org_id kind body)
  unfolding LeavesKey start_op step put idemp_lookup
  start_op-LeavesKey org_id kind body = λ a. (refl, λ b. (refl, λ c. (refl, tt)))

module _ (F W : Type 0) ⦃float : Float64 F⦄ (key : Text) (p : Adapters W) (org_id : Text) where
  pub create_project-LeavesKey :
      (name : Text) → LeavesKey {F = F} key (create_project p org_id name)
  unfolding create_project
  create_project-LeavesKey name =
      start_op-LeavesKey key p org_id _ (create_project_body p org_id name)

  pub create_branch-LeavesKey :
      (project_id parent : Text) → LeavesKey {F = F} key (create_branch p org_id project_id parent)
  unfolding create_branch
  create_branch-LeavesKey project_id parent =
      start_op-LeavesKey key p org_id _ (create_branch_body p org_id project_id parent)

  pub start_endpoint-LeavesKey :
      (branch_id : Text) (min_cu max_cu : F)
      → LeavesKey key (start_endpoint p org_id branch_id min_cu max_cu)
  unfolding start_endpoint
  start_endpoint-LeavesKey branch_id min_cu max_cu =
      start_op-LeavesKey key p org_id _ (start_endpoint_body p org_id branch_id min_cu max_cu)
