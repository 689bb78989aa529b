-- ===== src/Walkthrough.antt =====
-- src/controlplane/main.go: the walkthrough, which runs the parts one after another and checks what
-- they answer. What it prints is left out.
pub mod Control
pub mod Steps
pub mod Sleep
pub mod Launch
pub mod Wiring
mod Tests
use sovereign_core.Prelude.{ℕ, pos, Text, bytes, Float64, List, [], ◌∷◌, ◌++◌, none, some, ok, err}
use sovereign_core.Model.{Operation}
use sovereign_core.Tasks.{Task, run_task}
use sovereign_core.App.{Adapters, App}
use sovereign_core.App.Goroutines.{create_project, create_branch, start_endpoint}
use sovereign_core.App.Waiting.{wait_op}
use sovereign_core.Walkthrough.Control.{
  Ends, goes_on, panics, exits, hangs, Program, ◌>>=◌, ◌>>◌, answers, text_field, as_text, as_int,
  as_bool, field_as,
}
use sovereign_core.Walkthrough.Steps.{
  Launched, onboard, three_ways, sleep_and_wake, drained, checks,
}

-- time.Second
abbrev second : ℕ
second = 1_000_000_000

-- In the k-th wait the goroutine takes the turns `busy k` and `asleep k` (App.Waiting); `rounds`
-- is the fuel of a wait.
module _ {F W : Type 0} ⦃float : Float64 F⦄ (p : Adapters W) (rounds : ℕ)
    (busy asleep : ℕ → ℕ → List ℕ) where
  -- One of the calls that start a goroutine, waitOp for a second, and must.
  unfoldable pub await :
      ℕ
      → Text
      → Task (App F W) (Operation × Task (App F W) (Unit {0}))
      → Program (App F W) Operation
  await k org_id call a =
      let ((op, body), started) = run_task call a in
      let (r, s) =
        wait_op p (busy k) (asleep k) rounds org_id op.id second
          (record { op = op.id; rest = body } ∷ [], started) in
      elim r [
        | none ↦ (hangs, s.1)
        | some (err e) ↦ (exits e, s.1)
        | some (ok q) ↦ (goes_on q, s.1)
      ]

  -- Parts 3 and 4: the branch's id.
  branch_out : Text → Program (App F W) Text
  unfolding await text_field ◌>>=◌
  branch_out org_id = do
    made ← await 0 org_id (create_project p org_id (bytes "prod"))
    project ← answers (text_field made (bytes "project_id"))
    root ← answers (text_field made (bytes "root_branch_id"))
    forked ← await 1 org_id (create_branch p org_id project root)
    answers (text_field forked (bytes "branch_id"))

  -- StartEndpoint at 0.25 to 2 CU, in parts 5 and 9.
  launch : ℕ → Text → Text → Program (App F W) Launched
  unfolding await field_as as_text as_int as_bool ◌>>=◌
  launch k org_id branch = do
    up ←
        await k org_id
          (start_endpoint p org_id branch (float.decimal (pos 25) 2) (float.decimal (pos 2) 0))
    hit ← answers (field_as as_bool up (bytes "warm_hit"))
    boot_ms ← answers (field_as as_int up (bytes "boot_ms"))
    id ← answers (field_as as_text up (bytes "endpoint_id"))
    answers (goes_on (id, hit, boot_ms))

  unfoldable pub walkthrough : Program (App F W) (Unit {0})
  unfolding branch_out launch ◌>>◌ ◌>>=◌
  walkthrough = do
    org_id ← onboard p
    branch ← branch_out org_id
    first ← launch 2 org_id branch
    let sni = first.0 ++ (b'.' ∷ (p.region ++ bytes ".internal"))
    three_ways p first.0 sni
    sleep_and_wake p org_id first.0 sni
    drained
    cold ← launch 3 org_id branch
    checks first cold
