-- ===== src/App/Waiting/Tests.antt =====
-- An operation that is awaited for a second, on a clock that moves by a millisecond at each reading.
use sovereign_core.Prelude.{
  ℕ, zero, suc, ◌+◌, ◌≤◌, ◌<◌, bytes, ◌==◌, lookup, insert, All, ◌≡◌, refl, ◌≢◌, List, [], ◌∷◌,
  Option, some, ok, Result, arith,
}
use sovereign_core.Prelude.FixedPoint.{Fixed, fixed_point}
use sovereign_core.Model.{Project, Operation}
use sovereign_core.Store.{Store, op_snapshot, get_project, new_store, put, puts, project, run}
use sovereign_core.Store
use sovereign_core.Tasks.{Job, interleave}
use sovereign_core.Tasks.Turns.{turns_of}
use sovereign_core.App.{Adapters, App}
use sovereign_core.App.Goroutines.{create_branch_body}
use sovereign_core.App.Samples.{ports, acme, running_op, plane, setup}
use sovereign_core.App.Operations.{Body, Started}
use sovereign_core.App.Waiting.{Running, millisecond, read_clock, sleep, wait_op}
use sovereign_core.App.Waiting.Answers.{Ticks, Answer, reading, after, wait_op_returns}
use sovereign_core.App.Waiting.Awaited.{turns_by, wait_op_succeeds}

abbrev slow : Adapters ℕ
slow = record ports { clock = record { now = λ w. (w, w + millisecond) } }

abbrev job : Job (App Fixed ℕ)
job = record {
  op = bytes "op_1";
  rest = create_branch_body slow acme (bytes "proj_1") [] (bytes "op_1");
}

abbrev prod : Project
prod = record {
  id = bytes "proj_1";
  org_id = acme;
  name = bytes "prod";
  region = bytes "kr";
  root_branch = bytes "br_0";
  created_at = 1;
}

abbrev stored : Store Fixed
stored = run new_store (puts (project prod) ∷ setup)

abbrev start : Running Fixed ℕ
start = (job ∷ [], record plane { core = record (plane.core) { store = stored } })

abbrev busy : ℕ → List ℕ
busy n = []

-- In the first round the goroutine has twelve turns.
abbrev asleep : ℕ → List ℕ
asleep zero = []
asleep (suc zero) = 0 ∷ 0 ∷ 0 ∷ 0 ∷ 0 ∷ 0 ∷ 0 ∷ 0 ∷ 0 ∷ 0 ∷ 0 ∷ 0 ∷ []
asleep (suc (suc n)) = []

later :
    (n : ℕ)
    → reading slow (after Fixed ℕ slow busy asleep n start) + millisecond
      ≤ reading slow (after Fixed ℕ slow busy asleep (suc n) start)
unfolding after read_clock sleep interleave create_branch_body get_project run new_store Store.step
    put lookup insert bytes ◌==◌
later zero = omega arith
later (suc n) = omega arith

start-Ticks : Ticks Fixed ℕ slow busy asleep start
unfolding after read_clock interleave
start-Ticks = record { onward = omega arith; later = later }

op_1_stored : op_snapshot stored acme (bytes "op_1") ≡ some (running_op (bytes "op_1"))
unfolding run new_store Store.step put lookup insert bytes ◌==◌ op_snapshot
op_1_stored = refl

start-Started : All (Started slow start.1) start.0
unfolding run new_store Store.step put lookup insert bytes ◌==◌
start-Started = (
  record {
    stored = (running_op (bytes "op_1"), refl, tt);
    body = Body.branch_body acme (bytes "proj_1") [];
  },
  tt,
)

enough_turns : 12 ≤ turns_by busy asleep 0 1
unfolding turns_of
enough_turns = omega arith

in_time : reading slow (after Fixed ℕ slow busy asleep 1 start) < reading slow start + 1_000_000_000
unfolding after read_clock sleep interleave create_branch_body get_project run new_store Store.step
    put lookup insert bytes ◌==◌
in_time = omega arith

abbrev answer : Option (Result Operation) × Running Fixed ℕ
answer = wait_op slow busy asleep 1002 acme (bytes "op_1") 1_000_000_000 start

wait_op_succeeds_example :
    (r : Operation) × (answer.0 ≡ some (ok r))
    × (op_snapshot answer.1.1.core.store acme (bytes "op_1") ≡ some r)
    × (r.status ≢ bytes "running")
wait_op_succeeds_example =
    wait_op_succeeds Fixed ℕ slow busy asleep acme 1_000_000_000 0 1 job (running_op (bytes "op_1"))
      start start-Started refl op_1_stored start-Ticks enough_turns in_time

wait_op_returns_example :
    (r : Result Operation) × (answer.0 ≡ some r)
    × Answer Fixed ℕ slow busy asleep
        (reading slow start + 1_000_000_000)
        acme
        (bytes "op_1")
        r
        answer.1
wait_op_returns_example =
    wait_op_returns Fixed ℕ slow busy asleep acme (bytes "op_1") 1_000_000_000 start start-Ticks
