-- ===== src/App/Waiting.antt =====
-- src/controlplane/app.go: waitOp, which polls an operation while goroutines run.
pub mod Answers
pub mod Awaited
mod Tests
use sovereign_core.Prelude.{
  ℕ, zero, suc, ◌+◌, ltb, Text, bytes, ◌==◌, if◌then◌else◌, List, ◌++◌, Option, none, some, Result,
  ok, err,
}
use sovereign_core.Model.{Operation}
use sovereign_core.Store.{op_snapshot}
use sovereign_core.Tasks.{Job, interleave}
use sovereign_core.App.{Adapters, App, uses, on_core}

abbrev pub Running : Type 0 → Type 0 → Type 0
Running F W = List (Job (App F W)) × App F W

-- time.Millisecond, in nanoseconds.
abbrev pub millisecond : ℕ
millisecond = 1_000_000

-- In each round the goroutines take the turns `busy` after the clock is read, and `asleep` while
-- waitOp sleeps. How long it sleeps shows in the next reading.
module _ {F W : Type 0} (p : Adapters W) (busy asleep : ℕ → List ℕ) where
  unfoldable pub read_clock : ℕ → Running F W → ℕ × Running F W
  read_clock round (jobs, a) =
      let (now, a') = on_core (uses p.clock.now) a in (now, interleave (busy round) jobs a')

  unfoldable pub sleep : ℕ → Running F W → Running F W
  sleep round (jobs, a) = interleave (asleep round) jobs a

  -- The loop. `none` means that the fuel ran out.
  unfoldable pub poll :
      ℕ → ℕ → ℕ → Text → Text → Running F W → Option (Result Operation) × Running F W
  poll zero round deadline org_id op s = (none, s)
  poll (suc fuel) round deadline org_id op s =
      let (now, s') = read_clock round s in
      let rest = poll fuel (suc round) deadline org_id op (sleep round s') in
      if ltb now deadline
      then elim (op_snapshot s'.1.core.store org_id op) [
        | none ↦ rest
        | some q ↦ if q.status == bytes "running" then rest else (some (ok q), s')
      ]
      else (some (err (bytes "operation " ++ (op ++ bytes " timeout"))), s')

  unfoldable pub wait_op :
      ℕ → Text → Text → ℕ → Running F W → Option (Result Operation) × Running F W
  wait_op fuel org_id op timeout s =
      let (now, s') = read_clock 0 s in poll fuel 1 (now + timeout) org_id op s'
