-- ===== src/Tasks.antt =====
-- The goroutines of src/controlplane/app.go as tasks: what a goroutine does between two locks, or in
-- one call of a port, is a step on the shared state, and any other goroutine may take steps between.
pub mod Interleaving
pub mod Turns
pub mod Keeping
pub mod Pair
use sovereign_core.Prelude.{ℕ, zero, suc, Text, List, [], ◌∷◌}

-- The next step and what is left to do both depend on the state at that moment.
pub data Task (S A : Type 0) : Type 0 where
  done : A → Task S A
  step : (S → S) → (S → Task S A) → Task S A

module _ {S A : Type 0} where
  -- One step with an answer for the rest.
  abbrev pub atomic : {B : Type 0} → (S → B × S) → (B → Task S A) → Task S A
  atomic f k = step (λ s. (f s).1) (λ s. k (f s).0)

  -- With no other goroutine.
  unfoldable pub run_task : Task S A → S → A × S
  run_task (done a) s = (a, s)
  run_task (step f k) s = run_task (k s) (f s)

-- A goroutine that works for an operation.
pub record Job (S : Type 0) : Type 0 where
  pub op : Text
  pub rest : Task S (Unit {0})

module _ {S : Type 0} where
  resume : Text → List (Job S) → Task S (Unit {0}) → S → List (Job S) × S
  resume op others (done a) s = (record { op = op; rest = done a } ∷ others, s)
  resume op others (step f k) s = (record { op = op; rest = k s } ∷ others, f s)

  -- The i-th goroutine takes its next step.
  advance : ℕ → List (Job S) → S → List (Job S) × S
  unfolding resume
  advance i [] s = ([], s)
  advance zero (j ∷ js) s = resume j.op js j.rest s
  advance (suc i) (j ∷ js) s = let (js', s') = advance i js s in (j ∷ js', s')

  -- The goroutines take steps in the order of the turns.
  unfoldable pub interleave : List ℕ → List (Job S) → S → List (Job S) × S
  unfolding advance
  interleave [] js s = (js, s)
  interleave (i ∷ turns) js s = let (js', s') = advance i js s in interleave turns js' s'

-- The first task, and then what follows on its answer.
unfoldable pub bind : {S A B : Type 0} → Task S A → (A → Task S B) → Task S B
bind (done a) k = k a
bind (step f rest) k = step f (λ s. bind (rest s) k)
