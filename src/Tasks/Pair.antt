-- ===== src/Tasks/Pair.antt =====
-- Two goroutines with answers, which take turns with each other and with the rest of the program.
use sovereign_core.Prelude.{All, List, [], ◌∷◌}
use sovereign_core.Tasks.{Task, done, step, run_task}

-- Whose turn it is; a step of any other goroutine is what it does to the state.
pub data Turn (S : Type 0) : Type 0 where
  first second : Turn S
  other : (S → S) → Turn S

unfoldable pub turn : {S A : Type 0} → Task S A → S → Task S A × S
turn (done a) s = (done a, s)
turn (step f k) s = (k s, f s)

module _ {S A : Type 0} where
  -- After the turns, the first runs to its end, and then the second.
  unfoldable pub race : List (Turn S) → Task S A → Task S A → S → (A × A) × S
  race [] t u s = let (a, s') = run_task t s in let (b, s'') = run_task u s' in ((a, b), s'')
  race (first ∷ turns) t u s = let (t', s') = turn t s in race turns t' u s'
  race (second ∷ turns) t u s = let (u', s') = turn u s in race turns t u' s'
  race (other f ∷ turns) t u s = race turns t u (f s)

  -- What every turn keeps holds at the end.
  module _ (I : Task S A → Task S A → S → Type 0)
      (by_first : (t u : Task S A) (s : S) → I t u s → I (turn t s).0 u (turn t s).1)
      (by_second : (t u : Task S A) (s : S) → I t u s → I t (turn u s).0 (turn u s).1) where
    abbrev pub IsHarmless : Turn S → Type 0
    IsHarmless first = Unit
    IsHarmless second = Unit
    IsHarmless (other f) = (t u : Task S A) (s : S) → I t u s → I t u (f s)

    run_first : (t u : Task S A) (s : S) → I t u s → I (done (run_task t s).0) u (run_task t s).1
    unfolding run_task turn
    run_first (done a) u s h = h
    run_first (step f k) u s h = run_first (k s) u (f s) (by_first (step f k) u s h)

    run_second : (t u : Task S A) (s : S) → I t u s → I t (done (run_task u s).0) (run_task u s).1
    unfolding run_task turn
    run_second t (done a) s h = h
    run_second t (step f k) s h = run_second t (k s) (f s) (by_second t (step f k) s h)

    pub race_rule :
        (turns : List (Turn S)) (t u : Task S A) (s : S)
        → All IsHarmless turns
        → I t u s
        → let ((a, b), s') = race turns t u s in I (done a) (done b) s'
    unfolding race
    race_rule [] t u s w h = run_second _ u _ (run_first t u s h)
    race_rule (first ∷ turns) t u s w h = race_rule turns _ u _ w.1 (by_first t u s h)
    race_rule (second ∷ turns) t u s w h = race_rule turns t _ _ w.1 (by_second t u s h)
    race_rule (other f ∷ turns) t u s w h = race_rule turns t u (f s) w.1 (w.0 t u s h)
