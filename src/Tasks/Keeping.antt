-- ===== src/Tasks/Keeping.antt =====
-- A fact about the state that every step of every goroutine keeps, in any interleaving.
use sovereign_core.Prelude.{
  ℕ, zero, suc, Text, All, ◌≡◌, refl, List, [], ◌∷◌, Option, none, some, Result, ok, err,
}
use sovereign_core.Tasks.{Task, done, step, Job, resume, advance, interleave}

module _ {S A : Type 0} where
  -- Every step from a state with P leads to one with P.
  unfoldable pub Keeps : (S → Type 0) → Task S A → Type 0
  Keeps P (done a) = Unit
  Keeps P (step f k) = (s : S) → P s → P (f s) × Keeps P (k s)

  module _ (P : S → Type 0) where
    pub Keeps-Option :
        {B : Type 0} (o : Option B) (t : Task S A) (f : B → Task S A)
        → Keeps P t
        → ((b : B) → Keeps P (f b))
        → Keeps P (elim o [ none ↦ t | some b ↦ f b ])
    Keeps-Option none t f h g = h
    Keeps-Option (some b) t f h g = g b

    -- The rest may rely on what the result is.
    pub Keeps-Result :
        {B : Type 0} (r : Result B) (t : Text → Task S A) (f : B → Task S A)
        → ((e : Text) → Keeps P (t e))
        → ((b : B) → r ≡ ok b → Keeps P (f b))
        → Keeps P (elim r [ err e ↦ t e | ok b ↦ f b ])
    Keeps-Result (ok b) t f h g = g b refl
    Keeps-Result (err e) t f h g = h e

module _ {S : Type 0} (P : S → Type 0) where
  resume-Keeps :
      (op : Text) (js : List (Job S)) (t : Task S (Unit {0})) (s : S)
      → Keeps P t
      → All (λ j. Keeps P j.rest) js
      → P s
      → let r = resume op js t s in All (λ j. Keeps P j.rest) r.0 × P r.1
  unfolding resume Keeps
  resume-Keeps op js (done a) s h hs p = ((tt, hs), p)
  resume-Keeps op js (step f k) s h hs p = let (p', h') = h s p in ((h', hs), p')

  advance-Keeps :
      (i : ℕ) (js : List (Job S)) (s : S)
      → All (λ j. Keeps P j.rest) js
      → P s
      → let r = advance i js s in All (λ j. Keeps P j.rest) r.0 × P r.1
  unfolding advance
  advance-Keeps i [] s h p = (tt, p)
  advance-Keeps zero (j ∷ js) s h p = resume-Keeps j.op js j.rest s h.0 h.1 p
  advance-Keeps (suc i) (j ∷ js) s h p =
      let (tail, p') = advance-Keeps i js s h.1 p in ((h.0, tail), p')

  pub interleave-Keeps :
      (turns : List ℕ) (js : List (Job S)) (s : S)
      → All (λ j. Keeps P j.rest) js
      → P s
      → P (interleave turns js s).1
  unfolding interleave
  interleave-Keeps [] js s h p = p
  interleave-Keeps (i ∷ turns) js s h p =
      let (h', p') = advance-Keeps i js s h p in
      interleave-Keeps turns (advance i js s).0 (advance i js s).1 h' p'
