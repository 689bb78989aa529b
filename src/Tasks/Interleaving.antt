-- ===== src/Tasks/Interleaving.antt =====
-- What holds of goroutines in every interleaving: a relation that every step keeps to, and a fact
-- about its operation that each goroutine has brought about when it ends.
use sovereign_core.Prelude.{
  ℕ, zero, suc, Text, All, ◌≡◌, refl, ◌⊎◌, inl, inr, List, [], ◌∷◌, Option, none, some, Result, ok,
  err,
}
use sovereign_core.Tasks.{Task, done, step, Job, resume, advance, interleave}

module _ {S A : Type 0} where
  abbrev pub HasEnded : Task S A → Type 0
  HasEnded (done a) = Unit
  HasEnded (step f k) = ⊥

  abbrev pub IsRunning : Task S A → Type 0
  IsRunning (done a) = ⊥
  IsRunning (step f k) = Unit

  -- Every step, whatever the state at that moment, is related by R, and on every path the last step
  -- makes P true if Q holds.
  unfoldable pub Delivers : (S → S → Type 0) → (S → Type 0) → (S → Type 0) → Task S A → Type 0
  Delivers R Q P (done a) = ⊥
  Delivers R Q P (step f k) =
      (s : S) → R s (f s) × (((Q s → P (f s)) × HasEnded (k s)) ⊎ Delivers R Q P (k s))

  module _ (R : S → S → Type 0) (Q P : S → Type 0) where
    pub Delivers-Option :
        {B : Type 0} (o : Option B) (t : Task S A) (f : B → Task S A)
        → Delivers R Q P t
        → ((b : B) → Delivers R Q P (f b))
        → Delivers R Q P (elim o [ none ↦ t | some b ↦ f b ])
    Delivers-Option none t f h g = h
    Delivers-Option (some b) t f h g = g b

    pub Delivers-Result :
        {B : Type 0} (r : Result B) (t : Text → Task S A) (f : B → Task S A)
        → ((e : Text) → Delivers R Q P (t e))
        → ((b : B) → Delivers R Q P (f b))
        → Delivers R Q P (elim r [ err e ↦ t e | ok b ↦ f b ])
    Delivers-Result (ok b) t f h g = g b
    Delivers-Result (err e) t f h g = h e

module _ {S : Type 0} (R : S → S → Type 0) (Q P : Text → S → Type 0)
    (keep_Q : (op : Text) (s t : S) → R s t → Q op s → Q op t)
    (keep_P : (op : Text) (s t : S) → R s t → P op s → P op t) where
  -- A goroutine has ended and brought about P, or it is on the way.
  abbrev pub Owes : S → Job S → Type 0
  Owes s j = (P j.op s × HasEnded j.rest) ⊎ (Q j.op s × Delivers R (Q j.op) (P j.op) j.rest)

  pub Owes-step : (s t : S) (js : List (Job S)) → R s t → All (Owes s) js → All (Owes t) js
  Owes-step s t [] r h = tt
  Owes-step s t (j ∷ js) r h = (
    elim (h.0) [
      | inl (p, e) ↦ inl (keep_P j.op s t r p, e)
      | inr (q, d) ↦ inr (keep_Q j.op s t r q, d)
    ],
    Owes-step s t js r h.1,
  )

  -- The next state is the same or related.
  abbrev Moved : S → S → Type 0
  Moved s t = (s ≡ t) ⊎ R s t

  Owes-Moved : (s t : S) (js : List (Job S)) → Moved s t → All (Owes s) js → All (Owes t) js
  Owes-Moved s t js (inl e) h = rw e at h
  Owes-Moved s t js (inr r) h = Owes-step s t js r h

  resume-Owes :
      (op : Text) (js : List (Job S)) (rest : Task S (Unit {0})) (s : S)
      → Owes s (record { op = op; rest = rest })
      → All (Owes s) js
      → let r = resume op js rest s in All (Owes r.1) r.0 × Moved s r.1
  unfolding resume Delivers
  resume-Owes op js (done a) s h hs = ((h, hs), inl refl)
  resume-Owes op js (step f k) s (inl (p, e)) hs = absurd e
  resume-Owes op js (step f k) s (inr (q, d)) hs =
      let (r, next) = d s in
      (
        (
          elim next [
            | inl (last, ended) ↦ inl (last q, ended)
            | inr later ↦ inr (keep_Q op s (f s) r q, later)
          ],
          Owes-step s (f s) js r hs,
        ),
        inr r,
      )

  advance-Owes :
      (i : ℕ) (js : List (Job S)) (s : S)
      → All (Owes s) js
      → let r = advance i js s in All (Owes r.1) r.0 × Moved s r.1
  unfolding advance
  advance-Owes i [] s h = (tt, inl refl)
  advance-Owes zero (j ∷ js) s h = resume-Owes j.op js j.rest s h.0 h.1
  advance-Owes (suc i) (j ∷ js) s h =
      let (tail, moved) = advance-Owes i js s h.1 in
      let head = Owes-Moved s (advance i js s).1 (j ∷ []) moved (h.0, tt) in ((head.0, tail), moved)

  pub interleave-Owes :
      (turns : List ℕ) (js : List (Job S)) (s : S)
      → All (Owes s) js
      → let r = interleave turns js s in All (Owes r.1) r.0
  unfolding interleave
  interleave-Owes [] js s h = h
  interleave-Owes (i ∷ turns) js s h =
      interleave-Owes turns (advance i js s).0 (advance i js s).1 (advance-Owes i js s h).0

  -- A fact I that R preserves holds after any interleaving.
  pub interleave-invariant :
      (I : S → Type 0) (keep_I : (s t : S) → R s t → I s → I t) (turns : List ℕ) (js : List (Job S))
      (s : S)
      → All (Owes s) js
      → I s
      → I (interleave turns js s).1
  unfolding interleave
  interleave-invariant I keep_I [] js s h holds = holds
  interleave-invariant I keep_I (i ∷ turns) js s h holds =
      let (owe, moved) = advance-Owes i js s h in
      interleave-invariant I keep_I turns (advance i js s).0 (advance i js s).1 owe
        (elim moved [ inl e ↦ rw e at holds | inr r ↦ keep_I s (advance i js s).1 r holds ])

  Delivers-IsRunning :
      (op : Text) (t : Task S (Unit {0})) → Delivers R (Q op) (P op) t → IsRunning t
  unfolding Delivers
  Delivers-IsRunning op (done a) e = e
  Delivers-IsRunning op (step f k) e = tt

  Owes-result :
      (s : S) (js : List (Job S)) → All (Owes s) js → All (λ j. IsRunning j.rest ⊎ P j.op s) js
  Owes-result s [] h = tt
  Owes-result s (j ∷ js) h = (
    elim (h.0) [ inl (p, e) ↦ inr p | inr (q, d) ↦ inl (Delivers-IsRunning j.op j.rest d) ],
    Owes-result s js h.1,
  )

  pub interleave-result :
      (turns : List ℕ) (js : List (Job S)) (s : S)
      → All (Owes s) js
      → let r = interleave turns js s in All (λ j. IsRunning j.rest ⊎ P j.op r.1) r.0
  interleave-result turns js s h =
      Owes-result (interleave turns js s).1 (interleave turns js s).0 (interleave-Owes turns js s h)
