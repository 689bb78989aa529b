-- ===== src/Tasks/Turns.antt =====
-- A goroutine of bounded length ends once it has had that many turns, whatever the others do.
use sovereign_core.Prelude.{
  ℕ, zero, suc, ◌-◌, ◌≤◌, eqb, Text, get_elem?, if◌then◌else◌, false, ◌≡◌, refl, ◌∙◌, List, [], ◌∷◌,
  Option, none, some, Result, ok, err, arith,
}
use sovereign_core.Tasks.{Task, done, step, Job, resume, advance, interleave}
use sovereign_core.Tasks.Interleaving.{HasEnded}

-- It takes at most n steps, whatever the states are.
module _ {S A : Type 0} where
  unfoldable pub Within : ℕ → Task S A → Type 0
  Within n (done a) = Unit
  Within zero (step f k) = ⊥
  Within (suc n) (step f k) = (s : S) → Within n (k s)

  pub Within-Option :
      {B : Type 0} (n : ℕ) (o : Option B) (t : Task S A) (f : B → Task S A)
      → Within n t
      → ((b : B) → Within n (f b))
      → Within n (elim o [ none ↦ t | some b ↦ f b ])
  Within-Option n none t f h g = h
  Within-Option n (some b) t f h g = g b

  pub Within-Result :
      {B : Type 0} (n : ℕ) (r : Result B) (t : Text → Task S A) (f : B → Task S A)
      → ((e : Text) → Within n (t e))
      → ((b : B) → Within n (f b))
      → Within n (elim r [ err e ↦ t e | ok b ↦ f b ])
  Within-Result n (ok b) t f h g = g b
  Within-Result n (err e) t f h g = h e

abbrev pred : ℕ → ℕ
pred zero = zero
pred (suc n) = n

pred_le : (n m : ℕ) → n ≤ suc m → pred n ≤ m
pred_le zero m h = omega arith
pred_le (suc n) m h = omega arith

-- How many turns are the i-th goroutine's.
unfoldable pub turns_of : ℕ → List ℕ → ℕ
turns_of i [] = 0
turns_of i (k ∷ turns) = let rest = turns_of i turns in if eqb k i then suc rest else rest

less_each_turn :
    (n k i : ℕ) (turns : List ℕ)
    → (if eqb k i then pred n else n) - turns_of i turns ≡ n - turns_of i (k ∷ turns)
unfolding turns_of
less_each_turn zero k i turns = ground arith
less_each_turn (suc n) k i turns = ground arith

module _ {S : Type 0} where
  -- The i-th goroutine still works for the operation and has at most n steps left.
  abbrev pub LeftAt : ℕ → Text → ℕ → List (Job S) → Type 0
  LeftAt i op n js = (j : Job S) × (get_elem? js i ≡ some j) × (j.op ≡ op) × Within n j.rest

  resume-LeftAt :
      (op : Text) (js : List (Job S)) (t : Task S (Unit {0})) (s : S) (n : ℕ)
      → Within n t
      → LeftAt 0 op (pred n) (resume op js t s).0
  unfolding resume Within
  resume-LeftAt op js (done a) s n h = (record { op = op; rest = done a }, refl, refl, tt)
  resume-LeftAt op js (step f k) s zero h = absurd h
  resume-LeftAt op js (step f k) s (suc n) h = (record { op = op; rest = k s }, refl, refl, h s)

  resume-later :
      (op : Text) (js : List (Job S)) (t : Task S (Unit {0})) (s : S) (i : ℕ)
      → get_elem? (resume op js t s).0 (suc i) ≡ get_elem? js i
  unfolding resume
  resume-later op js (done a) s i = refl
  resume-later op js (step f k) s i = refl

  advance-LeftAt :
      (k i : ℕ) (op : Text) (n : ℕ) (js : List (Job S)) (s : S)
      → LeftAt i op n js
      → LeftAt i op (if eqb k i then pred n else n) (advance k js s).0
  unfolding advance
  advance-LeftAt k i op n [] s (j, e, o, h) = absurd (cc)
  advance-LeftAt zero zero op n (x ∷ js) s (j, e, o, h) =
      let same : x ≡ j = cc in rw (same, o) (resume-LeftAt op js j.rest s n h)
  advance-LeftAt zero (suc i) op n (x ∷ js) s (j, e, o, h) =
      let other : eqb 0 (suc i) ≡ false = ground arith in
      rw other (j, resume-later x.op js x.rest s i ∙ e, o, h)
  advance-LeftAt (suc k) zero op n (x ∷ js) s h =
      let other : eqb (suc k) 0 ≡ false = ground arith in rw other h
  advance-LeftAt (suc k) (suc i) op n (x ∷ js) s h =
      let same : eqb (suc k) (suc i) ≡ eqb k i = ground arith in
      rw same (advance-LeftAt k i op n js s h)

  pub interleave-LeftAt :
      (turns : List ℕ) (i : ℕ) (op : Text) (n : ℕ) (js : List (Job S)) (s : S)
      → LeftAt i op n js
      → LeftAt i op (n - turns_of i turns) (interleave turns js s).0
  unfolding interleave
  interleave-LeftAt [] i op n js s h =
      let none_less : n - turns_of i [] ≡ n = unfold turns_of in omega arith in rw none_less h
  interleave-LeftAt (k ∷ turns) i op n js s h = rw (less_each_turn n k i turns) at (
      interleave-LeftAt turns i op (if eqb k i then pred n else n) (advance k js s).0
        (advance k js s).1 (advance-LeftAt k i op n js s h))

  pub LeftAt-HasEnded :
      (i : ℕ) (op : Text) (js : List (Job S))
      → LeftAt i op 0 js
      → (j : Job S) × (get_elem? js i ≡ some j) × (j.op ≡ op) × HasEnded j.rest
  unfolding Within
  LeftAt-HasEnded i op js (j, e, o, h) = (j, e, o, ended j.rest h)
    where
      ended : (t : Task S (Unit {0})) → Within 0 t → HasEnded t
      ended (done a) h = tt
      ended (step f k) h = h

  pub interleave-HasEnded :
      (turns : List ℕ) (i : ℕ) (op : Text) (n : ℕ) (js : List (Job S)) (s : S)
      → LeftAt i op n js
      → n ≤ turns_of i turns
      → (j : Job S) × (get_elem? (interleave turns js s).0 i ≡ some j)
        × (j.op ≡ op)
        × HasEnded j.rest
  interleave-HasEnded turns i op n js s h l =
      let over : n - turns_of i turns ≡ 0 = omega arith in
      LeftAt-HasEnded i op (interleave turns js s).0
        (rw over at (interleave-LeftAt turns i op n js s h))
