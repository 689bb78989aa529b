-- ===== src/Pipeline/Solver/Optimal.antt =====
-- src/governance/change_pipeline/solver.go: Plan takes a feasible candidate of greatest score.
use mathlib.Core.List.{append-nil, append_assoc}
use sovereign_core.Prelude.{
  ℕ, zero, suc, Text, Float64, length, length-append, get_elem?, All, All-append, Bool-cases,
  Option-cases, ◌≡◌, refl, ◌⊎◌, inl, inr, true, false, List, [], ◌∷◌, ◌++◌, Option, none, some, ok,
  err, arith,
}
use sovereign_core.Pipeline.{Plan}
use sovereign_core.Pipeline.Solver.{
  EfficiencyWeights, Candidate, Formats, Search, score, hard_constraints, risk_of, round,
  search_from, search_start, plan_of, all_rejected, plan_result, solve,
}

-- IEEE comparison is a strict order, with NaN too: a NaN is less than nothing.
pub record IsStrictOrder {F : Type 0} (float : Float64 F) : Type 0 where
  pub irrefl : (a : F) → float.lt a a ≡ false
  pub trans : (a b c : F) → float.lt a b ≡ true → float.lt b c ≡ true → float.lt a c ≡ true

module _ {F : Type 0} ⦃float : Float64 F⦄ (w : EfficiencyWeights F) where
  -- No feasible candidate of the list scores more than b.
  abbrev pub Bounds : F → List (Candidate F) → Type 0
  Bounds b = All (λ x. hard_constraints x ≡ none → float.lt b (score w x) ≡ false)

  data Best (cands : List (Candidate F)) (best : Option ℕ) (best_score : F) : Type 0 where
    nobody : best ≡ none → best_score ≡ float.neg_inf → Best cands best best_score
    somebody :
        (i : ℕ) (c : Candidate F)
        → best ≡ some i
        → get_elem? cands i ≡ some c
        → hard_constraints c ≡ none
        → best_score ≡ score w c
        → Best cands best best_score

  abbrev Found : List (Candidate F) → Search F → Type 0
  Found cands st = Best cands st.best st.best_score × Bounds st.best_score cands

  get_elem?-append :
      (xs ys : List (Candidate F)) (i : ℕ) {c : Candidate F}
      → get_elem? xs i ≡ some c
      → get_elem? (xs ++ ys) i ≡ some c
  get_elem?-append [] ys i e = absurd (cc)
  get_elem?-append (x ∷ xs) ys zero e = e
  get_elem?-append (x ∷ xs) ys (suc i) e = get_elem?-append xs ys i e

  get_elem?-last :
      (xs : List (Candidate F)) (c : Candidate F) → get_elem? (xs ++ c ∷ []) (length xs) ≡ some c
  get_elem?-last [] c = refl
  get_elem?-last (x ∷ xs) c = get_elem?-last xs c

  Best-append :
      (xs ys : List (Candidate F)) (best : Option ℕ) (s : F)
      → Best xs best s
      → Best (xs ++ ys) best s
  Best-append xs ys best s (Best.nobody e m) = Best.nobody e m
  Best-append xs ys best s (Best.somebody i c e at f m) =
      Best.somebody i c e (get_elem?-append xs ys i at) f m

  Bounds-raise :
      (o : IsStrictOrder float) (xs : List (Candidate F)) (a b : F)
      → float.lt a b ≡ true
      → Bounds a xs
      → Bounds b xs
  Bounds-raise o [] a b l h = tt
  Bounds-raise o (x ∷ xs) a b l h = (
    (λ f. elim (Bool-cases (float.lt b (score w x))) [
      | inr less ↦ less
      | inl more ↦ absurd (cc (o.trans a b (score w x) l more, h.0 f))
    ]),
    Bounds-raise o xs a b l h.1,
  )

  round-Found :
      (o : IsStrictOrder float) (done : List (Candidate F)) (c : Candidate F) (st : Search F)
      → Found done st
      → Found (done ++ c ∷ []) (round w (length done) c st)
  unfolding round
  round-Found o done c st (b, h) = elim (Option-cases (hard_constraints c)) [
    | inr (why, broken) ↦
        rw (broken, round)
          (
            Best-append done (c ∷ []) _ _ b,
            All-append _ done (c ∷ []) h ((λ f. absurd (cc (broken, f))), tt),
          )
    | inl fine ↦ elim (Bool-cases (float.lt st.best_score (score w c))) [
      | inr less ↦
          rw (fine, less, round)
            (Best-append done (c ∷ []) _ _ b, All-append _ done (c ∷ []) h ((λ f. less), tt))
      | inl more ↦
          rw (fine, more, round)
            (
              Best.somebody (length done) c refl (get_elem?-last done c) fine refl,
              All-append _ done (c ∷ []) (Bounds-raise o done _ _ more h)
                  ((λ f. o.irrefl (score w c)), tt),
            )
    ]
  ]

  search_from-Found :
      (o : IsStrictOrder float) (done rest : List (Candidate F)) (st : Search F)
      → Found done st
      → Found (done ++ rest) (search_from w (length done) rest st)
  unfolding search_from
  search_from-Found o done [] st h = rw append-nil h
  search_from-Found o done (c ∷ rest) st h =
      let n : length (done ++ c ∷ []) ≡ suc (length done) =
        omega (arith, length-append done (c ∷ [])) in
      rw (n, append_assoc) at
        (search_from-Found o (done ++ c ∷ []) rest (round w (length done) c st)
          (round-Found o done c st h))

  -- The plan was made from this candidate.
  pub record Chosen (cands : List (Candidate F)) (plan : Plan F) : Type 0 where
    pub index : ℕ
    pub candidate : Candidate F
    pub listed : get_elem? cands index ≡ some candidate
    pub feasible : hard_constraints candidate ≡ none
    pub greatest : Bounds (score w candidate) cands
    pub line : Text
    pub steps : plan.steps ≡ line ∷ candidate.steps
    pub cost : plan.est_cost_delta ≡ candidate.cost_delta
    pub risk : plan.risk ≡ risk_of candidate

  plan_result-Chosen :
      (fmt : Formats) (cands : List (Candidate F)) (st : Search F)
      → Found cands st
      → ((plan : Plan F) × (plan_result fmt cands st ≡ ok plan) × Chosen cands plan)
        ⊎ ((e : Text) × (plan_result fmt cands st ≡ err e) × Bounds float.neg_inf cands)
  unfolding plan_result
  plan_result-Chosen fmt cands st (Best.nobody e s, h) =
      inr (all_rejected st, rw (e, plan_result), rw s at h)
  plan_result-Chosen fmt cands st (Best.somebody i c e at f s, h) = inl (
    plan_of fmt cands st.best_score c,
    rw (e, at, plan_result),
    record {
      index = i;
      candidate = c;
      listed = at;
      feasible = f;
      greatest = rw s at h;
      line = _;
      steps = refl;
      cost = refl;
      risk = refl;
    },
  )

  -- For any candidates, if the comparison of floats is a strict order, Plan either makes its plan of
  -- a listed candidate that keeps the hard constraints and whose score no other such candidate
  -- exceeds, with that candidate's steps behind a first line, its cost and its risk; or it is an
  -- error, and no candidate that keeps them scores more than minus infinity.
  pub solve_cases :
      (o : IsStrictOrder float) (fmt : Formats) (cands : List (Candidate F))
      → ((plan : Plan F) × (solve fmt w cands ≡ ok plan) × Chosen cands plan)
        ⊎ ((e : Text) × (solve fmt w cands ≡ err e) × Bounds float.neg_inf cands)
  unfolding solve
  solve_cases o fmt [] = inr (_, refl, tt)
  solve_cases o fmt (c ∷ cs) =
      plan_result-Chosen fmt (c ∷ cs) _
        (search_from-Found o [] (c ∷ cs) search_start (Best.nobody refl refl, tt))
