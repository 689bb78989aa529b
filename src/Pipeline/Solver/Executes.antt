-- ===== src/Pipeline/Solver/Executes.antt =====
-- src/governance/change_pipeline: the pipeline with the solver as its planner.
use sovereign_core.Prelude.{
  Text, ◌∷◌, ℕ, pos, Float64, get_elem?, ◌≡◌, ◌∙◌, ◌≢◌, inl, inr, true, false, List, none, some, ok,
  arith,
}
use sovereign_core.Pipeline.{
  ChangeRequest, Plan, Pipeline, Outcome, AuditLog, executed, high, irreversible, handle,
  auto_agent, code_change,
}
use sovereign_core.Pipeline.Approval.{needs_owner_iff}
use sovereign_core.Pipeline.Safety.{decision, Handled, Refused-not_executed, handle_cases}
use sovereign_core.Pipeline.Solver.{
  Candidate, Formats, default_weights, hard_constraints, risk_of, solve, solver_plan,
}
use sovereign_core.Pipeline.Solver.Optimal.{IsStrictOrder, Chosen, solve_cases}

module _ {F : Type 0} ⦃float : Float64 F⦄ where
  -- Within the limits of what may go through with no owner.
  pub record IsModest (c : Candidate F) : Type 0 where
    pub sla : float.lt c.sla_headroom (float.decimal (pos 0) 0) ≡ false
    pub isolation : c.isolation_ok ≡ true
    pub sovereignty : c.sovereignty_ok ≡ true
    pub reversible : c.reversible ≡ true
    pub density : float.lt (float.decimal (pos 5) 1) (float.abs c.density_delta) ≡ false

  modest :
      (c : Candidate F)
      → hard_constraints c ≡ none
      → risk_of c ≢ high
      → risk_of c ≢ irreversible
      → IsModest c
  unfolding hard_constraints risk_of
  modest c f n m = ground arith

  solve-Chosen :
      (o : IsStrictOrder float) (fmt : Formats) (cands : List (Candidate F)) (plan : Plan F)
      → solve fmt default_weights cands ≡ ok plan
      → Chosen default_weights cands plan
  solve-Chosen o fmt cands plan e = elim (solve_cases default_weights o fmt cands) [
    | inl (q, f, chosen) ↦ let same : q ≡ plan = cc (e, f) in rw same at chosen
    | inr (x, f, h) ↦ absurd (cc (e, f))
  ]

abbrev pub with_solver :
    {F W : Type 0} ⦃float : Float64 F⦄
    → Pipeline F W
    → Formats
    → (ChangeRequest → List (Candidate F))
    → Pipeline F W
with_solver p fmt generate = record p {
  make_plan = λ req dec w. (solver_plan fmt generate req dec, w);
}

module _ {F W : Type 0} ⦃float : Float64 F⦄ (o : IsStrictOrder float) (p : Pipeline F W)
    (fmt : Formats) (generate : ChangeRequest → List (Candidate F)) where
  -- The executor has succeeded, called next after the policy engine, on a plan whose steps are a line of the solver's own and then those of
  -- a listed candidate within the limits, and it is what has changed the world.
  pub record RanModest (req : ChangeRequest) (w : W) (r : Outcome × AuditLog × W) : Type 0 where
    pub plan : Plan F
    pub log : AuditLog
    pub succeeded : (p.execute plan log (decision p req w).1).0 ≡ none
    pub world : r.2 ≡ (p.execute plan log (decision p req w).1).2
    pub index : ℕ
    pub candidate : Candidate F
    pub listed : get_elem? (generate req) index ≡ some candidate
    pub line : Text
    pub steps : plan.steps ≡ line ∷ candidate.steps
    pub modest : IsModest candidate
    pub free : ¬ ((req.origin ≡ auto_agent) × (req.kind ≡ code_change))

  Handled-modest :
      (req : ChangeRequest) (w : W) (r : Outcome × AuditLog × W)
      → Handled (with_solver p fmt generate) req w r
      → r.0 ≡ executed
      → RanModest req w r
  unfolding solver_plan
  Handled-modest req w r (Handled.refused n e) h =
      absurd (Refused-not_executed (with_solver p fmt generate) req w r e h)
  Handled-modest req w r (Handled.held plan j owner x e) h = absurd (ground arith)
  Handled-modest req w r (Handled.ran plan log j free e (inr (x, err))) h = absurd (ground arith)
  Handled-modest req w r (Handled.ran plan log j free e (inl (x, fine))) h =
      let chosen = solve-Chosen o fmt (generate req) plan j.planned in
      record {
        plan = plan;
        log = log;
        succeeded = fine;
        world = e;
        index = chosen.index;
        candidate = chosen.candidate;
        listed = chosen.listed;
        line = chosen.line;
        steps = chosen.steps;
        modest =
            modest chosen.candidate chosen.feasible
              (λ e. cc ((needs_owner_iff req plan).1 (inl (chosen.risk ∙ e)), free))
              (λ e. cc ((needs_owner_iff req plan).1 (inr (inl (chosen.risk ∙ e))), free));
        free = λ a. cc ((needs_owner_iff req plan).1 (inr (inr a)), free);
      }

  -- What the pipeline executes with the solver as its planner, any other adapters and any generator
  -- of candidates, if the comparison of floats is a strict order. When Handle answers EXECUTED, the
  -- executor has succeeded, called next after the policy engine, on a plan whose steps are one line of the solver's own followed by those
  -- of a listed candidate, and the world is as the executor has left it; the candidate's SLA headroom
  -- is not negative, it keeps isolation and sovereignty, is reversible and changes density by no more
  -- than 0.5; and the request is not a code change that claims an auto-agent.
  pub handle-IsModest :
      (req : ChangeRequest) (w : W)
      → (handle (with_solver p fmt generate) req w).0 ≡ executed
      → RanModest req w (handle (with_solver p fmt generate) req w)
  handle-IsModest req w h =
      Handled-modest req w _ (handle_cases (with_solver p fmt generate) req w) h
