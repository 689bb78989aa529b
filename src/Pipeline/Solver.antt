-- ===== src/Pipeline/Solver.antt =====
-- src/governance/change_pipeline/solver.go: the planner that takes the best feasible candidate.
pub mod Optimal
pub mod Executes
use sovereign_core.Prelude.{
  ℕ, suc, ℤ, pos, negsuc, Text, bytes, Float64, if◌then◌else◌, length, get_elem?, Bool, true, false,
  not, List, [], ◌∷◌, ◌++◌, Option, none, some, Result, ok, err,
}
use sovereign_core.Pipeline.{Risk, low, high, irreversible, ChangeRequest, PolicyDecision, Plan}
use sovereign_core.Pipeline.Words.{show_list}

pub record EfficiencyWeights (F : Type 0) : Type 0 where
  pub cost : F
  pub density : F
  pub gpu_util : F
  pub idle_penal : F

pub record Candidate (F : Type 0) : Type 0 where
  pub name : Text
  pub steps : List Text
  pub cost_delta : F
  pub density_delta : F
  pub gpu_util_delta : F
  pub idle_delta : F
  pub sla_headroom : F
  pub isolation_ok : Bool
  pub sovereignty_ok : Bool
  pub reversible : Bool

-- What of fmt the solver needs beside Float64.fixed: %d of an int and %q of a string.
pub record Formats : Type 0 where
  pub show_int : ℕ → Text
  pub quote : Text → Text

abbrev pub bool_str : Bool → Text → Text → Text
bool_str b t f = if b then t else f

-- The variables of the loop of Plan; `none` is the index -1.
pub record Search (F : Type 0) : Type 0 where
  pub best : Option ℕ
  pub best_score : F
  pub rejected : List Text

module _ {F : Type 0} ⦃float : Float64 F⦄ where
  unfoldable pub default_weights : EfficiencyWeights F
  default_weights = record {
    cost = float.decimal (pos 10) 1;
    density = float.decimal (pos 6) 1;
    gpu_util = float.decimal (pos 4) 1;
    idle_penal = float.decimal (pos 5) 1;
  }

  unfoldable pub score : EfficiencyWeights F → Candidate F → F
  score w c =
      float.sub
        (float.add
          (float.add (float.mul w.cost (float.neg c.cost_delta))
            (float.mul w.density c.density_delta))
          (float.mul w.gpu_util c.gpu_util_delta))
        (float.mul w.idle_penal c.idle_delta)

  -- The reason why a constraint is broken, or none.
  unfoldable pub hard_constraints : Candidate F → Option Text
  hard_constraints c =
      if float.lt c.sla_headroom (float.decimal (pos 0) 0)
      then some (bytes "SLA 여유 음수 = SLA 하드제약 위반")
      else if not c.isolation_ok
      then some (bytes "isolation_tier 최소격리 바닥 미충족 (D50)")
      else if not c.sovereignty_ok
      then some (bytes "주권 경계(리전·키) 위반 (D24/25)")
      else none

  unfoldable pub risk_of : Candidate F → Risk
  risk_of c =
      if not c.reversible
      then irreversible
      else if float.lt (float.decimal (pos 5) 1) (float.abs c.density_delta)
      then high
      else low

  round : EfficiencyWeights F → ℕ → Candidate F → Search F → Search F
  round w i c st = elim (hard_constraints c) [
    | some why ↦ record st { rejected = st.rejected ++ (c.name ++ (bytes ": " ++ why)) ∷ [] }
    | none ↦
        if float.lt st.best_score (score w c)
        then record st { best_score = score w c; best = some i }
        else st
  ]

  search_from : EfficiencyWeights F → ℕ → List (Candidate F) → Search F → Search F
  search_from w i [] st = st
  search_from w i (c ∷ cs) st = search_from w (suc i) cs (round w i c st)

  search_start : Search F
  search_start = record { best = none; best_score = float.neg_inf; rejected = [] }

  plan_of : Formats → List (Candidate F) → F → Candidate F → Plan F
  plan_of fmt cands best_score c = record {
    steps =
        (bytes "solver: "
          ++ (fmt.show_int (length cands)
              ++ (bytes "후보 중 "
                  ++ (fmt.quote c.name
                      ++ (bytes " 선택 (효율점수=" ++ (float.fixed 2 best_score ++ bytes ")"))))))
        ∷ c.steps;
    est_cost_delta = c.cost_delta;
    sla_impact = bytes "headroom=" ++ float.fixed 2 c.sla_headroom;
    isolation_impact = bool_str c.isolation_ok (bytes "바닥충족") (bytes "위반");
    risk = risk_of c;
  }

  all_rejected : Search F → Text
  all_rejected st = bytes "solver: 모든 후보가 하드제약 탈락 [" ++ (show_list st.rejected ++ bytes "]")

  -- After the loop.
  plan_result : Formats → List (Candidate F) → Search F → Result (Plan F)
  unfolding plan_of all_rejected
  plan_result fmt cands st = elim (st.best) [
    | none ↦ err (all_rejected st)
    | some i ↦ elim (get_elem? cands i) [
      | none ↦ err (all_rejected st)
      | some c ↦ ok (plan_of fmt cands st.best_score c)
    ]
  ]

  unfoldable pub solve : Formats → EfficiencyWeights F → List (Candidate F) → Result (Plan F)
  unfolding plan_result search_from round search_start
  solve fmt w [] = err (bytes "solver: 후보 0개 (집행 방법 없음)")
  solve fmt w (c ∷ cs) = plan_result fmt (c ∷ cs) (search_from w 0 (c ∷ cs) search_start)

-- Solver.Plan with the weights of NewSolver, for a generator of candidates.
unfoldable pub solver_plan :
    {F : Type 0} ⦃float : Float64 F⦄
    → Formats
    → (ChangeRequest → List (Candidate F))
    → ChangeRequest
    → PolicyDecision
    → Result (Plan F)
unfolding solve
solver_plan fmt generate req dec = solve fmt default_weights (generate req)
