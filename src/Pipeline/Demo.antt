-- ===== src/Pipeline/Demo.antt =====
-- src/governance/change_pipeline/main.go: the demonstration of main, less what it prints. `fmt` has the
-- formats of numbers and quoted texts.
use sovereign_core.Prelude.{Text, bytes, Float64, Bool, true, false, List, [], ◌∷◌, none}
use sovereign_core.Pipeline.{
  ChangeRequest, AuditLog, Pipeline, Outcome, handle, code_change, resource_op, auto_agent,
  purpose_dev,
}
use sovereign_core.Pipeline.Solver.{Formats, solver_plan}
use sovereign_core.Pipeline.Mocks.{mock_attest, mock_evaluate, mock_execute, mock_generate}

abbrev pub mock_pipeline : {F W : Type 0} ⦃float : Float64 F⦄ → Formats → Pipeline F W
mock_pipeline fmt = record {
  attest = λ req w. (mock_attest req, w);
  evaluate = λ req w. (mock_evaluate req, w);
  make_plan = λ req dec w. (solver_plan fmt mock_generate req dec, w);
  execute = mock_execute;
}

-- The loop over the cases.
unfoldable pub handle_all :
    {F W : Type 0} ⦃float : Float64 F⦄
    → Pipeline F W
    → List ChangeRequest
    → W
    → List (Outcome × AuditLog) × W
handle_all p [] w = ([], w)
handle_all p (req ∷ reqs) w =
    let (outcome, audit, w') = handle p req w in
    let (rest, w'') = handle_all p reqs w' in ((outcome, audit) ∷ rest, w'')

abbrev request : Text → Text → Text → Text → Bool → ChangeRequest
request id origin kind summary reversible = record {
  id = id;
  origin = origin;
  purpose = [];
  kind = kind;
  proposal = record { summary = summary; target = []; reversible = reversible; body = none };
  tenant_scope = [];
  created_at = 0;
}

-- The same from the development engine, at a target.
abbrev dev_request : Text → Text → Text → Text → ChangeRequest
dev_request id kind summary target = record {
  id = id;
  origin = bytes "c-agent";
  purpose = purpose_dev;
  kind = kind;
  proposal = record { summary = summary; target = target; reversible = true; body = none };
  tenant_scope = [];
  created_at = 0;
}

abbrev pub cases : List ChangeRequest
cases =
    request (bytes "r1") (bytes "c-agent") (bytes "self_improve")
      (bytes "raise density on node-7 within tier") true
    ∷ request (bytes "r2") (bytes "owner") (bytes "feature_toggle")
        (bytes "enable pgvector for tenant-A") true
    ∷ request (bytes "r3") auto_agent code_change (bytes "patch connection pooler") true
    ∷ request (bytes "r4") (bytes "c-agent") resource_op (bytes "migrate cross-region-key for cost")
        false
    ∷ request (bytes "r5") (bytes "owner-client") code_change (bytes "schema-drop legacy column")
        false
    ∷ request (bytes "r6") (bytes "timeline") (bytes "feature_toggle")
        (bytes "disable-isolation for speed") true
    ∷ dev_request (bytes "r7") resource_op (bytes "dev engine tries to rebind node directly")
        (bytes "infra/node-7")
    ∷ dev_request (bytes "r8") code_change (bytes "propose pooler patch (diff only)")
        (bytes "src/proxy/pooler.go")
    ∷ []
