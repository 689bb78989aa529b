-- ===== src/EngineBoundary/Demo.antt =====
-- src/governance/engine_boundary_sim/main.go: the three questions of main, less what it prints.
use sovereign_core.Prelude.{
  ℤ, pos, Text, bytes, ◌==◌, if◌then◌else◌, Bool, List, [], ◌∷◌, Option, Result,
}
use sovereign_core.EngineBoundary.{
  ops, dev, CallContext, infer, request_dev, ops_burst, apply_ops, direct_write, route_dev,
}

-- Q1: each scenario has its own pool of 100.
abbrev pub share : ℤ → ℤ × Bool
share ops_amt =
    request_dev (ops_burst (record { total = pos 100; ops_usage = pos 0 }) ops_amt) (pos 40)

abbrev pub scenarios : List ℤ
scenarios = pos 20 ∷ pos 60 ∷ pos 95 ∷ []

abbrev pub agent : Text → CallContext
agent purpose = record { provenance = bytes "c-agent"; purpose = purpose }

-- Q2: the kind of the output, and what becomes of it on the route of its purpose.
abbrev pub routed : CallContext → Text × Result Text
routed ctx =
    let out = infer ctx (bytes "connection pooler 최적화") in
    (out.kind, if ctx.purpose == ops then apply_ops out else route_dev out)

-- Q3: what is answered to a direct write by the development engine and by the operations engine.
abbrev pub writes : Option Text × Option Text
writes = (direct_write (infer (agent dev) (bytes "격리 설정 변경")).ctx, direct_write (agent ops))
