-- ===== src/EngineBoundary/Tests.antt =====
-- The three questions of main, and a pool of 100 GPUs with 60 in use.
use sovereign_core.Prelude.{
  Text, ℤ, ◌-ℤ◌, ◌==◌, false, refl, map, Option, none, some, Result, ok, err, pos, ◌+ℤ◌, ◌≤ℤ◌, ◌<ℤ◌,
  bytes, ◌≡◌, ◌↔◌, ◌⊎◌, true, [], ◌∷◌, arith,
}
use sovereign_core.EngineBoundary.{
  ops, dev, infer, apply_ops, route_dev, direct_write, ops_burst, wrap_int, GpuPool, request_dev,
}
use sovereign_core.EngineBoundary.Demo.{share, scenarios, agent, routed, writes}
use sovereign_core.EngineBoundary.Pool.{bursts, sum, IsCounted, request_dev_bounds}

abbrev IsOk : Result Text → Type 0
IsOk (ok t) = Unit
IsOk (err e) = ⊥

abbrev IsSome : Option Text → Type 0
IsSome none = ⊥
IsSome (some t) = Unit

abbrev gpus : GpuPool
gpus = record { total = pos 100; ops_usage = pos 0 }

two_bursts : IsCounted gpus (pos 20 ∷ pos 40 ∷ [])
unfolding ◌+ℤ◌
two_bursts = record {
  total = omega arith;
  total_fits = omega arith;
  usage = omega arith;
  amounts_natural = (omega arith, (omega arith, tt));
  usage_fits = omega arith;
}

request_dev_bounds_example :
    let h = bursts gpus (pos 20 ∷ pos 40 ∷ []) in
    let (granted, preempted) = request_dev h (pos 50) in
    (h.ops_usage ≡ gpus.ops_usage +ℤ sum (pos 20 ∷ pos 40 ∷ []))
    × (((gpus.total ≤ℤ h.ops_usage) × (granted ≡ pos 0) × (preempted ≡ true))
        ⊎ ((h.ops_usage <ℤ gpus.total)
            × (pos 0 ≤ℤ granted)
            × (granted +ℤ h.ops_usage ≤ℤ gpus.total)
            × ((preempted ≡ true) ↔ (granted <ℤ pos 50))))
request_dev_bounds_example =
    request_dev_bounds gpus (pos 20 ∷ pos 40 ∷ []) (pos 50) two_bursts (omega arith)

-- Beyond the range of an int the usage wraps around to 48, and GPUs are granted.
overflow_grants :
    request_dev
      (bursts gpus (pos 9223372036854775807 ∷ pos 9223372036854775807 ∷ pos 50 ∷ []))
      (pos 40)
    ≡ (pos 40, false)
unfolding request_dev ops_burst wrap_int ◌+ℤ◌ ◌-ℤ◌
overflow_grants = refl

scenarios_shared :
    map (λ (n : ℤ). share n) scenarios ≡ (pos 40, false) ∷ (pos 40, false) ∷ (pos 5, true) ∷ []
unfolding request_dev ops_burst wrap_int ◌+ℤ◌ ◌-ℤ◌
scenarios_shared = refl

purposes_routed :
    ((routed (agent ops)).0 ≡ bytes "ops-result")
    × ((routed (agent dev)).0 ≡ bytes "code-diff")
    × IsOk (routed (agent ops)).1
    × IsOk (routed (agent dev)).1
unfolding infer apply_ops route_dev direct_write bytes ◌==◌
purposes_routed = (refl, refl, tt, tt)

only_dev_refused : IsSome writes.0 × (writes.1 ≡ none)
unfolding infer direct_write bytes ◌==◌
only_dev_refused = (tt, refl)
