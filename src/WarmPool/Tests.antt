-- ===== src/WarmPool/Tests.antt =====
-- A pool over an engine that counts its boots, and the theorems at it.
use sovereign_core.Prelude.{
  ℕ, suc, ◌<◌, ℤ, pos, Text, bytes, ◌≡◌, refl, ◌⊎◌, List, [], ◌∷◌, ◌++◌, none, ok, ◌≤ℤ◌, ◌<ℤ◌,
  arith,
}
use sovereign_core.Prelude.FixedPoint.{Fixed, fin, fixed_point}
use sovereign_core.Ports.{StoragePort, Booted, Clock}
use sovereign_core.WarmPool.{
  WarmInstance, WarmPool, recent_acquires, replenish, acquire, new_warm_pool,
}
use sovereign_core.WarmPool.Policy.{
  WarmPoolPolicy, LoadProportionalPolicy, load_proportional_policy, fixed_policy,
  load_target_bounds,
}
use sovereign_core.WarmPool.Replenish.{Replenished, replenish-Replenished}
use sovereign_core.WarmPool.Acquire.{Hit, Miss, BootError, acquire_cases}
use sovereign_core.WarmPool.Fresh.{NewIds, Distinct, acquires, acquires-Distinct}

-- The world is the number of boots so far; the n-th instance has the id n.
abbrev counting_boot : Text → ℕ → Booted × ℕ
counting_boot region w =
    (record { instance_id = w ∷ []; host = bytes "vm"; boot_ms = pos 120; err = none }, suc w)

abbrev counting_storage : StoragePort ℕ
counting_storage = record {
  create_branch = λ o t p w. (ok (bytes "br"), w);
  delete_branch = λ o b w. (none, w);
  boot_instance = counting_boot;
  attach_branch = λ i b w. (none, w);
  suspend_endpoint = λ o e w. (none, w);
  delete_endpoint = λ o e w. (none, w);
}

abbrev still_clock : Clock ℕ
still_clock = record { now = λ w. (w, w) }

-- The ids given out are the numbers below the count.
counting-NewIds : NewIds still_clock counting_storage
counting-NewIds = record {
  Used = λ w id. (n : ℕ) × (n < w) × (id ≡ n ∷ []);
  boot_new = λ region w fine (n, l, e). ground arith;
  boot_used = λ region w fine. (w, omega arith, refl);
  boot_keeps = λ region w id (n, l, e). (n, omega arith, e);
  now_keeps = λ w id u. u;
}

abbrev show_none : ℤ → Text
show_none n = []

abbrev two : WarmPoolPolicy
two = fixed_policy show_none (record { n = pos 2 })

abbrev one_ready : WarmPool
one_ready = record {
  ready = record { id = bytes "old"; host = bytes "vm" } ∷ [];
  region = bytes "kr";
  policy = two;
  hits = 3;
  misses = 1;
  recent = [];
}

abbrev fresh : WarmPool × ℕ
fresh = new_warm_pool still_clock counting_storage (bytes "kr") two 0

abbrev served : List WarmInstance × WarmPool × ℕ
served = acquires still_clock counting_storage 3 [] fresh.0 fresh.1

-- Three hits from a pool of two, which three more boots refill.
boots_of_three : served.2 ≡ 5
unfolding acquires new_warm_pool fixed_policy replenish recent_acquires acquire
boots_of_three = refl

acquires-Distinct_example : Distinct (served.0 ++ served.1.ready)
acquires-Distinct_example =
    acquires-Distinct still_clock counting_storage counting-NewIds (bytes "kr") two 3 0

acquire_cases_example :
    Hit still_clock counting_storage one_ready 7 (acquire still_clock counting_storage one_ready 7)
    ⊎ Miss still_clock counting_storage one_ready 7
        (acquire still_clock counting_storage one_ready 7)
    ⊎ BootError still_clock counting_storage one_ready 7
        (acquire still_clock counting_storage one_ready 7)
acquire_cases_example = acquire_cases still_clock counting_storage one_ready 7

replenish-Replenished_example :
    Replenished counting_storage
      (one_ready.policy.target (recent_acquires still_clock counting_storage one_ready 7).0)
      one_ready
      (replenish still_clock counting_storage one_ready 7)
replenish-Replenished_example = replenish-Replenished still_clock counting_storage one_ready 7

abbrev half : LoadProportionalPolicy Fixed
half = record { buffer = fin (pos 500); min = pos 1; max = pos 4 }

load_target_bounds_example :
    let t = (load_proportional_policy show_none half).target (pos 6) in
    let product = fixed_point.to_int (fixed_point.mul (fixed_point.of_int (pos 6)) half.buffer) in
    (half.min ≤ℤ t)
    × (t ≤ℤ half.max)
    × ((t ≡ product)
        ⊎ (product <ℤ half.min) × (t ≡ half.min)
        ⊎ (half.max <ℤ product) × (t ≡ half.max))
load_target_bounds_example = load_target_bounds show_none half (pos 6) (omega arith)
