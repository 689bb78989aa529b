-- ===== src/EngineBoundary/Pool.antt =====
-- src/governance/engine_boundary_sim/main.go: the operations engine comes first at the GPUs.
use sovereign_core.Prelude.{
  ap, ℤ, pos, negsuc, All, eq_of_parts, ◌∙◌, ◌+ℤ◌, ◌-ℤ◌, +ℤ_parts, -ℤ_parts, ltb_ℤ, ◌≤ℤ◌, ◌<ℤ◌, ◌≡◌,
  refl, ◌↔◌, true, List, [], ◌∷◌, arith, Bool-cases, ◌⊎◌, inl, inr,
}
use sovereign_core.EngineBoundary.{GpuPool, wrap_int, request_dev, ops_burst}

-- Bursts of the operations engine, one after another.
abbrev pub bursts : GpuPool → List ℤ → GpuPool
bursts g [] = g
bursts g (x ∷ xs) = bursts (ops_burst g x) xs

-- The sum as a number, with no wrap-around.
abbrev pub sum : List ℤ → ℤ
sum [] = pos 0
sum (x ∷ xs) = x +ℤ sum xs

abbrev pub IsNatural : ℤ → Type 0
IsNatural x = pos 0 ≤ℤ x

-- The total and what the operations engine comes to hold are in the range of an int.
pub record IsCounted (g : GpuPool) (amounts : List ℤ) : Type 0 where
  pub total : IsNatural g.total
  pub total_fits : g.total <ℤ pos 9223372036854775808
  pub usage : IsNatural g.ops_usage
  pub amounts_natural : All IsNatural amounts
  pub usage_fits : g.ops_usage +ℤ sum amounts <ℤ pos 9223372036854775808

-- A number in the range of an int is held as it is.
wrap_int-fits :
    (x : ℤ) → negsuc 9223372036854775807 ≤ℤ x → x <ℤ pos 9223372036854775808 → wrap_int x ≡ x
unfolding wrap_int
wrap_int-fits (pos n) low high = ground arith
wrap_int-fits (negsuc n) low high = ground arith

sum-IsNatural : (xs : List ℤ) → All IsNatural xs → IsNatural (sum xs)
sum-IsNatural [] h = omega arith
sum-IsNatural (x ∷ xs) h =
    let rest = sum-IsNatural xs h.1 in let parts = +ℤ_parts x (sum xs) in omega arith

bursts-total : (g : GpuPool) (xs : List ℤ) → (bursts g xs).total ≡ g.total
unfolding ops_burst
bursts-total g [] = refl
bursts-total g (x ∷ xs) = bursts-total (ops_burst g x) xs

sum_steps :
    (u x : ℤ) (xs : List ℤ)
    → IsNatural u
    → IsNatural x
    → All IsNatural xs
    → IsNatural (u +ℤ x)
      × (u +ℤ x ≤ℤ u +ℤ (x +ℤ sum xs))
      × ((u +ℤ x) +ℤ sum xs ≡ u +ℤ (x +ℤ sum xs))
sum_steps u x xs hu hx hs =
    let rest = sum-IsNatural xs hs in
    let a = +ℤ_parts u x in
    let b = +ℤ_parts x (sum xs) in
    let c = +ℤ_parts u (x +ℤ sum xs) in
    let d = +ℤ_parts (u +ℤ x) (sum xs) in (omega arith, omega arith, eq_of_parts _ _ (omega arith))

ops_burst-usage :
    (g : GpuPool) (x : ℤ) (xs : List ℤ)
    → IsCounted g (x ∷ xs)
    → (ops_burst g x).ops_usage ≡ g.ops_usage +ℤ x
unfolding ops_burst
ops_burst-usage g x xs h =
    let (natural, below, same) =
      sum_steps g.ops_usage x xs h.usage h.amounts_natural.0 h.amounts_natural.1 in
    let fits = h.usage_fits in wrap_int-fits (g.ops_usage +ℤ x) (omega arith) (omega arith)

ops_burst-IsCounted :
    (g : GpuPool) (x : ℤ) (xs : List ℤ) → IsCounted g (x ∷ xs) → IsCounted (ops_burst g x) xs
ops_burst-IsCounted g x xs h =
    let (natural, below, same) =
      sum_steps g.ops_usage x xs h.usage h.amounts_natural.0 h.amounts_natural.1 in
    let now = ops_burst-usage g x xs h in
    record {
      total = rw (bursts-total g (x ∷ [])) h.total;
      total_fits = rw (bursts-total g (x ∷ [])) h.total_fits;
      usage = rw now natural;
      amounts_natural = h.amounts_natural.1;
      usage_fits = rw (now, same) h.usage_fits;
    }

bursts-usage :
    (g : GpuPool) (xs : List ℤ) → IsCounted g xs → (bursts g xs).ops_usage ≡ g.ops_usage +ℤ sum xs
bursts-usage g [] h = let a = +ℤ_parts g.ops_usage (pos 0) in eq_of_parts _ _ (omega arith)
bursts-usage g (x ∷ xs) h =
    let (natural, below, same) =
      sum_steps g.ops_usage x xs h.usage h.amounts_natural.0 h.amounts_natural.1 in
    bursts-usage (ops_burst g x) xs (ops_burst-IsCounted g x xs h)
    ∙ ap (λ u. u +ℤ sum xs) (ops_burst-usage g x xs h)
    ∙ same

sum_natural : (g : GpuPool) (xs : List ℤ) → IsCounted g xs → IsNatural (g.ops_usage +ℤ sum xs)
sum_natural g xs h =
    let rest = sum-IsNatural xs h.amounts_natural in
    let natural = h.usage in let a = +ℤ_parts g.ops_usage (sum xs) in omega arith

idle-exact :
    (g : GpuPool) (xs : List ℤ)
    → IsCounted g xs
    → let h = bursts g xs in wrap_int (h.total -ℤ h.ops_usage) ≡ h.total -ℤ h.ops_usage
idle-exact g xs h =
    let natural = sum_natural g xs h in
    let fits = h.usage_fits in
    let total = h.total in
    let total_fits = h.total_fits in
    let a = -ℤ_parts g.total (g.ops_usage +ℤ sum xs) in
    rw (bursts-total g xs, bursts-usage g xs h)
      (wrap_int-fits (g.total -ℤ (g.ops_usage +ℤ sum xs)) (omega arith) (omega arith))

request_one :
    (h : GpuPool) (need : ℤ)
    → pos 0 ≤ℤ need
    → wrap_int (h.total -ℤ h.ops_usage) ≡ h.total -ℤ h.ops_usage
    → let (granted, preempted) = request_dev h need in
      ((h.total ≤ℤ h.ops_usage) × (granted ≡ pos 0) × (preempted ≡ true))
      ⊎ ((h.ops_usage <ℤ h.total)
          × (pos 0 ≤ℤ granted)
          × (granted +ℤ h.ops_usage ≤ℤ h.total)
          × ((preempted ≡ true) ↔ (granted <ℤ need)))
unfolding request_dev
request_one h need n exact =
    let left = -ℤ_parts h.total h.ops_usage in
    let all = +ℤ_parts (h.total -ℤ h.ops_usage) h.ops_usage in
    let used = +ℤ_parts need h.ops_usage in
    elim (Bool-cases (ltb_ℤ (pos 0) (h.total -ℤ h.ops_usage))) [
      | inr taken ↦ rw (exact, taken, request_dev) (inl (ground arith, refl, refl))
      | inl idle ↦ elim (Bool-cases (ltb_ℤ (h.total -ℤ h.ops_usage) need)) [
        | inl more ↦
            rw (exact, idle, more, request_dev)
              (inr (ground arith, ground arith, ground arith, ((λ e. ground arith), (λ e. refl))))
        | inr less ↦
            rw (exact, idle, less, request_dev)
              (inr
                (ground arith, n, ground arith, ((λ e. absurd (cc)), (λ e. absurd (omega arith)))))
      ]
    ]

-- Let the pool's total and usage and the amounts of some bursts be no negative numbers, and let the
-- total and the usage after the bursts be below 2⁶³, as they must be for Go's int not to wrap around.
-- Then the usage after the bursts is the sum, and a request of the development engine for no negative
-- amount gets none or what is left at most: if the operations engine has taken all or more, it gets 0
-- and counts as preempted; else what it gets and what the operations engine holds are within the
-- total, and it counts as preempted exactly if it gets less than it asked for.
pub request_dev_bounds :
    (g : GpuPool) (amounts : List ℤ) (need : ℤ)
    → IsCounted g amounts
    → pos 0 ≤ℤ need
    → let h = bursts g amounts in
      let (granted, preempted) = request_dev h need in
      (h.ops_usage ≡ g.ops_usage +ℤ sum amounts)
      × (((g.total ≤ℤ h.ops_usage) × (granted ≡ pos 0) × (preempted ≡ true))
          ⊎ ((h.ops_usage <ℤ g.total)
              × (pos 0 ≤ℤ granted)
              × (granted +ℤ h.ops_usage ≤ℤ g.total)
              × ((preempted ≡ true) ↔ (granted <ℤ need))))
request_dev_bounds g amounts need c n =
    let total = bursts-total g amounts in
    let usage = bursts-usage g amounts c in
    (usage, rw total at (request_one (bursts g amounts) need n (idle-exact g amounts c)))
