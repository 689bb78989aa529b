-- ===== src/WarmPool/Acquire.antt =====
-- src/controlplane/warmpool.go: Acquire, on every branch.
use sovereign_core.Prelude.{
  ◌+◌, pos, Text, Option-cases, ◌≡◌, refl, ◌⊎◌, ◌≢◌, inl, inr, true, false, List, [], ◌∷◌, ◌++◌,
  none, some, arith,
}
use sovereign_core.Ports.{StoragePort, Booted, Clock}
use sovereign_core.WarmPool.{
  WarmInstance, WarmPool, Acquired, recent_acquires, acquire_from, acquire,
}
use sovereign_core.WarmPool.Replenish.{Replenished, replenish-Replenished}

module _ {W : Type 0} (clock : Clock W) (storage : StoragePort W) where
  -- The demand signal: the time of the call is noted first.
  abbrev noted : WarmPool → W → WarmPool
  noted p w = record p { recent = p.recent ++ (clock.now w).0 ∷ [] }

  abbrev pub booted : WarmPool → W → Booted
  booted p w = (storage.boot_instance p.region (clock.now w).1).0

  abbrev Stocked : WarmPool → W → WarmPool × W → Type 0
  Stocked p w r = Replenished storage (p.policy.target (recent_acquires clock storage p w).0) p r

  -- A warm instance is at hand: the oldest is given, at no boot time, the call is a hit, and the
  -- rest is replenished.
  pub record Hit (p : WarmPool) (w : W) (r : Acquired × WarmPool × W) : Type 0 where
    pub rest : List WarmInstance
    pub oldest : p.ready ≡ r.0.inst ∷ rest
    pub answer : (r.0.hit ≡ true) × (r.0.boot_ms ≡ pos 0) × (r.0.err ≡ none)
    pub refill :
        Stocked (record (noted p w) { ready = rest; hits = p.hits + 1 }) (clock.now w).1 (r.1, r.2)

  -- No warm instance, and the boot succeeds: that instance is given with its boot time, the call is
  -- a miss, and the pool is replenished.
  pub record Miss (p : WarmPool) (w : W) (r : Acquired × WarmPool × W) : Type 0 where
    pub empty : p.ready ≡ []
    pub boots : (booted p w).err ≡ none
    pub given : (r.0.inst.id ≡ (booted p w).instance_id) × (r.0.inst.host ≡ (booted p w).host)
    pub answer : (r.0.hit ≡ false) × (r.0.boot_ms ≡ (booted p w).boot_ms) × (r.0.err ≡ none)
    pub refill :
        Stocked
          (record (noted p w) { misses = p.misses + 1 })
          (storage.boot_instance p.region (clock.now w).1).1
          (r.1, r.2)

  -- No warm instance, and the boot fails: the error is passed on, and of the pool only the demand
  -- signal changes.
  pub record BootError (p : WarmPool) (w : W) (r : Acquired × WarmPool × W) : Type 0 where
    pub empty : p.ready ≡ []
    pub error : Text
    pub fails : (booted p w).err ≡ some error
    pub answer : (r.0.hit ≡ false) × (r.0.err ≡ some error)
    pub pool : r.1 ≡ noted p w

  acquire_from_cases :
      (p : WarmPool) (w : W) (l : List WarmInstance)
      → p.ready ≡ l
      → let r = acquire_from clock storage l (noted p w) (clock.now w).1 in
        Hit p w r ⊎ Miss p w r ⊎ BootError p w r
  unfolding acquire_from
  acquire_from_cases p w (inst ∷ rest) e = inl (record {
    rest = rest;
    oldest = e;
    answer = (refl, refl, refl);
    refill = replenish-Replenished clock storage _ _;
  })
  acquire_from_cases p w [] e = elim (Option-cases (booted p w).err) [
    | inl fine ↦
        rw (fine, acquire_from)
          (inr (
            inl (record {
              empty = e;
              boots = fine;
              given = (refl, refl);
              answer = (refl, refl, refl);
              refill = replenish-Replenished clock storage _ _;
            })))
    | inr (x, broken) ↦
        rw (broken, acquire_from)
          (inr (
            inr (record {
              empty = e;
              error = x;
              fails = broken;
              answer = (refl, refl);
              pool = refl;
            })))
  ]

  -- Acquire with any clock and storage is a hit, a miss or a boot error. With a warm instance at
  -- hand it is a hit: it gives the oldest with boot time 0, counts one hit and cannot fail. With
  -- none it boots one: on success it gives that one with its boot time and counts one miss; on
  -- failure it passes the error on and counts neither. A hit and a miss replenish the pool, as
  -- replenishLocked does, from the demand signal with this call in it.
  pub acquire_cases :
      (p : WarmPool) (w : W)
      → let r = acquire clock storage p w in Hit p w r ⊎ Miss p w r ⊎ BootError p w r
  unfolding acquire
  acquire_cases p w = acquire_from_cases p w p.ready refl

  -- The counters of the statistics add up: a call of Acquire adds one to hits + misses if it
  -- succeeds and nothing if it fails, and the hits grow exactly on a hit.
  pub acquire-counts :
      (p : WarmPool) (w : W)
      → let r = acquire clock storage p w in
        ((r.0.err ≡ none) × (r.1.hits + r.1.misses ≡ p.hits + p.misses + 1)
          ⊎ (r.0.err ≢ none) × (r.1.hits + r.1.misses ≡ p.hits + p.misses))
        × ((r.0.hit ≡ true) × (r.1.hits ≡ p.hits + 1) ⊎ (r.0.hit ≡ false) × (r.1.hits ≡ p.hits))
  acquire-counts p w = elim (acquire_cases p w) [
    | inl h ↦ ground arith
    | inr (inl m) ↦ ground arith
    | inr (inr b) ↦ ground arith
  ]
