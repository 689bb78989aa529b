-- ===== src/WarmPool/Fresh.antt =====
-- src/controlplane/warmpool.go: no instance is handed out twice, or handed out and still kept warm.
use mathlib.Core.List.{append-nil, append_assoc}
use sovereign_core.Prelude.{
  ℕ, zero, suc, ◌+◌, ltb_ℤ, ℤ, pos, Text, Option-cases, Bool-cases, length, All, All-append,
  All-mono, ◌≡◌, refl, ◌≢◌, inl, inr, List, [], ◌∷◌, ◌++◌, none, some,
}
use sovereign_core.Ports.{StoragePort, Clock}
use sovereign_core.WarmPool.Policy.{WarmPoolPolicy}
use sovereign_core.WarmPool.{
  WarmInstance, WarmPool, Acquired, replenish_loop, replenish, acquire_from, acquire, new_warm_pool,
}

-- What is relied on of the engine: it remembers which ids it gave out, a boot that succeeds gives
-- an id that it did not give out before, and neither a boot nor the clock forgets any.
pub record NewIds {W : Type 0} (clock : Clock W) (storage : StoragePort W) : Type 1 where
  pub Used : W → Text → Type 0
  pub boot_new :
      (region : Text) (w : W)
      → (storage.boot_instance region w).0.err ≡ none
      → ¬ Used w (storage.boot_instance region w).0.instance_id
  pub boot_used :
      (region : Text) (w : W)
      → (storage.boot_instance region w).0.err ≡ none
      → Used (storage.boot_instance region w).1 (storage.boot_instance region w).0.instance_id
  pub boot_keeps :
      (region : Text) (w : W) (id : Text) → Used w id → Used (storage.boot_instance region w).1 id
  pub now_keeps : (w : W) (id : Text) → Used w id → Used (clock.now w).1 id

-- The ids of the instances are pairwise different.
abbrev pub Distinct : List WarmInstance → Type 0
Distinct [] = Unit
Distinct (i ∷ is) = All (λ j. i.id ≢ j.id) is × Distinct is

-- What has been handed out once the call is over.
abbrev pub issued : List WarmInstance → Acquired → List WarmInstance
issued out r = elim r.err [ none ↦ out ++ r.inst ∷ [] | some e ↦ out ]

module _ {W : Type 0} (clock : Clock W) (storage : StoragePort W) where
  -- n calls of Acquire: the instances handed out, oldest first, and the pool.
  unfoldable pub acquires : ℕ → List WarmInstance → WarmPool → W → List WarmInstance × WarmPool × W
  acquires zero out p w = (out, p, w)
  acquires (suc n) out p w =
      let (r, q, w') = acquire clock storage p w in acquires n (issued out r) q w'

module _ {W : Type 0} (clock : Clock W) (storage : StoragePort W) (ids : NewIds clock storage) where
  abbrev AllUsed : W → List WarmInstance → Type 0
  AllUsed w = All (λ i. ids.Used w i.id)

  abbrev Sound : W → List WarmInstance → Type 0
  Sound w l = Distinct l × AllUsed w l

  Distinct-snoc :
      (w : W) (l : List WarmInstance) (i : WarmInstance)
      → Sound w l
      → ¬ ids.Used w i.id
      → Distinct (l ++ i ∷ [])
  Distinct-snoc w [] i h n = (tt, tt)
  Distinct-snoc w (j ∷ l) i h n = (
    All-append (λ k. j.id ≢ k.id) l (i ∷ []) h.0.0 ((λ (e : j.id ≡ i.id). n (rw (← e) h.1.0)), tt),
    Distinct-snoc w l i (h.0.1, h.1.1) n,
  )

  boot-Sound :
      (w : W) (region : Text) (l : List WarmInstance) (i : WarmInstance)
      → (storage.boot_instance region w).0.err ≡ none
      → i.id ≡ (storage.boot_instance region w).0.instance_id
      → Sound w l
      → Sound (storage.boot_instance region w).1 (l ++ i ∷ [])
  boot-Sound w region l i fine e h = (
    Distinct-snoc w l i h λ u. ids.boot_new region w fine (rw (← e) u),
    All-append (λ k. ids.Used (storage.boot_instance region w).1 k.id) l (i ∷ [])
        (All-mono l (λ k u. ids.boot_keeps region w k.id u) h.1)
        (rw e (ids.boot_used region w fine), tt),
  )

  failed-Sound :
      (w : W) (region : Text) (l : List WarmInstance)
      → Sound w l
      → Sound (storage.boot_instance region w).1 l
  failed-Sound w region l h = (h.0, All-mono l (λ i u. ids.boot_keeps region w i.id u) h.1)

  now-Sound : (w : W) (l : List WarmInstance) → Sound w l → Sound (clock.now w).1 l
  now-Sound w l h = (h.0, All-mono l (λ i u. ids.now_keeps w i.id u) h.1)

  -- `out` are the instances handed out so far.
  replenish_loop-Sound :
      (fuel : ℕ) (target : ℤ) (out : List WarmInstance) (p : WarmPool) (w : W)
      → Sound w (out ++ p.ready)
      → let r = replenish_loop clock storage fuel target p w in Sound r.1 (out ++ r.0.ready)
  unfolding replenish_loop
  replenish_loop-Sound zero target out p w h = h
  replenish_loop-Sound (suc fuel) target out p w h =
      elim (Bool-cases (ltb_ℤ (pos (length p.ready)) target)) [
        | inr stop ↦ rw (stop, replenish_loop) h
        | inl more ↦ elim (Option-cases (storage.boot_instance p.region w).0.err) [
          | inr (e, failed) ↦ rw (more, failed, replenish_loop) (failed-Sound w p.region _ h)
          | inl booted ↦
              rw (more, booted, replenish_loop)
                (replenish_loop-Sound fuel target out _ (storage.boot_instance p.region w).1 (
                  rw (← append_assoc out) (boot-Sound w p.region (out ++ p.ready) _ booted refl h)))
        ]
      ]

  replenish-Sound :
      (out : List WarmInstance) (p : WarmPool) (w : W)
      → Sound w (out ++ p.ready)
      → let r = replenish clock storage p w in Sound r.1 (out ++ r.0.ready)
  unfolding replenish
  replenish-Sound out p w h = replenish_loop-Sound _ _ out p (clock.now w).1 (now-Sound w _ h)

  acquire_from-Sound :
      (out l : List WarmInstance) (p : WarmPool) (w : W)
      → p.ready ≡ l
      → Sound w (out ++ l)
      → let r = acquire_from clock storage l p w in Sound r.2 (issued out r.0 ++ r.1.ready)
  unfolding acquire_from
  acquire_from-Sound out (i ∷ rest) p w e h =
      replenish-Sound (out ++ i ∷ []) (record p { ready = rest; hits = p.hits + 1 }) w
        (rw append_assoc h)
  acquire_from-Sound out [] p w e h = elim (Option-cases (storage.boot_instance p.region w).0.err) [
    | inr (x, failed) ↦ rw (failed, acquire_from) (rw e (failed-Sound w p.region _ h))
    | inl fine ↦
        rw (fine, acquire_from)
          (replenish-Sound _ (record p { misses = p.misses + 1 }) _
            (rw (e, append-nil) (boot-Sound w p.region out _ fine refl (rw append-nil at h))))
  ]

  acquire-Sound :
      (out : List WarmInstance) (p : WarmPool) (w : W)
      → Sound w (out ++ p.ready)
      → let r = acquire clock storage p w in Sound r.2 (issued out r.0 ++ r.1.ready)
  unfolding acquire
  acquire-Sound out p w h = acquire_from-Sound out p.ready _ (clock.now w).1 refl (now-Sound w _ h)

  acquires-Sound :
      (n : ℕ) (out : List WarmInstance) (p : WarmPool) (w : W)
      → Sound w (out ++ p.ready)
      → let r = acquires clock storage n out p w in Sound r.2 (r.0 ++ r.1.ready)
  unfolding acquires
  acquires-Sound zero out p w h = h
  acquires-Sound (suc n) out p w h = acquires-Sound n _ _ _ (acquire-Sound out p w h)

  -- If the engine boots each instance under a new id, then after any number of calls of Acquire on
  -- a new pool no id is handed out twice, none that was handed out is still kept warm, and none is
  -- kept twice.
  pub acquires-Distinct :
      (region : Text) (policy : WarmPoolPolicy) (n : ℕ) (w : W)
      → let start = new_warm_pool clock storage region policy w in
        let r = acquires clock storage n [] start.0 start.1 in Distinct (r.0 ++ r.1.ready)
  unfolding new_warm_pool
  acquires-Distinct region policy n w =
      (acquires-Sound n [] _ _ (replenish-Sound [] _ w (tt, tt))).0
