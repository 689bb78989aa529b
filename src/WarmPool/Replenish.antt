-- ===== src/WarmPool/Replenish.antt =====
-- src/controlplane/warmpool.go: replenishLocked boots up to the target and no further.
use mathlib.Core.List.{append-nil, append_assoc}
use sovereign_core.Prelude.{
  ℕ, zero, suc, ◌+◌, ℤ, pos, pos_part, ltb_ℤ, ◌≤ℤ◌, Text, Bool-cases, Option-cases, length,
  length-append, ◌≡◌, refl, sym, ap, ◌∙◌, ◌⊎◌, inl, inr, true, List, [], ◌∷◌, ◌++◌, some, arith,
}
use sovereign_core.Ports.{StoragePort, Booted, Clock}
use sovereign_core.WarmPool.{WarmInstance, WarmPool, recent_acquires, replenish_loop, replenish}

module _ {W : Type 0} (storage : StoragePort W) where
  -- The loop stopped at a boot that failed.
  abbrev BootFailed : Text → W → Type 0
  BootFailed region after =
      (w : W) × (e : Text) × ((storage.boot_instance region w).0.err ≡ some e)
      × (after ≡ (storage.boot_instance region w).1)

  pub record Replenished (target : ℤ) (p : WarmPool) (r : WarmPool × W) : Type 0 where
    pub new : List WarmInstance
    pub kept : r.0 ≡ record p { ready = p.ready ++ new }
    pub bounded : (new ≡ []) ⊎ (pos (length p.ready + length new) ≤ℤ target)
    pub full : (target ≤ℤ pos (length p.ready + length new)) ⊎ BootFailed p.region r.1

  nothing_new :
      (target : ℤ) (p : WarmPool) (w : W)
      → (target ≤ℤ pos (length p.ready)) ⊎ BootFailed p.region w
      → Replenished target p (p, w)
  nothing_new target p w h = record {
    new = [];
    kept = ap (λ (l : List WarmInstance). record p { ready = l }) (sym (append-nil p.ready));
    bounded = inl refl;
    full = elim h [ inl t ↦ inl (omega arith) | inr f ↦ inr f ];
  }

module _ {W : Type 0} (clock : Clock W) (storage : StoragePort W) where
  abbrev grown : WarmPool → Booted → WarmPool
  grown p b = record p { ready = p.ready ++ record { id = b.instance_id; host = b.host } ∷ [] }

  one_more :
      (target : ℤ) (p : WarmPool) (b : Booted) (r : WarmPool × W)
      → ltb_ℤ (pos (length p.ready)) target ≡ true
      → Replenished storage target (grown p b) r
      → Replenished storage target p r
  one_more target p b r t h = record {
    new = record { id = b.instance_id; host = b.host } ∷ h.new;
    kept =
        h.kept
        ∙ ap (λ (l : List WarmInstance). record p { ready = l }) (append_assoc p.ready _ h.new);
    bounded = inr (
        ground (
          arith,
          length-append p.ready (record { id = b.instance_id; host = b.host } ∷ []),
          h.bounded,
        ));
    full = elim h.full [
      | inl f ↦
          inl (
            omega
              (arith, length-append p.ready (record { id = b.instance_id; host = b.host } ∷ [])))
      | inr f ↦ inr f
    ];
  }

  replenish_loop-Replenished :
      (fuel : ℕ) (target : ℤ) (p : WarmPool) (w : W)
      → target ≤ℤ pos (length p.ready + fuel)
      → Replenished storage target p (replenish_loop clock storage fuel target p w)
  unfolding replenish_loop
  replenish_loop-Replenished zero target p w h = nothing_new storage target p w (inl (omega arith))
  replenish_loop-Replenished (suc fuel) target p w h =
      elim (Bool-cases (ltb_ℤ (pos (length p.ready)) target)) [
        | inr stop ↦ rw (stop, replenish_loop) (nothing_new storage target p w (inl (ground arith)))
        | inl more ↦ elim (Option-cases (storage.boot_instance p.region w).0.err) [
          | inr (e, failed) ↦
              rw (more, failed, replenish_loop)
                (nothing_new storage target p _ (inr (w, e, failed, refl)))
          | inl booted ↦
              rw (more, booted, replenish_loop)
                (one_more target p (storage.boot_instance p.region w).0 _ more (
                  replenish_loop-Replenished fuel target
                    (grown p (storage.boot_instance p.region w).0)
                    (storage.boot_instance p.region w).1 (omega (arith, length-append p.ready))))
        ]
      ]

  -- replenishLocked with any clock and storage appends instances to the ready ones and changes
  -- nothing else. It appends none beyond the target of the policy, and when it ends either the
  -- target is reached or the last boot failed.
  pub replenish-Replenished :
      (p : WarmPool) (w : W)
      → Replenished storage
          (p.policy.target (recent_acquires clock storage p w).0)
          p
          (replenish clock storage p w)
  unfolding replenish
  replenish-Replenished p w =
      let (recent, w') = recent_acquires clock storage p w in
      replenish_loop-Replenished (pos_part (p.policy.target recent)) (p.policy.target recent) p w'
        (omega arith)
