-- ===== src/WarmPool.antt =====
-- src/controlplane/warmpool.go: the pool of instances that are booted ahead. The mutex makes each
-- method one step. Times are nanoseconds.
pub mod Policy
pub mod Replenish
pub mod Acquire
pub mod Fresh
mod Tests
use sovereign_core.Prelude.{
  ℕ, zero, suc, ◌+◌, ltb, ℤ, pos, pos_part, ltb_ℤ, Text, if◌then◌else◌, Bool, true, false, length,
  List, [], ◌∷◌, ◌++◌, Option, none, some,
}
use sovereign_core.Ports.{StoragePort, Booted, Clock}
use Policy.{WarmPoolPolicy}

pub record WarmInstance : Type 0 where
  pub id : Text
  pub host : Text

pub record WarmPool : Type 0 where
  pub ready : List WarmInstance
  pub region : Text
  pub policy : WarmPoolPolicy
  pub hits : ℕ
  pub misses : ℕ
  pub recent : List ℕ

abbrev pub minute : ℕ
minute = 60_000_000_000

-- t.After(now - 1min)
count_after : ℕ → List ℕ → ℕ
count_after now [] = 0
count_after now (t ∷ ts) =
    let rest = count_after now ts in if ltb now (t + minute) then suc rest else rest

-- What Acquire returns.
pub record Acquired : Type 0 where
  pub inst : WarmInstance
  pub hit : Bool
  pub boot_ms : ℤ
  pub err : Option Text

module _ {W : Type 0} (clock : Clock W) (storage : StoragePort W) where
  unfoldable pub recent_acquires : WarmPool → W → ℤ × W
  unfolding count_after
  recent_acquires p w = let (now, w') = clock.now w in (pos (count_after now p.recent), w')

  -- The loop of replenishLocked, on fuel.
  unfoldable pub replenish_loop : ℕ → ℤ → WarmPool → W → WarmPool × W
  replenish_loop zero target p w = (p, w)
  replenish_loop (suc fuel) target p w = elim (ltb_ℤ (pos (length p.ready)) target) [
    | false ↦ (p, w)
    | true ↦ elim ((storage.boot_instance p.region w).0.err) [
      | some e ↦ (p, (storage.boot_instance p.region w).1)
      | none ↦
          let b = (storage.boot_instance p.region w).0 in
          replenish_loop fuel target
            (record p { ready = p.ready ++ record { id = b.instance_id; host = b.host } ∷ [] })
            (storage.boot_instance p.region w).1
    ]
  ]

  -- A round adds an instance or ends the loop, so `target` rounds are enough.
  unfoldable pub replenish : WarmPool → W → WarmPool × W
  unfolding recent_acquires replenish_loop
  replenish p w =
      let (recent, w') = recent_acquires p w in
      let target = p.policy.target recent in replenish_loop (pos_part target) target p w'

  unfoldable pub new_warm_pool : Text → WarmPoolPolicy → W → WarmPool × W
  new_warm_pool region policy w =
      replenish
        (record { ready = []; region = region; policy = policy; hits = 0; misses = 0; recent = [] })
        w

  acquire_from : List WarmInstance → WarmPool → W → Acquired × WarmPool × W
  acquire_from (inst ∷ rest) p w =
      let (q, w') = replenish (record p { ready = rest; hits = p.hits + 1 }) w in
      (record { inst = inst; hit = true; boot_ms = pos 0; err = none }, q, w')
  acquire_from [] p w = elim ((storage.boot_instance p.region w).0.err) [
    | some e ↦ (
      record {
        inst = record { id = []; host = [] };
        hit = false;
        boot_ms = (storage.boot_instance p.region w).0.boot_ms;
        err = some e;
      },
      p,
      (storage.boot_instance p.region w).1,
    )
    | none ↦
        let b = (storage.boot_instance p.region w).0 in
        let (q, w') =
          replenish (record p { misses = p.misses + 1 }) (storage.boot_instance p.region w).1 in
        (
          record {
            inst = record { id = b.instance_id; host = b.host };
            hit = false;
            boot_ms = b.boot_ms;
            err = none;
          },
          q,
          w',
        )
  ]

  unfoldable pub acquire : WarmPool → W → Acquired × WarmPool × W
  unfolding acquire_from
  acquire p w =
      let (now, w') = clock.now w in
      acquire_from p.ready (record p { recent = p.recent ++ now ∷ [] }) w'

-- (ready, hits, misses, policy)
unfoldable pub stats : WarmPool → ℕ × ℕ × ℕ × Text
stats p = (length p.ready, p.hits, p.misses, p.policy.name)

unfoldable pub drain : WarmPool → WarmPool
drain p = record p { ready = [] }
