-- ===== src/Routing/Registry/Resolve.antt =====
-- src/controlplane/routing.go: Resolve, on every branch.
use sovereign_core.Prelude.{
  ℕ, pos, Text, bytes, ◌==◌, ==_iff, eq_refl, lookup, if◌then◌else◌, Bool-cases, Option-cases,
  get_elem?, ◌≡◌, refl, ◌≢◌, inl, inr, [], ◌++◌, none, some, arith,
}
use sovereign_core.Routing.Registry.{
  Backend, RoutingRegistry, Resolved, write_awake, resolve, resolve_at,
}
use sovereign_core.Routing.Registry.Heap.{get_elem?-lt}
use sovereign_core.Routing.Registry.View.{view, IsSound, awake, write-view, write-IsSound}

module _ {S : Type 0} (wake : Text → S → Resolved × S) where
  abbrev unknown_endpoint : Text → Resolved
  unknown_endpoint id = record {
    addr = [];
    boot_ms = pos 0;
    err = some (bytes "endpoint " ++ (id ++ bytes " not found"));
  }

  abbrev wake_error : Text → Resolved → Text → Resolved
  wake_error id woken e = record {
    addr = [];
    boot_ms = woken.boot_ms;
    err = some (bytes "wake " ++ (id ++ (bytes ": " ++ e)));
  }

  -- What Resolve does, by what the registry holds for the id and by what the hook returns.
  pub data Outcome (r : RoutingRegistry) (id : Text) (s : S) (res : Resolved × RoutingRegistry × S)
      : Type 0 where
    unknown : view r id ≡ none → res ≡ (unknown_endpoint id, r, s) → Outcome r id s res
    warm :
        (b : Backend)
        → view r id ≡ some b
        → b.state ≡ bytes "active"
        → res ≡ (record { addr = b.addr; boot_ms = pos 0; err = none }, r, s)
        → Outcome r id s res
    wake_fails :
        (b : Backend) (e : Text)
        → view r id ≡ some b
        → b.state ≢ bytes "active"
        → (wake id s).0.err ≡ some e
        → res ≡ (wake_error id (wake id s).0 e, r, (wake id s).1)
        → Outcome r id s res
    wakes :
        (b : Backend)
        → view r id ≡ some b
        → b.state ≢ bytes "active"
        → (wake id s).0 ≡ res.0
        → res.0.err ≡ none
        → res.2 ≡ (wake id s).1
        → ((j : Text) → view res.1 j ≡ (if id == j then some (awake res.0.addr) else view r j))
        → Outcome r id s res

  wake-view :
      (r : RoutingRegistry) (id : Text) (p : ℕ) (b : Backend) (addr : Text)
      → IsSound r
      → lookup id r.tbl ≡ some p
      → view r id ≡ some b
      → (j : Text)
      → view (write_awake r p addr) j ≡ (if id == j then some (awake addr) else view r j)
  unfolding write_awake
  wake-view r id p b addr v e f j =
      ground (arith, write-view r id j p (λ (x : Backend). awake addr) v e, ==_iff id j)

  resolve_at_cases :
      (r : RoutingRegistry) (id : Text) (s : S) (p : ℕ) (b : Backend)
      → IsSound r
      → lookup id r.tbl ≡ some p
      → get_elem? r.heap p ≡ some b
      → let res = resolve_at wake r id p b s in Outcome r id s res × IsSound res.1
  unfolding resolve_at write_awake
  resolve_at_cases r id s p b v e f = elim (Bool-cases (b.state == bytes "active")) [
    | inl active ↦
        rw (active, resolve_at) (Outcome.warm b (rw e f) ((==_iff b.state _).0 active) refl, v)
    | inr asleep ↦ elim (Option-cases (wake id s).0.err) [
      | inr (x, failed) ↦
          rw (asleep, failed, resolve_at)
            (
              Outcome.wake_fails b x (rw e f) (λ a. ground (arith, ==_iff b.state (bytes "active")))
                  failed refl,
              v,
            )
      | inl fine ↦
          rw (asleep, fine, resolve_at)
            (
              Outcome.wakes b (rw e f) (λ a. ground (arith, ==_iff b.state (bytes "active")))
                  (ground arith) refl refl (wake-view r id p b _ v e (rw e f)),
              write-IsSound r p _ v,
            )
    ]
  ]

  -- On a sound registry, Resolve of an id without entry is an error and changes nothing. With an
  -- active entry it answers the entry's address with boot time 0, wakes nothing and changes
  -- nothing. With any other it calls the hook once: if the hook fails, the error is passed on with
  -- the hook's boot time and the registry is as before; if it succeeds, its address and boot time
  -- are the answer and the entry of that id, and no other, becomes that address, active. The
  -- registry stays sound.
  pub resolve_cases :
      (r : RoutingRegistry) (id : Text) (s : S)
      → IsSound r
      → Outcome r id s (resolve wake r id s) × IsSound (resolve wake r id s).1
  unfolding resolve
  resolve_cases r id s v = elim (Option-cases (lookup id r.tbl)) [
    | inl absent ↦ rw (absent, resolve) (Outcome.unknown (rw absent) refl, v)
    | inr (p, found) ↦
        let (b, at) = get_elem?-lt r.heap p (v.bounded id p found) in
        rw (found, at, resolve) (resolve_at_cases r id s p b v found at)
  ]

  -- After a success the entry is active, at the address that was answered.
  Outcome-entry :
      (r : RoutingRegistry) (id : Text) (s : S) (res : Resolved × RoutingRegistry × S)
      → Outcome r id s res
      → res.0.err ≡ none
      → (b : Backend) × (view res.1 id ≡ some b)
        × (b.state ≡ bytes "active")
        × (b.addr ≡ res.0.addr)
  Outcome-entry r id s res (Outcome.unknown h e) fine = absurd (ground arith)
  Outcome-entry r id s res (Outcome.warm b h a e) fine = (b, rw e h, a, rw e)
  Outcome-entry r id s res (Outcome.wake_fails b x h a w e) fine = absurd (ground arith)
  Outcome-entry r id s res (Outcome.wakes b h a w o t views) fine =
      (awake res.0.addr, rw (views id, eq_refl id), refl, refl)

  pub Outcome-warm :
      (r : RoutingRegistry) (id : Text) (s : S) (res : Resolved × RoutingRegistry × S) (b : Backend)
      → Outcome r id s res
      → view r id ≡ some b
      → b.state ≡ bytes "active"
      → res ≡ (record { addr = b.addr; boot_ms = pos 0; err = none }, r, s)
  Outcome-warm r id s res b (Outcome.unknown h e) f a = absurd (cc (h, f))
  Outcome-warm r id s res b (Outcome.warm c h k e) f a = ground arith
  Outcome-warm r id s res b (Outcome.wake_fails c x h k w e) f a = absurd (ground arith)
  Outcome-warm r id s res b (Outcome.wakes c h k w o t views) f a = absurd (ground arith)

  -- A backend that is not active is woken.
  pub Outcome-woken :
      (r : RoutingRegistry) (id : Text) (s : S) (res : Resolved × RoutingRegistry × S) (b : Backend)
      → Outcome r id s res
      → view r id ≡ some b
      → b.state ≢ bytes "active"
      → (wake id s).0.err ≡ none
      → ((wake id s).0 ≡ res.0)
        × (res.2 ≡ (wake id s).1)
        × (view res.1 id ≡ some (awake res.0.addr))
  Outcome-woken r id s res b (Outcome.unknown h e) f n g = absurd (cc (h, f))
  Outcome-woken r id s res b (Outcome.warm c h k e) f n g = absurd (ground arith)
  Outcome-woken r id s res b (Outcome.wake_fails c x h k w e) f n g = absurd (cc (w, g))
  Outcome-woken r id s res b (Outcome.wakes c h k w o t views) f n g =
      (w, t, rw (views id, eq_refl id))

  -- Once Resolve has succeeded on a sound registry, the next Resolve of the same id answers the
  -- same address with boot time 0, wakes nothing and changes nothing, whatever the hook's state.
  pub resolve_again :
      (r : RoutingRegistry) (id : Text) (s t : S)
      → IsSound r
      → (resolve wake r id s).0.err ≡ none
      → let res = resolve wake r id s in
        resolve wake res.1 id t
        ≡ (record { addr = res.0.addr; boot_ms = pos 0; err = none }, res.1, t)
  resolve_again r id s t v fine =
      let (outcome, sound) = resolve_cases r id s v in
      let (b, found, active, addr) = Outcome-entry r id s _ outcome fine in
      rw (← addr) (Outcome-warm _ id t _ b (resolve_cases _ id t sound).0 found active)
