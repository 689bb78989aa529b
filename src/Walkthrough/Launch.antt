-- ===== src/Walkthrough/Launch.antt =====
-- src/controlplane/main.go: what the walkthrough reads of an operation of StartEndpoint, and what its
-- warm pool checks rest on.
use sovereign_core.Prelude.{
  ℤ, pos, Text, Dict, bytes, ◌==◌, eq_refl, lookup, lookup-insert, Float64, ◌≡◌, refl, ap, ◌∙◌, ◌⊎◌,
  inl, inr, Bool, true, false, List, [], ◌∷◌, Option, none, some, ok,
}
use sovereign_core.Model.{Endpoint, Branch, Operation, Value, MeteringEvent}
use sovereign_core.Model.EndpointState
use sovereign_core.Store.{
  Store, step, put, endpoint, puts, moves_endpoint, adds_metering, add_metering, complete_op,
  completes, get_branch,
}
use sovereign_core.Store.Transitions.{transition_endpoint_cases}
use sovereign_core.Tasks.{run_task}
use sovereign_core.App.{Adapters, App}
use sovereign_core.WarmPool.{WarmInstance, Acquired}
use sovereign_core.WarmPool.Acquire.{booted, acquire_cases}
use sovereign_core.App.Goroutines.{start_endpoint_body, publish_endpoint}
use sovereign_core.App.Startup.{got, attach, named, issued, start_endpoint_publishes}
use sovereign_core.Walkthrough.Control.{goes_on, field_as, as_text, as_int, as_bool}

moves_endpoint-operations :
    {F : Type 0} (s : Store F) (o id to : Text)
    → (step s (moves_endpoint o id to)).operations ≡ s.operations
unfolding step
moves_endpoint-operations s o id to = elim (transition_endpoint_cases s o id to) [
  | inl (e, m, q) ↦ ap (λ (x : Store _ × Option Text). x.0.operations) q
  | inr (e, q, never) ↦ ap (λ (x : Store _ × Option Text). x.0.operations) q
]

completes-found :
    {F : Type 0} (s : Store F) (op : Text) (q : Operation) (r : Dict Value)
    → lookup op s.operations ≡ some q
    → lookup op (step s (completes op r)).operations
      ≡ some (record q { status = bytes "succeeded"; result = some r })
unfolding step complete_op
completes-found s op q r found = rw (found, complete_op) (rw (lookup-insert, eq_refl op) refl)

-- A new endpoint is stored, moved and metered, and the operation completed.
stored_completed :
    {F : Type 0} (s : Store F) (e : Endpoint F) (o id : Text) (event : MeteringEvent F) (op : Text)
    (q : Operation) (r : Dict Value)
    → lookup op s.operations ≡ some q
    → let t = step (step s (puts (endpoint e))) (moves_endpoint o id EndpointState.active) in
      lookup op (step (step t (adds_metering event)) (completes op r)).operations
      ≡ some (record q { status = bytes "succeeded"; result = some r })
unfolding step put add_metering
stored_completed s e o id event op q r found = completes-found _ op q r (
    ap (λ (d : Dict Operation). lookup op d)
      (moves_endpoint-operations (put s (endpoint e)) o id EndpointState.active)
    ∙ found)

-- What the walkthrough reads of the operation.
pub record Readable (q : Operation) (id : Text) (hit : Bool) (boot_ms : ℤ) : Type 0 where
  pub succeeded : q.status ≡ bytes "succeeded"
  pub reads_hit : field_as as_bool q (bytes "warm_hit") ≡ goes_on hit
  pub reads_boot : field_as as_int q (bytes "boot_ms") ≡ goes_on boot_ms
  pub reads_id : field_as as_text q (bytes "endpoint_id") ≡ goes_on id

-- The pool of an App had an instance, which took no time, or it had none and booted one.
abbrev pub Supplied : {F W : Type 0} → Adapters W → App F W → Bool → ℤ → Type 0
Supplied p a hit boot_ms =
    ((inst : WarmInstance) × (rest : List WarmInstance) × (a.core.warmpool.ready ≡ inst ∷ rest)
      × (hit ≡ true)
      × (boot_ms ≡ pos 0))
    ⊎ ((a.core.warmpool.ready ≡ [])
        × (hit ≡ false)
        × (boot_ms ≡ (booted p.clock p.storage a.core.warmpool a.core.world).boot_ms))

got-Supplied :
    {F W : Type 0} (p : Adapters W) (a : App F W)
    → (got p a).err ≡ none
    → Supplied p a (got p a).hit (got p a).boot_ms
got-Supplied p a fine = elim (acquire_cases p.clock p.storage a.core.warmpool a.core.world) [
  | inl h ↦ inl (_, h.rest, h.oldest, h.answer.0, h.answer.1)
  | inr (inl m) ↦ inr (m.empty, m.answer.0, m.answer.1)
  | inr (inr b) ↦ absurd (cc (fine, b.answer.1))
]

module _ (F W : Type 0) ⦃float : Float64 F⦄ (p : Adapters W) (o branch : Text) (min_cu max_cu : F)
    (op : Text) where
  publish_completes :
      (got : Acquired) (id user password : Text) (a : App F W) (q : Operation)
      → lookup op a.core.store.operations ≡ some q
      → let b =
          (run_task (publish_endpoint p o branch min_cu max_cu op got id user password) a).1 in
        (q' : Operation) × (lookup op b.core.store.operations ≡ some q')
        × Readable q' id got.hit got.boot_ms
  unfolding publish_endpoint run_task field_as as_text as_int as_bool lookup bytes ◌==◌
  publish_completes got id user password a q found = (
    _,
    stored_completed a.core.store _ o id _ op q _ found,
    record { succeeded = refl; reads_hit = refl; reads_boot = refl; reads_id = refl },
  )

  -- What an operation of StartEndpoint reports, if its goroutine runs by itself, the branch is the
  -- org's, the pool gives an instance, the engine attaches the branch and the secret service issues a
  -- credential: it succeeds, and the walkthrough reads of its result the id that newID drew, and a
  -- hit with boot time 0 if the pool had an instance ready, or a miss with the boot time that the
  -- engine took if, as after Drain, it had none.
  pub launch_reports :
      (a : App F W) (br : Branch) (user password : Text) (q : Operation)
      → get_branch a.core.store o branch ≡ some br
      → (got p a).err ≡ none
      → (attach p branch a).0 ≡ none
      → (issued p o branch a).0 ≡ ok (user, password)
      → lookup op a.core.store.operations ≡ some q
      → let b = (run_task (start_endpoint_body p o branch min_cu max_cu op) a).1 in
        ((q' : Operation) × (lookup op b.core.store.operations ≡ some q')
          × Readable q' (named p branch a).0 (got p a).hit (got p a).boot_ms)
        × Supplied p a (got p a).hit (got p a).boot_ms
  launch_reports a br user password q found fine attached given stored =
      let (c, _, store, _, runs) =
        start_endpoint_publishes F W p o branch min_cu max_cu op a br user password found fine
          attached given in
      rw runs (
        publish_completes (got p a) (named p branch a).0 user password c q (rw store stored),
        got-Supplied p a fine,
      )
