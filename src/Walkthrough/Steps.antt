-- ===== src/Walkthrough/Steps.antt =====
-- src/controlplane/main.go: the parts of the walkthrough that wait for no operation.
use sovereign_core.Prelude.{
  ℤ, pos, ltb_ℤ, Text, bytes, ◌==◌, if◌then◌else◌, Bool, not, ◌&&◌, [], ◌++◌, Option, none, some,
  eqb_ℤ,
}
use sovereign_core.Model.EndpointState
use sovereign_core.Model.Transition.{can_transition}
use sovereign_core.Store.{get_endpoint, idemp_store, idemp_lookup}
use sovereign_core.WarmPool.{drain}
use sovereign_core.Routing.Identify.{ConnAttempt}
use sovereign_core.Tasks.{Task, run_task}
use sovereign_core.App.{Adapters, App, uses, on_core, signup, suspend_endpoint, resolve_connection}
use sovereign_core.Walkthrough.Control.{
  Ends, goes_on, panics, exits, Program, ◌>>=◌, ◌>>◌, answers, expect, must, must_none,
}

-- The endpoint's id, whether the pool had an instance, and the boot time.
abbrev pub Launched : Type 0
Launched = Text × Bool × ℤ

abbrev pub conn_attempt : Text → Text → Text → ConnAttempt
conn_attempt sni options password = record { sni = sni; options = options; password = password }

module _ {F W : Type 0} where
  abbrev pub sync : {A : Type 0} → Task (App F W) A → Program (App F W) A
  sync t a = let (x, b) = run_task t a in (goes_on x, b)

  -- app.warmpool.Drain()
  unfoldable pub drained : Program (App F W) (Unit {0})
  drained a = (goes_on tt, record a { core = record (a.core) { warmpool = drain a.core.warmpool } })

  -- ep.State, for the ep of getEndpoint; it is nil where there is none.
  unfoldable pub state_of : Text → Text → Program (App F W) Text
  state_of org_id id a = elim (get_endpoint a.core.store org_id id) [
    | none ↦ (panics (bytes "invalid memory address or nil pointer dereference"), a)
    | some e ↦ (goes_on e.state, a)
  ]

  -- The checks at the end.
  unfoldable pub own_org_only : Text → Program (App F W) (Unit {0})
  own_org_only id a = elim (get_endpoint a.core.store (bytes "org_other") id) [
    | none ↦ (goes_on tt, a)
    | some e ↦ (panics (bytes "RLS 누수!"), a)
  ]

  unfoldable pub key_is_kept : Program (App F W) (Unit {0})
  key_is_kept a =
      let store = idemp_store a.core.store (bytes "k1") (bytes "op_xyz") in
      let b = record a { core = record (a.core) { store = store } } in
      elim (idemp_lookup store (bytes "k1")) [
        | none ↦ (panics (bytes "멱등성 실패"), b)
        | some id ↦ (if id == bytes "op_xyz" then goes_on tt else panics (bytes "멱등성 실패"), b)
      ]

  unfoldable pub no_way_back : Program (App F W) (Unit {0})
  no_way_back a =
      elim (can_transition EndpointState.transitions EndpointState.deleted EndpointState.active) [
        | none ↦ (panics (bytes "금지 전이가 허용됨"), a)
        | some e ↦ (goes_on tt, a)
      ]

  unfoldable pub checks : Launched → Launched → Program (App F W) (Unit {0})
  unfolding own_org_only key_is_kept no_way_back expect ◌>>◌ ◌>>=◌
  checks (id, first_hit, first_boot) (other, cold_hit, cold_boot) = do
    own_org_only id
    key_is_kept
    no_way_back
    expect (first_hit && eqb_ℤ first_boot (pos 0)) (bytes "웜풀 히트 기대 실패")
    expect (not cold_hit && ltb_ℤ (pos 0) cold_boot) (bytes "웜풀 미스 기대 실패")

unfoldable pub must_id : {S : Type 0} → (Text × Text × ℤ × Option Text) × S → Ends Text × S
must_id ((id, addr, boot_ms, none), s) = (goes_on id, s)
must_id ((id, addr, boot_ms, some e), s) = (exits e, s)

module _ {F W : Type 0} (p : Adapters W) where
  -- ResolveConnection and must: the endpoint's id.
  unfoldable pub resolved : ConnAttempt → Program (App F W) Text
  unfolding must_id
  resolved att a = must_id (resolve_connection p att a)

  -- Parts 1 and 2: the org's id.
  unfoldable pub onboard : Program (App F W) Text
  unfolding must expect ◌>>◌ ◌>>=◌
  onboard = do
    made ← sync (signup p (bytes "acme-ai") (bytes "user_alice"))
    (o, token) ← answers (must made)
    checked ← (λ a. let (r, b) = on_core (uses (p.auth.verify_token token)) a in (goes_on r, b))
    claims ← answers (must checked)
    expect (claims.org_id == o.id) (bytes "RLS 경계 불일치")
    answers (goes_on o.id)

  -- Parts 6 and 6b: the three ways to name the endpoint.
  unfoldable pub three_ways : Text → Text → Program (App F W) (Unit {0})
  unfolding resolved expect ◌>>◌ ◌>>=◌
  three_ways id sni = do
    by_sni ← resolved (conn_attempt sni [] [])
    by_options ← resolved (conn_attempt [] (bytes "endpoint=" ++ id) [])
    by_password ← resolved (conn_attempt [] [] (bytes "endpoint=" ++ (id ++ bytes ";realpw")))
    expect (by_options == id && by_password == id) (bytes "폴백 체인 불일치")

  -- Parts 8 and 8b.
  unfoldable pub sleep_and_wake : Text → Text → Text → Program (App F W) (Unit {0})
  unfolding resolved must_none state_of ◌>>◌ ◌>>=◌
  sleep_and_wake org_id id sni = do
    failure ← sync (suspend_endpoint p org_id id)
    answers (must_none failure)
    state ← state_of org_id id
    woken ← resolved (conn_attempt sni [] [])
    answers (goes_on tt)
