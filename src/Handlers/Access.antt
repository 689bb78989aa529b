-- ===== src/Handlers/Access.antt =====
-- src/controlplane/handlers.go: who gets an answer.
use sovereign_core.Prelude.{
  Text, bytes, Float64, trim_prefix, ◌≡◌, refl, ◌⊎◌, inl, inr, Option-cases, [], none, some, err,
}
use sovereign_core.Model.{Endpoint, Operation}
use sovereign_core.Store.{get_endpoint, op_snapshot}
use sovereign_core.Store.Tenancy.{reads_own_org}
use sovereign_core.Ports.{Claims}
use sovereign_core.Tasks.{Task, run_task}
use sovereign_core.App.{Adapters, App}
use sovereign_core.Handlers.{
  Request, Reply, endpoint, operation, write_json, error_body, auth, routes, Route, post_signup,
  get_jwks, post_projects, post_branches, post_endpoints, get_endpoint_route, post_suspend,
  get_operation_route, get_usage, handle_get_endpoint, handle_get_operation,
}

-- The routes that want a token: all but the signup and the key set.
abbrev pub IsProtected : Route → Type 0
IsProtected post_signup = ⊥
IsProtected get_jwks = ⊥
IsProtected post_projects = Unit
IsProtected post_branches = Unit
IsProtected post_endpoints = Unit
IsProtected get_endpoint_route = Unit
IsProtected post_suspend = Unit
IsProtected get_operation_route = Unit
IsProtected get_usage = Unit

abbrev pub token_of : {F : Type 0} → Request F → Text
token_of r = trim_prefix r.authorization (bytes "Bearer ")

-- The app after the authority has looked at the token.
abbrev pub checked : {F W : Type 0} → Adapters W → Request F → App F W → App F W
checked p r a = record a {
  core = record a.core { world = (p.auth.verify_token (token_of r) a.core.world).1 };
}

module _ {F W : Type 0} (p : Adapters W) where
  auth-refused :
      (next : Claims → Task (App F W) (Reply F W)) (r : Request F) (a : App F W) (e : Text)
      → (p.auth.verify_token (token_of r) a.core.world).0 ≡ err e
      → run_task (auth p next r) a
        ≡ ((write_json 401 (error_body (bytes "unauthorized")), []), checked p r a)
  unfolding auth run_task
  auth-refused next r a e bad = rw (bad, run_task) refl

  -- A GET of an endpoint or of an operation answers 200 with what is stored under the id of the path
  -- and belongs to the org of the token, or 404 if nothing is; it changes nothing.
  pub get_own_org :
      (r : Request F) (c : Claims) (a : App F W)
      → (((e : Endpoint F) × (get_endpoint a.core.store c.org_id r.path_value ≡ some e)
            × (e.org_id ≡ c.org_id)
            × (run_task (handle_get_endpoint p r c) a ≡ ((write_json 200 (endpoint e), []), a)))
          ⊎ ((get_endpoint a.core.store c.org_id r.path_value ≡ none)
              × (run_task (handle_get_endpoint p r c) a
                  ≡ ((write_json 404 (error_body (bytes "not found")), []), a))))
        × (((op : Operation) × (op_snapshot a.core.store c.org_id r.path_value ≡ some op)
              × (op.org_id ≡ c.org_id)
              × (run_task (handle_get_operation p r c) a
                  ≡ ((write_json 200 (operation op), []), a)))
            ⊎ ((op_snapshot a.core.store c.org_id r.path_value ≡ none)
                × (run_task (handle_get_operation p r c) a
                    ≡ ((write_json 404 (error_body (bytes "not found")), []), a))))
  unfolding handle_get_endpoint handle_get_operation run_task
  get_own_org r c a =
      let (_, _, endpoints, operations) = reads_own_org a.core.store c.org_id r.path_value in
      (
        elim (Option-cases (get_endpoint a.core.store c.org_id r.path_value)) [
          | inl absent ↦ inr (absent, rw (absent, run_task) refl)
          | inr (e, found) ↦ inl (e, found, ((endpoints e).0 found).1, rw (found, run_task) refl)
        ],
        elim (Option-cases (op_snapshot a.core.store c.org_id r.path_value)) [
          | inl absent ↦ inr (absent, rw (absent, run_task) refl)
          | inr (op, found) ↦
              inl (op, found, ((operations op).0 found).1, rw (found, run_task) refl)
        ],
      )

module _ {F W : Type 0} ⦃float : Float64 F⦄ (p : Adapters W) where
  -- Every route but the signup and the key set answers 401 to a token that the authority rejects, and
  -- then nothing is started and nothing changes but the authority's world.
  pub routes_need_token :
      (route : Route) (r : Request F) (a : App F W) (e : Text)
      → IsProtected route
      → (p.auth.verify_token (token_of r) a.core.world).0 ≡ err e
      → run_task (routes p route r) a
        ≡ ((write_json 401 (error_body (bytes "unauthorized")), []), checked p r a)
  unfolding routes
  routes_need_token post_signup r a e h bad = absurd h
  routes_need_token get_jwks r a e h bad = absurd h
  routes_need_token post_projects r a e h bad = auth-refused p _ r a e bad
  routes_need_token post_branches r a e h bad = auth-refused p _ r a e bad
  routes_need_token post_endpoints r a e h bad = auth-refused p _ r a e bad
  routes_need_token get_endpoint_route r a e h bad = auth-refused p _ r a e bad
  routes_need_token post_suspend r a e h bad = auth-refused p _ r a e bad
  routes_need_token get_operation_route r a e h bad = auth-refused p _ r a e bad
  routes_need_token get_usage r a e h bad = auth-refused p _ r a e bad
