-- ===== src/Handlers.antt =====
-- src/controlplane/handlers.go: the HTTP surface. net/http and encoding/json stand at the border: a
-- request comes with its body decoded, and a response leaves as a status and the value to encode.
pub mod Idempotency
pub mod Access
pub mod Race
mod Tests
use sovereign_core.Prelude.{
  ℕ, ℤ, pos, Text, bytes, ◌==◌, Dict, Float64, trim_prefix, if◌then◌else◌, ◌||◌, List, [], ◌∷◌,
  ◌++◌, Option, none, some, Result, ok, err,
}
use sovereign_core.Model.{Org, Endpoint, Operation}
use sovereign_core.Model.EndpointState
use sovereign_core.Store.{stores_idemp, get_endpoint, op_snapshot, idemp_lookup}
use sovereign_core.Ports.{Claims}
use sovereign_core.Tasks.{Task, done, atomic, bind}
use sovereign_core.App.{Adapters, App, on_core, uses, writes, reads, signup, suspend_endpoint}
use sovereign_core.App.Goroutines.{create_project, create_branch, start_endpoint, usage}

-- What a handler reads of a request. A field that the JSON body does not have, or that does not
-- decode, is the zero value, since the code ignores the error of Decode.
pub record Request (F : Type 0) : Type 0 where
  pub authorization : Text
  pub idempotency_key : Text
  pub path_value : Text
  pub name : Text
  pub owner_user_id : Text
  pub parent_branch_id : Text
  pub min_cu : F
  pub max_cu : F

-- The value that writeJSON encodes, or the raw bytes of the key set.
pub data Payload (F : Type 0) : Type 0 where
  fields : Dict Text → Payload F
  founded : Org → Text → Payload F
  endpoint : Endpoint F → Payload F
  operation : Operation → Payload F
  usage_sums : Dict F → Payload F
  raw : Text → Payload F

-- `location` is the header Location.
pub record Response (F : Type 0) : Type 0 where
  pub status : ℕ
  pub location : Option Text
  pub payload : Payload F

abbrev pub write_json : {F : Type 0} → ℕ → Payload F → Response F
write_json code v = record { status = code; location = none; payload = v }

abbrev pub error_body : {F : Type 0} → Text → Payload F
error_body e = fields ((bytes "error", e) ∷ [])

-- The response and the goroutines that the handler has started.
abbrev pub Reply : Type 0 → Type 0 → Type 0
Reply F W = Response F × List (Task (App F W) (Unit {0}))

module _ {F W : Type 0} where
  unfoldable pub start_op :
      Request F
      → Task (App F W) (Operation × Task (App F W) (Unit {0}))
      → Task (App F W) (Reply F W)
  start_op r make = atomic (reads (λ s. idemp_lookup s r.idempotency_key)) λ prev. elim prev [
    | some id ↦ done (
      write_json 202
          (fields ((bytes "operation_id", id) ∷ (bytes "idempotent_replay", bytes "true") ∷ [])),
      [],
    )
    | none ↦ bind make λ (op, body).
        atomic (on_core (writes (stores_idemp r.idempotency_key op.id))) λ u. done (
          record {
            status = 202;
            location = some (bytes "/v1/operations/" ++ op.id);
            payload = fields ((bytes "operation_id", op.id) ∷ []);
          },
          body ∷ [],
        )
  ]

module _ {F W : Type 0} (p : Adapters W) where
  -- The wrapper of the routes that want a token.
  unfoldable pub auth :
      (Claims → Task (App F W) (Reply F W)) → Request F → Task (App F W) (Reply F W)
  auth next r =
      atomic (on_core (uses (p.auth.verify_token (trim_prefix r.authorization (bytes "Bearer ")))))
        λ verified. elim verified [
          | err e ↦ done (write_json 401 (error_body (bytes "unauthorized")), [])
          | ok c ↦ next c
        ]

  unfoldable pub handle_signup : Request F → Task (App F W) (Reply F W)
  handle_signup r =
      let open_account = bind (signup p r.name r.owner_user_id) λ result. elim result [
        | err e ↦ done (write_json 500 (error_body e), [])
        | ok (org, token) ↦ done (write_json 201 (founded org token), [])
      ] in
      if r.name == [] || r.owner_user_id == []
      then done (write_json 400 (error_body (bytes "name and owner_user_id required")), [])
      else open_account

  unfoldable pub handle_jwks : Task (App F W) (Reply F W)
  handle_jwks =
      atomic (on_core (uses p.auth.jwks)) λ (keys, failure). done (write_json 200 (raw keys), [])

  unfoldable pub handle_get_endpoint : Request F → Claims → Task (App F W) (Reply F W)
  handle_get_endpoint r c = atomic (reads (λ s. get_endpoint s c.org_id r.path_value)) λ found.
      elim found [
        | none ↦ done (write_json 404 (error_body (bytes "not found")), [])
        | some e ↦ done (write_json 200 (endpoint e), [])
      ]

  unfoldable pub handle_suspend : Request F → Claims → Task (App F W) (Reply F W)
  handle_suspend r c = bind (suspend_endpoint p c.org_id r.path_value) λ failure. elim failure [
    | some e ↦ done (write_json 400 (error_body e), [])
    | none ↦ done (write_json 200 (fields ((bytes "state", EndpointState.suspended) ∷ [])), [])
  ]

  unfoldable pub handle_get_operation : Request F → Claims → Task (App F W) (Reply F W)
  handle_get_operation r c = atomic (reads (λ s. op_snapshot s c.org_id r.path_value)) λ found.
      elim found [
        | none ↦ done (write_json 404 (error_body (bytes "not found")), [])
        | some op ↦ done (write_json 200 (operation op), [])
      ]

module _ {F W : Type 0} ⦃float : Float64 F⦄ (p : Adapters W) where
  unfoldable pub handle_create_project : Request F → Claims → Task (App F W) (Reply F W)
  handle_create_project r c = start_op r (create_project p c.org_id r.name)

  unfoldable pub handle_create_branch : Request F → Claims → Task (App F W) (Reply F W)
  handle_create_branch r c = start_op r (create_branch p c.org_id r.path_value r.parent_branch_id)

  -- The defaults, where no maximum is given.
  capacity : Request F → F × F
  capacity r =
      if float.eq r.max_cu (float.decimal (pos 0) 0)
      then (float.decimal (pos 25) 2, float.decimal (pos 2) 0)
      else (r.min_cu, r.max_cu)

  unfoldable pub handle_start_endpoint : Request F → Claims → Task (App F W) (Reply F W)
  unfolding capacity
  handle_start_endpoint r c =
      let (min_cu, max_cu) = capacity r in
      start_op r (start_endpoint p c.org_id r.path_value min_cu max_cu)

  unfoldable pub handle_usage : Request F → Claims → Task (App F W) (Reply F W)
  handle_usage r c =
      atomic (λ a. (usage p c.org_id a, a)) λ sums. done (write_json 200 (usage_sums sums), [])

-- The patterns of the routes.
pub data Route : Type 0 where
  post_signup get_jwks post_projects post_branches post_endpoints get_endpoint_route post_suspend
        get_operation_route get_usage :
      Route

unfoldable pub routes :
    {F W : Type 0} ⦃float : Float64 F⦄ → Adapters W → Route → Request F → Task (App F W) (Reply F W)
routes p post_signup r = handle_signup p r
routes p get_jwks r = handle_jwks p
routes p post_projects r = auth p (handle_create_project p r) r
routes p post_branches r = auth p (handle_create_branch p r) r
routes p post_endpoints r = auth p (handle_start_endpoint p r) r
routes p get_endpoint_route r = auth p (handle_get_endpoint p r) r
routes p post_suspend r = auth p (handle_suspend p r) r
routes p get_operation_route r = auth p (handle_get_operation p r) r
routes p get_usage r = auth p (handle_usage p r) r
