-- ===== src/Handlers/Tests.antt =====
-- Requests to the sample control plane.
use sovereign_core.Prelude.{
  List, ◌∷◌, Text, ℕ, bytes, ◌==◌, lookup, ◌≡◌, refl, ◌≢◌, ◌⊎◌, [], none, some, arith, pos,
}
use sovereign_core.Prelude.FixedPoint.{Fixed, fin, fixed_point}
use sovereign_core.Model.{Endpoint, Operation}
use sovereign_core.Store.{Store, new_store, run, put, idemp_lookup, get_endpoint, op_snapshot}
use sovereign_core.Store
use sovereign_core.Ports.{Claims}
use sovereign_core.Tasks.{run_task}
use sovereign_core.Tasks.Pair.{Turn, first, second, other, race}
use sovereign_core.App.{App, on_core, uses}
use sovereign_core.Handlers.Race.Answers.{Accepted, Answers, two_requests_one_key}
use sovereign_core.Handlers.Race.Calls.{create_project-LeavesKey, create_branch-LeavesKey}
use sovereign_core.App.Samples.{ports, plane, acme, gate}
use sovereign_core.App.Goroutines.{create_project, create_branch}
use sovereign_core.Handlers.{
  Request, endpoint, operation, write_json, error_body, start_op, post_projects, routes,
  handle_get_endpoint, handle_get_operation,
}
use sovereign_core.Handlers.Idempotency.{replayed, accepted, start_op_replays}
use sovereign_core.Handlers.Access.{checked, get_own_org, routes_need_token}

abbrev request : Request Fixed
request = record {
  authorization = bytes "Bearer x";
  idempotency_key = bytes "k1";
  path_value = gate;
  name = bytes "prod";
  owner_user_id = [];
  parent_branch_id = [];
  min_cu = fin (pos 0);
  max_cu = fin (pos 0);
}

key_not_empty : bytes "k1" ≢ []
unfolding bytes
key_not_empty e = ground arith

key_unknown : idemp_lookup plane.core.store (bytes "k1") ≡ none
unfolding idemp_lookup run new_store Store.step put lookup bytes ◌==◌
key_unknown = refl

-- The second request is another org's, for another call.
start_op_replays_example :
    let make = create_project {F = Fixed} ports acme (bytes "prod") in
    let other = create_branch {F = Fixed} ports (bytes "blue") gate [] in
    let ((op, body), b) = run_task make plane in
    let first = run_task (start_op request make) plane in
    (first.0 ≡ accepted Fixed ℕ op.id body)
    × (run_task (start_op request other) first.1 ≡ (replayed Fixed ℕ op.id, first.1))
start_op_replays_example =
    start_op_replays request request (create_project {F = Fixed} ports acme (bytes "prod"))
      (create_branch {F = Fixed} ports (bytes "blue") gate []) plane key_not_empty refl key_unknown

-- The second is first to look the key up, then the clock is read, and the second runs to its end.
abbrev between : List (Turn (App Fixed ℕ))
between =
    second
    ∷ other (λ a. (on_core (uses ports.clock.now) a).1)
    ∷ second
    ∷ second
    ∷ second
    ∷ second
    ∷ first
    ∷ []

two_requests_one_key_example :
    let make = create_project {F = Fixed} ports acme (bytes "prod") in
    let call = create_branch {F = Fixed} ports (bytes "blue") gate [] in
    let ((x, y), b) = race between (start_op request make) (start_op request call) plane in
    let ((v, w), c) =
      race (first ∷ second ∷ between) (start_op request make) (start_op request call) plane in
    Answers (bytes "k1") x y b × ((i : Text) × Accepted v i) × ((j : Text) × Accepted w j)
two_requests_one_key_example =
    two_requests_one_key (bytes "k1") request request
      (create_project {F = Fixed} ports acme (bytes "prod"))
      (create_branch {F = Fixed} ports (bytes "blue") gate []) between plane key_not_empty refl refl
      (create_project-LeavesKey Fixed ℕ (bytes "k1") ports acme (bytes "prod"))
      (create_branch-LeavesKey Fixed ℕ (bytes "k1") ports (bytes "blue") gate [])
      (tt, (λ a. refl, (tt, (tt, (tt, (tt, (tt, tt))))))) key_unknown

abbrev ann : Claims
ann = record { org_id = acme; user_id = bytes "ann"; role = bytes "owner" }

get_own_org_example :
    (((e : Endpoint Fixed) × (get_endpoint plane.core.store acme gate ≡ some e)
        × (e.org_id ≡ acme)
        × (run_task (handle_get_endpoint ports request ann) plane
            ≡ ((write_json 200 (endpoint e), []), plane)))
      ⊎ ((get_endpoint plane.core.store acme gate ≡ none)
          × (run_task (handle_get_endpoint ports request ann) plane
              ≡ ((write_json 404 (error_body (bytes "not found")), []), plane))))
    × (((op : Operation) × (op_snapshot plane.core.store acme gate ≡ some op)
          × (op.org_id ≡ acme)
          × (run_task (handle_get_operation ports request ann) plane
              ≡ ((write_json 200 (operation op), []), plane)))
        ⊎ ((op_snapshot plane.core.store acme gate ≡ none)
            × (run_task (handle_get_operation ports request ann) plane
                ≡ ((write_json 404 (error_body (bytes "not found")), []), plane))))
get_own_org_example = get_own_org ports request ann plane

routes_need_token_example :
    run_task (routes ports post_projects request) plane
    ≡ ((write_json 401 (error_body (bytes "unauthorized")), []), checked ports request plane)
routes_need_token_example =
    routes_need_token ports post_projects request plane (bytes "invalid token") tt refl
