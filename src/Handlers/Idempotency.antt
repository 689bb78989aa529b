-- ===== src/Handlers/Idempotency.antt =====
-- src/controlplane/handlers.go: startOp and its idempotency keys.
use sovereign_core.Prelude.{
  Text, bytes, ==_iff, eq_refl, ◌≡◌, refl, ◌∙◌, ◌≢◌, [], ◌∷◌, ◌++◌, none, some, arith,
}
use sovereign_core.Model.{Operation}
use sovereign_core.Store.{idemp_lookup, stores_idemp, step}
use sovereign_core.Store.Operations.{idemp_lookup-store}
use sovereign_core.Tasks.{Task, done, run_task, bind}
use sovereign_core.Tasks
use sovereign_core.App.{App}
use sovereign_core.Handlers.{Request, Reply, fields, write_json, start_op}

run_task-bind :
    {S A B : Type 0} (t : Task S A) (k : A → Task S B) (s : S)
    → run_task (bind t k) s ≡ run_task (k (run_task t s).0) (run_task t s).1
unfolding run_task bind
run_task-bind (done a) k s = refl
run_task-bind (Tasks.step f rest) k s = run_task-bind (rest s) k (f s)

abbrev pub replayed : (F W : Type 0) → Text → Reply F W
replayed F W id = (
  write_json 202
      (fields ((bytes "operation_id", id) ∷ (bytes "idempotent_replay", bytes "true") ∷ [])),
  [],
)

abbrev pub accepted : (F W : Type 0) → Text → Task (App F W) (Unit {0}) → Reply F W
accepted F W id body = (
  record {
    status = 202;
    location = some (bytes "/v1/operations/" ++ id);
    payload = fields ((bytes "operation_id", id) ∷ []);
  },
  body ∷ [],
)

module _ {F W : Type 0} where
  replay_known :
      (r : Request F) (make : Task (App F W) (Operation × Task (App F W) (Unit {0}))) (a : App F W)
      (id : Text)
      → idemp_lookup a.core.store r.idempotency_key ≡ some id
      → run_task (start_op r make) a ≡ (replayed F W id, a)
  unfolding start_op run_task
  replay_known r make a id known = rw (known, run_task) refl

  -- The state after startOp has stored the key.
  abbrev pub keyed : Text → Text → App F W → App F W
  keyed key id a = record a {
    core = record a.core { store = step a.core.store (stores_idemp key id) };
  }

  start_fresh :
      (r : Request F) (make : Task (App F W) (Operation × Task (App F W) (Unit {0}))) (a : App F W)
      → idemp_lookup a.core.store r.idempotency_key ≡ none
      → let ((op, body), b) = run_task make a in
        run_task (start_op r make) a ≡ (accepted F W op.id body, keyed r.idempotency_key op.id b)
  unfolding start_op run_task
  start_fresh r make a fresh = rw (fresh, run_task) (run_task-bind make _ a)

  pub keyed-found :
      (key id : Text) (a : App F W)
      → key ≢ []
      → idemp_lookup (keyed key id a).core.store key ≡ some id
  unfolding step
  keyed-found key id a n =
      (idemp_lookup-store a.core.store key id key).0 ∙ ground (arith, ==_iff key [], eq_refl key)

  -- If a key is not empty and not known, startOp runs the call, answers 202 with the id of its
  -- operation and starts its goroutine. A second request that then brings the same key, whatever else
  -- it asks for and of whatever org, gets 202 with the same id; it starts nothing and changes nothing.
  pub start_op_replays :
      (r again : Request F) (make other : Task (App F W) (Operation × Task (App F W) (Unit {0})))
      (a : App F W)
      → r.idempotency_key ≢ []
      → again.idempotency_key ≡ r.idempotency_key
      → idemp_lookup a.core.store r.idempotency_key ≡ none
      → let ((op, body), b) = run_task make a in
        let first = run_task (start_op r make) a in
        (first.0 ≡ accepted F W op.id body)
        × (run_task (start_op again other) first.1 ≡ (replayed F W op.id, first.1))
  start_op_replays r again make other a n same fresh =
      let start = start_fresh r make a fresh in
      let ((op, body), b) = run_task make a in
      (
        rw start refl,
        rw start (
            replay_known again other (keyed r.idempotency_key op.id b) op.id
              (rw same (keyed-found r.idempotency_key op.id b n))),
      )
