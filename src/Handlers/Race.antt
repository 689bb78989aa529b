-- ===== src/Handlers/Race.antt =====
-- src/controlplane/handlers.go: two requests with one idempotency key, at the same time.
pub mod Answers
pub mod Calls
use sovereign_core.Prelude.{
  Text, All, Option-cases, ap, ◌≡◌, refl, sym, ◌∙◌, ◌≢◌, ◌⊎◌, inl, inr, List, [], ◌∷◌, Option, none,
  some,
}
use sovereign_core.Model.{Operation}
use sovereign_core.Store.{idemp_lookup, stores_idemp}
use sovereign_core.Tasks.{Task, done, atomic, bind}
use sovereign_core.Tasks
use sovereign_core.Tasks.Interleaving.{IsRunning}
use sovereign_core.Tasks.Pair.{Turn, first, second, other, turn}
use sovereign_core.App.{App, on_core, writes, reads}
use sovereign_core.Handlers.{Request, Reply, start_op}
use sovereign_core.Handlers.Idempotency.{replayed, accepted, keyed-found}

abbrev pub Making : Type 0 → Type 0 → Type 0
Making F W = Task (App F W) (Operation × Task (App F W) (Unit {0}))

module _ {F W : Type 0} where
  -- The end of startOp, once it has the operation.
  abbrev pub recorded : Text → Operation × Task (App F W) (Unit {0}) → Task (App F W) (Reply F W)
  recorded key (op, body) =
      atomic (on_core (writes (stores_idemp key op.id))) λ u. done (accepted F W op.id body)

  -- startOp, of which the request is the key.
  pub with_key : Text → Making F W → Task (App F W) (Reply F W)
  with_key key make =
      atomic (reads (λ s. idemp_lookup s key))
        λ prev. elim prev [ some id ↦ done (replayed F W id) | none ↦ bind make (recorded key) ]

  pub start_op-with_key :
      (r : Request F) (make : Making F W) → start_op r make ≡ with_key r.idempotency_key make
  unfolding start_op with_key
  start_op-with_key r make = refl

  abbrev pub Started : Task (App F W) (Reply F W) → Text → Type 0
  Started t id = (body : Task (App F W) (Unit {0})) × (t ≡ done (accepted F W id body))

  abbrev pub Replayed : Task (App F W) (Reply F W) → Text → Type 0
  Replayed t id = t ≡ done (replayed F W id)

  -- Who has answered does nothing in its turn.
  pub turn-done :
      (t : Task (App F W) (Reply F W)) (x : Reply F W) (a : App F W)
      → t ≡ done x
      → turn t a ≡ (t, a)
  unfolding turn
  turn-done t x a e = rw e refl

module _ {F W : Type 0} (key : Text) where
  -- The id that is stored for the key.
  abbrev pub known : App F W → Option Text
  known a = idemp_lookup a.core.store key

  -- No step of the call stores the key.
  unfoldable pub LeavesKey : Making F W → Type 0
  LeavesKey (done x) = Unit
  LeavesKey (Tasks.step f k) = (a : App F W) → (known (f a) ≡ known a) × LeavesKey (k a)

  -- No turn of any other goroutine stores the key.
  abbrev pub IsAside : Turn (App F W) → Type 0
  IsAside first = Unit
  IsAside second = Unit
  IsAside (other f) = (a : App F W) → known (f a) ≡ known a

  -- It has not read the key yet, or has read that it is not known, and has not stored it.
  pub data Early : Task (App F W) (Reply F W) → Type 0 where
    waiting : (make : Making F W) → LeavesKey make → Early (with_key key make)
    making : (make : Making F W) → LeavesKey make → Early (bind make (recorded key))

  pub data Moved (t : Task (App F W) (Reply F W)) (a : App F W) : Type 0 where
    stays : Early (turn t a).0 → known (turn t a).1 ≡ known a → Moved t a
    replays :
        (id : Text)
        → Replayed (turn t a).0 id
        → known a ≡ some id
        → known (turn t a).1 ≡ some id
        → Moved t a
    starts : (id : Text) → Started (turn t a).0 id → known (turn t a).1 ≡ some id → Moved t a

  making_moves :
      key ≢ []
      → (make : Making F W) (a : App F W) → LeavesKey make
      → Moved (bind make (recorded key)) a
  unfolding turn bind LeavesKey
  making_moves n (done (op, body)) a h = starts op.id (body, refl) (keyed-found key op.id a n)
  making_moves n (Tasks.step f k) a h = stays (making (k a) (h a).1) (h a).0

  pub turn-absent :
      (make : Making F W) (a : App F W)
      → known a ≡ none
      → turn (with_key key make) a ≡ (bind make (recorded key), a)
  unfolding turn with_key
  turn-absent make a e = rw e refl

  turn-found :
      (make : Making F W) (a : App F W) (id : Text)
      → known a ≡ some id
      → turn (with_key key make) a ≡ (done (replayed F W id), a)
  unfolding turn with_key
  turn-found make a id e = rw e refl

  waiting_moves : (make : Making F W) (a : App F W) → LeavesKey make → Moved (with_key key make) a
  waiting_moves make a h = elim (Option-cases (known a)) [
    | inl absent ↦ let e = turn-absent make a absent in stays (rw e (making make h)) (rw e refl)
    | inr (id, found) ↦
        let e = turn-found make a id found in replays id (rw e refl) found (rw e found)
  ]

  pub Early-Moved : key ≢ [] → (t : Task (App F W) (Reply F W)) (a : App F W) → Early t → Moved t a
  Early-Moved n _ a (waiting make h) = waiting_moves make a h
  Early-Moved n _ a (making make h) = making_moves n make a h

  pub Early-IsRunning : (t : Task (App F W) (Reply F W)) → Early t → IsRunning t
  unfolding with_key bind
  Early-IsRunning _ (waiting make h) = tt
  Early-IsRunning _ (making (done x) h) = tt
  Early-IsRunning _ (making (Tasks.step f k) h) = tt
