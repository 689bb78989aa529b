-- ===== src/Handlers/Race/Answers.antt =====
-- src/controlplane/handlers.go: how two requests with one idempotency key are answered.
use sovereign_core.Prelude.{
  Text, All, All-mono, ap, ◌≡◌, refl, sym, ◌∙◌, ◌≢◌, ◌⊎◌, inl, inr, List, [], ◌∷◌, none, some,
}
use sovereign_core.Tasks.{Task, done, bind}
use sovereign_core.Tasks
use sovereign_core.Tasks.Pair.{Turn, first, second, other, turn, race, race_rule, IsHarmless}
use sovereign_core.App.{App}
use sovereign_core.Handlers.{Request, Reply, start_op}
use sovereign_core.Handlers.Idempotency.{replayed, accepted}
use sovereign_core.Handlers.Race.{
  Making, known, LeavesKey, IsAside, recorded, with_key, start_op-with_key, Early, waiting, Started,
  Replayed, stays, replays, starts, Early-Moved, Early-IsRunning, turn-done, turn-absent,
}

module _ {F W : Type 0} where
  abbrev pub Accepted : Reply F W → Text → Type 0
  Accepted x id = (body : Task (App F W) (Unit {0})) × (x ≡ accepted F W id body)

  the_answer : Reply F W → Task (App F W) (Reply F W) → Reply F W
  the_answer d (done x) = x
  the_answer d (Tasks.step f k) = d

  done_is : (x y : Reply F W) → ◌≡◌ {A = Task (App F W) (Reply F W)} (done x) (done y) → x ≡ y
  unfolding the_answer
  done_is x y e = ap (the_answer x) e

module _ {F W : Type 0} (key : Text) where
  -- How far the two are, and what is stored for the key.
  data Stand (t u : Task (App F W) (Reply F W)) (a : App F W) : Type 0 where
    nobody : Early key t → Early key u → known key a ≡ none → Stand t u a
    only_first : (id : Text) → Started t id → Early key u → known key a ≡ some id → Stand t u a
    only_second : (id : Text) → Early key t → Started u id → known key a ≡ some id → Stand t u a
    both_start :
        (i j id : Text)
        → Started t i
        → Started u j
        → (id ≡ i) ⊎ (id ≡ j)
        → known key a ≡ some id
        → Stand t u a
    first_starts : (id : Text) → Started t id → Replayed u id → known key a ≡ some id → Stand t u a
    second_starts : (id : Text) → Replayed t id → Started u id → known key a ≡ some id → Stand t u a

  Stand-swap : (t u : Task (App F W) (Reply F W)) (a : App F W) → Stand t u a → Stand u t a
  Stand-swap t u a (nobody et eu e) = nobody eu et e
  Stand-swap t u a (only_first id st eu e) = only_second id eu st e
  Stand-swap t u a (only_second id et su e) = only_first id su et e
  Stand-swap t u a (both_start i j id st su w e) =
      both_start j i id su st (elim w [ inl x ↦ inr x | inr x ↦ inl x ]) e
  Stand-swap t u a (first_starts id st ru e) = second_starts id ru st e
  Stand-swap t u a (second_starts id rt su e) = first_starts id su rt e

  module _ (named : key ≢ []) where
    by_first :
        (t u : Task (App F W) (Reply F W)) (a : App F W)
        → Stand t u a
        → Stand (turn t a).0 u (turn t a).1
    by_first t u a (nobody et eu e) = elim (Early-Moved key named t a et) [
      | stays et' e' ↦ nobody et' eu (e' ∙ e)
      | replays id r found e' ↦ absurd (cc)
      | starts id st e' ↦ only_first id st eu e'
    ]
    by_first t u a (only_first id (b, e) eu k) = rw (turn-done t _ a e) (only_first id (b, e) eu k)
    by_first t u a (only_second id et su e) = elim (Early-Moved key named t a et) [
      | stays et' e' ↦ only_second id et' su (e' ∙ e)
      | replays i r found e' ↦ let same : i ≡ id = cc in second_starts i r (rw same su) e'
      | starts i st e' ↦ both_start i id i st su (inl refl) e'
    ]
    by_first t u a (both_start i j id (b, e) su w k) =
        rw (turn-done t _ a e) (both_start i j id (b, e) su w k)
    by_first t u a (first_starts id (b, e) ru k) =
        rw (turn-done t _ a e) (first_starts id (b, e) ru k)
    by_first t u a (second_starts id e su k) = rw (turn-done t _ a e) (second_starts id e su k)

    by_second :
        (t u : Task (App F W) (Reply F W)) (a : App F W)
        → Stand t u a
        → Stand t (turn u a).0 (turn u a).1
    by_second t u a h = Stand-swap _ t _ (by_first u t a (Stand-swap t u a h))

    aside-IsHarmless : (w : Turn (App F W)) → IsAside key w → IsHarmless Stand by_first by_second w
    aside-IsHarmless first h = tt
    aside-IsHarmless second h = tt
    aside-IsHarmless (other f) h = kept
      where
        kept : (t u : Task (App F W) (Reply F W)) (a : App F W) → Stand t u a → Stand t u (f a)
        kept t u a (nobody et eu e) = nobody et eu (h a ∙ e)
        kept t u a (only_first id st eu e) = only_first id st eu (h a ∙ e)
        kept t u a (only_second id et su e) = only_second id et su (h a ∙ e)
        kept t u a (both_start i j id st su w e) = both_start i j id st su w (h a ∙ e)
        kept t u a (first_starts id st ru e) = first_starts id st ru (h a ∙ e)
        kept t u a (second_starts id rt su e) = second_starts id rt su (h a ∙ e)

  -- One starts its operation and the other is answered with the same id, or both start theirs.
  abbrev pub Answers : Reply F W → Reply F W → App F W → Type 0
  Answers x y a =
      ((id : Text) × Accepted x id × (y ≡ replayed F W id) × (known key a ≡ some id))
      ⊎ ((id : Text) × (x ≡ replayed F W id) × Accepted y id × (known key a ≡ some id))
      ⊎ ((i : Text) × (j : Text) × Accepted x i
          × Accepted y j
          × ((known key a ≡ some i) ⊎ (known key a ≡ some j)))

  Stand-Answers : (x y : Reply F W) (a : App F W) → Stand (done x) (done y) a → Answers x y a
  Stand-Answers x y a (nobody et eu e) = absurd (Early-IsRunning key _ et)
  Stand-Answers x y a (only_first id st eu e) = absurd (Early-IsRunning key _ eu)
  Stand-Answers x y a (only_second id et su e) = absurd (Early-IsRunning key _ et)
  Stand-Answers x y a (both_start i j id (b, p) (c, q) w e) = inr (
      inr (
        i,
        j,
        (b, done_is x _ p),
        (c, done_is y _ q),
        elim w [ inl same ↦ inl (rw same at e) | inr same ↦ inr (rw same at e) ],
      ))
  Stand-Answers x y a (first_starts id (b, p) q e) = inl (id, (b, done_is x _ p), done_is y _ q, e)
  Stand-Answers x y a (second_starts id p (c, q) e) =
      inr (inl (id, done_is x _ p, (c, done_is y _ q), e))

  -- It has read that the key is not known.
  data Going : Task (App F W) (Reply F W) → Type 0 where
    makes : (make : Making F W) → Going (bind make (recorded key))
    started : (t : Task (App F W) (Reply F W)) (id : Text) → Started t id → Going t

  turn-Going : (t : Task (App F W) (Reply F W)) (a : App F W) → Going t → Going (turn t a).0
  unfolding turn bind
  turn-Going _ a (makes (done (op, body))) = started _ op.id (body, refl)
  turn-Going _ a (makes (Tasks.step f k)) = makes (k a)
  turn-Going t a (started _ id (b, e)) = rw (turn-done t _ a e) (started t id (b, e))

  Going-Accepted :
      (t : Task (App F W) (Reply F W)) (x : Reply F W)
      → t ≡ done x
      → Going t
      → (id : Text) × Accepted x id
  unfolding bind
  Going-Accepted _ x e (makes (done y)) = absurd (cc)
  Going-Accepted _ x e (makes (Tasks.step f k)) = absurd (cc)
  Going-Accepted _ x e (started t id (b, p)) = (id, (b, done_is x _ (sym e ∙ p)))

  turn-both :
      (t u : Task (App F W) (Reply F W)) (a : App F W)
      → Going t × Going u
      → Going (turn t a).0 × Going u
  turn-both t u a (g, h) = (turn-Going t a g, h)

  both-turn :
      (t u : Task (App F W) (Reply F W)) (a : App F W)
      → Going t × Going u
      → Going t × Going (turn u a).0
  both-turn t u a (g, h) = (g, turn-Going u a h)

  anyone-IsHarmless :
      (turns : List (Turn (App F W)))
      → All (IsHarmless (λ t u a. Going t × Going u) turn-both both-turn) turns
  anyone-IsHarmless [] = tt
  anyone-IsHarmless (first ∷ turns) = (tt, anyone-IsHarmless turns)
  anyone-IsHarmless (second ∷ turns) = (tt, anyone-IsHarmless turns)
  anyone-IsHarmless (other f ∷ turns) = ((λ t u a h. h), anyone-IsHarmless turns)

  module _ (make call : Making F W) (turns : List (Turn (App F W))) (a : App F W)
      (fresh : known key a ≡ none) where
    they_answer :
        key ≢ []
        → LeavesKey key make
        → LeavesKey key call
        → All (IsAside key) turns
        → let ((x, y), b) = race turns (with_key key make) (with_key key call) a in Answers x y b
    they_answer n hm hc aside = Stand-Answers _ _ _ (
        race_rule Stand (by_first n) (by_second n) turns (with_key key make) (with_key key call) a
          (All-mono turns (aside-IsHarmless n) aside)
          (nobody (waiting make hm) (waiting call hc) fresh))

    both_looked_up :
        race (first ∷ second ∷ turns) (with_key key make) (with_key key call) a
        ≡ race turns (bind make (recorded key)) (bind call (recorded key)) a
    unfolding race
    both_looked_up = rw (turn-absent key make a fresh, turn-absent key call a fresh) refl

    both_go :
        let ((x, y), b) = race turns (bind make (recorded key)) (bind call (recorded key)) a in
        ((i : Text) × Accepted x i) × ((j : Text) × Accepted y j)
    both_go =
        let (g, h) =
          race_rule (λ t u a. Going t × Going u) turn-both both-turn turns _ _ a
            (anyone-IsHarmless turns) (makes make, makes call) in
        (Going-Accepted _ _ refl g, Going-Accepted _ _ refl h)

  -- Two requests come at the same time with one key, which is not empty and not known: the steps of
  -- the two startOps are taken in any order, and other goroutines may take steps between that do
  -- not store the key, as the two calls do not. Then either one request starts its operation and
  -- the other is answered with the id of that operation, which is the id stored for the key; or both
  -- start their operations, and the id of one of them is stored. If both look the key up before
  -- anything else, both start their operations.
  pub two_requests_one_key :
      (r again : Request F) (make call : Making F W) (turns : List (Turn (App F W))) (a : App F W)
      → key ≢ []
      → r.idempotency_key ≡ key
      → again.idempotency_key ≡ key
      → LeavesKey key make
      → LeavesKey key call
      → All (IsAside key) turns
      → known key a ≡ none
      → let ((x, y), b) = race turns (start_op r make) (start_op again call) a in
        let ((v, w), c) = race (first ∷ second ∷ turns) (start_op r make) (start_op again call) a in
        Answers x y b × ((i : Text) × Accepted v i) × ((j : Text) × Accepted w j)
  two_requests_one_key r again make call turns a n e f hm hc aside fresh =
      let one = start_op-with_key r make ∙ ap (λ (k : Text). with_key k make) e in
      let two = start_op-with_key again call ∙ ap (λ (k : Text). with_key k call) f in
      let (v, w) = both_go make call turns a fresh in
      let late = both_looked_up make call turns a fresh in
      rw (one, two) (they_answer make call turns a fresh n hm hc aside, rw late v, rw late w)
