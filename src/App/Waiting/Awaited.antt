-- ===== src/App/Waiting/Awaited.antt =====
-- src/controlplane/app.go: waitOp answers with the operation once its goroutine has had its turns.
use sovereign_core.Prelude.{
  ℕ, zero, suc, ◌+◌, ◌-◌, ◌*◌, ◌/◌, ◌≤◌, ◌<◌, Text, bytes, Float64, All, All-get_elem?, get_elem?,
  ◌≡◌, refl, ◌≢◌, inl, inr, List, [], Option, some, Result, ok, arith,
}
use sovereign_core.Model.{Operation}
use sovereign_core.Store.{op_snapshot}
use sovereign_core.Store.Tenancy.{reads_own_org}
use sovereign_core.Tasks.{Job, interleave}
use sovereign_core.Tasks.Interleaving.{
  Owes-step, interleave-Owes, interleave-result, interleave-invariant,
}
use sovereign_core.Tasks.Turns.{turns_of, LeftAt, interleave-LeftAt, LeftAt-HasEnded}
use sovereign_core.App.{Adapters, App, uses, on_core}
use sovereign_core.App.Completion.{StoredAs, Settled, step-StoredAs}
use sovereign_core.App.Deliveries.{Moves, StoredIn, SettledIn}
use sovereign_core.App.Operations.{
  Started, OwesSettled, Started-Owes, keep_Stored, keep_Settled, Body-Within, not_running,
}
use sovereign_core.App.Waiting.{Running, millisecond, read_clock, sleep, poll, wait_op}
use sovereign_core.App.Waiting.Answers.{Ticks, reading, after, pass, poll_cases}

-- The turns of goroutine i before round n + 1.
abbrev pub turns_by : (ℕ → List ℕ) → (ℕ → List ℕ) → ℕ → ℕ → ℕ
turns_by busy asleep i zero = turns_of i (busy 0)
turns_by busy asleep i (suc n) =
    turns_by busy asleep i n + turns_of i (busy (suc n)) + turns_of i (asleep (suc n))

module _ (F W : Type 0) ⦃float : Float64 F⦄ (p : Adapters W) (busy asleep : ℕ → List ℕ) (i : ℕ)
    (org_id op : Text) where
  abbrev IsOwned : Operation → Type 0
  IsOwned q = q.org_id ≡ org_id

  keep_owner :
      (a b : App F W)
      → Moves a b
      → StoredAs IsOwned op a.core.store
      → StoredAs IsOwned op b.core.store
  keep_owner a b (inl e) h = rw e h
  keep_owner a b (inr (c, fine, e)) h =
      rw e (step-StoredAs a.core.store IsOwned (λ q r o. o) (λ q r o. o) op c fine.1 h)

  -- Goroutine i works for op and has at most n steps left, every goroutine is on its way to settle
  -- its operation, and op is the org's.
  record Waits (n : ℕ) (s : Running F W) : Type 0 where
    left : LeftAt i op n s.0
    owe : All (OwesSettled F W p s.1) s.0
    owned : StoredAs IsOwned op s.1.core.store

  interleave-Waits :
      (turns : List ℕ) (n : ℕ) (jobs : List (Job (App F W))) (a : App F W)
      → Waits n (jobs, a)
      → Waits (n - turns_of i turns) (interleave turns jobs a)
  interleave-Waits turns n jobs a h = record {
    left = interleave-LeftAt turns i op n jobs a h.left;
    owe =
        interleave-Owes Moves StoredIn SettledIn (keep_Stored F W) (keep_Settled F W) turns jobs a
          h.owe;
    owned =
        interleave-invariant Moves StoredIn SettledIn (keep_Stored F W) (keep_Settled F W)
          (λ b. StoredAs IsOwned op b.core.store) keep_owner turns jobs a h.owe h.owned;
  }

  read_clock-Waits :
      (round n : ℕ) (s : Running F W)
      → Waits n s
      → Waits (n - turns_of i (busy round)) (read_clock p busy asleep round s).1
  unfolding read_clock
  read_clock-Waits round n (jobs, a) h =
      let a' = (on_core (uses p.clock.now) a).1 in
      interleave-Waits (busy round) n jobs a' (record {
        left = h.left;
        owe =
            Owes-step Moves StoredIn SettledIn (keep_Stored F W) (keep_Settled F W) a a' jobs
              (inl refl) h.owe;
        owned = h.owned;
      })

  pass-Waits :
      (round n : ℕ) (s : Running F W)
      → Waits n s
      → Waits
          (n - turns_of i (busy round) - turns_of i (asleep round))
          (pass F W p busy asleep round s)
  unfolding sleep
  pass-Waits round n s h = interleave-Waits (asleep round) _ _ _ (read_clock-Waits round n s h)

  after-Waits :
      (n k : ℕ) (s : Running F W)
      → Waits k s
      → Waits (k - turns_by busy asleep i n) (after F W p busy asleep n s)
  unfolding after
  after-Waits zero k s h = read_clock-Waits 0 k s h
  after-Waits (suc n) k s h =
      let less : k
            - turns_by busy asleep i n
            - turns_of i (busy (suc n))
            - turns_of i (asleep (suc n))
          ≡ k - turns_by busy asleep i (suc n) =
        omega arith in
      rw less at (pass-Waits (suc n) (k - turns_by busy asleep i n) _ (after-Waits n k s h))

  -- With no step left the operation is settled.
  Waits-over :
      (s : Running F W)
      → Waits 0 s
      → (q : Operation) → op_snapshot s.1.core.store org_id op ≡ some q
      → q.status ≢ bytes "running"
  unfolding interleave bytes
  Waits-over s h q found over =
      let (j, at, same, ended) = LeftAt-HasEnded i op s.0 h.left in
      let results =
        interleave-result Moves StoredIn SettledIn (keep_Stored F W) (keep_Settled F W) [] s.0 s.1
          h.owe in
      let stored = ((reads_own_org s.1.core.store org_id op).3 q).0 found in
      elim (All-get_elem? _ s.0 i j results at) [
        | inl running ↦ not_running F W p j.rest running ended
        | inr settled ↦
            let result : Settled op s.1.core.store = rw same at settled in
            let equal : result.0 ≡ q = cc in
            elim (result.2) [ inl yes_over ↦ cc | inr no_over ↦ cc ]
      ]

  module _ (deadline : ℕ) (s : Running F W) (h : Waits 12 s) (ticks : Ticks F W p busy asleep s)
      (last : ℕ) (turned : 12 ≤ turns_by busy asleep i last)
      (early : reading p (after F W p busy asleep last s) < deadline) where
    abbrev Returned : Option (Result Operation) × Running F W → Type 0
    Returned result =
        (q : Operation) × (result.0 ≡ some (ok q))
        × (op_snapshot result.1.1.core.store org_id op ≡ some q)
        × (q.status ≢ bytes "running")

    reading_grows :
        (gap n m : ℕ)
        → n + gap ≡ m
        → reading p (after F W p busy asleep n s) + gap * millisecond
          ≤ reading p (after F W p busy asleep m s)
    reading_grows zero n m e = let same : n ≡ m = omega arith in rw same (omega arith)
    reading_grows (suc gap) n m e =
        omega (arith, reading_grows gap (suc n) m (omega arith), ticks.later n)

    -- In the round that the clock still reaches, the operation is over.
    last_over : ¬ (
        (q : Operation)
        → op_snapshot
            (read_clock p busy asleep (suc last) (after F W p busy asleep last s)).1.1.core.store
            org_id
            op
          ≡ some q
        → q.status ≡ bytes "running")
    last_over running =
        let none_left : 12 - turns_by busy asleep i last - turns_of i (busy (suc last)) ≡ 0 =
          omega arith in
        let now = rw none_left at (read_clock-Waits (suc last) _ _ (after-Waits last 12 s h)) in
        let (q, stored, own) = now.owned in
        let found = ((reads_own_org _ org_id op).3 q).1 (stored, own) in
        Waits-over _ now q found (running q found)

    poll_returns :
        (gap n fuel : ℕ)
        → n + gap ≡ last
        → gap ≤ fuel
        → Returned
            (poll p busy asleep (suc fuel) (suc n) deadline org_id op (after F W p busy asleep n s))
    unfolding after
    poll_returns zero n fuel e l =
        let same : n ≡ last = omega arith in
        elim (poll_cases F W p busy asleep fuel (suc n) deadline org_id op
          (after F W p busy asleep n s)) [
            | inl (late, r) ↦ absurd (omega (arith, reading_grows 0 n last e))
            | inr (inl (q, in_time, found, over, r)) ↦ rw r (q, refl, found, over)
            | inr (inr (in_time, running, r)) ↦ absurd (last_over (rw same at running))
          ]
    poll_returns (suc gap) n zero e l = absurd (omega arith)
    poll_returns (suc gap) n (suc fuel) e l =
        elim (poll_cases F W p busy asleep (suc fuel) (suc n) deadline org_id op
          (after F W p busy asleep n s)) [
            | inl (late, r) ↦ absurd (omega (arith, reading_grows (suc gap) n last e))
            | inr (inl (q, in_time, found, over, r)) ↦ rw r (q, refl, found, over)
            | inr (inr (in_time, running, r)) ↦
                rw r (poll_returns gap (suc n) fuel (omega arith) (omega arith))
          ]

module _ (F W : Type 0) ⦃float : Float64 F⦄ (p : Adapters W) (busy asleep : ℕ → List ℕ) where
  -- waitOp answers with the operation, no longer running, as it is stored at that moment for the org:
  -- if the operation is the org's and goroutine i works for it, all goroutines are of CreateProject,
  -- CreateBranch and StartEndpoint and have just been started, goroutine i has twelve turns before
  -- some round, and that round is before the deadline. Each round takes a millisecond or more, and
  -- the other goroutines may do anything in any order.
  pub wait_op_succeeds :
      (org_id : Text) (timeout i last : ℕ) (j : Job (App F W)) (q : Operation) (s : Running F W)
      → All (Started p s.1) s.0
      → get_elem? s.0 i ≡ some j
      → op_snapshot s.1.core.store org_id j.op ≡ some q
      → Ticks F W p busy asleep s
      → 12 ≤ turns_by busy asleep i last
      → reading p (after F W p busy asleep last s) < reading p s + timeout
      → let result =
          wait_op p busy asleep (suc (suc (timeout / millisecond))) org_id j.op timeout s in
        (r : Operation) × (result.0 ≡ some (ok r))
        × (op_snapshot result.1.1.core.store org_id j.op ≡ some r)
        × (r.status ≢ bytes "running")
  unfolding wait_op after
  wait_op_succeeds org_id timeout i last j q s started at found ticks turned early =
      let begun = All-get_elem? (Started p s.1) s.0 i j started at in
      let (stored, own) = ((reads_own_org s.1.core.store org_id j.op).3 q).0 found in
      let waits : Waits F W p busy asleep i org_id j.op 12 s = record {
        left = (j, at, refl, Body-Within F W p j.op j.rest begun.body);
        owe = Started-Owes F W p s.1 s.0 started;
        owned = (q, stored, own);
      } in
      let grown =
        reading_grows F W p busy asleep i org_id j.op _ s waits ticks last turned early last 0 last
          (omega arith) in
      unfold read_clock in
      poll_returns F W p busy asleep i org_id j.op _ s waits ticks last turned early last 0
        (suc (timeout / millisecond)) (omega arith) (omega (arith, ticks.onward))
