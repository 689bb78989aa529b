-- ===== src/App/Waiting/Answers.antt =====
-- src/controlplane/app.go: waitOp returns, and what it answers.
use sovereign_core.Prelude.{
  ℕ, zero, suc, ◌+◌, ◌*◌, ◌/◌, ◌≤◌, ◌<◌, ltb, Text, bytes, ◌==◌, ==_iff, Bool-cases, Option-cases,
  ◌≡◌, refl, ◌≢◌, ◌⊎◌, inl, inr, List, ◌++◌, some, Result, ok, err, arith,
}
use sovereign_core.Model.{Operation}
use sovereign_core.Store.{op_snapshot}
use sovereign_core.App.{Adapters}
use sovereign_core.App.Waiting.{Running, millisecond, read_clock, sleep, poll, wait_op}

-- What the clock shows in the state s.
abbrev pub reading : {F W : Type 0} → Adapters W → Running F W → ℕ
reading p s = (p.clock.now s.1.core.world).0

module _ (F W : Type 0) (p : Adapters W) (busy asleep : ℕ → List ℕ) where
  -- One round of the loop that does not end it.
  abbrev pub pass : ℕ → Running F W → Running F W
  pass round s = sleep p busy asleep round (read_clock p busy asleep round s).1

  -- The state at the start of round n + 1, if none has ended the loop.
  unfoldable pub after : ℕ → Running F W → Running F W
  after zero s = (read_clock p busy asleep 0 s).1
  after (suc n) s = pass (suc n) (after n s)

  -- What the clock and time.Sleep promise of a run of waitOp from s: the clock does not run backwards,
  -- and from one round to the next it moves by a millisecond or more.
  pub record Ticks (s : Running F W) : Type 0 where
    pub onward : reading p s ≤ reading p (after 0 s)
    pub later : (n : ℕ) → reading p (after n s) + millisecond ≤ reading p (after (suc n) s)

  -- An answer that waitOp may give in the state t.
  abbrev pub Answer : ℕ → Text → Text → Result Operation → Running F W → Type 0
  Answer deadline org_id op (ok q) t =
      (op_snapshot t.1.core.store org_id op ≡ some q) × (q.status ≢ bytes "running")
  Answer deadline org_id op (err e) t =
      (e ≡ bytes "operation " ++ (op ++ bytes " timeout"))
      × (s : Running F W) × (round : ℕ) × (deadline ≤ reading p s)
      × (t ≡ (read_clock p busy asleep round s).1)

  abbrev Answered : ℕ → ℕ → ℕ → Text → Text → Running F W → Type 0
  Answered fuel round deadline org_id op s =
      let result = poll p busy asleep fuel round deadline org_id op s in
      (r : Result Operation) × (result.0 ≡ some r) × Answer deadline org_id op r result.1

  -- The time is up; or the operation is over; or the loop goes on.
  pub poll_cases :
      (fuel round deadline : ℕ) (org_id op : Text) (s : Running F W)
      → let now = (read_clock p busy asleep round s).1 in
        let result = poll p busy asleep (suc fuel) round deadline org_id op s in
        ((deadline ≤ reading p s)
          × (result ≡ (some (err (bytes "operation " ++ (op ++ bytes " timeout"))), now)))
        ⊎ ((q : Operation) × (reading p s < deadline)
            × (op_snapshot now.1.core.store org_id op ≡ some q)
            × (q.status ≢ bytes "running")
            × (result ≡ (some (ok q), now)))
        ⊎ ((reading p s < deadline)
            × ((q : Operation)
                → op_snapshot now.1.core.store org_id op ≡ some q
                → q.status ≡ bytes "running")
            × (result ≡ poll p busy asleep fuel (suc round) deadline org_id op (pass round s)))
  unfolding poll
  poll_cases fuel round deadline org_id op s =
      let now = (read_clock p busy asleep round s).1 in
      elim (Bool-cases (ltb (reading p s) deadline)) [
        | inl early ↦ elim (Option-cases (op_snapshot now.1.core.store org_id op)) [
          | inl absent ↦
              inr (inr (ground arith, (λ q e. cc), unfold read_clock in rw (early, absent) refl))
          | inr (q, found) ↦ elim (Bool-cases (q.status == bytes "running")) [
            | inl running ↦ inr (
                inr (
                  ground arith,
                  λ q' e.
                      let same : q ≡ q' = cc in
                      rw (← same) ((==_iff q.status (bytes "running")).0 running),
                  unfold read_clock in rw (early, found, running) refl,
                ))
            | inr over ↦ inr (
                inl (
                  q,
                  ground arith,
                  found,
                  λ e. ground (arith, ==_iff q.status (bytes "running")),
                  unfold read_clock in rw (early, found, over) refl,
                ))
          ]
        ]
        | inr late ↦ inl (ground arith, unfold read_clock in rw late refl)
      ]

  poll_answers :
      (fuel n deadline : ℕ) (org_id op : Text) (s : Running F W)
      → Ticks s
      → deadline ≤ reading p (after n s) + fuel * millisecond
      → Answered (suc fuel) (suc n) deadline org_id op (after n s)
  unfolding after
  poll_answers zero n deadline org_id op s ticks h =
      elim (poll_cases zero (suc n) deadline org_id op (after n s)) [
        | inl (late, e) ↦ rw e (err _, refl, (refl, after n s, suc n, late, refl))
        | inr (inl (q, early, found, over, e)) ↦ absurd (omega arith)
        | inr (inr (early, running, e)) ↦ absurd (omega arith)
      ]
  poll_answers (suc fuel) n deadline org_id op s ticks h =
      elim (poll_cases (suc fuel) (suc n) deadline org_id op (after n s)) [
        | inl (late, e) ↦ rw e (err _, refl, (refl, after n s, suc n, late, refl))
        | inr (inl (q, early, found, over, e)) ↦ rw e (ok q, refl, (found, over))
        | inr (inr (early, running, e)) ↦
            rw e
              (poll_answers fuel (suc n) deadline org_id op s ticks (omega (arith, ticks.later n)))
      ]

  -- waitOp returns, whatever the goroutines do, if the clock does not run backwards and moves by a
  -- millisecond or more in each round: a fuel of the timeout in milliseconds and two is enough. What
  -- it returns is the operation as it is stored at that moment for the org, and it is not running; or
  -- it is the error of a timeout, and then the clock has reached the deadline.
  pub wait_op_returns :
      (org_id op : Text) (timeout : ℕ) (s : Running F W)
      → Ticks s
      → let result =
          wait_op p busy asleep (suc (suc (timeout / millisecond))) org_id op timeout s in
        (r : Result Operation) × (result.0 ≡ some r)
        × Answer (reading p s + timeout) org_id op r result.1
  unfolding wait_op after
  wait_op_returns org_id op timeout s ticks =
      let enough : reading p s + timeout
          ≤ reading p (after 0 s) + suc (timeout / millisecond) * millisecond =
        omega (arith, ticks.onward) in
      unfold read_clock in
      poll_answers (suc (timeout / millisecond)) 0 (reading p s + timeout) org_id op s ticks enough
