-- ===== src/Pipeline/Safety.antt =====
-- src/governance/change_pipeline/main.go: when Handle executes a plan.
use sovereign_core.Prelude.{
  Text, ◌==◌, ==_iff, Float64, Bool-cases, Option-cases, ◌≡◌, refl, ◌≢◌, ◌↔◌, ◌⊎◌, inl, inr, true,
  false, [], none, some, Result, ok, err, Result-cases, arith,
}
use sovereign_core.Pipeline.{
  ChangeRequest, PolicyDecision, Plan, AuditLog, Pipeline, Outcome, executed, rejected_policy,
  awaiting_owner, failed, rejected_auth_err, dev_infra_hard_rail, needs_owner, run_plan, approve,
  plan_gate, policy_gate, rail_gate, auth_gate, handle,
}

module _ {F W : Type 0} ⦃float : Float64 F⦄ (p : Pipeline F W) where
  -- What the ports answer, each called in the world that the call before it has left.
  abbrev pub authn : ChangeRequest → W → Result Text × W
  authn req w = p.attest req w

  abbrev pub decision : ChangeRequest → W → PolicyDecision × W
  decision req w = p.evaluate req (authn req w).1

  abbrev pub plan_made : ChangeRequest → W → Result (Plan F) × W
  plan_made req w = p.make_plan req (decision req w).0 (decision req w).1

  -- The request has passed gates 1 to 4 with this plan.
  pub record Judged (req : ChangeRequest) (w : W) (plan : Plan F) : Type 0 where
    pub has_id : req.id ≢ []
    pub has_kind : req.kind ≢ []
    pub origin : Text
    pub attested : (authn req w).0 ≡ ok origin
    pub off_infra : dev_infra_hard_rail req ≡ none
    pub within_rails : (decision req w).0.hard_rail_violated ≡ false
    pub allowed : (decision req w).0.allowed ≡ true
    pub planned : (plan_made req w).0 ≡ ok plan

  -- A refusal at the gates 1 to 4: the reason, the answer, and the world as the last port that was
  -- called has left it.
  pub data Refused (req : ChangeRequest) (w : W) (r : Outcome × AuditLog × W) : Type 0 where
    malformed :
        (req.id ≡ []) ⊎ (req.kind ≡ []) → r.0 ≡ rejected_auth_err → r.2 ≡ w → Refused req w r
    forged :
        (e : Text)
        → (authn req w).0 ≡ err e
        → r.0 ≡ rejected_auth_err
        → r.2 ≡ (authn req w).1
        → Refused req w r
    railed :
        (reason : Text)
        → dev_infra_hard_rail req ≡ some reason
        → r.0 ≡ rejected_policy
        → r.2 ≡ (authn req w).1
        → Refused req w r
    denied :
        ((decision req w).0.hard_rail_violated ≡ true) ⊎ ((decision req w).0.allowed ≡ false)
        → r.0 ≡ rejected_policy
        → r.2 ≡ (decision req w).1
        → Refused req w r
    unplanned :
        (e : Text)
        → (plan_made req w).0 ≡ err e
        → r.0 ≡ failed
        → r.2 ≡ (plan_made req w).1
        → Refused req w r

  -- What Handle answered and did to the world.
  pub data Handled (req : ChangeRequest) (w : W) (r : Outcome × AuditLog × W) : Type 0 where
    refused : ((plan : Plan F) → ¬ Judged req w plan) → Refused req w r → Handled req w r
    held :
        (plan : Plan F)
        → Judged req w plan
        → needs_owner req plan ≡ true
        → r.0 ≡ awaiting_owner
        → r.2 ≡ (plan_made req w).1
        → Handled req w r
    ran :
        (plan : Plan F) (log : AuditLog)
        → Judged req w plan
        → needs_owner req plan ≡ false
        → r.2 ≡ (p.execute plan log (plan_made req w).1).2
        → ((r.0 ≡ executed) × ((p.execute plan log (plan_made req w).1).0 ≡ none))
          ⊎ ((r.0 ≡ failed) × ((e : Text) × ((p.execute plan log (plan_made req w).1).0 ≡ some e)))
        → Handled req w r

  module _ (req : ChangeRequest) (w : W) where
    run_plan-Handled :
        (plan : Plan F) (log : AuditLog)
        → Judged req w plan
        → needs_owner req plan ≡ false
        → Handled req w (run_plan p plan log (plan_made req w).1)
    unfolding run_plan
    run_plan-Handled plan log a free =
        elim (Option-cases (p.execute plan log (plan_made req w).1).0) [
          | inl fine ↦ rw (fine, run_plan) (Handled.ran plan log a free refl (inl (refl, fine)))
          | inr (e, broken) ↦
              rw (broken, run_plan) (Handled.ran plan log a free refl (inr (refl, (e, broken))))
        ]

    approve-Handled :
        (plan : Plan F) (log : AuditLog)
        → Judged req w plan
        → Handled req w (approve p req plan log (plan_made req w).1)
    unfolding approve
    approve-Handled plan log a = elim (Bool-cases (needs_owner req plan)) [
      | inl owner ↦ rw owner (Handled.held plan a owner refl refl)
      | inr free ↦ rw free (run_plan-Handled plan _ a free)
    ]

    plan_gate-Handled :
        (log : AuditLog)
        → ((plan : Plan F) → (plan_made req w).0 ≡ ok plan → Judged req w plan)
        → Handled req w (plan_gate p req (decision req w).0 log (decision req w).1)
    unfolding plan_gate
    plan_gate-Handled log a = elim (Result-cases (plan_made req w).0) [
      | inr (e, broken) ↦
          rw (broken, plan_gate)
            (Handled.refused (λ q b. cc (broken, b.planned)) (Refused.unplanned e broken refl refl))
      | inl (plan, planned) ↦ rw (planned, plan_gate) (approve-Handled plan _ (a plan planned))
    ]

    policy_gate-Handled :
        (log : AuditLog)
        → ((decision req w).0.hard_rail_violated ≡ false
            → (decision req w).0.allowed ≡ true
            → (plan : Plan F) → (plan_made req w).0 ≡ ok plan
            → Judged req w plan)
        → Handled req w (policy_gate p req log (authn req w).1)
    unfolding policy_gate
    policy_gate-Handled log a = elim (Bool-cases (decision req w).0.hard_rail_violated) [
      | inl rail ↦
          rw rail (
            Handled.refused (λ q b. cc (rail, b.within_rails))
              (Refused.denied (inl rail) refl refl))
      | inr within ↦ elim (Bool-cases (decision req w).0.allowed) [
        | inr forbidden ↦
            simp (within, forbidden)
              (Handled.refused (λ q b. cc (forbidden, b.allowed))
                (Refused.denied (inr forbidden) refl refl))
        | inl allowed ↦ simp (within, allowed) (plan_gate-Handled _ (a within allowed))
      ]
    ]

    rail_gate-Handled :
        (log : AuditLog)
        → (dev_infra_hard_rail req ≡ none
            → (decision req w).0.hard_rail_violated ≡ false
            → (decision req w).0.allowed ≡ true
            → (plan : Plan F) → (plan_made req w).0 ≡ ok plan
            → Judged req w plan)
        → Handled req w (rail_gate p req log (authn req w).1)
    unfolding rail_gate
    rail_gate-Handled log a = elim (Option-cases (dev_infra_hard_rail req)) [
      | inr (reason, hit) ↦
          rw (hit, rail_gate)
            (Handled.refused (λ q b. cc (hit, b.off_infra)) (Refused.railed reason hit refl refl))
      | inl clear ↦ rw (clear, rail_gate) (policy_gate-Handled log (a clear))
    ]

    auth_gate-Handled :
        (log : AuditLog) → req.id ≢ [] → req.kind ≢ [] → Handled req w (auth_gate p req log w)
    unfolding auth_gate
    auth_gate-Handled log i k = elim (Result-cases (authn req w).0) [
      | inr (e, unproved) ↦
          rw (unproved, auth_gate)
            (Handled.refused (λ q b. cc (unproved, b.attested))
              (Refused.forged e unproved refl refl))
      | inl (origin, attested) ↦
          rw (attested, auth_gate)
            (rail_gate-Handled _ λ clear within allowed plan planned. record {
              has_id = i;
              has_kind = k;
              origin = origin;
              attested = attested;
              off_infra = clear;
              within_rails = within;
              allowed = allowed;
              planned = planned;
            })
    ]

  -- Handle with any adapters, each called in the world that the call before it has left, does one of
  -- three things. It refuses, and the request has not passed gates 1 to 4: with no id or no kind it
  -- answers REJECTED_AUTH and the world is as before; if the origin is not attested it answers
  -- REJECTED_AUTH, if the structural rail is hit REJECTED_HARDRAIL, and the world is as the
  -- authenticator has left it; if a rail is violated or the policy denies it, it answers
  -- REJECTED_HARDRAIL and the world is as the policy engine has left it; if there is no plan, it
  -- answers FAILED and the world is as the planner has left it. Or the request has passed them with a
  -- plan that needs an owner: it answers AWAITING_OWNER and the world is as the planner has left it.
  -- Or it has passed them with a plan that needs none: it calls the executor next, on that plan, and
  -- answers EXECUTED if the executor succeeds and FAILED if it does not. To pass is to have an id and
  -- a kind, an attested origin, a clear structural rail, the policy's permission with no rail
  -- violated, and a plan.
  pub handle_cases : (req : ChangeRequest) (w : W) → Handled req w (handle p req w)
  unfolding handle
  handle_cases req w = elim (Bool-cases (req.id == [])) [
    | inl bare ↦
        let none_given = (==_iff req.id []).0 bare in
        rw bare (
          Handled.refused (λ q b. b.has_id none_given)
            (Refused.malformed (inl none_given) refl refl))
    | inr named ↦ elim (Bool-cases (req.kind == [])) [
      | inl bare ↦
          let none_given = (==_iff req.kind []).0 bare in
          rw (named, bare)
            (Handled.refused (λ q b. b.has_kind none_given)
              (Refused.malformed (inr none_given) refl refl))
      | inr kinded ↦
          rw (named, kinded)
            (auth_gate-Handled req w _ (λ e. ground (arith, ==_iff req.id []))
              (λ e. ground (arith, ==_iff req.kind [])))
    ]
  ]

  Refused-not_held :
      (req : ChangeRequest) (w : W) (r : Outcome × AuditLog × W)
      → Refused req w r
      → r.0 ≢ awaiting_owner
  Refused-not_held req w r (Refused.malformed h o e) = ground arith
  Refused-not_held req w r (Refused.forged x h o e) = ground arith
  Refused-not_held req w r (Refused.railed x h o e) = ground arith
  Refused-not_held req w r (Refused.denied h o e) = ground arith
  Refused-not_held req w r (Refused.unplanned x h o e) = ground arith

  pub Refused-not_executed :
      (req : ChangeRequest) (w : W) (r : Outcome × AuditLog × W) → Refused req w r → r.0 ≢ executed
  Refused-not_executed req w r (Refused.malformed h o e) = ground arith
  Refused-not_executed req w r (Refused.forged x h o e) = ground arith
  Refused-not_executed req w r (Refused.railed x h o e) = ground arith
  Refused-not_executed req w r (Refused.denied h o e) = ground arith
  Refused-not_executed req w r (Refused.unplanned x h o e) = ground arith

  Handled-held :
      (req : ChangeRequest) (w : W) (r : Outcome × AuditLog × W)
      → Handled req w r
      → (r.0 ≡ awaiting_owner)
        ↔ ((plan : Plan F) × Judged req w plan × (needs_owner req plan ≡ true))
  Handled-held req w r (Handled.refused n e) =
      ((λ h. absurd (Refused-not_held req w r e h)), (λ (plan, j, owner). absurd (n plan j)))
  Handled-held req w r (Handled.held plan j owner o e) = ((λ h. (plan, j, owner)), (λ _. o))
  Handled-held req w r (Handled.ran plan log j free e o) = (
    (λ h. absurd (ground arith)),
    (λ (q, k, owner). absurd (ground (arith, j.planned, k.planned))),
  )

  -- Handle awaits an owner exactly if the request passes gates 1 to 4 with a plan that needs one.
  pub awaiting_owner_iff :
      (req : ChangeRequest) (w : W)
      → ((handle p req w).0 ≡ awaiting_owner)
        ↔ ((plan : Plan F) × Judged req w plan × (needs_owner req plan ≡ true))
  awaiting_owner_iff req w = Handled-held req w _ (handle_cases req w)
