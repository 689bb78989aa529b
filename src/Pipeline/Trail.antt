-- ===== src/Pipeline/Trail.antt =====
-- src/governance/change_pipeline/main.go: what Handle writes to the audit log.
use mathlib.Core.List.{append_assoc}
use sovereign_core.Prelude.{
  Text, bytes, ◌==◌, Float64, Bool-cases, Option-cases, ◌≡◌, refl, ap, ◌∙◌, ◌⊎◌, inl, inr, List, [],
  ◌∷◌, ◌++◌, Result-cases,
}
use sovereign_core.Pipeline.{
  ChangeRequest, PolicyDecision, Plan, AuditLog, append, Pipeline, Outcome, executed,
  rejected_policy, awaiting_owner, failed, rejected_auth_err, dev_infra_hard_rail, needs_owner,
  run_plan, approve, plan_gate, policy_gate, rail_gate, auth_gate, handle,
}

-- The entries are those of the gates, one for each, with any messages.
unfoldable pub Tagged : List Text → List Text → Type 0
Tagged [] [] = Unit
Tagged [] (e ∷ es) = ⊥
Tagged (t ∷ ts) [] = ⊥
Tagged (t ∷ ts) (e ∷ es) =
    ((message : Text) × (e ≡ bytes "  [" ++ (t ++ (bytes "] " ++ message)))) × Tagged ts es

Tagged-append :
    (ts : List Text) (log : AuditLog) (t message : Text)
    → Tagged ts log.entries
    → Tagged (ts ++ t ∷ []) (append log t message).entries
unfolding append Tagged
Tagged-append ts log t message h = tagged ts log.entries h
  where
    tagged :
        (ts es : List Text)
        → Tagged ts es
        → Tagged (ts ++ t ∷ []) (es ++ (bytes "  [" ++ (t ++ (bytes "] " ++ message))) ∷ [])
    tagged [] [] h = ((message, refl), tt)
    tagged [] (e ∷ es) h = absurd h
    tagged (u ∷ us) [] h = absurd h
    tagged (u ∷ us) (e ∷ es) h = (h.0, tagged us es h.1)

abbrev to_authn : List Text
to_authn = bytes "1-normalize" ∷ bytes "2-authn" ∷ []

abbrev to_policy : List Text
to_policy = bytes "1-normalize" ∷ bytes "2-authn" ∷ bytes "3-policy" ∷ []

abbrev to_plan : List Text
to_plan = bytes "1-normalize" ∷ bytes "2-authn" ∷ bytes "3-policy" ∷ bytes "4-plan" ∷ []

abbrev to_approve : List Text
to_approve =
    bytes "1-normalize"
    ∷ bytes "2-authn"
    ∷ bytes "3-policy"
    ∷ bytes "4-plan"
    ∷ bytes "5-approve"
    ∷ []

-- The entries of gates 1 to 5, then those of the executor, then one of the last gate.
abbrev pub Ran : Text → List Text → Type 0
Ran last es =
    (gates : List Text) × (steps : List Text) × (final : List Text) × (es
      ≡ gates ++ (steps ++ final))
    × Tagged to_approve gates
    × Tagged (last ∷ []) final

-- The log of each outcome.
abbrev pub Trail : Outcome → List Text → Type 0
Trail rejected_auth_err es = Tagged (bytes "1-normalize" ∷ []) es ⊎ Tagged to_authn es
Trail rejected_policy es = Tagged to_policy es
Trail awaiting_owner es = Tagged to_approve es
Trail failed es = Tagged to_plan es ⊎ Ran (bytes "7-rollback") es
Trail executed es = Ran (bytes "6-execute") es

module _ {F W : Type 0} ⦃float : Float64 F⦄ (p : Pipeline F W) where
  -- The executor only appends to the log.
  abbrev pub OnlyAppends : Type 0
  OnlyAppends =
      (plan : Plan F) (log : AuditLog) (w : W)
      → (steps : List Text) × ((p.execute plan log w).1.entries ≡ log.entries ++ steps)

  module _ (appends : OnlyAppends) (req : ChangeRequest) where
    abbrev Kept : Outcome × AuditLog × W → Type 0
    Kept r = Trail r.0 r.1.entries

    ran :
        (plan : Plan F) (log : AuditLog) (w : W) (last message : Text)
        → Tagged to_approve log.entries
        → Ran last (append (p.execute plan log w).1 last message).entries
    unfolding append Tagged
    ran plan log w last message h =
        let (steps, e) = appends plan log w in
        let final = (bytes "  [" ++ (last ++ (bytes "] " ++ message))) ∷ [] in
        (
          log.entries,
          steps,
          final,
          ap (λ (es : List Text). es ++ final) e ∙ append_assoc log.entries steps final,
          h,
          ((message, refl), tt),
        )

    first :
        (message : Text)
        → Tagged
            (bytes "1-normalize" ∷ [])
            (append (record { entries = [] }) (bytes "1-normalize") message).entries
    unfolding append Tagged
    first message = ((message, refl), tt)

    run_plan-Kept :
        (plan : Plan F) (log : AuditLog) (w : W)
        → Tagged to_approve log.entries
        → Kept (run_plan p plan log w)
    unfolding run_plan
    run_plan-Kept plan log w h = elim (Option-cases (p.execute plan log w).0) [
      | inl fine ↦ rw (fine, run_plan) (ran plan log w (bytes "6-execute") _ h)
      | inr (e, broken) ↦ rw (broken, run_plan) (inr (ran plan log w (bytes "7-rollback") _ h))
    ]

    approve-Kept :
        (plan : Plan F) (log : AuditLog) (w : W)
        → Tagged to_plan log.entries
        → Kept (approve p req plan log w)
    unfolding approve
    approve-Kept plan log w h = elim (Bool-cases (needs_owner req plan)) [
      | inl owner ↦ rw owner (Tagged-append to_plan log _ _ h)
      | inr free ↦ rw free (run_plan-Kept plan _ w (Tagged-append to_plan log _ _ h))
    ]

    plan_gate-Kept :
        (dec : PolicyDecision) (log : AuditLog) (w : W)
        → Tagged to_policy log.entries
        → Kept (plan_gate p req dec log w)
    unfolding plan_gate
    plan_gate-Kept dec log w h = elim (Result-cases (p.make_plan req dec w).0) [
      | inr (e, broken) ↦ rw (broken, plan_gate) (inl (Tagged-append to_policy log _ _ h))
      | inl (plan, planned) ↦
          rw (planned, plan_gate) (approve-Kept plan _ _ (Tagged-append to_policy log _ _ h))
    ]

    policy_gate-Kept :
        (log : AuditLog) (w : W) → Tagged to_authn log.entries → Kept (policy_gate p req log w)
    unfolding policy_gate
    policy_gate-Kept log w h = elim (Bool-cases (p.evaluate req w).0.hard_rail_violated) [
      | inl rail ↦ rw rail (Tagged-append to_authn log _ _ h)
      | inr within ↦ elim (Bool-cases (p.evaluate req w).0.allowed) [
        | inr denied ↦ simp (within, denied) (Tagged-append to_authn log _ _ h)
        | inl allowed ↦
            simp (within, allowed)
              (plan_gate-Kept (p.evaluate req w).0 _ _ (Tagged-append to_authn log _ _ h))
      ]
    ]

    rail_gate-Kept :
        (log : AuditLog) (w : W) → Tagged to_authn log.entries → Kept (rail_gate p req log w)
    unfolding rail_gate
    rail_gate-Kept log w h = elim (Option-cases (dev_infra_hard_rail req)) [
      | inr (reason, hit) ↦ rw (hit, rail_gate) (Tagged-append to_authn log _ _ h)
      | inl clear ↦ rw (clear, rail_gate) (policy_gate-Kept log w h)
    ]

    auth_gate-Kept :
        (log : AuditLog) (w : W)
        → Tagged (bytes "1-normalize" ∷ []) log.entries
        → Kept (auth_gate p req log w)
    unfolding auth_gate
    auth_gate-Kept log w h = elim (Result-cases (p.attest req w).0) [
      | inr (e, forged) ↦
          rw (forged, auth_gate) (inr (Tagged-append (bytes "1-normalize" ∷ []) log _ _ h))
      | inl (origin, attested) ↦
          rw (attested, auth_gate)
            (rail_gate-Kept _ _ (Tagged-append (bytes "1-normalize" ∷ []) log _ _ h))
    ]

    -- The audit log of a request tells how far it came, for any adapters whose executor only appends
    -- to the log. Each gate that the request reached left one entry with the gate's name, in the order
    -- of the gates: a rejection of the authentication ends at gate 1 or 2, one by the policy or a rail
    -- at gate 3, a request that waits for its owner at gate 5, and a failed plan at gate 4. What is
    -- executed has the entries of gates 1 to 5, then the executor's, and at the end one of gate 6 if it
    -- succeeded or of gate 7 if it failed.
    pub handle-Trail : (w : W) → let r = handle p req w in Trail r.0 r.1.entries
    unfolding handle
    handle-Trail w = elim (Bool-cases (req.id == [])) [
      | inl bare ↦ rw bare (inl (first _))
      | inr named ↦ elim (Bool-cases (req.kind == [])) [
        | inl bare ↦ rw (named, bare) (inl (first _))
        | inr kind ↦ rw (named, kind) (auth_gate-Kept _ w (first _))
      ]
    ]
