-- ===== src/DevEngine/Session.antt =====
-- src/training/dev_engine_flow/main.go: the requests that main handles one after another, on one
-- memory, and how a session goes on from request to request.
use mathlib.Core.List.{append_assoc, append-nil}
use sovereign_core.Prelude.{
  ℕ, Text, ◌==◌, Dict, get_elem?, length, Result-cases, if◌then◌else◌, Bool, not, ◌&&◌, ◌≡◌, refl,
  sym, ap, ◌∙◌, inl, inr, List, [], ◌∷◌, ◌++◌, some, Result, ok, err, arith,
}
use sovereign_core.DevEngine.{
  DevRequest, Artifact, Verdict, rejected_hardrail, queued_for_deploy, recall, classify_target,
  generate_code, to_pipeline, handle_dev_request,
}
use sovereign_core.DevEngine.Handling.{handle_dev_request_cases}

module _ (lower : Text → Text) (show_int : ℕ → Text) where
  -- The loop over the requests.
  unfoldable pub handle_all : List DevRequest → Dict (List Text) → List Verdict × Dict (List Text)
  handle_all [] mem = ([], mem)
  handle_all (req ∷ reqs) mem =
      let (verdict, mem') = handle_dev_request lower show_int req mem in
      let (rest, mem'') = handle_all reqs mem' in (verdict ∷ rest, mem'')

  abbrev pub forbidden : DevRequest → Bool
  forbidden req = (classify_target lower req.utterance).forbidden

  -- What was said in a session, less the forbidden requests.
  abbrev pub spoken : Text → List DevRequest → List Text
  spoken s [] = []
  spoken s (req ∷ reqs) =
      let rest = spoken s reqs in
      if req.session_id == s && not (forbidden req) then req.utterance ∷ rest else rest

  one_remembers :
      (req : DevRequest) (mem : Dict (List Text)) (s : Text)
      → recall (handle_dev_request lower show_int req mem).1 s ≡ recall mem s ++ spoken s (req ∷ [])
  one_remembers req mem s = elim (handle_dev_request_cases lower show_int req mem) [
    | inl (bad, (e, r)) ↦ rw r (ground (arith, append-nil (recall mem s)))
    | inr (fine, a, said) ↦ said s ∙ ground (arith, append-nil (recall mem s))
  ]

  -- The verdict on a request, after what was said before in its session.
  answered : Result Artifact → Verdict
  answered (err e) = rejected_hardrail e
  answered (ok art) = queued_for_deploy art (to_pipeline art)

  pub verdict : DevRequest → List Text → Verdict
  unfolding answered
  verdict req said =
      answered (generate_code show_int (classify_target lower req.utterance) req said)

  one_verdict :
      (req : DevRequest) (mem : Dict (List Text))
      → (handle_dev_request lower show_int req mem).0 ≡ verdict req (recall mem req.session_id)
  unfolding handle_dev_request verdict
  one_verdict req mem =
      elim (Result-cases (
        generate_code show_int (classify_target lower req.utterance) req
          (recall mem req.session_id))) [
            | inl (e, bad) ↦ rw (bad, handle_dev_request) refl
            | inr (a, fine) ↦ rw (fine, handle_dev_request) refl
          ]

  spoken-cons :
      (s : Text) (req : DevRequest) (reqs : List DevRequest)
      → spoken s (req ∷ []) ++ spoken s reqs ≡ spoken s (req ∷ reqs)
  spoken-cons s req reqs = ground arith

  all_remember :
      (reqs : List DevRequest) (mem : Dict (List Text)) (s : Text)
      → recall (handle_all reqs mem).1 s ≡ recall mem s ++ spoken s reqs
  unfolding handle_all
  all_remember [] mem s = sym (append-nil (recall mem s))
  all_remember (req ∷ reqs) mem s =
      all_remember reqs (handle_dev_request lower show_int req mem).1 s
      ∙ rw (one_remembers req mem s) (
          append_assoc (recall mem s) (spoken s (req ∷ [])) (spoken s reqs)
          ∙ ap (λ (t : List Text). recall mem s ++ t) (spoken-cons s req reqs))

  each_verdict :
      (before after : List DevRequest) (req : DevRequest) (mem : Dict (List Text))
      → get_elem? (handle_all (before ++ req ∷ after) mem).0 (length before)
        ≡ some (verdict req (recall mem req.session_id ++ spoken req.session_id before))
  unfolding handle_all
  each_verdict [] after req mem =
      ap some
        (one_verdict req mem ∙ ap (verdict req) (sym (append-nil (recall mem req.session_id))))
  each_verdict (first ∷ before) after req mem =
      let s = req.session_id in
      each_verdict before after req (handle_dev_request lower show_int first mem).1
      ∙ ap (λ (said : List Text). some (verdict req said))
          (ap (λ (t : List Text). t ++ spoken s before) (one_remembers first mem s)
            ∙ append_assoc (recall mem s) (spoken s (first ∷ [])) (spoken s before)
            ∙ ap (λ (t : List Text). recall mem s ++ t) (spoken-cons s first before))

  -- A session goes on from request to request, whatever other sessions ask between: each request of
  -- a list is judged and its artifact is made with what the memory held for its session before the
  -- first, followed by the utterances of the earlier requests of that session, less those whose
  -- target is forbidden. At the end the memory holds, for each session, what it held before and all
  -- its utterances but the forbidden ones, in order.
  pub session_goes_on :
      (before after : List DevRequest) (req : DevRequest) (mem : Dict (List Text))
      → let reqs = before ++ req ∷ after in
        let (verdicts, mem') = handle_all reqs mem in
        (get_elem? verdicts (length before)
          ≡ some (verdict req (recall mem req.session_id ++ spoken req.session_id before)))
        × ((s : Text) → recall mem' s ≡ recall mem s ++ spoken s reqs)
  session_goes_on before after req mem =
      (each_verdict before after req mem, all_remember (before ++ req ∷ after) mem)
