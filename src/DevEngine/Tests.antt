-- ===== src/DevEngine/Tests.antt =====
-- The requests d1 and d5 of the walkthrough.
use sovereign_core.Prelude.{
  ltb, ◌&&◌, ◌+◌, get_elem?, length, some, map, refl, strip, lookup, insert, ℕ, Text, bytes, ◌==◌,
  Dict, if◌then◌else◌, true, ◌≡◌, ◌↔◌, List, [], ◌∷◌, ◌++◌,
}
use sovereign_core.DevEngine.{
  DevRequest, Verdict, remember, includes, rejected_hardrail, queued_for_deploy, recall,
  classify_target, generate_code, handle_dev_request,
}
use sovereign_core.DevEngine.Session.{handle_all, spoken, verdict, session_goes_on}
use sovereign_core.DevEngine.Demo.{reqs}
use sovereign_core.DevEngine.Handling.{MentionsOne, forbidden_iff}

abbrev same_text : Text → Text
same_text t = t

abbrev show_unary : ℕ → Text
show_unary n = n ∷ []

abbrev routing_request : DevRequest
routing_request = record {
  id = bytes "d1";
  user_id = bytes "u1";
  utterance = bytes "운영엔진 라우팅 로직을 더 빠르게 고쳐줘";
  session_id = bytes "s1";
}

abbrev infra_request : DevRequest
infra_request = record routing_request { utterance = bytes "인프라 노드 직접 늘려줘" }

abbrev memory : Dict (List Text)
memory = (bytes "s1", bytes "first" ∷ []) ∷ []

abbrev infra_utterance : Text
infra_utterance = bytes "인프라 노드 직접 늘려줘"

forbidden_iff_example : ((classify_target same_text infra_utterance).forbidden ≡ true) ↔ (
    MentionsOne infra_utterance (bytes "인프라") (bytes "노드 직접")
    × ¬ MentionsOne infra_utterance (bytes "라우팅") (bytes "운영엔진")
    × ¬ MentionsOne infra_utterance (bytes "큐") (bytes "배치커밋")
    × ¬ MentionsOne infra_utterance (bytes "쿼리") (bytes "스키마")
    × ¬ MentionsOne infra_utterance (bytes "oss") (bytes "모델 개조"))
forbidden_iff_example = forbidden_iff same_text infra_utterance

-- strings.ToLower where only ASCII letters have a case.
lower_ascii : Text → Text
lower_ascii [] = []
lower_ascii (c ∷ t) = (if ltb 64 c && ltb c 91 then c + 32 else c) ∷ lower_ascii t

-- Two requests of one session, with a forbidden one between.
session_goes_on_example :
    let before = routing_request ∷ infra_request ∷ [] in
    let reqs = before ++ routing_request ∷ [] in
    let (verdicts, mem) = handle_all same_text show_unary reqs memory in
    (get_elem? verdicts (length before)
      ≡ some (
          verdict same_text show_unary routing_request
            (recall memory (bytes "s1") ++ spoken same_text show_unary (bytes "s1") before)))
    × ((s : Text) → recall mem s ≡ recall memory s ++ spoken same_text show_unary s reqs)
session_goes_on_example =
    session_goes_on same_text show_unary (routing_request ∷ infra_request ∷ []) [] routing_request
      memory

operation : Verdict → Text
operation (rejected_hardrail e) = bytes "rejected"
operation (queued_for_deploy a steps) = a.op

-- How the six requests of main end.
reqs_end :
    map operation (handle_all lower_ascii show_unary reqs []).0
    ≡ bytes "update"
      ∷ bytes "update"
      ∷ bytes "update"
      ∷ bytes "update"
      ∷ bytes "update"
      ∷ bytes "rejected"
      ∷ []
unfolding operation lower_ascii handle_all handle_dev_request generate_code classify_target includes
    recall remember bytes ◌==◌ strip lookup insert
reqs_end = refl
