-- ===== src/DevEngine/Demo.antt =====
-- src/training/dev_engine_flow/main.go: the requests of main.
use sovereign_core.Prelude.{Text, bytes, List, [], ◌∷◌}
use sovereign_core.DevEngine.{DevRequest}

abbrev request : Text → Text → Text → Text → DevRequest
request id user_id utterance session_id = record {
  id = id;
  user_id = user_id;
  utterance = utterance;
  session_id = session_id;
}

abbrev pub reqs : List DevRequest
reqs =
    request (bytes "d1") (bytes "u1") (bytes "운영엔진 라우팅 로직을 더 빠르게 고쳐줘") (bytes "s1")
    ∷ request (bytes "d1b") (bytes "u1") (bytes "방금 그 라우팅에 캐시도 붙여줘") (bytes "s1")
    ∷ request (bytes "d2") (bytes "u2") (bytes "전단 배치커밋 큐 성능 개선") (bytes "s2")
    ∷ request (bytes "d3") (bytes "u3") (bytes "임베딩 OSS 모델을 우리 도메인에 맞게 개조") (bytes "s3")
    ∷ request (bytes "d4") (bytes "u4") (bytes "쿼리 최적화 스키마 수정") (bytes "s4")
    ∷ request (bytes "d5") (bytes "u5") (bytes "인프라 노드 직접 늘려줘") (bytes "s5")
    ∷ []
