-- ===== src/DevEngine.antt =====
-- src/training/dev_engine_flow/main.go: how the development engine handles a request. `lower` is
-- strings.ToLower, and `show_int` prints an int as %d does.
pub mod Handling
pub mod Session
pub mod Demo
mod Tests
use sovereign_core.Prelude.{
  ℕ, suc, Text, bytes, ◌==◌, Dict, lookup, insert, has_prefix, length, ltb, if◌then◌else◌, Bool,
  true, false, ◌||◌, List, [], ◌∷◌, ◌++◌, Option, none, some, Result, ok, err,
}

pub record DevRequest : Type 0 where
  pub id : Text
  pub user_id : Text
  pub utterance : Text
  pub session_id : Text

-- ConversationMemory; a session that is no key has no turns.
unfoldable pub recall : Dict (List Text) → Text → List Text
recall store session_id = elim (lookup session_id store) [ none ↦ [] | some v ↦ v ]

unfoldable pub remember : Dict (List Text) → Text → Text → Dict (List Text)
remember store session_id turn = insert session_id (recall store session_id ++ turn ∷ []) store

pub record Target : Type 0 where
  pub layer : Text
  pub lang : Text
  pub kind : Text
  pub forbidden : Bool

-- strings.Contains
unfoldable pub includes : Text → Text → Bool
includes [] sub = has_prefix [] sub
includes (c ∷ s) sub = let later = includes s sub in has_prefix (c ∷ s) sub || later

abbrev pub includes_one : Text → Text → Text → Bool
includes_one s a b = includes s a || includes s b

unfoldable pub classify_target : (Text → Text) → Text → Target
classify_target lower utterance =
    let u = lower utterance in
    if includes_one u (bytes "라우팅") (bytes "운영엔진")
    then record {
      layer = bytes "control-plane";
      lang = bytes "go";
      kind = bytes "modify-ops";
      forbidden = false;
    }
    else if includes_one u (bytes "큐") (bytes "배치커밋")
    then record {
      layer = bytes "queue";
      lang = bytes "rust";
      kind = bytes "modify-ops";
      forbidden = false;
    }
    else if includes_one u (bytes "쿼리") (bytes "스키마")
    then record {
      layer = bytes "proxy";
      lang = bytes "sql";
      kind = bytes "modify-ops";
      forbidden = false;
    }
    else if includes_one u (bytes "oss") (bytes "모델 개조")
    then record {
      layer = bytes "oss-model";
      lang = bytes "python";
      kind = bytes "patch-oss";
      forbidden = false;
    }
    else if includes_one u (bytes "인프라") (bytes "노드 직접")
    then record {
      layer = bytes "infra-iac";
      lang = bytes "hcl";
      kind = bytes "modify-ops";
      forbidden = true;
    }
    else record {
      layer = bytes "control-plane";
      lang = bytes "go";
      kind = bytes "new-feature";
      forbidden = false;
    }

pub record Artifact : Type 0 where
  pub path : Text
  pub lang : Text
  pub op : Text
  pub diff : Text

unfoldable pub generate_code : (ℕ → Text) → Target → DevRequest → List Text → Result Artifact
generate_code show_int t req ctx =
    if t.forbidden
    then err (bytes "개발엔진은 인프라(IaC) 직접 변경 금지 — 운영엔진(50) reconcile 영역")
    else ok (record {
      path = t.layer ++ (bytes "/" ++ (t.lang ++ bytes "_change"));
      lang = t.lang;
      op = if t.kind == bytes "new-feature" then bytes "create" else bytes "update";
      diff =
          bytes "["
          ++ (t.lang
              ++ (bytes "] "
                  ++ (req.utterance
                      ++ (bytes " ("
                          ++ ((if ltb 0 (length ctx)
                                then bytes "이전맥락 " ++ (show_int (length ctx) ++ bytes "턴 반영")
                                else bytes "신규")
                              ++ bytes ")")))));
    })

abbrev pub to_pipeline : Artifact → List Text
to_pipeline a =
    bytes "DevEvalSuite(judge): 코드 품질·회귀 채점"
    ∷ bytes "게이트3: 개발엔진↛인프라 하드레일"
    ∷ bytes "shadow → 카나리 → (비가역이면) 오너 천장"
    ∷ bytes "반영: 운영엔진(50)이 새 버전 배포 — 개발은 여기서 손 뗌"
    ∷ []

-- The last line that handleDevRequest prints, and what it printed of the pipeline.
pub data Verdict : Type 0 where
  rejected_hardrail : Text → Verdict
  queued_for_deploy : Artifact → List Text → Verdict

unfoldable pub handle_dev_request :
    (Text → Text) → (ℕ → Text) → DevRequest → Dict (List Text) → Verdict × Dict (List Text)
handle_dev_request lower show_int req mem =
    let ctx = recall mem req.session_id in
    elim (generate_code show_int (classify_target lower req.utterance) req ctx) [
      | err e ↦ (rejected_hardrail e, mem)
      | ok art ↦
          (queued_for_deploy art (to_pipeline art), remember mem req.session_id req.utterance)
    ]
