-- ===== src/DevEngine/Handling.antt =====
-- src/training/dev_engine_flow/main.go: what becomes of a request, and what is remembered.
use sovereign_core.Prelude.{
  ℕ, Text, bytes, ◌==◌, ==_iff, Dict, lookup-insert, has_prefix, strip, strip-append, strip-eq-some,
  Option-cases, ap, if◌then◌else◌, Bool-cases, true, false, ◌≡◌, refl, ◌⊎◌, ◌↔◌, inl, inr, List, [],
  ◌∷◌, ◌++◌, ok, arith,
}
use sovereign_core.DevEngine.{
  DevRequest, Artifact, rejected_hardrail, queued_for_deploy, recall, remember, includes,
  includes_one, classify_target, generate_code, to_pipeline, handle_dev_request,
}

recall-remember :
    (mem : Dict (List Text)) (session asked turn : Text)
    → recall (remember mem session turn) asked
      ≡ (if session == asked then recall mem asked ++ turn ∷ [] else recall mem asked)
unfolding recall remember
recall-remember mem session asked turn =
    ground (
      arith,
      lookup-insert session asked (recall mem session ++ turn ∷ []) mem,
      ==_iff session asked,
    )

-- The development engine either rejects a request and forgets it, exactly if the target is forbidden,
-- or queues an artifact for the pipeline, and then adds the utterance to the turns of its session and
-- to no other's.
pub handle_dev_request_cases :
    (lower : Text → Text) (show_int : ℕ → Text) (req : DevRequest) (mem : Dict (List Text))
    → let t = classify_target lower req.utterance in
      let r = handle_dev_request lower show_int req mem in
      ((t.forbidden ≡ true) × ((e : Text) × (r ≡ (rejected_hardrail e, mem))))
      ⊎ ((t.forbidden ≡ false)
          × ((a : Artifact) × (generate_code show_int t req (recall mem req.session_id) ≡ ok a)
              × (r.0 ≡ queued_for_deploy a (to_pipeline a)))
          × ((s : Text)
              → recall r.1 s ≡ (
                  if req.session_id == s
                  then recall mem s ++ req.utterance ∷ []
                  else recall mem s)))
unfolding handle_dev_request generate_code
handle_dev_request_cases lower show_int req mem =
    elim (Bool-cases (classify_target lower req.utterance).forbidden) [
      | inl bad ↦ rw (bad, handle_dev_request) (inl (refl, (_, refl)))
      | inr fine ↦
          rw (fine, handle_dev_request)
            (inr (refl, (_, refl, refl), λ s. recall-remember mem req.session_id s req.utterance))
    ]

-- The word stands somewhere in the text.
abbrev pub Mentions : Text → Text → Type 0
Mentions u word = (a : Text) × (b : Text) × (u ≡ a ++ (word ++ b))

abbrev pub MentionsOne : Text → Text → Text → Type 0
MentionsOne u w x = Mentions u w ⊎ Mentions u x

has_prefix-some : (s p : Text) → has_prefix s p ≡ true → (r : Text) × (s ≡ p ++ r)
has_prefix-some s p h = elim (Option-cases (strip p s)) [
  | inl absent ↦ absurd (ground arith)
  | inr (r, found) ↦ (r, strip-eq-some p s r found)
]

includes-Mentions : (s sub : Text) → includes s sub ≡ true → Mentions s sub
unfolding includes
includes-Mentions [] sub h = let (r, e) = has_prefix-some [] sub h in ([], r, e)
includes-Mentions (c ∷ s) sub h = elim (Bool-cases (has_prefix (c ∷ s) sub)) [
  | inl here ↦ let (r, e) = has_prefix-some (c ∷ s) sub here in ([], r, e)
  | inr later ↦ let (a, b, e) = includes-Mentions s sub (ground arith) in (c ∷ a, b, ap (◌∷◌ c) e)
]

includes-append : (sub b : Text) → includes (sub ++ b) sub ≡ true
unfolding includes strip
includes-append [] [] = refl
includes-append [] (c ∷ b) = refl
includes-append (c ∷ sub) b = ground (arith, strip-append (c ∷ sub) b)

Mentions-includes : (a s sub b : Text) → s ≡ a ++ (sub ++ b) → includes s sub ≡ true
unfolding includes
Mentions-includes [] s sub b e = rw e (includes-append sub b)
Mentions-includes (c ∷ a) s sub b e =
    rw e (ground (arith, Mentions-includes a (a ++ (sub ++ b)) sub b refl))

includes_one-false : (u w x : Text) → (includes_one u w x ≡ false) ↔ (¬ MentionsOne u w x)
includes_one-false u w x = (
  (λ h m. elim m [
    | inl (a, b, e) ↦ ground (arith, Mentions-includes a u w b e)
    | inr (a, b, e) ↦ ground (arith, Mentions-includes a u x b e)
  ]),
  (λ n. elim (Bool-cases (includes u w)) [
    | inl here ↦ absurd (n (inl (includes-Mentions u w here)))
    | inr absent ↦ elim (Bool-cases (includes u x)) [
      | inl here ↦ absurd (n (inr (includes-Mentions u x here)))
      | inr neither ↦ ground arith
    ]
  ]),
)

includes_one-true : (u w x : Text) → (includes_one u w x ≡ true) ↔ MentionsOne u w x
includes_one-true u w x = (
  (λ h. elim (Bool-cases (includes u w)) [
    | inl here ↦ inl (includes-Mentions u w here)
    | inr absent ↦ inr (includes-Mentions u x (ground arith))
  ]),
  (λ m. elim m [
    | inl (a, b, e) ↦ ground (arith, Mentions-includes a u w b e)
    | inr (a, b, e) ↦ ground (arith, Mentions-includes a u x b e)
  ]),
)

forbidden_tests :
    (lower : Text → Text) (utterance : Text)
    → let u = lower utterance in
      ((classify_target lower utterance).forbidden ≡ true) ↔ (
        (includes_one u (bytes "인프라") (bytes "노드 직접") ≡ true)
        × (includes_one u (bytes "라우팅") (bytes "운영엔진") ≡ false)
        × (includes_one u (bytes "큐") (bytes "배치커밋") ≡ false)
        × (includes_one u (bytes "쿼리") (bytes "스키마") ≡ false)
        × (includes_one u (bytes "oss") (bytes "모델 개조") ≡ false))
unfolding classify_target
forbidden_tests lower utterance = ((λ h. ground arith), (λ h. ground arith))

-- A request is forbidden exactly if, in lower case, it mentions "인프라" or "노드 직접" and none of the
-- words of the other layers: "라우팅", "운영엔진", "큐", "배치커밋", "쿼리", "스키마", "oss", "모델 개조". So
-- one of those makes a request for the infrastructure pass as a change of another layer.
pub forbidden_iff :
    (lower : Text → Text) (utterance : Text)
    → let u = lower utterance in
      ((classify_target lower utterance).forbidden ≡ true) ↔ (
        MentionsOne u (bytes "인프라") (bytes "노드 직접")
        × ¬ MentionsOne u (bytes "라우팅") (bytes "운영엔진")
        × ¬ MentionsOne u (bytes "큐") (bytes "배치커밋")
        × ¬ MentionsOne u (bytes "쿼리") (bytes "스키마")
        × ¬ MentionsOne u (bytes "oss") (bytes "모델 개조"))
forbidden_iff lower utterance =
    let u = lower utterance in
    (
      (λ h.
          let (i, r, q, s, o) = (forbidden_tests lower utterance).0 h in
          (
            (includes_one-true u _ _).0 i,
            (includes_one-false u _ _).0 r,
            (includes_one-false u _ _).0 q,
            (includes_one-false u _ _).0 s,
            (includes_one-false u _ _).0 o,
          )),
      (λ (i, r, q, s, o). (forbidden_tests lower utterance).1 (
        (includes_one-true u _ _).1 i,
        (includes_one-false u _ _).1 r,
        (includes_one-false u _ _).1 q,
        (includes_one-false u _ _).1 s,
        (includes_one-false u _ _).1 o,
      )),
    )
