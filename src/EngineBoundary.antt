-- ===== src/EngineBoundary.antt =====
-- src/governance/engine_boundary_sim/main.go: the boundary between the development and the operations
-- engine, which share one model and one pool of GPUs.
pub mod Routes
pub mod Pool
pub mod Demo
mod Tests
use sovereign_core.Prelude.{
  ℕ, ◌%◌, ◌-◌, ltb, ℤ, negsuc, pos, ◌+ℤ◌, ◌-ℤ◌, ltb_ℤ, Text, bytes, ◌==◌, if◌then◌else◌, Bool, true,
  false, not, List, [], ◌∷◌, ◌++◌, Option, none, some, Result, ok, err,
}
use sovereign_core.Pipeline.Words.{show_list}

abbrev pub ops : Text
ops = bytes "ops"

abbrev pub dev : Text
dev = bytes "dev"

pub record CallContext : Type 0 where
  pub provenance : Text
  pub purpose : Text

pub record Output : Type 0 where
  pub kind : Text
  pub body : Text
  pub ctx : CallContext

-- CodeModel.Infer; the name of the model is not read.
unfoldable pub infer : CallContext → Text → Output
infer ctx prompt =
    if ctx.purpose == ops
    then record { kind = bytes "ops-result"; body = bytes "고객 추론 응답"; ctx = ctx }
    else if ctx.purpose == dev
    then record { kind = bytes "code-diff"; body = bytes "C 개선 diff: " ++ prompt; ctx = ctx }
    else record { kind = []; body = []; ctx = record { provenance = []; purpose = [] } }

pub record GpuPool : Type 0 where
  pub total : ℤ
  pub ops_usage : ℤ

-- What Go's int of 64 bits holds of a number: its residue modulo 2⁶⁴, read as a signed number.
abbrev pub residue : ℤ → ℕ
residue (pos n) = n % 18446744073709551616
residue (negsuc n) = 18446744073709551615 - n % 18446744073709551616

unfoldable pub wrap_int : ℤ → ℤ
wrap_int x =
    let r = residue x in
    if ltb r 9223372036854775808 then pos r else negsuc (18446744073709551615 - r)

-- (granted, preempted)
unfoldable pub request_dev : GpuPool → ℤ → ℤ × Bool
request_dev g need =
    let idle = wrap_int (g.total -ℤ g.ops_usage) in
    if not (ltb_ℤ (pos 0) idle)
    then (pos 0, true)
    else if ltb_ℤ idle need
    then (idle, true)
    else (need, false)

unfoldable pub ops_burst : GpuPool → ℤ → GpuPool
ops_burst g amount = record g { ops_usage = wrap_int (g.ops_usage +ℤ amount) }

unfoldable pub apply_ops : Output → Result Text
apply_ops o =
    if not (o.ctx.purpose == ops)
    then err (bytes "ops 경로에 비-ops 리턴")
    else ok (bytes "즉시 적용: " ++ o.body)

-- Infra.directWrite
unfoldable pub direct_write : CallContext → Option Text
direct_write ctx =
    if ctx.purpose == dev
    then some (bytes "개발엔진(53)은 인프라 직접 접근 금지 — c-agent는 API·파이프라인 경유만")
    else none

abbrev trace : List Text
trace =
    bytes "DevEvalSuite(judge): 코드 품질 채점"
    ∷ bytes "change pipeline 게이트3: 개발엔진↛인프라 하드레일 검사"
    ∷ bytes "shadow → 카나리 → 오너 천장(비가역)"
    ∷ []

unfoldable pub route_dev : Output → Result Text
route_dev o =
    if not (o.ctx.purpose == dev)
    then err (bytes "dev 경로에 비-dev 리턴")
    else ok (
        bytes "파이프라인 경유(즉시집행 X): "
        ++ show_list (elim (direct_write o.ctx) [
          | some e ↦ trace ++ (bytes "⛔ 인프라 직접쓰기 차단됨: " ++ e) ∷ []
          | none ↦ trace
        ]))
