-- ===== src/Mission/Pipeline.antt =====
-- services/mission/verification_pipeline.py: a claim and its verification in one call. What a
-- verifier finds in the outside world is an argument.
pub mod Outcome
pub mod Confirmed
pub mod Samples
use Prim.Native.String.{◌++◌}
use agent_os.Prelude.{ℕ, String, Bool, true, false, Option, none, some, if◌then◌else◌}
use agent_os.Errors.{Result, ok, err}
use agent_os.Exec.{Exec, pure, lift, gets, ◌>>=◌, ◌>>◌}
use agent_os.Json.{Json, obj, str, field, end}
use agent_os.Mission.Tables.{Database}
use agent_os.Mission.Tables.Status.{
  EvidenceKind, test_result, build_result, lint_result, deployment_health_check, source_reference,
  extracted_evidence, cross_check_result, browser_action_result, screenshot_ref, container_health,
  http_health_check, service_response, log_excerpt, EvidenceStatus, verification_pending, verified,
  verification_failed,
}
use agent_os.Mission.Evidence.{parse_kind, record_claim, verify, mark_pending, mark_failed}

-- The verifier classes that VERIFIER_REGISTRY names.
pub data VerifierClass : Type 0 where
  test_verifier http_verifier artifact_verifier browser_verifier source_reference_verifier :
      VerifierClass

-- verifier_cls.__name__
abbrev pub class_name : VerifierClass → String
class_name test_verifier = "TestVerifier"
class_name http_verifier = "HTTPVerifier"
class_name artifact_verifier = "ArtifactVerifier"
class_name browser_verifier = "BrowserVerifier"
class_name source_reference_verifier = "SourceReferenceVerifier"

-- VERIFIER_REGISTRY.get(kind)
unfoldable pub registry : EvidenceKind → Option VerifierClass
registry test_result = some test_verifier
registry build_result = some test_verifier
registry lint_result = some test_verifier
registry deployment_health_check = some http_verifier
registry http_health_check = some http_verifier
registry service_response = some http_verifier
registry screenshot_ref = some artifact_verifier
registry container_health = some http_verifier
registry browser_action_result = some browser_verifier
registry source_reference = some source_reference_verifier
registry _ = none

pub record VerificationResult : Type 0 where
  pub passed : Bool
  pub detail : Json
  pub evidence_hash : Option String

-- How `await verifier.verify(…)` ends: VerifierUnavailable, another exception, or a result.
pub data Attempt : Type 0 where
  unavailable : (reason : String) → Attempt
  crashed : (error : String) → Attempt
  checked : VerificationResult → Attempt

-- What the outside world lets each verifier find, given the claim and the context.
abbrev pub Verifiers : Type 0
Verifiers = VerifierClass → (claim : String) → (context : Json) → Attempt

pub record Report : Type 0 where
  pub evidence_id : ℕ
  pub status : EvidenceStatus

abbrev pub reported : ℕ → EvidenceStatus → Report
reported evidence_id status = record { evidence_id = evidence_id; status = status }

unfoldable pub conclude : ℕ → ℕ → VerifierClass → Attempt → Exec Database Report
conclude evidence_id now cls (unavailable reason) = do
  mark_pending evidence_id reason
  pure (reported evidence_id verification_pending)
conclude evidence_id now cls (crashed error) = do
  mark_failed evidence_id (class_name cls)
      (obj (field "error" (str ("verifier raised: " ++ error)) end)) now
  pure (reported evidence_id verification_failed)
conclude evidence_id now cls (checked result) =
    if result.passed
    then (verify evidence_id result.detail (class_name cls) result.evidence_hash none now
        >> pure (reported evidence_id verified))
    else (mark_failed evidence_id (class_name cls) result.detail now
        >> pure (reported evidence_id verification_failed))

unfoldable pub run_registered :
    Verifiers → ℕ → ℕ → Option VerifierClass → (kind claim : String) → Json → Exec Database Report
run_registered verifiers evidence_id now none kind claim context = do
  mark_pending evidence_id ("no verifier registered for kind '" ++ (kind ++ "'"))
  pure (reported evidence_id verification_pending)
run_registered verifiers evidence_id now (some cls) kind claim context =
    conclude evidence_id now cls (verifiers cls claim context)

unfoldable pub claim_and_verify :
    Verifiers
    → (evidence_id now mission_id : ℕ) → Option ℕ
    → (kind claim : String) → Json
    → Exec Database Report
claim_and_verify verifiers evidence_id now mission_id task_id kind claim context = do
  record_claim evidence_id now mission_id task_id kind claim
  valid ← lift (parse_kind kind)
  run_registered verifiers evidence_id now (registry valid) kind claim context
