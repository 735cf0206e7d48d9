-- ===== src/Mission/Pipeline/Confirmed.antt =====
-- What a verified claim of services/mission/verification_pipeline.py rests on.

use agent_os.Prelude.{
  sym, ℕ, String, ◌≡◌, refl, inl, inr, true, Option, none, some, Bool-cases, ap, ◌∙◌,
}
use agent_os.Errors.{Result, ok, err, value_error}
use agent_os.Sql.{insert}
use agent_os.Json.{Json, truthy}
use agent_os.Mission.Tables.{Database}
use agent_os.Mission.Tables.Status.{
  EvidenceKind, EvidenceStatus, claimed, verified, verification_pending, verification_failed,
}
use agent_os.Mission.Evidence.{
  parse_kind, record_claim, new_claim, verify, mark_pending, mark_failed,
}
use agent_os.Mission.Pipeline.{
  VerifierClass, registry, VerificationResult, Attempt, unavailable, crashed, checked, Verifiers,
  Report, reported, conclude, run_registered, claim_and_verify,
}

-- The verifier that is registered for the kind passed the claim, and said something in its detail.
abbrev pub Confirmed : Verifiers → (kind claim : String) → Json → Type 0
Confirmed verifiers kind claim context =
    (valid : EvidenceKind) × (cls : VerifierClass) × (result : VerificationResult) × (parse_kind
        kind
      ≡ ok valid)
    × (registry valid ≡ some cls)
    × (verifiers cls claim context ≡ checked result)
    × (result.passed ≡ true)
    × (truthy result.detail ≡ true)

abbrev status_of : Result Report → EvidenceStatus
status_of (ok report) = report.status
status_of (err e) = claimed

conclude_confirms :
    (id now : ℕ) (cls : VerifierClass) (attempt : Attempt) (db : Database) (report : Report)
    → (conclude id now cls attempt db).0 ≡ ok report
    → report.status ≡ verified
    → (result : VerificationResult) × (attempt ≡ checked result)
      × (result.passed ≡ true)
      × (truthy result.detail ≡ true)
unfolding conclude mark_pending mark_failed verify
conclude_confirms id now cls (unavailable reason) db report h v =
    let e : verification_pending ≡ verified = ap status_of h ∙ v in cc
conclude_confirms id now cls (crashed error) db report h v =
    let e : verification_failed ≡ verified = ap status_of h ∙ v in cc
conclude_confirms id now cls (checked result) db report h v = elim (Bool-cases result.passed) [
  | inl passes ↦ elim (Bool-cases (truthy result.detail)) [
    | inl full ↦ (result, refl, passes, full)
    | inr empty ↦
        let raised : (conclude id now cls (checked result) db).0 ≡ err value_error =
          rw (passes, empty) refl in
        let e : claimed ≡ verified = ap status_of (sym raised ∙ h) ∙ v in cc
  ]
  | inr fails ↦
      let failed : (conclude id now cls (checked result) db).0
          ≡ ok (reported id verification_failed) =
        rw fails refl in
      let e : verification_failed ≡ verified = ap status_of (sym failed ∙ h) ∙ v in cc
]

run_registered_confirms :
    (verifiers : Verifiers) (id now : ℕ) (found : Option VerifierClass) (kind claim : String)
    (context : Json) (db : Database) (report : Report)
    → (run_registered verifiers id now found kind claim context db).0 ≡ ok report
    → report.status ≡ verified
    → (cls : VerifierClass) × (result : VerificationResult) × (found ≡ some cls)
      × (verifiers cls claim context ≡ checked result)
      × (result.passed ≡ true)
      × (truthy result.detail ≡ true)
unfolding run_registered mark_pending
run_registered_confirms verifiers id now none kind claim context db report h v =
    let e : verification_pending ≡ verified = ap status_of h ∙ v in cc
run_registered_confirms verifiers id now (some cls) kind claim context db report h v =
    let (result, e, passes, full) =
      conclude_confirms id now cls (verifiers cls claim context) db report h v in
    (cls, result, refl, e, passes, full)

-- If claim_and_verify reports `verified`, the kind is valid, a verifier is registered for it, and
-- that verifier passed this claim in this context with a detail.
pub verified-Confirmed :
    (verifiers : Verifiers) (id now mission_id : ℕ) (task_id : Option ℕ) (kind claim : String)
    (context : Json) (db : Database) (report : Report)
    → (claim_and_verify verifiers id now mission_id task_id kind claim context db).0 ≡ ok report
    → report.status ≡ verified
    → Confirmed verifiers kind claim context
unfolding claim_and_verify record_claim
verified-Confirmed verifiers id now mission_id task_id kind claim context db report h v =
    parsed (parse_kind kind) refl
  where
    parsed :
        (r : Result EvidenceKind) → parse_kind kind ≡ r → Confirmed verifiers kind claim context
    parsed (err x) e =
        let raised : (claim_and_verify verifiers id now mission_id task_id kind claim context db).0
            ≡ err x =
          rw e refl in
        let f : claimed ≡ verified = ap status_of (sym raised ∙ h) ∙ v in cc
    parsed (ok valid) e =
        let runs : (claim_and_verify verifiers id now mission_id task_id kind claim context db).0
            ≡ (run_registered verifiers id now (registry valid) kind claim context (record db {
              evidence = insert (new_claim id now mission_id task_id valid claim) db.evidence;
            })).0 =
          rw e refl in
        let (cls, result, found, attempt, passes, full) =
          run_registered_confirms verifiers id now (registry valid) kind claim context _ report
            (sym runs ∙ h) v in
        (valid, cls, result, e, found, attempt, passes, full)
