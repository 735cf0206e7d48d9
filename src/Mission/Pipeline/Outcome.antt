-- ===== src/Mission/Pipeline/Outcome.antt =====
-- Where services/mission/verification_pipeline.py leaves a new claim.
use Prim.Native.String.{◌++◌}
use agent_os.Prelude.{
  ℕ, String, ◌≡◌, refl, inl, inr, true, false, Option, none, some, arith, Bool-cases, if◌then◌else◌,
  str_eq,
}
use agent_os.Errors.{Result, ok}
use agent_os.Sql.{insert}
use agent_os.Sql.Keyed.{IsFresh, fetchrow-insert, fetchrow-IsFresh}
use agent_os.Json.{Json, obj, str, field, end, truthy}
use agent_os.Mission.Tables.{Evidence, Database}
use agent_os.Mission.Tables.Status.{
  EvidenceKind, EvidenceStatus, verified, verification_pending, verification_failed, same_evidence,
}
use agent_os.Mission.Evidence.{
  parse_kind, record_claim, new_claim, verify, mark_pending, mark_failed, as_verified, as_pending,
  as_failed, by_evidence, set_evidence,
}
use agent_os.Mission.Evidence.Sync.{InStep, evidence_row, row_after}
use agent_os.Mission.Pipeline.{
  VerifierClass, test_verifier, http_verifier, artifact_verifier, browser_verifier,
  source_reference_verifier, class_name, registry, VerificationResult, Attempt, unavailable,
  crashed, checked, Verifiers, Report, reported, conclude, run_registered, claim_and_verify,
}

-- What a registered verifier's attempt earns a claim.
abbrev pub earned : Attempt → EvidenceStatus
earned (unavailable reason) = verification_pending
earned (crashed error) = verification_failed
earned (checked result) = if result.passed then verified else verification_failed

-- What a claim of a kind earns: without a verifier it waits.
abbrev pub deserved : Verifiers → Option VerifierClass → (claim : String) → Json → EvidenceStatus
deserved verifiers none claim context = verification_pending
deserved verifiers (some cls) claim context = earned (verifiers cls claim context)

-- Every result that passes says something in its detail.
abbrev pub HasDetails : Verifiers → Type 0
HasDetails verifiers =
    (cls : VerifierClass) (claim : String) (context : Json) (result : VerificationResult)
    → verifiers cls claim context ≡ checked result
    → result.passed ≡ true
    → truthy result.detail ≡ true

-- The call reports `status` and the row says the same in both columns.
abbrev pub Settled : ℕ → EvidenceStatus → Result Report × Database → Type 0
Settled evidence_id status (result, db) =
    (result ≡ ok (reported evidence_id status))
    × ((e : Evidence) × (evidence_row evidence_id db ≡ some e) × (e.status ≡ status) × InStep e)

class_name_is_given : (cls : VerifierClass) → str_eq (class_name cls) "" ≡ false
class_name_is_given test_verifier = refl
class_name_is_given http_verifier = refl
class_name_is_given artifact_verifier = refl
class_name_is_given browser_verifier = refl
class_name_is_given source_reference_verifier = refl

module _ (id now mission_id : ℕ) (task_id : Option ℕ) (valid : EvidenceKind) (claim : String)
    (db : Database) (fresh : IsFresh (λ e. e.evidence_id) id db.evidence) where
  abbrev new : Evidence
  new = new_claim id now mission_id task_id valid claim

  abbrev entered : Database
  entered = record db { evidence = insert new db.evidence }

  entered_row : evidence_row id entered ≡ some new
  entered_row =
      rw
        (
          fetchrow-insert (by_evidence id) new db.evidence,
          fetchrow-IsFresh (λ e. e.evidence_id) id db.evidence fresh,
        )
        (ground arith)

  written :
      (status : EvidenceStatus) (f : Evidence → Evidence)
      → ((e : Evidence) → (f e).evidence_id ≡ e.evidence_id)
      → (f new).status ≡ status
      → InStep (f new)
      → Settled id status (ok (reported id status), set_evidence id f entered)
  written status f keeps s step =
      (refl, (f new, row_after id f keeps entered new entered_row, s, step))

  conclude-Settled :
      (cls : VerifierClass) (attempt : Attempt)
      → ((result : VerificationResult)
          → attempt ≡ checked result
          → result.passed ≡ true
          → truthy result.detail ≡ true)
      → Settled id (earned attempt) (conclude id now cls attempt entered)
  unfolding conclude mark_pending mark_failed verify same_evidence
  conclude-Settled cls (unavailable reason) full =
      written verification_pending (as_pending reason) (λ e. refl) refl refl
  conclude-Settled cls (crashed error) full =
      written verification_failed
        (as_failed (class_name cls) (obj (field "error" (str ("verifier raised: " ++ error)) end))
          now)
        (λ e. refl) refl refl
  conclude-Settled cls (checked result) full = elim (Bool-cases result.passed) [
    | inl passes ↦
        rw (passes, full result refl passes, class_name_is_given cls)
          (written verified
            (as_verified result.detail (class_name cls) result.evidence_hash none now) (λ e. refl)
            refl refl)
    | inr fails ↦ rw fails (
        written verification_failed (as_failed (class_name cls) result.detail now) (λ e. refl) refl
          refl)
  ]

  run_registered-Settled :
      (verifiers : Verifiers) (kind : String) (context : Json) (found : Option VerifierClass)
      → HasDetails verifiers
      → Settled id
          (deserved verifiers found claim context)
          (run_registered verifiers id now found kind claim context entered)
  unfolding run_registered mark_pending same_evidence
  run_registered-Settled verifiers kind context none full =
      written verification_pending
        (as_pending ("no verifier registered for kind '" ++ (kind ++ "'"))) (λ e. refl) refl refl
  run_registered-Settled verifiers kind context (some cls) full =
      conclude-Settled cls (verifiers cls claim context) (full cls claim context)

-- With a fresh identifier and verifiers whose passing results carry a detail, claim_and_verify
-- with a valid kind returns; it reports `verified` if the registered verifier passed, failed if it
-- did not pass or raised, and pending if it was unavailable or none is registered; and the new row
-- has that status, and its column `verified` is in step with it.
pub claim_and_verify-Settled :
    (verifiers : Verifiers) (id now mission_id : ℕ) (task_id : Option ℕ) (kind claim : String)
    (valid : EvidenceKind) (context : Json) (db : Database)
    → HasDetails verifiers
    → IsFresh (λ e. e.evidence_id) id db.evidence
    → parse_kind kind ≡ ok valid
    → Settled id
        (deserved verifiers (registry valid) claim context)
        (claim_and_verify verifiers id now mission_id task_id kind claim context db)
unfolding claim_and_verify record_claim
claim_and_verify-Settled verifiers id now mission_id task_id kind claim valid context db full fresh
      parsed =
    rw parsed (
      run_registered-Settled id now mission_id task_id valid claim db fresh verifiers kind context
        (registry valid) full)
