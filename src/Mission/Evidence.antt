-- ===== src/Mission/Evidence.antt =====
-- services/mission/evidence.py: claims and how they become verified.
pub mod Sync
use agent_os.Prelude.{
  ℕ, suc, String, Bool, true, false, not, ◌&&◌, Option, none, some, List, [], ◌∷◌, str_eq, ◌==◌,
  if◌then◌else◌, length, ltb,
}
use agent_os.Errors.{Error, Result, ok, err}
use agent_os.Exec.{Exec, pure, lift, gets, modify, require, ◌>>=◌, ◌>>◌}
use agent_os.Sql.{select, update_where, insert}
use agent_os.Sql.Keyed.{by_key}
use agent_os.Json.{Json, obj, str, field, end, truthy}
use agent_os.Mission.Tables.{Evidence, Database}
use agent_os.Mission.Tables.Status.{
  EvidenceKind, test_result, build_result, lint_result, deployment_health_check, source_reference,
  extracted_evidence, cross_check_result, browser_action_result, screenshot_ref, container_health,
  http_health_check, service_response, log_excerpt, EvidenceStatus, claimed, verification_pending,
  verified, verification_failed, rejected, expired, same_evidence,
}

abbrev pub kind_text : EvidenceKind → String
kind_text test_result = "test_result"
kind_text build_result = "build_result"
kind_text lint_result = "lint_result"
kind_text deployment_health_check = "deployment_health_check"
kind_text source_reference = "source_reference"
kind_text extracted_evidence = "extracted_evidence"
kind_text cross_check_result = "cross_check_result"
kind_text browser_action_result = "browser_action_result"
kind_text screenshot_ref = "screenshot_ref"
kind_text container_health = "container_health"
kind_text http_health_check = "http_health_check"
kind_text service_response = "service_response"
kind_text log_excerpt = "log_excerpt"

abbrev pub valid_kinds : List EvidenceKind
valid_kinds =
    test_result ∷ build_result ∷ lint_result ∷ deployment_health_check ∷ source_reference
    ∷ extracted_evidence ∷ cross_check_result ∷ browser_action_result ∷ screenshot_ref
    ∷ container_health ∷ http_health_check ∷ service_response ∷ log_excerpt ∷ []

unfoldable pub find_kind : String → List EvidenceKind → Option EvidenceKind
find_kind text [] = none
find_kind text (k ∷ ks) = if str_eq (kind_text k) text then some k else find_kind text ks

-- `kind not in VALID_KINDS` raises a ValueError
unfoldable pub parse_kind : String → Result EvidenceKind
unfolding find_kind
parse_kind text = elim (find_kind text valid_kinds) [ none ↦ err Error.value_error | some k ↦ ok k ]

abbrev pub by_evidence : ℕ → Evidence → Bool
by_evidence = by_key (λ e. e.evidence_id)

abbrev pub new_claim :
    (evidence_id now mission_id : ℕ) → Option ℕ → EvidenceKind → String → Evidence
new_claim evidence_id now mission_id task_id kind claim = record {
  evidence_id = evidence_id;
  mission_id = mission_id;
  task_id = task_id;
  kind = kind;
  claim = claim;
  verified = false;
  status = claimed;
  verification_detail = obj end;
  r2_key = none;
  verifier = none;
  verified_at = none;
  evidence_hash = none;
  created_at = now;
}

-- UPDATE mission_evidence SET … WHERE evidence_id = …
abbrev pub set_evidence : ℕ → (Evidence → Evidence) → Database → Database
set_evidence evidence_id f db = record db {
  evidence = update_where (by_evidence evidence_id) f db.evidence;
}

-- `evidence_id` is the uuid4 that the call draws.
unfoldable pub record_claim :
    (evidence_id now mission_id : ℕ) → Option ℕ → (kind claim : String) → Exec Database ℕ
record_claim evidence_id now mission_id task_id kind claim = do
  valid ← lift (parse_kind kind)
  modify (λ db. record db {
    evidence = insert (new_claim evidence_id now mission_id task_id valid claim) db.evidence;
  })
  pure evidence_id

abbrev pub as_verified : Json → String → Option String → Option String → ℕ → Evidence → Evidence
as_verified detail verifier evidence_hash r2_key now e = record e {
  verified = true;
  status = verified;
  verification_detail = detail;
  r2_key = r2_key;
  verifier = some verifier;
  verified_at = some now;
  evidence_hash = evidence_hash;
}

unfoldable pub verify :
    (evidence_id : ℕ)
    → Json
    → (verifier : String) → (evidence_hash r2_key : Option String) → ℕ
    → Exec Database EvidenceStatus
verify evidence_id detail verifier evidence_hash r2_key now = do
  require (truthy detail) Error.value_error
  require (not (str_eq verifier "")) Error.value_error
  modify (set_evidence evidence_id (as_verified detail verifier evidence_hash r2_key now))
  pure verified

abbrev pub as_pending : String → Evidence → Evidence
as_pending reason e = record e {
  status = verification_pending;
  verification_detail = obj (field "reason" (str reason) end);
}

unfoldable pub mark_pending : ℕ → String → Exec Database EvidenceStatus
mark_pending evidence_id reason = do
  modify (set_evidence evidence_id (as_pending reason))
  pure verification_pending

abbrev pub as_failed : String → Json → ℕ → Evidence → Evidence
as_failed verifier detail now e = record e {
  status = verification_failed;
  verifier = some verifier;
  verification_detail = detail;
  verified_at = some now;
}

unfoldable pub mark_failed : ℕ → String → Json → ℕ → Exec Database EvidenceStatus
mark_failed evidence_id verifier detail now = do
  modify (set_evidence evidence_id (as_failed verifier detail now))
  pure verification_failed

abbrev pub as_rejected : (reason rejected_by : String) → Evidence → Evidence
as_rejected reason rejected_by e = record e {
  status = rejected;
  verified = false;
  verification_detail =
      obj (field "rejected_reason" (str reason) (field "rejected_by" (str rejected_by) end));
}

unfoldable pub reject : ℕ → (reason rejected_by : String) → Exec Database EvidenceStatus
reject evidence_id reason rejected_by = do
  modify (set_evidence evidence_id (as_rejected reason rejected_by))
  pure rejected

abbrev pub as_expired : Evidence → Evidence
as_expired e = record e { status = expired; verified = false }

unfoldable pub mark_expired : ℕ → Exec Database EvidenceStatus
mark_expired evidence_id = do modify (set_evidence evidence_id as_expired); pure expired

abbrev pub same_task_id : ℕ → Option ℕ → Bool
same_task_id task_id none = false
same_task_id task_id (some t) = t == task_id

unfoldable pub get_mission_evidence : ℕ → (verified_only : Bool) → Exec Database (List Evidence)
get_mission_evidence mission_id true = gets (λ db.
    select (λ e. (e.mission_id == mission_id) && same_evidence e.status verified) db.evidence)
get_mission_evidence mission_id false =
    gets (λ db. select (λ e. e.mission_id == mission_id) db.evidence)

unfoldable pub get_task_evidence : ℕ → Option EvidenceStatus → Exec Database (List Evidence)
get_task_evidence task_id none =
    gets (λ db. select (λ e. same_task_id task_id e.task_id) db.evidence)
get_task_evidence task_id (some status) = gets (λ db.
    select (λ e. same_task_id task_id e.task_id && same_evidence e.status status) db.evidence)

abbrev pub verified_for : ℕ → Evidence → Bool
verified_for task_id e = same_task_id task_id e.task_id && same_evidence e.status verified

-- SELECT count(*) … ; row["c"] > 0
unfoldable pub has_verified_evidence_for_task : ℕ → Exec Database Bool
has_verified_evidence_for_task task_id =
    gets (λ db. ltb 0 (length (select (verified_for task_id) db.evidence)))
