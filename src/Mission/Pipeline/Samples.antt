-- ===== src/Mission/Pipeline/Samples.antt =====
-- Runs of services/mission/evidence.py and services/mission/verification_pipeline.py, and their
-- theorems at them.
use agent_os.Prelude.{◌≡◌, refl, subst, true, none, some, [], ◌∷◌, arith}
use agent_os.Errors.{ok, err, value_error}
use agent_os.Json.{Json, obj, str, field, end, truthy}
use agent_os.Mission.Tables.{Evidence, Database}
use agent_os.Mission.Tables.Status.{test_result, verified, same_evidence}
use agent_os.Mission.Evidence.{
  parse_kind, find_kind, record_claim, verify, mark_pending, mark_failed, reject, mark_expired,
  as_verified, new_claim, get_mission_evidence, get_task_evidence, has_verified_evidence_for_task,
}
use agent_os.Mission.Evidence.Sync.{IsSynced, rejects, leaves, leaves-IsSynced}
use agent_os.Mission.Pipeline.{
  test_verifier, VerificationResult, unavailable, checked, Verifiers, registry, conclude,
  run_registered, claim_and_verify, reported,
}
use agent_os.Mission.Pipeline.Outcome.{HasDetails, Settled, claim_and_verify-Settled}

program : Unit {0}
unfolding parse_kind find_kind record_claim verify mark_pending mark_failed reject mark_expired
    same_evidence registry conclude run_registered claim_and_verify get_mission_evidence
    get_task_evidence has_verified_evidence_for_task
program = tt

abbrev report : Json
report = obj (field "exit_code" (str "0") end)

abbrev shown : Evidence
shown =
    as_verified report "TestVerifier" none none 9
      (new_claim 1 4 2 (some 3) test_result "tests pass")

abbrev archive : Database
archive = record {
  missions = [];
  tasks = [];
  evidence = shown ∷ [];
  strategies = [];
  decisions = [];
  cost_events = [];
}

abbrev green : VerificationResult
green = record { passed = true; detail = report; evidence_hash = some "ab" }

-- The test verifier passes, the others cannot be reached.
abbrev world : Verifiers
world test_verifier claim context = checked green
world _ claim context = unavailable "no network"

world-HasDetails : HasDetails world
world-HasDetails test_verifier claim context result e p =
    let injected : green ≡ result = cc in subst (λ r. truthy r.detail ≡ true) injected refl
world-HasDetails _ claim context result e p = cc

new_claim_passes :
    (claim_and_verify world 5 6 2 (some 3) "build_result" "it builds" report archive).0
    ≡ ok (reported 5 verified)
unfolding program
new_claim_passes = refl

unknown_kind_raises :
    (claim_and_verify world 5 6 2 (some 3) "vibes" "it builds" report archive).0 ≡ err value_error
unfolding program
unknown_kind_raises = refl

task_has_evidence : (has_verified_evidence_for_task 3 archive).0 ≡ ok true
unfolding program
task_has_evidence = refl

test_result_is_valid : parse_kind "test_result" ≡ ok test_result
unfolding program
test_result_is_valid = refl

claim_and_verify-Settled_example :
    Settled 5 verified
      (claim_and_verify world 5 6 2 (some 3) "test_result" "tests pass" report archive)
unfolding registry
claim_and_verify-Settled_example =
    claim_and_verify-Settled world 5 6 2 (some 3) "test_result" "tests pass" test_result report
      archive world-HasDetails ((λ e. omega (arith, e)), tt) test_result_is_valid

archive-IsSynced : IsSynced archive
unfolding program
archive-IsSynced = (refl, tt)

leaves-IsSynced_example : IsSynced (leaves (rejects 1 "stale" "reviewer") archive)
leaves-IsSynced_example = leaves-IsSynced (rejects 1 "stale" "reviewer") archive archive-IsSynced
