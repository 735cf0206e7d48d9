-- ===== src/Mission/Idempotency/Samples.antt =====
-- Runs of services/mission/idempotency.py, and its theorems at them.
use agent_os.Prelude.{suc, String, ◌≡◌, refl, true, false, some, [], ◌∷◌}
use agent_os.Errors.{ok, err, value_error, idempotency_violation}
use agent_os.Json.{Json, num, null}
use agent_os.Mission.Idempotency.{
  World, check, make_idempotency_key, new_record, record_result, execute, replay_or_run,
  guarded_execute,
}
use agent_os.Mission.Idempotency.Replay.{recorded, times, Call, after_calls, effect_happens_once}
use agent_os.Mission.Idempotency.Race.{continues, race_runs_twice}

program : Unit {0}
unfolding check record_result execute replay_or_run guarded_execute
program = tt

abbrev digest : Json → String
digest payload = "0f3a"

abbrev key : String
key = make_idempotency_key digest "7" "github_pr" null

abbrev fresh : World
fresh = record { records = []; performed = [] }

abbrev retry : Call
retry = record {
  key = key;
  task_id = "7";
  kind = "github_pr";
  outcome = err value_error;
  execution_id = 4;
  now = 9;
}

effect_that_raises_is_tried_again :
    (after_calls (retry ∷ retry ∷ []) fresh).performed ≡ key ∷ key ∷ []
unfolding program
effect_that_raises_is_tried_again = refl

effect_happens_once_example :
    let (answer, last) =
      guarded_execute retry.key retry.task_id retry.kind retry.outcome retry.execution_id retry.now
        (after_calls
          (retry ∷ [])
          (guarded_execute key "7" "github_pr" (ok (num 12)) 3 8 fresh).1) in
    (answer ≡ ok (num 12, true)) × (times key last.performed ≡ suc (times key fresh.performed))
effect_happens_once_example =
    effect_happens_once key "7" "github_pr" (num 12) 3 8 fresh (retry ∷ []) retry refl refl

race_runs_twice_example :
    let (answer1, w1) = continues key "7" "github_pr" (num 12) 3 8 fresh in
    let (answer2, w2) = continues key "7" "github_pr" (num 13) 4 9 w1 in
    (answer1 ≡ ok (num 12, false))
    × (answer2 ≡ err idempotency_violation)
    × (recorded key w2 ≡ some (new_record key "7" "github_pr" (num 12) 3 8))
    × (times key w2.performed ≡ suc (suc (times key fresh.performed)))
race_runs_twice_example = race_runs_twice key "7" "github_pr" (num 12) (num 13) 3 4 8 9 fresh refl
