-- ===== src/Mission/Verdict/Samples.antt =====
-- A run of services/mission/mission_evaluator.py, and its theorem at it.
use agent_os.Prelude.{ℕ, String, ◌≡◌, refl, ◌⊎◌, inr, none, some, List, [], ◌∷◌}
use agent_os.Errors.{Result, ok, err, attribute_error}
use agent_os.Json.{Json, str, arr, obj, nil, field, end}
use agent_os.Text.{starts_with}
use agent_os.Mission.Tables.{Mission, Evidence, Database}
use agent_os.Mission.Tables.Status.{executing, passed, test_result, same_task, same_evidence}
use agent_os.Mission.TaskGraph.Samples.{task}
use agent_os.Mission.Evidence.{
  as_verified, new_claim, get_mission_evidence, has_verified_evidence_for_task,
}
use agent_os.Mission.Replies.{strip_start, strip_end, drop, before_fence, drop_tag, unfence}
use agent_os.Mission.Verdict.{missing_evidence, joined, parse_verdict, evaluate_mission}
use agent_os.Mission.Verdict.Completed.{verdict_of, Rests, completed-Rests}

program : Unit {0}
unfolding starts_with strip_start strip_end drop before_fence drop_tag unfence same_task
    same_evidence get_mission_evidence has_verified_evidence_for_task missing_evidence joined
    parse_verdict evaluate_mission
program = tt

abbrev pub mission : Mission
mission = record {
  mission_id = 1;
  user_goal = "publish the site";
  objective = none;
  constraints = obj end;
  success_criteria = "the page loads" ∷ [];
  budget = record { max_cost = none; max_tokens = none };
  deadline = none;
  priority = 5;
  current_phase = "VERIFYING";
  status = executing;
  retry_count = 0;
  max_retries = 3;
  final_verification = none;
  created_at = 1;
  updated_at = 1;
}

abbrev shown : Evidence
shown =
    as_verified (obj (field "exit_code" (str "0") end)) "TestVerifier" none none 9
      (new_claim 1 4 1 (some 1) test_result "tests pass")

abbrev proven : Database
proven = record {
  missions = mission ∷ [];
  tasks = task 1 1 [] passed ∷ [];
  evidence = shown ∷ [];
  strategies = [];
  decisions = [];
  cost_events = [];
}

-- The second task has passed without evidence.
abbrev unproven : Database
unproven = record proven { tasks = task 1 1 [] passed ∷ task 2 1 [] passed ∷ [] }

abbrev says_completed : List ℕ → String ⊎ Json
says_completed text = inr (obj (field "overall_verdict" (str "COMPLETED") end))

abbrev says_list : List ℕ → String ⊎ Json
says_list text = inr (arr nil)

abbrev route : Mission → List Evidence → Result (List ℕ)
route m es = ok []

unproven_is_incomplete :
    verdict_of (evaluate_mission says_completed route 9 mission unproven).0
    ≡ some (str "INCOMPLETE")
unfolding program
unproven_is_incomplete = refl

-- A reply that is JSON, but no object, raises instead of counting as INCOMPLETE.
list_reply_raises : (evaluate_mission says_list route 9 mission proven).0 ≡ err attribute_error
unfolding program
list_reply_raises = refl

completed-Rests_example : Rests says_completed route 9 mission proven
unfolding program
completed-Rests_example = completed-Rests says_completed route 9 mission proven refl
