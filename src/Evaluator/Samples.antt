-- ===== src/Evaluator/Samples.antt =====
-- Runs of services/evaluator/evaluator.py, and its theorem at them.
use agent_os.Prelude.{◌≡◌, refl, true, false, none, some, []}
use agent_os.Json.{str, arr, nil, cons, field, end}
use agent_os.Evaluator.{WorkerTask, decide, evaluate_task}
use agent_os.Evaluator.Verdicts.{is_pass}

program : Unit {0}
unfolding decide evaluate_task
program = tt

abbrev search : WorkerTask
search = record {
  task_id = 4;
  type = "research";
  status = "completed";
  result = some (field "sources" (arr (cons (str "https://example.org") nil)) end);
  last_error = none;
  retries = 0;
  payload_text = "{}";
}

good_search_passes : is_pass (evaluate_task none (some (some 900000)) 1 5 search []).0 ≡ true
unfolding program
good_search_passes = refl

unreadable_score_passes : is_pass (evaluate_task none (some none) 1 5 search []).0 ≡ true
unfolding program
unreadable_score_passes = refl

poor_search_does_not : is_pass (evaluate_task none (some (some 499999)) 1 5 search []).0 ≡ false
unfolding program
poor_search_does_not = refl
