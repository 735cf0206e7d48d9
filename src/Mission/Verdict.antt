-- ===== src/Mission/Verdict.antt =====
-- services/mission/mission_evaluator.py: was the goal of a mission achieved?
pub mod Completed
pub mod Samples
use agent_os.Prelude.{
  ℕ, String, Bool, true, false, not, ◌⊎◌, inl, inr, Option, none, some, List, [], ◌∷◌, map, ◌==◌,
  ◌&&◌, ◌||◌, str_eq, if◌then◌else◌,
}
use agent_os.Errors.{Error, Result, ok, err}
use agent_os.Exec.{Exec, pure, lift, gets, modify, ◌>>=◌, ◌>>◌}
use agent_os.Sql.{update_where}
use agent_os.Text.{append, decimal}
use agent_os.Json.{
  Json, null, bool, num, str, arr, obj, Items, nil, cons, Fields, end, field, lookup, assign,
}
use agent_os.Mission.Tables.{Mission, MissionTask, Evidence, Database}
use agent_os.Mission.Tables.Status.{TaskStatus, passed, skipped, same_task}
use agent_os.Mission.TaskGraph.{of_mission}
use agent_os.Mission.Evidence.{get_mission_evidence, has_verified_evidence_for_task}
use agent_os.Mission.Control.{by_mission}
use agent_os.Mission.Replies.{unfence}

abbrev pub counts_as_done : TaskStatus → Bool
counts_as_done status = same_task status passed || same_task status skipped

abbrev pub says_yes : Result Bool → Bool
says_yes (ok b) = b
says_yes (err e) = false

-- the comprehension of missing_task_evidence, which changes nothing
unfoldable pub missing_evidence : Database → List MissionTask → List ℕ
missing_evidence db [] = []
missing_evidence db (t ∷ ts) =
    let rest = missing_evidence db ts in
    if counts_as_done t.status && not (says_yes (has_verified_evidence_for_task t.task_id db).0)
    then t.task_id ∷ rest
    else rest

-- ', '.join(ids)
unfoldable pub joined : List ℕ → String
joined [] = ""
joined (id ∷ []) = decimal id
joined (id ∷ next ∷ ids) = append (decimal id) (append ", " (joined (next ∷ ids)))

abbrev pub unmet : (reasoning : String) → List String → Items
unmet reasoning [] = nil
unmet reasoning (c ∷ cs) =
    cons
      (obj (
        field "criterion" (str c)
          (field "met" (bool false) (field "reasoning" (str reasoning) end))))
      (unmet reasoning cs)

abbrev pub incomplete : (gap : String) → (criteria_results : Items) → Fields
incomplete gap criteria_results =
    field "overall_verdict" (str "INCOMPLETE") (
      field "gaps" (arr (cons (str gap) nil)) (field "criteria_results" (arr criteria_results) end))

abbrev pub is_verdict : Option Json → Bool
is_verdict (some (str s)) = str_eq s "COMPLETED" || str_eq s "INCOMPLETE"
is_verdict _ = false

-- gaps.append(gap)
abbrev pub push_item : Json → Items → Items
push_item v nil = cons v nil
push_item v (cons x xs) = cons x (push_item v xs)

abbrev pub unrecognized : Json
unrecognized = str "evaluator returned an unrecognized verdict, defaulting to INCOMPLETE"

-- parsed.setdefault("gaps", []).append(…): only a list has `append`
abbrev pub add_gap : Option Json → Fields → Result Fields
add_gap none fields = ok (assign "gaps" (arr (cons unrecognized nil)) fields)
add_gap (some (arr gaps)) fields = ok (assign "gaps" (arr (push_item unrecognized gaps)) fields)
add_gap (some _) fields = err Error.attribute_error

abbrev pub with_verdict : Fields → Result Fields
with_verdict fields =
    if is_verdict (lookup "overall_verdict" fields)
    then ok fields
    else (let fixed = assign "overall_verdict" (str "INCOMPLETE") fields in
        add_gap (lookup "gaps" fixed) fixed)

-- `inl` is the message of a JSONDecodeError. A value that is no dict has no `get`.
abbrev pub from_reply : String ⊎ Json → Result Fields
from_reply (inl message) =
    ok (incomplete (append "mission evaluator response was not valid JSON: " message) nil)
from_reply (inr (obj fields)) = with_verdict fields
from_reply (inr _) = err Error.attribute_error

-- _parse; `loads` is json.loads
unfoldable pub parse_verdict : (loads : List ℕ → String ⊎ Json) → (text : List ℕ) → Result Fields
parse_verdict loads text = from_reply (loads (unfence text))

abbrev pub store_verdict : (now mission_id : ℕ) → Fields → Database → Database
store_verdict now mission_id result db = record db {
  missions =
      update_where (by_mission mission_id)
        (λ m. record m { final_verification = some (obj result); updated_at = now }) db.missions;
}

-- From the prompt on. `route` is what the model replies to the mission and its verified evidence.
abbrev pub ask_model :
    (loads : List ℕ → String ⊎ Json) (route : Mission → List Evidence → Result (List ℕ)) (now : ℕ)
    → Mission
    → List Evidence
    → Exec Database Fields
ask_model loads route now mission verified_evidence = do
  text ← lift (route mission verified_evidence)
  result ← lift (parse_verdict loads text)
  modify (store_verdict now mission.mission_id result)
  pure result

abbrev pub judge :
    (loads : List ℕ → String ⊎ Json) (route : Mission → List Evidence → Result (List ℕ)) (now : ℕ)
    → Mission
    → (missing : List ℕ) → (verified_evidence : List Evidence) → Exec Database Fields
judge loads route now mission (id ∷ ids) verified_evidence = pure (
    incomplete
      (append "passed task(s) without independently verified evidence: " (joined (id ∷ ids)))
      (unmet "not every passed task has verified evidence" mission.success_criteria))
judge loads route now mission [] [] = pure (
    incomplete "no verified evidence exists for this mission — only claims, if any"
      (unmet "no verified evidence" mission.success_criteria))
judge loads route now mission [] (e ∷ es) = ask_model loads route now mission (e ∷ es)

unfoldable pub evaluate_mission :
    (loads : List ℕ → String ⊎ Json) (route : Mission → List Evidence → Result (List ℕ)) (now : ℕ)
    → Mission
    → Exec Database Fields
evaluate_mission loads route now mission = do
  verified_evidence ← get_mission_evidence mission.mission_id true
  missing ← gets (λ db. missing_evidence db (of_mission mission.mission_id db.tasks))
  judge loads route now mission missing verified_evidence
