-- ===== src/Mission/Verdict/Completed.antt =====
-- What a COMPLETED of services/mission/mission_evaluator.py rests on.
use agent_os.Prelude.{
  ℕ, String, ◌≡◌, ◌≢◌, ◌⊎◌, refl, sym, subst, ap, ◌∙◌, inl, inr, Bool, true, false, not, Option,
  none, some, List, [], ◌∷◌, ◌==◌, ◌&&◌, str_eq, eq_iff, if◌then◌else◌, In, arith,
}
use agent_os.Errors.{Result, ok, err}
use agent_os.Exec.{continue}
use agent_os.Json.{Json, null, bool, num, str, arr, obj, Fields, lookup, assign}
use agent_os.Json.Keys.{lookup-assign, lookup-assign_ne}
use agent_os.Mission.Tables.{Mission, MissionTask, Evidence, Database}
use agent_os.Sql.{select}
use agent_os.Mission.Tables.Status.{same_evidence, verified}
use agent_os.Mission.TaskGraph.{of_mission}
use agent_os.Mission.Evidence.{get_mission_evidence, has_verified_evidence_for_task}
use agent_os.Mission.Replies.{unfence}
use agent_os.Mission.Verdict.{
  counts_as_done, says_yes, missing_evidence, is_verdict, add_gap, with_verdict, from_reply,
  parse_verdict, store_verdict, ask_model, judge, evaluate_mission,
}

abbrev pub verdict_of : Result Fields → Option Json
verdict_of (ok fields) = lookup "overall_verdict" fields
verdict_of (err e) = none

nothing_added :
    (b : Bool) (x : ℕ) (rest : List ℕ)
    → (if b then x ∷ rest else rest) ≡ []
    → (b ≡ false) × (rest ≡ [])
nothing_added true x rest h = cc
nothing_added false x rest h = (refl, h)

not_lacking : (done shown : Bool) → (done && not shown) ≡ false → done ≡ true → shown ≡ true
not_lacking done shown h k = ground arith

missing_evidence-none :
    (db : Database) (ts : List MissionTask)
    → missing_evidence db ts ≡ []
    → (t : MissionTask) → In t ts
    → counts_as_done t.status ≡ true
    → says_yes (has_verified_evidence_for_task t.task_id db).0 ≡ true
unfolding missing_evidence
missing_evidence-none db [] none_missing t there done = elim there [ ]
missing_evidence-none db (x ∷ ts) none_missing t (inl here) done =
    let (fine, rest) = nothing_added _ x.task_id (missing_evidence db ts) none_missing in
    subst
      (λ u.
        counts_as_done u.status ≡ true
        → says_yes (has_verified_evidence_for_task u.task_id db).0 ≡ true)
      here
      (not_lacking (counts_as_done x.status)
        (says_yes (has_verified_evidence_for_task x.task_id db).0) fine)
      done
missing_evidence-none db (x ∷ ts) none_missing t (inr later) done =
    let (fine, rest) = nothing_added _ x.task_id (missing_evidence db ts) none_missing in
    missing_evidence-none db ts rest t later done

-- The verdict says that the mission is complete.
abbrev pub SaysCompleted : Result Fields → Type 0
SaysCompleted result = verdict_of result ≡ some (str "COMPLETED")

text_of : Option Json → String
text_of (some (str s)) = s
text_of _ = ""

not_incomplete : some (str "INCOMPLETE") ≢ some (str "COMPLETED")
unfolding text_of
not_incomplete e =
    let same : str_eq "INCOMPLETE" "COMPLETED" ≡ true =
      (eq_iff "INCOMPLETE" "COMPLETED").1 (ap text_of e) in
    cc

-- What add_gap leaves keeps the verdict INCOMPLETE.
add_gap-verdict :
    (gaps : Option Json) (fields : Fields)
    → lookup "overall_verdict" fields ≡ some (str "INCOMPLETE")
    → ¬ SaysCompleted (add_gap gaps fields)
add_gap-verdict none fields kept says =
    not_incomplete (sym kept ∙ sym (lookup-assign_ne "overall_verdict" "gaps" _ fields refl) ∙ says)
add_gap-verdict (some (arr gaps)) fields kept says =
    not_incomplete (sym kept ∙ sym (lookup-assign_ne "overall_verdict" "gaps" _ fields refl) ∙ says)
add_gap-verdict (some null) fields kept says = cc
add_gap-verdict (some (bool b)) fields kept says = cc
add_gap-verdict (some (num n)) fields kept says = cc
add_gap-verdict (some (str s)) fields kept says = cc
add_gap-verdict (some (obj fs)) fields kept says = cc

with_verdict-completed :
    (fields : Fields)
    → SaysCompleted (with_verdict fields)
    → lookup "overall_verdict" fields ≡ some (str "COMPLETED")
with_verdict-completed fields = by_verdict (is_verdict (lookup "overall_verdict" fields))
  where
    by_verdict :
        (b : Bool)
        → SaysCompleted (
            if b
            then ok fields
            else (let fixed = assign "overall_verdict" (str "INCOMPLETE") fields in
                add_gap (lookup "gaps" fixed) fixed))
        → lookup "overall_verdict" fields ≡ some (str "COMPLETED")
    by_verdict true says = says
    by_verdict false says =
        let fixed = assign "overall_verdict" (str "INCOMPLETE") fields in
        elim (add_gap-verdict (lookup "gaps" fixed) fixed
          (lookup-assign "overall_verdict" (str "INCOMPLETE") fields) says) [ ]

-- The reply is a dict with that verdict.
abbrev pub Replied : String ⊎ Json → Type 0
Replied reply =
    (fields : Fields) × (reply ≡ inr (obj fields))
    × (lookup "overall_verdict" fields ≡ some (str "COMPLETED"))

from_reply-Replied : (reply : String ⊎ Json) → SaysCompleted (from_reply reply) → Replied reply
from_reply-Replied (inl message) says = elim (not_incomplete says) [ ]
from_reply-Replied (inr (obj fields)) says = (fields, refl, with_verdict-completed fields says)
from_reply-Replied (inr null) says = cc
from_reply-Replied (inr (bool b)) says = cc
from_reply-Replied (inr (num n)) says = cc
from_reply-Replied (inr (str s)) says = cc
from_reply-Replied (inr (arr xs)) says = cc

module _ (loads : List ℕ → String ⊎ Json) (route : Mission → List Evidence → Result (List ℕ))
    (now : ℕ) (mission : Mission) where
  -- The model replied to this evidence with a dict that says COMPLETED.
  abbrev pub Asked : List Evidence → Type 0
  Asked shown = (text : List ℕ) × (route mission shown ≡ ok text) × Replied (loads (unfence text))

  -- What a COMPLETED rests on: every task that passed or was skipped has verified evidence, there
  -- is verified evidence, and the model said so of all of it.
  abbrev pub Rests : Database → Type 0
  Rests db =
      ((t : MissionTask)
        → In t (of_mission mission.mission_id db.tasks)
        → counts_as_done t.status ≡ true
        → (has_verified_evidence_for_task t.task_id db).0 ≡ ok true)
      × ((e : Evidence) × (es : List Evidence) × ((get_mission_evidence mission.mission_id true
              db).0
            ≡ ok (e ∷ es))
          × Asked (e ∷ es))

  ask_model-Asked :
      (shown : List Evidence) (db : Database)
      → SaysCompleted (ask_model loads route now mission shown db).0
      → Asked shown
  unfolding parse_verdict
  ask_model-Asked shown db says = by_route (route mission shown) refl says
    where
      by_parsed :
          (text : List ℕ) (parsed : Result Fields)
          → SaysCompleted
              (continue parsed
                (λ result db. (ok result, store_verdict now mission.mission_id result db))
                db).0
          → SaysCompleted parsed
      by_parsed text (ok fields) says = says
      by_parsed text (err e) says = says

      by_route :
          (r : Result (List ℕ))
          → route mission shown ≡ r
          → SaysCompleted
              (continue r
                (λ text db.
                  continue
                    (parse_verdict loads text)
                    (λ result db. (ok result, store_verdict now mission.mission_id result db))
                    db)
                db).0
          → Asked shown
      by_route (err e) replied says = cc
      by_route (ok text) replied says = (
        text,
        replied,
        from_reply-Replied (loads (unfence text)) (by_parsed text (parse_verdict loads text) says),
      )

  judge-Rests :
      (missing : List ℕ) (shown : List Evidence) (db : Database)
      → SaysCompleted (judge loads route now mission missing shown db).0
      → (missing ≡ []) × ((e : Evidence) × (es : List Evidence) × (shown ≡ e ∷ es) × Asked shown)
  judge-Rests (id ∷ ids) shown db says = elim (not_incomplete says) [ ]
  judge-Rests [] [] db says = elim (not_incomplete says) [ ]
  judge-Rests [] (e ∷ es) db says = (refl, (e, es, refl, ask_model-Asked (e ∷ es) db says))

  -- If evaluate_mission returns the verdict COMPLETED, then every task of the mission that passed or
  -- was skipped has verified evidence, the mission has verified evidence, and the model replied to
  -- that evidence with a JSON object whose verdict is COMPLETED.
  pub completed-Rests :
      (db : Database) → SaysCompleted (evaluate_mission loads route now mission db).0 → Rests db
  unfolding evaluate_mission get_mission_evidence has_verified_evidence_for_task
  completed-Rests db says =
      let tasks = of_mission mission.mission_id db.tasks in
      let (none_missing, (e, es, shown, asked)) =
        judge-Rests (missing_evidence db tasks)
          (select (λ e. (e.mission_id == mission.mission_id) && same_evidence e.status verified)
            db.evidence)
          db says in
      (
        λ t there done. ap ok (missing_evidence-none db tasks none_missing t there done),
        (e, es, ap ok shown, subst Asked shown asked),
      )
