-- ===== src/Evaluator/Verdicts.antt =====
-- When services/evaluator/evaluator.py passes a result.
use agent_os.Prelude.{
  ℕ, ◌≡◌, ◌↔◌, refl, sym, ap, subst, &&-true, eq_iff, ◌∙◌, Bool, true, false, ◌&&◌, Option, List,
  str_eq, arith,
}
use agent_os.Errors.{Result, ok, err}
use agent_os.Policy.{Configuration}
use agent_os.Evaluator.{
  Verdict, pass, fail, retry, require_human, WorkerTask, Checks, Evaluation, has_result, no_text,
  check_evidence, complies, quality, is_low, decide, checks_of, evaluate_task,
}

decide_passes :
    (c : Checks) (retries : ℕ)
    → (decide c retries ≡ pass) ↔ (
        (c.completion ≡ true)
        × (c.no_errors ≡ true)
        × (c.evidence ≡ true)
        × (c.policy_compliance ≡ true)
        × (is_low c.quality_score ≡ false))
unfolding decide
decide_passes c retries = ground arith

abbrev pub is_pass : Result (Verdict × Checks) → Bool
is_pass (ok (pass, checks)) = true
is_pass (ok (fail, checks)) = false
is_pass (ok (retry, checks)) = false
is_pass (ok (require_human, checks)) = false
is_pass (err e) = false

-- What a result has to show to be passed.
abbrev pub Accepted : Option Configuration → Option (Option ℕ) → WorkerTask → Type 0
Accepted config answer task =
    (task.status ≡ "completed")
    × (has_result task.result ≡ true)
    × (no_text task.last_error ≡ true)
    × (check_evidence task ≡ ok true)
    × (complies config task ≡ true)
    × (is_low (quality answer true) ≡ false)

is_pass_iff : (v : Verdict) (c : Checks) → (is_pass (ok (v, c)) ≡ true) ↔ (v ≡ pass)
is_pass_iff pass c = ((λ h. refl), (λ h. refl))
is_pass_iff fail c = ((λ h. cc), (λ h. cc))
is_pass_iff retry c = ((λ h. cc), (λ h. cc))
is_pass_iff require_human c = ((λ h. cc), (λ h. cc))

checks_pass :
    (config : Option Configuration) (answer : Option (Option ℕ)) (task : WorkerTask)
    (evidence : Bool)
    → (decide (checks_of config answer task evidence) task.retries ≡ pass) ↔ (
        (task.status ≡ "completed")
        × (has_result task.result ≡ true)
        × (no_text task.last_error ≡ true)
        × (evidence ≡ true)
        × (complies config task ≡ true)
        × (is_low (quality answer true) ≡ false))
checks_pass config answer task evidence =
    let (there, back) = decide_passes (checks_of config answer task evidence) task.retries in
    (
      (λ h.
          let (completion, clean, shown, allowed, good) = there h in
          let (done, given) =
            &&-true (str_eq task.status "completed") (has_result task.result) completion in
          (
            (eq_iff task.status "completed").0 done,
            given,
            clean,
            shown,
            allowed,
            subst (λ b. is_low (quality answer b) ≡ false) completion good,
          )),
      (λ h.
          let (done, given, clean, shown, allowed, good) = h in
          let completion : (str_eq task.status "completed" && has_result task.result) ≡ true =
            rw ((eq_iff task.status "completed").1 done, given) refl in
          back (
            completion,
            clean,
            shown,
            allowed,
            subst (λ b. is_low (quality answer b) ≡ false) (sym completion) good,
          )),
    )

-- evaluate passes a task exactly if it is completed with a result and without an error, research
-- has sources, creative work is not denied by the policy, and the score, if there is one, is not
-- below a half.
pub evaluate_task_passes_iff :
    (config : Option Configuration) (answer : Option (Option ℕ)) (id now : ℕ) (task : WorkerTask)
    (stored : List Evaluation)
    → (is_pass (evaluate_task config answer id now task stored).0 ≡ true)
      ↔ Accepted config answer task
unfolding evaluate_task
evaluate_task_passes_iff config answer id now task stored = shown (check_evidence task) refl
  where
    shown :
        (r : Result Bool)
        → check_evidence task ≡ r
        → (is_pass (evaluate_task config answer id now task stored).0 ≡ true)
          ↔ Accepted config answer task
    shown (err x) e = rw e ((λ h. cc), (λ h. cc))
    shown (ok b) e =
        let (there, back) =
          is_pass_iff (decide (checks_of config answer task b) task.retries)
            (checks_of config answer task b) in
        let (into, from) = checks_pass config answer task b in
        let runs : (evaluate_task config answer id now task stored).0
            ≡ ok (
              decide (checks_of config answer task b) task.retries,
              checks_of config answer task b,
            ) =
          rw e refl in
        (
          (λ h.
              let (done, given, clean, has, allowed, good) =
                into (there (subst (λ r. is_pass r ≡ true) runs h)) in
              (done, given, clean, e ∙ ap ok has, allowed, good)),
          (λ h.
              let (done, given, clean, has, allowed, good) = h in
              let filled : b ≡ true = cc in
              subst (λ r. is_pass r ≡ true) (sym runs)
                (back (from (done, given, clean, filled, allowed, good)))),
        )
