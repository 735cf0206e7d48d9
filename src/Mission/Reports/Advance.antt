-- ===== src/Mission/Reports/Advance.antt =====
-- When a report in services/mission/executor.py lets a mission advance.
use Prim.Native.String.{◌++◌}
use agent_os.Prelude.{
  ℕ, String, ◌≡◌, refl, sym, subst, ap, ◌∙◌, inl, inr, Bool, true, false, Option, none, some, [],
  ◌∷◌, str_eq, eq_iff, Bool-cases, ◌+◌,
}
use agent_os.Errors.{Result, ok, err, strategy_not_changed, type_error}
use agent_os.Exec.{Exec, pure, continue, ◌>>=◌}
use agent_os.Json.{Json, Fields}
use agent_os.Regex.{Unicode}
use agent_os.Mission.Tables.{MissionTask, Database}
use agent_os.Mission.Tables.Status.{
  EvidenceStatus, claimed, verification_pending, verified, pending, blocked, passed, verifying,
}
use agent_os.Mission.Control.{transition}
use agent_os.Mission.TaskGraph.{no_fields, get_task, update_status}
use agent_os.Mission.TaskGraph.Updates.{task_row}
use agent_os.Mission.Pipeline.{Verifiers, Report, claim_and_verify}
use agent_os.Mission.Pipeline.Confirmed.{Confirmed, verified-Confirmed}
use agent_os.Mission.Recovery.{Action, escalate, Diagnosis, category_text, diagnose_and_decide}
use agent_os.Mission.Reports.{
  HermesRecord, Drawn, Reaction, advance, await_verification, retried, escalated, exhausted,
  or_empty, verification_spec, failing, or_text, output_of, after_strategy, change_strategy,
  requeue, react, fail, settle, process_completed_hermes_task,
}

module _ {B : Type 0} (P : B → Type 0) where
  -- If it returned, then with a value that satisfies P.
  abbrev Gives : Result B → Type 0
  Gives (ok b) = P b
  Gives (err e) = Unit

  bind-Gives :
      {A : Type 0} (call : Exec Database A) (f : A → Exec Database B) (db : Database)
      → ((a : A) (after : Database) → Gives (f a after).0)
      → Gives ((call >>= f) db).0
  bind-Gives {A} call f db h = next (call db).0 (call db).1
    where
      next : (r : Result A) (after : Database) → Gives (continue r f after).0
      next (ok a) after = h a after
      next (err e) after = tt

-- A reaction to a failure.
abbrev IsFailure : Reaction → Type 0
IsFailure (advance report) = ⊥
IsFailure (await_verification report) = ⊥
IsFailure (retried diagnosis) = Unit
IsFailure (escalated diagnosis) = Unit
IsFailure (exhausted diagnosis) = Unit

abbrev Failed : Result Reaction → Type 0
Failed = Gives IsFailure

after_strategy-Failed :
    (drawn : Drawn) (task_id : ℕ) (t : MissionTask) (error_text : String) (d : Diagnosis)
    (r : Result (ℕ × ℕ)) (db : Database)
    → Failed (after_strategy drawn task_id t error_text d r db).0
unfolding after_strategy
after_strategy-Failed drawn task_id t error_text d (ok x) db = tt
after_strategy-Failed drawn task_id t error_text d (err strategy_not_changed) db =
    bind-Gives IsFailure
      (update_status task_id blocked (failing (error_text ∷ drawn.unchanged_text ∷ [])))
      (λ a.
        (transition t.mission_id "BLOCKED" (some "strategy_options_exhausted") drawn.now)
        >>= (λ b. pure (exhausted d)))
      db
      (λ a db1.
        bind-Gives IsFailure
          (transition t.mission_id "BLOCKED" (some "strategy_options_exhausted") drawn.now)
          (λ b. pure (exhausted d)) db1 (λ b db2. tt))
after_strategy-Failed drawn task_id t error_text d (err x) db = tt

change_strategy-Failed :
    (drawn : Drawn) (task_id : ℕ) (t : MissionTask) (error_text : String) (d : Diagnosis)
    (new : Option String) (db : Database)
    → Failed (change_strategy drawn task_id t error_text d new db).0
unfolding change_strategy
change_strategy-Failed drawn task_id t error_text d none db = tt
change_strategy-Failed drawn task_id t error_text d (some text) db =
    elim (Bool-cases (str_eq text "")) [
      | inl empty ↦ rw empty tt
      | inr given ↦ rw given (after_strategy-Failed drawn task_id t error_text d _ _)
    ]

react-Failed :
    (drawn : Drawn) (task_id : ℕ) (t : MissionTask) (error_text : String) (d : Diagnosis)
    (action : Action) (db : Database)
    → Failed (react drawn task_id t error_text d action db).0
unfolding react requeue
react-Failed drawn task_id t error_text d escalate db =
    bind-Gives IsFailure (update_status task_id blocked (failing (error_text ∷ [])))
      (λ a.
        (transition t.mission_id "BLOCKED" (some ("task_escalated:" ++ category_text d.category))
          drawn.now)
        >>= (λ b. pure (escalated d)))
      db
      (λ a db1.
        bind-Gives IsFailure
          (transition t.mission_id "BLOCKED" (some ("task_escalated:" ++ category_text d.category))
            drawn.now)
          (λ b. pure (escalated d)) db1 (λ b db2. tt))
react-Failed drawn task_id t error_text d _ db =
    bind-Gives IsFailure
      (update_status task_id pending
        (record (failing (error_text ∷ [])) { retry_count = some (t.retry_count + 1) }))
      (λ a. change_strategy drawn task_id t error_text d d.new_strategy) db
      (λ a db1. change_strategy-Failed drawn task_id t error_text d d.new_strategy db1)

fail-Failed :
    (unicode : Unicode) (drawn : Drawn) (task_id : ℕ) (t : MissionTask) (error_text : String)
    (db : Database)
    → Failed (fail unicode drawn task_id t error_text db).0
unfolding fail
fail-Failed unicode drawn task_id t error_text db =
    bind-Gives IsFailure
      (diagnose_and_decide unicode drawn.decision_id drawn.now t.mission_id task_id t.description
        error_text t.retry_count t.max_retries none)
      (λ d. react drawn task_id t error_text d d.action) db
      (λ d db1. react-Failed drawn task_id t error_text d d.action db1)

Gives-ok : {B : Type 0} (P : B → Type 0) (r : Result B) (b : B) → Gives P r → r ≡ ok b → P b
Gives-ok P r b h e = subst (Gives P) e h

settle_advances :
    (unicode : Unicode) (drawn : Drawn) (task_id : ℕ) (t : MissionTask) (result : Option Fields)
    (report r : Report) (status : EvidenceStatus) (db : Database)
    → (settle unicode drawn task_id t result report status db).0 ≡ ok (advance r)
    → (status ≡ verified) × (advance r ≡ advance report)
unfolding settle
settle_advances unicode drawn task_id t result report r verified db e = (
  refl,
  Gives-ok (λ x. x ≡ advance report) _ (advance r)
      (bind-Gives (λ x. x ≡ advance report)
        (update_status task_id passed (record no_fields {
          outputs = some (output_of result);
          completed_at = some (some drawn.now);
        }))
        (λ a. pure (advance report)) db (λ a db1. refl))
      e,
)
settle_advances unicode drawn task_id t result report r verification_pending db e =
    let waits : advance r ≡ await_verification report =
      Gives-ok (λ x. x ≡ await_verification report) _ (advance r)
        (bind-Gives (λ x. x ≡ await_verification report)
          (update_status task_id verifying (record no_fields { outputs = some (output_of result) }))
          (λ a. pure (await_verification report)) db (λ a db1. refl))
        e in
    cc
settle_advances unicode drawn task_id t result report r _ db e = absurd (
    Gives-ok IsFailure _ (advance r)
      (fail-Failed unicode drawn task_id t
        ("independent verification failed: " ++ drawn.printed report) db)
      e)

abbrev status_in : Reaction → EvidenceStatus
status_in (advance report) = report.status
status_in _ = claimed

module _ (unicode : Unicode) (verifiers : Verifiers) (drawn : Drawn) (task_id : ℕ)
    (hermes : HermesRecord) where
  abbrev spec : String × Json
  spec = verification_spec (or_empty hermes.result)

  abbrev verification : MissionTask → Exec Database Report
  verification t =
      claim_and_verify verifiers drawn.evidence_id drawn.now t.mission_id (some task_id) spec.0
        drawn.claim spec.1

  pass_advances :
      (t : MissionTask) (report : Report) (db : Database)
      → ((verification t >>= (λ r. settle unicode drawn task_id t hermes.result r r.status)) db).0
        ≡ ok (advance report)
      → (report.status ≡ verified) × Confirmed verifiers spec.0 drawn.claim spec.1
  pass_advances t report db e = ended (verification t db) refl e
    where
      ended :
          (end : Result Report × Database)
          → verification t db ≡ end
          → (let (r, after) = end in
              continue r (λ r. settle unicode drawn task_id t hermes.result r r.status) after).0
            ≡ ok (advance report)
          → (report.status ≡ verified) × Confirmed verifiers spec.0 drawn.claim spec.1
      ended (err x, after) h e = cc
      ended (ok r, after) h e =
          let (v, same) =
            settle_advances unicode drawn task_id t hermes.result r report r.status after e in
          let reported : report.status ≡ r.status = ap status_in same in
          (
            reported ∙ v,
            verified-Confirmed verifiers drawn.evidence_id drawn.now t.mission_id (some task_id)
                spec.0 drawn.claim spec.1 db r (ap (λ x. x.0) h) v,
          )

  -- A report lets the mission advance only if the evaluator's verdict was a pass, and the verifier
  -- registered for the kind of evidence that the result has passed the claim with a detail.
  pub advance-Confirmed :
      (verdict : String) (report : Report) (db : Database)
      → (process_completed_hermes_task unicode verifiers drawn task_id hermes verdict db).0
        ≡ ok (advance report)
      → (verdict ≡ "pass")
        × (report.status ≡ verified)
        × Confirmed verifiers
            (verification_spec (or_empty hermes.result)).0
            drawn.claim
            (verification_spec (or_empty hermes.result)).1
  unfolding process_completed_hermes_task get_task
  advance-Confirmed verdict report db e = found (task_row task_id db) refl
    where
      judged :
          (t : MissionTask)
          → task_row task_id db ≡ some t
          → (b : Bool) → str_eq verdict "pass" ≡ b
          → (verdict ≡ "pass")
            × (report.status ≡ verified)
            × Confirmed verifiers spec.0 drawn.claim spec.1
      judged t row true h =
          let runs : (process_completed_hermes_task unicode verifiers drawn task_id hermes verdict
                db).0
              ≡ ((verification t >>= (λ r. settle unicode drawn task_id t hermes.result r r.status))
                  db).0 =
            rw (row, h) refl in
          let (v, confirmed) = pass_advances t report db (sym runs ∙ e) in
          ((eq_iff verdict "pass").0 h, v, confirmed)
      judged t row false h =
          let runs : (process_completed_hermes_task unicode verifiers drawn task_id hermes verdict
                db).0
              ≡ (fail unicode drawn task_id t (or_text hermes.last_error drawn.verdict_text) db).0 =
            rw (row, h) refl in
          absurd (
            Gives-ok IsFailure _ (advance report)
              (fail-Failed unicode drawn task_id t (or_text hermes.last_error drawn.verdict_text)
                db)
              (sym runs ∙ e))

      found :
          (o : Option MissionTask)
          → task_row task_id db ≡ o
          → (verdict ≡ "pass")
            × (report.status ≡ verified)
            × Confirmed verifiers spec.0 drawn.claim spec.1
      found none row =
          let raised : (process_completed_hermes_task unicode verifiers drawn task_id hermes verdict
                db).0
              ≡ err type_error =
            rw row refl in
          let clash : err type_error ≡ ok (advance report) = sym raised ∙ e in cc
      found (some t) row = judged t row (str_eq verdict "pass") refl
