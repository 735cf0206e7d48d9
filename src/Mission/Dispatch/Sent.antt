-- ===== src/Mission/Dispatch/Sent.antt =====
-- How the dispatch of one task by services/mission/executor.py ends.
use agent_os.Prelude.{ℕ, String, ◌≡◌, ◌⊎◌, Bool, true, false, some, List, [], ◌∷◌}
use agent_os.Errors.{Error, Result, ok, err}
use agent_os.Mission.Tables.{MissionTask}
use agent_os.Mission.Tables.Status.{pending, same_task}
use agent_os.Mission.TaskGraph.{set_task}
use agent_os.Mission.TaskGraph.Updates.{task_row}
use agent_os.Mission.TaskGraph.Claims.{Claim, dispatched_by}
use agent_os.Mission.Reports.{or_text, failing}
use agent_os.Mission.Payloads.{HermesTask, executor_for, hermes_task, payload_for}
use agent_os.Mission.Dispatch.{Hub, Setting}

abbrev pub executor_of : Setting → MissionTask → String
executor_of env t = executor_for env.hybrid_mode (or_text t.assigned_executor "opencode")

-- What the round brings to the claim of a task.
abbrev pub claim_of : Setting → MissionTask → Claim
claim_of env t = record {
  executor_type = executor_of env t;
  hermes_task_id = (env.draw t).hermes_task_id;
  execution_id = (env.draw t).execution_id;
  started_at = (env.draw t).started_at;
}

abbrev pub failed_errors : List String
failed_errors = "redis dispatch failed" ∷ []

-- The record is stored and its id pushed to the queue of the executor.
abbrev pub IsSent : Setting → MissionTask → Hub → Hub → Type 0
IsSent env t before after =
    (queue : String) × (r : HermesTask) × (env.queues (executor_of env t) ≡ some queue)
    × (r.task_id ≡ (env.draw t).hermes_task_id)
    × (after.records r.task_id ≡ some r)
    × (after.queues queue ≡ r.task_id ∷ before.queues queue)

module _ (env : Setting) (t : MissionTask) (executor_type requested note : String)
    (mine : executor_type ≡ executor_of env t) (mission_id : ℕ) where
  -- After the claim: sent, with the table as it is, or an exception, the row pending again with
  -- the error, and nothing pushed.
  abbrev Settled : MissionTask → Hub → Result Bool × Hub → Type 0
  Settled u h (result, after) =
      ((result ≡ ok true) × (after.db ≡ h.db) × IsSent env t h after)
      ⊎ ((e : Error) × (result ≡ err e)
          × (after.queues ≡ h.queues)
          × (task_row t.task_id after.db ≡ some (set_task pending (failing failed_errors) u)))

  abbrev record_for : HermesTask
  record_for =
      hermes_task executor_type (payload_for mission_id executor_type requested note t (env.draw t))
        (env.draw t)

-- How dispatch_task ends for a task whose row is u: not claimed and nothing changed, sent for the
-- claimant, or an exception.
abbrev pub Ended : Setting → MissionTask → MissionTask → Hub → Result Bool × Hub → Type 0
Ended env t u h (result, after) =
    ((same_task u.status pending ≡ false)
      × (result ≡ ok false)
      × (after.queues ≡ h.queues)
      × (task_row t.task_id after.db ≡ some u))
    ⊎ ((same_task u.status pending ≡ true)
        × (result ≡ ok true)
        × IsSent env t h after
        × (task_row t.task_id after.db ≡ some (dispatched_by (claim_of env t) u)))
    ⊎ ((same_task u.status pending ≡ true)
        × ((e : Error) × (result ≡ err e))
        × (after.queues ≡ h.queues)
        × (task_row t.task_id after.db
            ≡ some (set_task pending (failing failed_errors) (dispatched_by (claim_of env t) u))))
