-- ===== src/AgentOs/Controller/Bounded.antt =====
-- bounded_continue of services/hermes/agent_os30/autonomy.py stays within its turns and its budget.
use agent_os.Prelude.{
  All, ℕ, suc, ◌≡◌, ◌⊎◌, true, false, some, List, [], ◌∷◌, ◌++◌, length, ◌+◌, ◌≤◌,
}
use agent_os.Errors.{Result, ok, err, autonomy_limit}
use agent_os.AgentOs.Goals.{
  Autonomy, PersistentGoal, ResourceBudget, GoalStatus, completed, budget_exhausted,
  turn_limit_reached, charged, is_exhausted,
}
use agent_os.AgentOs.Controller.{StepReport, Continuation, Run, Step}

-- A budget that is not used up.
abbrev pub IsWithin : ResourceBudget → Type 0
IsWithin b =
    (b.turns ≤ b.max_turns)
    × (b.tokens ≤ b.max_tokens)
    × (b.tool_calls ≤ b.max_tool_calls)
    × (b.subagents ≤ b.max_subagents)
    × (b.cost_usd ≤ b.max_cost_usd)

abbrev pub IsOpen : StepReport → Type 0
IsOpen report = report.done ≡ false

-- What a loop of at most `left` rounds reports: the last step and no other is done, or there were so
-- many steps and none is done.
abbrev pub Ended : (left : ℕ) → GoalStatus → (results : List StepReport) → Type 0
Ended left status results =
    ((status ≡ completed)
      × (length results ≤ left)
      × ((earlier : List StepReport) × (last : StepReport) × (results ≡ earlier ++ last ∷ [])
          × All IsOpen earlier
          × (last.done ≡ true)))
    ⊎ ((status ≡ turn_limit_reached) × (length results ≡ left) × All IsOpen results)

-- What is left of a budget after some steps.
abbrev pub charged_all : List StepReport → ResourceBudget → ResourceBudget
charged_all [] b = b
charged_all (report ∷ reports) b = charged_all reports (charged report.usage b)

module _ {S : Type 0} where
  -- The steps do not raise.
  abbrev pub Answers : Step S → Type 0
  Answers step =
      (g : PersistentGoal) (world : S) → (report : StepReport) × ((step g world).0 ≡ ok report)

  abbrev charged_run : StepReport → Run S → Run S
  charged_run report run = record run {
    goal = record run.goal { budget = charged report.usage run.goal.budget };
  }

  -- The world keeps a count of the steps.
  abbrev pub Counts : Step S → (S → ℕ) → Type 0
  Counts step count = (g : PersistentGoal) (world : S) → count (step g world).2 ≡ suc (count world)

  module _ (step : Step S) (answers : Answers step) (count : S → ℕ) (counts : Counts step count)
      (gid : ℕ) (now clock : ℕ → ℕ) where
    -- How the loop ends that has reported `results` before.
    abbrev Post :
        (left : ℕ) (results : List StepReport) → Run S → Result (List StepReport) × Run S → Type 0
    Post left results before (ok all, run) =
        (later : List StepReport) × (all ≡ results ++ later)
        × Ended left run.goal.status later
        × (run.goal.budget ≡ charged_all later before.goal.budget)
        × IsWithin run.goal.budget
        × (count run.world ≡ count before.world + length later)
    Post left results before (err e, run) =
        (e ≡ autonomy_limit)
        × (run.goal.status ≡ budget_exhausted)
        × ((k : ℕ) × (is_exhausted (clock k) run.goal.budget ≡ true))
        × (suc (count before.world) ≤ count run.world)
        × (count run.world ≤ count before.world + left)

    -- How bounded_continue ends for the goal g: with results, or at the budget. The goal is the one
    -- that the dict keeps afterwards.
    abbrev pub Outcome :
        (turns : ℕ) → PersistentGoal → (world : S) → Result Continuation × Autonomy × S → Type 0
    Outcome turns g world (ok answer, a, after) =
        (kept : PersistentGoal) × (a.goals gid ≡ some kept)
        × (kept.status ≡ answer.status)
        × Ended turns answer.status answer.results
        × (kept.budget ≡ charged_all answer.results g.budget)
        × IsWithin kept.budget
        × (count after ≡ count world + length answer.results)
    Outcome turns g world (err e, a, after) =
        (e ≡ autonomy_limit)
        × ((kept : PersistentGoal) × (a.goals gid ≡ some kept)
            × (kept.status ≡ budget_exhausted)
            × ((k : ℕ) × (is_exhausted (clock k) kept.budget ≡ true)))
        × (suc (count world) ≤ count after)
        × (count after ≤ count world + turns)
