-- ===== src/AgentOs/Controller.antt =====
-- AutonomyController.bounded_continue of services/hermes/agent_os30/autonomy.py.
pub mod Bounded
use agent_os.Prelude.{
  ℕ, zero, suc, Bool, true, false, Option, none, some, List, [], ◌∷◌, ◌++◌, ◌==◌, if◌then◌else◌,
}
use agent_os.Errors.{Error, Result, ok, err}
use agent_os.AgentOs.Goals.{
  Autonomy, PersistentGoal, GoalStatus, active, resumed, completed, budget_exhausted,
  turn_limit_reached, StepUsage, consume_budget, beat, put_goal,
}

-- What a step returns, as far as the loop reads it.
pub record StepReport : Type 0 where
  pub usage : StepUsage
  pub done : Bool

pub record Continuation : Type 0 where
  pub goal_id : ℕ
  pub status : GoalStatus
  pub results : List StepReport

-- The object g, which the dict of goals keeps all the time, and what else is written.
pub record Run (S : Type 0) : Type 0 where
  pub goal : PersistentGoal
  pub autonomy : Autonomy
  pub world : S

-- A step is awaited. It reports or raises; meanwhile others may set the status of the goal.
abbrev pub Step : Type 0 → Type 0
Step S = PersistentGoal → S → Result StepReport × GoalStatus × S

abbrev pub may_continue : GoalStatus → Bool
may_continue active = true
may_continue resumed = true
may_continue _ = false

-- turns or g.turn_limit
abbrev pub turns_or : Option ℕ → (turn_limit : ℕ) → ℕ
turns_or none turn_limit = turn_limit
turns_or (some turns) turn_limit = if turns == 0 then turn_limit else turns

module _ {S : Type 0} where
  abbrev pub with_status : GoalStatus → Run S → Run S
  with_status status run = record run { goal = record run.goal { status = status } }

  abbrev pub charged_or : Result (Unit {0}) → Run S → Result (Unit {0}) × Run S
  charged_or (ok done) run = (ok done, run)
  charged_or (err e) run = (err e, with_status budget_exhausted run)

  -- g.budget.consume, and the status if it raises
  abbrev pub charge : (clock : ℕ) → StepReport → Run S → Result (Unit {0}) × Run S
  charge clock report run =
      let (result, after) = consume_budget clock report.usage run.goal.budget in
      charged_or result (record run { goal = record run.goal { budget = after } })

  -- The end of a round: the `break`, or the rounds that are left.
  abbrev pub next_round :
      (rest : List StepReport → Run S → Result (List StepReport) × Run S)
      → (results : List StepReport) → StepReport
      → Result (Unit {0}) × Run S
      → Result (List StepReport) × Run S
  next_round rest results report (err e, run) = (err e, run)
  next_round rest results report (ok within, run) =
      if report.done
      then (ok (results ++ report ∷ []), with_status completed run)
      else rest (results ++ report ∷ []) run

  abbrev pub after_step :
      (rest : List StepReport → Run S → Result (List StepReport) × Run S) (clock : ℕ)
      → (results : List StepReport) → Result StepReport
      → Run S
      → Result (List StepReport) × Run S
  after_step rest clock results (err e) run = (err e, run)
  after_step rest clock results (ok report) run =
      next_round rest results report (charge clock report run)

  -- self.heartbeats.beat(gid)
  abbrev pub beaten : (gid now : ℕ) → Run S → Run S
  beaten gid now run = record run { autonomy = beat gid now run.autonomy }

  -- `now` and `clock` are read once a round, counted down.
  unfoldable pub take_turns :
      (step : Step S) (gid : ℕ) (now clock : ℕ → ℕ)
      → (left : ℕ) → (results : List StepReport) → Run S
      → Result (List StepReport) × Run S
  take_turns step gid now clock zero results run = (ok results, with_status turn_limit_reached run)
  take_turns step gid now clock (suc left) results run =
      let (result, status, world) = step run.goal run.world in
      let stepped = record (with_status status (beaten gid (now left) run)) { world = world } in
      let rest = take_turns step gid now clock left in
      after_step rest (clock left) results result stepped

  -- g.updated_at = time.time(), and the dict that is returned
  abbrev pub answer_with :
      (gid now : ℕ) → Result (List StepReport) × Run S → Result Continuation × Autonomy × S
  answer_with gid now (err e, run) = (err e, put_goal gid run.goal run.autonomy, run.world)
  answer_with gid now (ok results, run) = (
    ok (record { goal_id = gid; status = run.goal.status; results = results }),
    put_goal gid (record run.goal { updated_at = now }) run.autonomy,
    run.world,
  )

  abbrev pub continue_goal :
      (step : Step S) (gid : ℕ) (turns : Option ℕ) (now clock : ℕ → ℕ)
      → Option PersistentGoal
      → Autonomy
      → S
      → Result Continuation × Autonomy × S
  continue_goal step gid turns now clock none a world = (err Error.key_error, a, world)
  continue_goal step gid turns now clock (some g) a world =
      if may_continue g.status
      then answer_with gid (now 0) (
          take_turns step gid now clock (turns_or turns g.turn_limit) []
            (record { goal = g; autonomy = a; world = world }))
      else (err Error.autonomy_limit, a, world)

  unfoldable pub bounded_continue :
      (step : Step S) (gid : ℕ) (turns : Option ℕ) (now clock : ℕ → ℕ)
      → Autonomy
      → S
      → Result Continuation × Autonomy × S
  bounded_continue step gid turns now clock a world =
      continue_goal step gid turns now clock (a.goals gid) a world
