-- ===== src/AgentOs/Goals.antt =====
-- ResourceBudget, GoalManager, HeartbeatManager and AutonomyController of
-- services/hermes/agent_os30/autonomy.py. Costs are in millionths of a dollar, times in seconds.
use agent_os.Prelude.{
  ℕ, String, Bool, Option, none, some, ltb, ◌==◌, ◌||◌, if◌then◌else◌, ◌+◌, ◌-◌, ◌/◌,
}
use agent_os.Errors.{Error, Result, ok, err}
use agent_os.Exec.{Exec, pure, lift, gets, modify, require, ◌>>=◌, ◌>>◌}
use agent_os.Redis.{put}

pub record ResourceBudget : Type 0 where
  pub max_turns : ℕ
  pub max_tokens : ℕ
  pub max_runtime_seconds : ℕ
  pub max_tool_calls : ℕ
  pub max_subagents : ℕ
  pub max_cost_usd : ℕ
  pub turns : ℕ
  pub tokens : ℕ
  pub tool_calls : ℕ
  pub subagents : ℕ
  pub cost_usd : ℕ
  pub runtime_started : ℕ

-- What a step reports of its use.
pub record StepUsage : Type 0 where
  pub tokens : ℕ
  pub tool_calls : ℕ
  pub subagents : ℕ
  pub cost_usd : ℕ

abbrev pub charged : StepUsage → ResourceBudget → ResourceBudget
charged v b = record b {
  turns = b.turns + 1;
  tokens = b.tokens + v.tokens;
  tool_calls = b.tool_calls + v.tool_calls;
  subagents = b.subagents + v.subagents;
  cost_usd = b.cost_usd + v.cost_usd;
}

-- The monotonic clock reads `now`, so a difference is no less than 0.
abbrev pub is_exhausted : (now : ℕ) → ResourceBudget → Bool
is_exhausted now b =
    ltb b.max_turns b.turns
    || ltb b.max_tokens b.tokens
    || ltb b.max_runtime_seconds (now - b.runtime_started)
    || ltb b.max_tool_calls b.tool_calls
    || ltb b.max_subagents b.subagents
    || ltb b.max_cost_usd b.cost_usd

abbrev pub consume_budget : (now : ℕ) → StepUsage → Exec ResourceBudget (Unit {0})
consume_budget now v b =
    let after = charged v b in
    (if is_exhausted now after then err Error.autonomy_limit else ok tt, after)

pub data GoalStatus : Type 0 where
  active resumed paused detached completed budget_exhausted turn_limit_reached : GoalStatus

pub record PersistentGoal : Type 0 where
  pub goal_id : ℕ
  pub objective : String
  pub status : GoalStatus
  pub autonomous : Bool
  pub heartbeat_seconds : ℕ
  pub turn_limit : ℕ
  pub token_limit : ℕ
  pub time_limit_seconds : ℕ
  pub created_at : ℕ
  pub updated_at : ℕ
  pub budget : ResourceBudget

-- The dict of GoalManager, and those of HeartbeatManager.
pub record Autonomy : Type 0 where
  pub goals : ℕ → Option PersistentGoal
  pub last : ℕ → Option ℕ
  pub missed : ℕ → Option ℕ

-- The keyword arguments of `create_goal`, with their defaults filled in.
pub record Limits : Type 0 where
  pub turn_limit : ℕ
  pub token_limit : ℕ
  pub time_limit_seconds : ℕ
  pub tool_call_limit : ℕ
  pub subagent_limit : ℕ
  pub cost_limit_usd : ℕ

abbrev pub default_limits : Limits
default_limits = record {
  turn_limit = 100;
  token_limit = 100000;
  time_limit_seconds = 3600;
  tool_call_limit = 500;
  subagent_limit = 32;
  cost_limit_usd = 10000000;
}

abbrev pub new_budget : (now : ℕ) → Limits → ResourceBudget
new_budget now limits = record {
  max_turns = limits.turn_limit;
  max_tokens = limits.token_limit;
  max_runtime_seconds = limits.time_limit_seconds;
  max_tool_calls = limits.tool_call_limit;
  max_subagents = limits.subagent_limit;
  max_cost_usd = limits.cost_limit_usd;
  turns = 0;
  tokens = 0;
  tool_calls = 0;
  subagents = 0;
  cost_usd = 0;
  runtime_started = now;
}

abbrev pub new_goal :
    (gid now clock : ℕ)
    → (objective : String) → (autonomous : Bool) → (heartbeat_seconds : ℕ) → Limits
    → PersistentGoal
new_goal gid now clock objective autonomous heartbeat_seconds limits = record {
  goal_id = gid;
  objective = objective;
  status = active;
  autonomous = autonomous;
  heartbeat_seconds = heartbeat_seconds;
  turn_limit = limits.turn_limit;
  token_limit = limits.token_limit;
  time_limit_seconds = limits.time_limit_seconds;
  created_at = now;
  updated_at = now;
  budget = new_budget clock limits;
}

abbrev pub put_goal : (gid : ℕ) → PersistentGoal → Autonomy → Autonomy
put_goal gid g a = record a { goals = put gid (some g) a.goals }

-- `gid` is the uuid4 that the call draws; `clock` reads the monotonic clock.
unfoldable pub create_goal :
    (gid now clock : ℕ)
    → (objective : String) → (autonomous : Bool) → (heartbeat_seconds : ℕ) → Limits
    → Exec Autonomy PersistentGoal
create_goal gid now clock objective autonomous heartbeat_seconds limits = do
  require (ltb 0 heartbeat_seconds) Error.value_error
  modify (put_goal gid (new_goal gid now clock objective autonomous heartbeat_seconds limits))
  pure (new_goal gid now clock objective autonomous heartbeat_seconds limits)

abbrev pub goal_or_key_error : Option PersistentGoal → Result PersistentGoal
goal_or_key_error none = err Error.key_error
goal_or_key_error (some g) = ok g

-- self.goals[gid].status = status
abbrev pub set_goal_status : (gid : ℕ) → GoalStatus → Exec Autonomy (Unit {0})
set_goal_status gid status = do
  g ← (gets (λ a. a.goals gid) >>= λ found. lift (goal_or_key_error found))
  modify (put_goal gid (record g { status = status }))

unfoldable pub pause : (gid : ℕ) → Exec Autonomy (Unit {0})
pause gid = set_goal_status gid paused

unfoldable pub detach : (gid : ℕ) → Exec Autonomy (Unit {0})
detach gid = set_goal_status gid detached

unfoldable pub reattach : (gid : ℕ) → Exec Autonomy (Unit {0})
reattach gid = set_goal_status gid active

unfoldable pub beat : (gid now : ℕ) → Autonomy → Autonomy
beat gid now a = record a { last = put gid (some now) a.last; missed = put gid (some 0) a.missed }

abbrev pub or_time : ℕ → Option ℕ → ℕ
or_time default none = default
or_time default (some t) = t

-- `heartbeat_seconds` is positive, as `create_goal` demands.
unfoldable pub check_heartbeat : PersistentGoal → (now : ℕ) → Autonomy → Bool × Autonomy
check_heartbeat g now a =
    let missed = (now - or_time g.updated_at (a.last g.goal_id)) / g.heartbeat_seconds in
    (missed == 0, record a { missed = put g.goal_id (some missed) a.missed })
