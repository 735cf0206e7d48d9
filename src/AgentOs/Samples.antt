-- ===== src/AgentOs/Samples.antt =====
-- Runs of services/hermes/agent_os30, and its theorems at them.
use agent_os.Prelude.{
  occurrences, ℕ, String, ◌≡◌, refl, ap, true, false, none, some, List, [], ◌∷◌, ◌==◌, leb, str_eq,
  arith, ◌+◌, if◌then◌else◌,
}
use agent_os.Errors.{ok, runtime_error}
use agent_os.Json.{str}
use agent_os.Text.{append, decimal, decimal_digits}
use agent_os.Redis.{put}
use agent_os.AgentOs.Trajectory.{
  EventBody, TrajectoryEvent, Recorder, Entry, event_of, record_event, record_durable, verify_from,
  verify_chain, load_trajectory, restore,
}
use agent_os.AgentOs.Trajectory.Chain.{record_all, last_hash_fixes_chain, restored_chain_fails}
use agent_os.AgentOs.Checkpoints.{
  CheckpointStore, save, save_durable, load, latest_checkpoint, load_latest_durable,
}
use agent_os.AgentOs.Checkpoints.Kept.{Use, saves, loads_latest}
use agent_os.AgentOs.Goals.{Autonomy, paused, new_goal, default_limits, beat}
use agent_os.AgentOs.Controller.{StepReport, Step, take_turns, bounded_continue}
use agent_os.AgentOs.Scheduler.{
  Scheduler, ScheduledTask, CallbackEnd, returns, raises, take_write, run_background,
  register_callback, schedule, cancel, restore_rows, restore_schedules, load_schedules, tick_all,
  tick,
}
use agent_os.AgentOs.Scheduler.Cancelled.{
  Act, ticks, restores, schedules, writes, act_all, cancelled_never_called,
}
use agent_os.AgentOs.Harness.{
  ContinualHarness, Refinement, refine, snapshot, take_entries, rollback, load_items, load_rows,
}
use agent_os.AgentOs.Harness.Rollback.{
  refines, takes_snapshot, change_all, Refined, refine-Refined, rollback_restores,
}

program : Unit {0}
unfolding decimal decimal_digits record_event record_durable verify_from load_trajectory restore
    save save_durable load latest_checkpoint load_latest_durable beat take_turns bounded_continue
    register_callback schedule cancel take_write restore_rows restore_schedules load_schedules
    tick_all tick refine snapshot take_entries rollback load_rows load_items
program = tt

-- A digest that reads the time and the hash before.
abbrev digest : EventBody → String
digest b = append (decimal b.timestamp) (append ":" b.prev_hash)

abbrev started : Entry
started = record {
  id = 1;
  now = 5;
  mission_id = 40;
  task_id = none;
  actor = "system";
  event_type = "started";
  payload = none;
}

abbrev planned : Entry
planned = record started { id = 2; now = 6; event_type = "planned" }

abbrev recorder : Recorder
recorder = record { events = []; table = some [] }

abbrev history : Recorder
history = record_all digest ((7, started) ∷ (8, planned) ∷ []) recorder

abbrev forged : List TrajectoryEvent
forged =
    event_of digest started "GENESIS"
    ∷ record {
      body = record (event_of digest planned "5:GENESIS").body { timestamp = 60 };
      hash = "6:5:GENESIS";
    }
    ∷ []

forgery_is_seen : verify_chain digest forged ≡ false
unfolding program
forgery_is_seen = refl

last_hash_fixes_chain_example :
    event_of digest started "GENESIS" ∷ [] ≡ (record_all digest ((7, started) ∷ []) recorder).events
unfolding program
last_hash_fixes_chain_example =
    last_hash_fixes_chain digest (event_of digest started "GENESIS" ∷ [])
      (record_all digest ((7, started) ∷ []) recorder).events refl refl refl refl
      ((λ e. refl, tt), tt)

restored_chain_fails_example :
    verify_chain digest
      (restore 40
        (record { events = []; table = (record_durable digest 7 started recorder).1.table })).0
    ≡ false
unfolding program
restored_chain_fails_example =
    restored_chain_fails digest 7 started (λ e.
      let same : str_eq "7:GENESIS" "5:GENESIS" ≡ true = ap (λ s. str_eq s "5:GENESIS") e in cc)

abbrev store : CheckpointStore
store = record { checkpoints = λ j. none; table = some [] }

abbrev uses : List Use
uses =
    saves 2 6 6 40 (str "two") "auto" ∷ loads_latest 40 ∷ saves 3 7 7 41 (str "three") "auto" ∷ []

abbrev autonomy : Autonomy
autonomy = record {
  goals = put 1 (some (new_goal 1 5 0 "write the report" true 30 default_limits)) (λ j. none);
  last = λ j. none;
  missed = λ j. none;
}

-- The world counts the steps; somebody pauses the goal during the first.
abbrev third_done : Step ℕ
third_done g n = (
  ok (record {
    usage = record { tokens = 100; tool_calls = 1; subagents = 0; cost_usd = 20 };
    done = leb 2 n;
  }),
  paused,
  n + 1,
)

abbrev clock : ℕ → ℕ
clock k = 10

pause_is_ignored : (bounded_continue third_done 1 (some 5) clock clock autonomy 0).2 ≡ 3
unfolding program
pause_is_ignored = refl

abbrev report_at : ℕ → StepReport
report_at n = record {
  usage = record { tokens = 100; tool_calls = 1; subagents = 0; cost_usd = 20 };
  done = leb 2 n;
}

abbrev empty_scheduler : Scheduler
empty_scheduler = record {
  tasks = [];
  callbacks = [];
  table = some [];
  background = [];
  calls = [];
}

-- Two schedules, and their rows are stored.
abbrev scheduler : Scheduler
scheduler = run_background 0 true (
    run_background 0 true
      (schedule true 2 1 "heartbeat" 6 none
        (schedule true 1 1 "heartbeat" 5 (some 30)
          (register_callback "heartbeat" empty_scheduler).1).1).1)

abbrev quiet : ScheduledTask → CallbackEnd
quiet t = returns

-- The callback of the first task raises.
abbrev first_fails : ScheduledTask → CallbackEnd
first_fails t = if t.task_id == 1 then raises runtime_error else returns

both_run : (tick quiet 6 scheduler).1.calls ≡ 2 ∷ 1 ∷ []
unfolding program
both_run = refl

-- Tick after tick, the second task is due and never called.
failing_callback_starves :
    (tick first_fails 8 (tick first_fails 7 (tick first_fails 6 scheduler).1).1).1.calls
    ≡ 1 ∷ 1 ∷ 1 ∷ []
unfolding program
failing_callback_starves = refl

abbrev ticked : Scheduler
ticked = (tick quiet 6 scheduler).1

-- The delete of cancel is lost: a restore brings the task back, and the next tick calls it.
lost_delete_revives :
    (act_all (writes 0 false ∷ restores ∷ ticks quiet 40 ∷ []) (cancel true 1 ticked).1).calls
    ≡ 1 ∷ ticked.calls
unfolding program
lost_delete_revives = refl

abbrev acts : List Act
acts =
    ticks quiet 6
    ∷ writes 0 true
    ∷ restores
    ∷ schedules true 3 1 "heartbeat" 7 none
    ∷ ticks quiet 40
    ∷ []

cancelled_never_called_example :
    occurrences 1 (act_all acts (cancel true 1 ticked).1).calls ≡ occurrences 1 ticked.calls
unfolding program
cancelled_never_called_example =
    cancelled_never_called 1 true acts ticked refl
      (tt, (tt, ((λ t there named. there), ((λ e. omega arith), (tt, tt)))))

abbrev harness : ContinualHarness
harness = record { base_digest = "9f86d0"; items = []; snapshots = λ j. none; history = [] }

abbrev lesson : Refinement
lesson = record {
  kind = "memory";
  key = "tests";
  value = "run them first";
  evidence_ids = 12 ∷ [];
  evidence_verified = true;
  action = "upsert";
  item_id = none;
  new_id = 1;
  now = 5;
}

abbrev removal : Refinement
removal = record lesson { action = "delete"; item_id = some 1; evidence_ids = 13 ∷ [] }

refine-Refined_example : Refined lesson harness (refine lesson harness)
refine-Refined_example = refine-Refined lesson harness

abbrev learned : ContinualHarness
learned = (refine lesson harness).1

rollback_restores_example :
    (let (result, after) =
        rollback 7 (change_all (refines removal ∷ takes_snapshot 8 ∷ []) (snapshot 7 learned)) in
      (result ≡ ok tt) × (after.items ≡ learned.items) × (after.history ≡ learned.history))
rollback_restores_example =
    rollback_restores 7 (refines removal ∷ takes_snapshot 8 ∷ []) learned
      (tt, ((λ e. omega arith), tt))
