-- ===== src/Worker/Samples.antt =====
-- Runs of services/workers/common/base_worker.py, and its theorems at them.
use agent_os.Prelude.{
  occurrences, ℕ, zero, suc, String, ◌≡◌, refl, true, false, none, some, List, [], ◌∷◌, ◌+◌, ◌≤◌,
}
use agent_os.Json.{end, str}
use agent_os.Redis.{Redis, Task, queued, put, rpop, lrem, ltrim}
use agent_os.Worker.{
  HandleOutcome, returned, timed_out, raised, or_zero, process, finish, settle_task, retry_or_fail,
  take_task, requeue_inflight, requeue_all, turn,
}
use agent_os.Worker.Retries.{
  Step, processes, requeues, takes, acknowledges, expires, run_steps, attempts_bounded,
}
use agent_os.Worker.Settling.{turns, IsSettled, queued_task_settles}
use agent_os.Worker.Fleet.{
  idle, Fleet, Move, checks, claims, starts, finishes, compares, deletes, moves, handles,
}
use agent_os.Worker.Fleet.Exclusion.{handled_by_one}

program : Unit {0}
unfolding process finish settle_task retry_or_fail take_task requeue_inflight requeue_all turn rpop
    lrem ltrim moves
program = tt

abbrev task : Task
task = record {
  task_id = 7;
  type = "research";
  payload = end;
  status = queued;
  retries = none;
  worker_id = none;
  started_at = none;
  completed_at = none;
  last_error = none;
  result = none;
}

abbrev pub redis : Redis
redis = record {
  tasks = put 7 (some task) (λ j. none);
  locks = λ j. none;
  consumed = λ j. false;
  queue = 7 ∷ [];
  processing = [];
  results = [];
  results_processing = [];
  failures = [];
  events = [];
}

-- Fails once, then returns.
abbrev pub second_time : Task → HandleOutcome
second_time t = elim (or_zero t.retries) [
  | zero ↦ raised "connection reset"
  | suc n ↦ returned (str "done")
]

abbrev never : Task → HandleOutcome
never t = timed_out

abbrev clock : ℕ → ℕ
clock k = k + 100

settles_after_two :
    (turns "research" "host:1" second_time clock clock clock 3 redis).results ≡ 7 ∷ 7 ∷ []
unfolding program
settles_after_two = refl

fails_after_three : (turns "research" "host:1" never clock clock clock 3 redis).failures ≡ 7 ∷ []
unfolding program
fails_after_three = refl

abbrev steps : List Step
steps =
    takes
    ∷ processes "research" "host:1" never 7 1 10 20
    ∷ acknowledges 7
    ∷ processes "research" "host:2" never 7 2 30 40
    ∷ expires 7
    ∷ requeues
    ∷ processes "research" "host:1" never 7 3 50 60
    ∷ processes "research" "host:2" never 7 4 70 80
    ∷ []

three_results : (run_steps steps redis).results ≡ 7 ∷ 7 ∷ 7 ∷ []
unfolding program
three_results = refl

attempts_bounded_example :
    occurrences 7 (run_steps steps redis).results ≤ occurrences 7 redis.results + 3
attempts_bounded_example = attempts_bounded 7 steps redis

queued_task_settles_example :
    IsSettled 7 (turns "research" "host:1" never clock clock clock 3 redis)
queued_task_settles_example =
    queued_task_settles "research" "host:1" never clock clock clock 7 2 redis
      (refl, refl, refl, (task, refl, refl, refl, refl))

abbrev names : ℕ → String
names w = "host"

-- Both pass the check, the first claims, the second loses the claim.
abbrev race : List Move
race = checks 1 7 ∷ checks 2 7 ∷ claims 1 11 ∷ claims 2 12 ∷ starts 1 5 ∷ starts 2 5 ∷ []

abbrev after_race : Fleet
after_race = moves "research" names race (record { redis = redis; phases = λ w. idle })

one_handles : (handles (after_race.phases 1) 7 ≡ true) × (handles (after_race.phases 2) 7 ≡ false)
unfolding program
one_handles = (refl, refl)

abbrev first_worker : ℕ
first_worker = 1

handled_by_one_example : first_worker ≡ first_worker
unfolding program
handled_by_one_example =
    handled_by_one "research" names race redis first_worker first_worker 7 refl refl

-- A lock that expires between the GET and the DEL of its worker is another worker's when the DEL
-- comes: the DEL removes it, and a third worker handles the task beside the second.
abbrev expired_between : Fleet
expired_between =
    let first =
      moves "research" names
        (checks 1 7 ∷ claims 1 11 ∷ starts 1 5 ∷ finishes 1 6 timed_out ∷ compares 1 ∷ [])
        (record { redis = redis; phases = λ w. idle }) in
    let expired = record first { redis = record first.redis { locks = λ j. none } } in
    moves "research" names
      (checks 2 7
        ∷ claims 2 12
        ∷ starts 2 8
        ∷ deletes 1
        ∷ checks 3 7
        ∷ claims 3 13
        ∷ starts 3 9
        ∷ [])
      expired

two_handle :
    (handles (expired_between.phases 2) 7 ≡ true) × (handles (expired_between.phases 3) 7 ≡ true)
unfolding program
two_handle = (refl, refl)
