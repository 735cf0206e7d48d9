-- ===== src/Consumer/Samples.antt =====
-- Runs of services/hermes/result_consumer.py behind a worker, and its theorems at them.
use agent_os.Prelude.{◌+◌, ℕ, ◌≡◌, refl, true, false, List, [], ◌∷◌, ◌≤◌, In}
use agent_os.Errors.{value_error}
use agent_os.Exec.{Exec, pure, raise}
use agent_os.Redis.{Redis, queued, completed, rpop, lrem, ltrim}
use agent_os.Worker.{
  process, finish, settle_task, retry_or_fail, take_task, requeue_inflight, requeue_all, turn,
  has_status,
}
use agent_os.Worker.Retries.{processes}
use agent_os.Worker.Samples.{redis, second_time}
use agent_os.Consumer.{
  Consumed, nothing_lost, at_marker, handled, duplicate, take_result, consume_once, recover_all,
  recover,
}
use agent_os.Consumer.Once.{
  Step, consumes, recovers, works, handled_times, lost_times, handled_once, failed_result_returns,
}

program : Unit {0}
unfolding process finish settle_task retry_or_fail take_task requeue_inflight requeue_all turn rpop
    lrem ltrim take_result consume_once recover_all recover
program = tt

abbrev accepts : ℕ → Exec Redis (Unit {0})
accepts id = pure tt

abbrev refuses : ℕ → Exec Redis (Unit {0})
refuses id = raise value_error

-- The worker's first attempt fails and its task waits again; Hermes handles that result.
abbrev first_result : Consumed × Redis
first_result =
    consume_once accepts nothing_lost (turn "research" "host:1" second_time 1 10 20 redis)

-- The second attempt completes the task, and Hermes takes its result for a duplicate.
abbrev second_result : Consumed × Redis
second_result =
    consume_once accepts nothing_lost (turn "research" "host:1" second_time 2 30 40 first_result.1)

retry_is_handled :
    (first_result.0 ≡ handled 7)
    × (has_status (λ s. elim s [ queued ↦ true | _ ↦ false ]) (first_result.1.tasks 7) ≡ true)
unfolding program
retry_is_handled = (refl, refl)

completion_is_dropped :
    (second_result.0 ≡ duplicate 7)
    × (has_status (λ s. elim s [ completed ↦ true | _ ↦ false ]) (second_result.1.tasks 7) ≡ true)
unfolding program
completion_is_dropped = (refl, refl)

abbrev steps : List Step
steps =
    works (processes "research" "host:1" second_time 7 1 10 20)
    ∷ consumes nothing_lost
    ∷ works (processes "research" "host:1" second_time 7 2 30 40)
    ∷ recovers
    ∷ consumes nothing_lost
    ∷ []

-- Where SET of the marker fails, the recovery brings the result back, and the handler returns twice.
abbrev without_marker : List Step
without_marker =
    works (processes "research" "host:1" second_time 7 1 10 20)
    ∷ works (processes "research" "host:1" second_time 7 2 30 40)
    ∷ consumes at_marker
    ∷ recovers
    ∷ consumes at_marker
    ∷ []

handled_twice : handled_times accepts 7 without_marker redis ≡ 2
unfolding program
handled_twice = refl

handled_once_example :
    (handled_times accepts 7 steps redis ≤ lost_times accepts 7 steps redis + 1)
    × (redis.consumed 7 ≡ true
        → handled_times accepts 7 steps redis ≤ lost_times accepts 7 steps redis)
handled_once_example = handled_once accepts (λ id r. refl) 7 steps redis

abbrev done : Redis
done =
    turn "research" "host:1" second_time 2 30 40
      (turn "research" "host:1" second_time 1 10 20 redis)

failed_result_returns_example : In 7 (recover (consume_once refuses nothing_lost done).1).results
unfolding program
failed_result_returns_example =
    failed_result_returns refuses (λ id r. refl) nothing_lost done 7 refl refl
