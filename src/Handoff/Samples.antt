-- ===== src/Handoff/Samples.antt =====
-- Runs of services/handoff/manager.py, and its theorem at them.
use agent_os.Prelude.{
  ℕ, suc, String, ◌≡◌, refl, Option, none, some, List, [], ◌∷◌, str_eq, if◌then◌else◌, ◌≤◌,
}
use agent_os.Errors.{Result, ok, err, key_error}
use agent_os.Json.{Fields, field, end, str, nil}
use agent_os.Handoff.{
  Desk, Handoff, create_handoff, dispatch_handoff, complete_handoff, fail_handoff, receive_handoff,
}
use agent_os.Handoff.Rounds.{Step, dispatches, fails, dispatched, dispatched_at_most_three}

program : Unit {0}
unfolding create_handoff dispatch_handoff complete_handoff fail_handoff receive_handoff
program = tt

abbrev queues : String → Option String
queues name = if str_eq name "opencode" then some "queue:opencode" else none

abbrev size : Fields → ℕ
size end = 2
size (field k v fs) = suc (size fs)

abbrev empty : Desk
empty = record { handoffs = []; tasks = []; pushes = [] }

abbrev desk : Desk
desk =
    (create_handoff size 1 5 40 "research" "opencode" (field "topic" (str "ports") end) nil end end
      empty).1

abbrev rounds : List Step
rounds =
    dispatches 1 50 6
    ∷ dispatches 1 51 6
    ∷ fails 1
    ∷ dispatches 1 52 7
    ∷ fails 1
    ∷ dispatches 1 53 8
    ∷ fails 1
    ∷ dispatches 1 54 9
    ∷ []

three_dispatches : dispatched queues 1 rounds desk ≡ 3
unfolding program
three_dispatches = refl

missing_queue_raises :
    (dispatch_handoff queues 1 50 6
      (create_handoff size 1 5 40 "research" "seo" end nil end end empty).1).0
    ≡ err key_error
unfolding program
missing_queue_raises = refl

-- Task 40 hands off twice; task 51 was dispatched for the second handoff.
abbrev two_handoffs : Desk
two_handoffs =
    (dispatch_handoff queues 2 51 7
      (create_handoff size 2 6 40 "research" "opencode" end nil end end desk).1).1

abbrev parents : ℕ → Option ℕ
parents task_id = some 40

abbrev received : Result (Option Handoff) → Option ℕ
received (ok (some h)) = some h.handoff_id
received _ = none

first_handoff_received : received (receive_handoff parents 51 two_handoffs).0 ≡ some 1
unfolding program
first_handoff_received = refl

dispatched_at_most_three_example : dispatched queues 1 rounds desk ≤ 3
dispatched_at_most_three_example = dispatched_at_most_three queues 1 rounds desk
