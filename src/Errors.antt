-- ===== src/Errors.antt =====
-- The exceptions that the services raise.
use agent_os.Prelude.{ℕ, List}

pub data Error : Type 0 where
  -- FileNotFoundError
  file_not_found : Error
  -- ValueError, LookupError, PermissionError, and TypeError for a subscript of None
  value_error lookup_error permission_error type_error key_error : Error
  -- RecursionError: a bounded recursion went deeper than its bound
  recursion_error : Error
  -- control.InvalidTransition and task_graph.InvalidTaskTransition
  invalid_transition invalid_task_transition : Error
  -- task_graph.CyclicDependencyError, with the cycle that its message prints
  cyclic_dependency : List ℕ → Error
  -- cost_tracker.BudgetExceededError, strategy.StrategyNotChangedError
  budget_exceeded strategy_not_changed : Error
  -- idempotency.IdempotencyViolation, handoff.HandoffError, decomposition.DecompositionError
  idempotency_violation handoff_error decomposition_error : Error
  -- autonomy.AutonomyLimit, harness.RefinementRejected, and RuntimeError
  autonomy_limit refinement_rejected runtime_error : Error
  -- AttributeError: a method of a dict on another value
  attribute_error : Error
  -- redis.DataError: a value that is no bytes, text or number
  data_error : Error

pub data Result {ℓ} (A : Type ℓ) : Type ℓ where
  ok : A → Result A
  err : Error → Result A
