-- ===== src/Mission/Recovery/Samples.antt =====
-- Runs of services/mission/failure_recovery.py, and its theorems at them.
use agent_os.Prelude.{arith, ◌+◌, ◌≡◌, refl, false, [], ◌∷◌}
use agent_os.Text.{decimal, decimal_digits, take_text}
use agent_os.Regex.{Unicode, match_here, search_from}
use agent_os.Mission.Recovery.Patterns.{unknown, timeout, tool_failure, code_failure}
use agent_os.Mission.Recovery.{
  first_category, classify, decide, record_decision, diagnose_and_decide,
}
use agent_os.Mission.Recovery.Bounds.{granted, granted_exact}

program : Unit {0}
unfolding decimal decimal_digits take_text match_here search_from first_category classify decide
    record_decision diagnose_and_decide
program = tt

-- No character outside ASCII occurs in the samples.
abbrev ascii : Unicode
ascii = record { alphanumeric = λ c. false; decimal = λ c. false }

timeouts : classify ascii "ReadTimeout: request Timed Out after 30s" ≡ timeout
unfolding program
timeouts = refl

unknown_tool : classify ascii "Tool 'search' is not configured here" ≡ tool_failure
unfolding program
unknown_tool = refl

exit_status : classify ascii "process ended with exit code 2" ≡ code_failure
unfolding program
exit_status = refl

-- The comma of the pattern `\d+ failed,` has to be followed by a word for the boundary after it.
summary_is_missed : classify ascii "3 failed, 2 passed" ≡ unknown
unfolding program
summary_is_missed = refl

-- The boundary after `hallucinat` leaves no room for an ending.
hallucination_is_missed : classify ascii "the model hallucinated a function" ≡ unknown
unfolding program
hallucination_is_missed = refl

twelve : decimal 1205 ≡ "1205"
unfolding program
twelve = refl

granted_exact_example : 1 + granted 3 1 (timeout ∷ code_failure ∷ unknown ∷ []) ≡ 3
granted_exact_example =
    granted_exact 3 1 (timeout ∷ code_failure ∷ unknown ∷ []) (omega arith)
      (refl, (refl, (refl, tt))) (omega arith)
