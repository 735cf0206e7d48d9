-- ===== src/Mission/Recovery/Bounds.antt =====
-- How often services/mission/failure_recovery.py lets a failing task be tried again.
use agent_os.Prelude.{
  ℕ, suc, ◌≡◌, refl, sym, subst, inl, inr, false, List, [], ◌∷◌, leb, if◌then◌else◌, ◌+◌, ◌≤◌,
  Bool-cases, length, All, arith,
}
use agent_os.Mission.Recovery.Patterns.{FailureCategory}
use agent_os.Mission.Recovery.{
  Action, retry, retry_with_strategy_change, escalate, decide, never_auto_retry,
  requires_strategy_change,
}

abbrev pub counted : Action → ℕ → ℕ
counted retry rest = suc rest
counted retry_with_strategy_change rest = suc rest
counted escalate rest = 0

-- The retries that a task gets which fails in these ways, one after the other, until a failure is
-- escalated. The caller counts a retry before the next failure.
abbrev pub granted : (max_retries retry_count : ℕ) → List FailureCategory → ℕ
granted max_retries retry_count [] = 0
granted max_retries retry_count (category ∷ failures) =
    counted (decide category retry_count max_retries).action
      (granted max_retries (suc retry_count) failures)

counted_decision :
    (category : FailureCategory) (retry_count max_retries rest : ℕ)
    → counted (decide category retry_count max_retries).action rest ≡ (
        if never_auto_retry category
        then 0
        else if leb max_retries retry_count
        then 0
        else suc rest)
unfolding decide
counted_decision category retry_count max_retries rest =
    elim (Bool-cases (never_auto_retry category)) [
      | inl never ↦ rw never refl
      | inr may ↦ elim (Bool-cases (leb max_retries retry_count)) [
        | inl exhausted ↦ rw (may, exhausted) refl
        | inr left ↦ elim (Bool-cases (requires_strategy_change category)) [
          | inl change ↦ rw (may, left, change) refl
          | inr same ↦ rw (may, left, same) refl
        ]
      ]
    ]

-- However a task fails, it is never tried more often than max_retries allows.
pub granted_bounded :
    (max_retries retry_count : ℕ) (failures : List FailureCategory)
    → retry_count ≤ max_retries
    → retry_count + granted max_retries retry_count failures ≤ max_retries
granted_bounded max_retries retry_count [] h = omega (arith, h)
granted_bounded max_retries retry_count (category ∷ failures) h =
    let rest = granted max_retries (suc retry_count) failures in
    let next = granted_bounded max_retries (suc retry_count) failures in
    subst (λ n. retry_count + n ≤ max_retries)
      (sym (counted_decision category retry_count max_retries rest)) (ground (arith, next, h))

-- A task that has been retried no more than max_retries times, and none of whose further failures is
-- a permission denial, is retried until it has been retried exactly max_retries times, if it fails
-- often enough.
pub granted_exact :
    (max_retries retry_count : ℕ) (failures : List FailureCategory)
    → retry_count ≤ max_retries
    → All (λ category. never_auto_retry category ≡ false) failures
    → max_retries ≤ retry_count + length failures
    → retry_count + granted max_retries retry_count failures ≡ max_retries
granted_exact max_retries retry_count [] h may enough = omega (arith, h, enough)
granted_exact max_retries retry_count (category ∷ failures) h may enough =
    let rest = granted max_retries (suc retry_count) failures in
    subst (λ n. retry_count + n ≡ max_retries)
      (sym (counted_decision category retry_count max_retries rest))
      (rw may.0 (elim (Bool-cases (leb max_retries retry_count)) [
        | inl exhausted ↦ rw exhausted (ground (arith, h))
        | inr left ↦
            let more : suc retry_count ≤ max_retries = ground arith in
            let next =
              granted_exact max_retries (suc retry_count) failures more may.1
                (omega (arith, enough)) in
            rw left (omega (arith, next))
      ]))
