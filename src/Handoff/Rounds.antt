-- ===== src/Handoff/Rounds.antt =====
-- How often services/handoff/manager.py dispatches one handoff.
use agent_os.Prelude.{
  ℕ, String, ◌≡◌, ◌≢◌, ◌⊎◌, refl, subst, inl, inr, Bool, true, false, Option, none, some, List, [],
  ◌∷◌, leb, ◌==◌, ==_iff, if◌then◌else◌, ◌+◌, ◌-◌, ◌≤◌, Bool-cases, Option-cases, arith,
}
use agent_os.Errors.{Result, ok, err}
use agent_os.Sql.{update_where, fetchrow}
use agent_os.Sql.Keyed.{fetchrow-update, fetchrow-update_ne, fetchrow_holds}
use agent_os.Json.{num, lookup}
use agent_os.Json.Keys.{lookup-assign}
use agent_os.Handoff.{
  HandoffStatus, accepted, completed, rejected, Handoff, Desk, is_pending, by_handoff, set_status,
  retries_in, again, dispatch_handoff, complete_handoff, fail_handoff, max_handoff_retries,
}

abbrev pub handoff_row : ℕ → Desk → Option Handoff
handoff_row handoff_id d = fetchrow (by_handoff handoff_id) d.handoffs

abbrev known : Result ℕ → ℕ
known (ok n) = n
known (err e) = 0

-- The dispatches that the row of a handoff leaves room for.
abbrev pub room : Option Handoff → ℕ
room none = 0
room (some h) =
    (if is_pending h.status then 1 else 0)
    + (max_handoff_retries - known (retries_in (lookup "_handoff_retries" h.constraints)))

pub data Step : Type 0 where
  dispatches : (handoff_id new_task_id now : ℕ) → Step
  completes : (handoff_id : ℕ) → Step
  fails : (handoff_id : ℕ) → Step

abbrev pub is_ok : {A : Type 0} → Result A → Bool
is_ok (ok a) = true
is_ok (err e) = false

-- The dispatches of the handoff j among the steps that return.
abbrev pub dispatched : (queues : String → Option String) → (j : ℕ) → List Step → Desk → ℕ
dispatched queues j [] d = 0
dispatched queues j (dispatches id new now ∷ steps) d =
    let (result, after) = dispatch_handoff queues id new now d in
    let rest = dispatched queues j steps after in
    (if (id == j) then (if is_ok result then 1 else 0) else 0) + rest
dispatched queues j (completes id ∷ steps) d = dispatched queues j steps (complete_handoff id d).1
dispatched queues j (fails id ∷ steps) d = dispatched queues j steps (fail_handoff id d).1

set_status-row :
    (id j : ℕ) (status : HandoffStatus) (d : Desk)
    → is_pending status ≡ false
    → room (handoff_row j (set_status id status d)) ≤ room (handoff_row j d)
set_status-row id j status d closed = elim (Option-cases (handoff_row j d)) [
  | inl missing ↦
      rw
        (
          fetchrow-update (λ h. h.handoff_id) (by_handoff id) (λ h. record h { status = status })
              (λ h. refl) j d.handoffs,
          missing,
        )
        (omega arith)
  | inr (h, row) ↦
      rw
        (
          fetchrow-update (λ h. h.handoff_id) (by_handoff id) (λ h. record h { status = status })
              (λ h. refl) j d.handoffs,
          row,
        )
        (elim (Bool-cases (by_handoff id h)) [
          | inl hit ↦ rw (hit, closed) (omega arith)
          | inr miss ↦ rw miss (omega arith)
        ])
]

-- What a dispatch does to the table: nothing and an error, or the pending row is accepted.
dispatch_cases :
    (queues : String → Option String) (id new now : ℕ) (d : Desk)
    → ((is_ok (dispatch_handoff queues id new now d).0 ≡ false)
        × ((dispatch_handoff queues id new now d).1.handoffs ≡ d.handoffs))
      ⊎ ((h : Handoff) × (handoff_row id d ≡ some h)
          × (is_pending h.status ≡ true)
          × ((dispatch_handoff queues id new now d).1.handoffs
              ≡ (set_status id accepted d).handoffs))
unfolding dispatch_handoff
dispatch_cases queues id new now d = elim (Option-cases (handoff_row id d)) [
  | inl missing ↦ inl (rw missing refl, rw missing refl)
  | inr (h, row) ↦ elim (Bool-cases (is_pending h.status)) [
    | inr closed ↦ inl (rw (row, closed) refl, rw (row, closed) refl)
    | inl waits ↦ elim (Option-cases (queues h.target_agent)) [
      | inl unknown ↦ inl (rw (row, waits, unknown) refl, rw (row, waits, unknown) refl)
      | inr (queue, given) ↦ inr (h, row, waits, rw (row, waits, given) refl)
    ]
  ]
]

accepted-row :
    (id j : ℕ) (d : Desk) (h : Handoff)
    → handoff_row id d ≡ some h
    → is_pending h.status ≡ true
    → (if (id == j) then 1 else 0) + room (handoff_row j (set_status id accepted d))
      ≤ room (handoff_row j d)
accepted-row id j d h row waits = elim (Bool-cases (id == j)) [
  | inr other ↦ rw other (omega (arith, set_status-row id j accepted d refl))
  | inl same ↦ rw same (
      subst (λ k. 1 + room (handoff_row k (set_status id accepted d)) ≤ room (handoff_row k d))
        ((==_iff id j).0 same)
        (let hit : by_handoff id h ≡ true = fetchrow_holds (by_handoff id) d.handoffs h row in
          rw
            (
              fetchrow-update (λ r. r.handoff_id) (by_handoff id)
                  (λ r. record r { status = accepted }) (λ r. refl) id d.handoffs,
              row,
              hit,
              waits,
            )
            (omega arith)))
]

dispatch-room :
    (queues : String → Option String) (id new now j : ℕ) (d : Desk)
    → (if (id == j) then (if is_ok (dispatch_handoff queues id new now d).0 then 1 else 0) else 0)
        + room (handoff_row j (dispatch_handoff queues id new now d).1)
      ≤ room (handoff_row j d)
dispatch-room queues id new now j d = elim (dispatch_cases queues id new now d) [
  | inl (raised, same) ↦ rw (raised, same) (ground arith)
  | inr (h, row, waits, changed) ↦
      let step = accepted-row id j d h row waits in rw changed (ground (arith, step))
]

again-room :
    (id j retries : ℕ) (d : Desk) (h : Handoff)
    → handoff_row id d ≡ some h
    → retries_in (lookup "_handoff_retries" h.constraints) ≡ ok retries
    → leb max_handoff_retries retries ≡ false
    → room (fetchrow (by_handoff j) (update_where (by_handoff id) (again retries) d.handoffs))
      ≤ room (handoff_row j d)
again-room id j retries d h row count few = elim (Bool-cases (id == j)) [
  | inr other ↦
      let apart : j ≢ id = λ e. ground arith in
      rw
        (fetchrow-update_ne (λ r. r.handoff_id) (by_handoff id) (again retries) (λ r. refl) id j
          (λ r hit. (==_iff r.handoff_id id).0 hit) d.handoffs apart)
        (omega arith)
  | inl same ↦
      subst
        (λ k.
          room (fetchrow (by_handoff k) (update_where (by_handoff id) (again retries) d.handoffs))
          ≤ room (handoff_row k d))
        ((==_iff id j).0 same)
        (let hit : by_handoff id h ≡ true = fetchrow_holds (by_handoff id) d.handoffs h row in
          rw
            (
              fetchrow-update (λ r. r.handoff_id) (by_handoff id) (again retries) (λ r. refl) id
                  d.handoffs,
              row,
              hit,
              lookup-assign "_handoff_retries" (num (retries + 1)) h.constraints,
              count,
            )
            (ground arith))
]

fail-room :
    (id j : ℕ) (d : Desk) → room (handoff_row j (fail_handoff id d).1) ≤ room (handoff_row j d)
unfolding fail_handoff
fail-room id j d = elim (Option-cases (handoff_row id d)) [
  | inl missing ↦ rw missing (omega arith)
  | inr (h, row) ↦ tried h row (retries_in (lookup "_handoff_retries" h.constraints)) refl
]
  where
    tried :
        (h : Handoff)
        → handoff_row id d ≡ some h
        → (r : Result ℕ) → retries_in (lookup "_handoff_retries" h.constraints) ≡ r
        → room (handoff_row j (fail_handoff id d).1) ≤ room (handoff_row j d)
    tried h row (err x) count = rw (row, count) (omega arith)
    tried h row (ok retries) count = elim (Bool-cases (leb max_handoff_retries retries)) [
      | inl exhausted ↦ rw (row, count, exhausted) (set_status-row id j rejected d refl)
      | inr few ↦ rw (row, count, few) (again-room id j retries d h row count few)
    ]

dispatched_bounded :
    (queues : String → Option String) (j : ℕ) (steps : List Step) (d : Desk)
    → dispatched queues j steps d ≤ room (handoff_row j d)
unfolding complete_handoff
dispatched_bounded queues j [] d = omega arith
dispatched_bounded queues j (dispatches id new now ∷ steps) d = omega (
  arith,
  dispatched_bounded queues j steps (dispatch_handoff queues id new now d).1,
  dispatch-room queues id new now j d,
)
dispatched_bounded queues j (completes id ∷ steps) d = omega (
  arith,
  dispatched_bounded queues j steps (set_status id completed d),
  set_status-row id j completed d refl,
)
dispatched_bounded queues j (fails id ∷ steps) d =
    omega (arith, dispatched_bounded queues j steps (fail_handoff id d).1, fail-room id j d)

room_small : (row : Option Handoff) → room row ≤ 3
room_small none = omega arith
room_small (some h) = elim (Bool-cases (is_pending h.status)) [
  | inl waits ↦ rw waits (omega arith)
  | inr closed ↦ rw closed (omega arith)
]

-- On any table and with any queues, however dispatches, completions and failures of handoffs
-- follow one another, at most three dispatches of one handoff return.
pub dispatched_at_most_three :
    (queues : String → Option String) (j : ℕ) (steps : List Step) (d : Desk)
    → dispatched queues j steps d ≤ 3
dispatched_at_most_three queues j steps d =
    omega (arith, dispatched_bounded queues j steps d, room_small (handoff_row j d))
