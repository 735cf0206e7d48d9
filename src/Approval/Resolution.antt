-- ===== src/Approval/Resolution.antt =====
-- services/approval/manager.py: resolve on each of its branches.
use agent_os.Prelude.{
  ℕ, String, ◌≡◌, refl, sym, subst, inl, inr, true, false, none, some, List, ◌==◌, str_eq,
  Bool-cases, Option-cases, ◌⊎◌,
}
use agent_os.Errors.{Result, ok, err, permission_error, value_error, lookup_error}
use agent_os.Sql.{fetchrow}
use agent_os.Sql.Keyed.{
  by_key, fetchrow-update, fetchrow-and, IsKeyed, fetchrow_holds, update_where_miss,
}
use agent_os.Approval.{
  ApprovalStatus, approved, denied, Approval, Approvals, is_pending, open_approval, settle,
  update_pending, is_agent, decision_status, resolve,
}
use agent_os.Approval.Human.{approval_row}

-- What resolve does on each of its branches.
abbrev pub Resolution :
    ℕ → (decision by : String) → List String → ℕ → Approvals → Result Approval × Approvals → Type 0
Resolution id decision by agents now rows (result, after) =
    ((result ≡ err permission_error) × (is_agent by agents ≡ true) × (after ≡ rows))
    ⊎ (((result ≡ err value_error) × (decision_status decision ≡ err value_error) × (after ≡ rows))
        ⊎ (((result ≡ err lookup_error)
              × (after ≡ rows)
              × ((a : Approval) → approval_row id rows ≡ some a → is_pending a.status ≡ false))
            ⊎ ((a : Approval) × (status : ApprovalStatus) × (decision_status decision ≡ ok status)
                × (is_agent by agents ≡ false)
                × (approval_row id rows ≡ some a)
                × (is_pending a.status ≡ true)
                × (result ≡ ok (settle status by now a))
                × (approval_row id after ≡ some (settle status by now a)))))

-- The UPDATE found no pending row of that identifier.
abbrev Missed : ℕ → Approvals → Type 0
Missed id rows = fetchrow (open_approval id) rows ≡ none

update_pending-Missed :
    (id : ℕ) (status : ApprovalStatus) (by : String) (now : ℕ) (rows : Approvals)
    → Missed id rows
    → ((update_pending id status by now rows).0 ≡ err lookup_error)
      × ((update_pending id status by now rows).1 ≡ rows)
unfolding update_pending
update_pending-Missed id status by now rows missed =
    (rw missed refl, update_where_miss (open_approval id) (settle status by now) rows missed)

closed_row :
    (id : ℕ) (rows : Approvals) (a b : Approval)
    → approval_row id rows ≡ some a
    → approval_row id rows ≡ some b
    → is_pending a.status ≡ false
    → is_pending b.status ≡ false
closed_row id rows a b row again closed =
    let same : a ≡ b = cc in subst (λ r. is_pending r.status ≡ false) same closed

update_pending-Resolution :
    (id : ℕ) (decision by : String) (agents : List String) (now : ℕ) (rows : Approvals)
    (status : ApprovalStatus)
    → IsKeyed (λ a. a.approval_id) rows
    → decision_status decision ≡ ok status
    → is_agent by agents ≡ false
    → Resolution id decision by agents now rows (update_pending id status by now rows)
unfolding update_pending
update_pending-Resolution id decision by agents now rows status keyed e human =
    let found = fetchrow-and (λ a. a.approval_id) id (λ a. is_pending a.status) rows keyed in
    elim (Option-cases (approval_row id rows)) [
      | inl missing ↦
          let (raised, kept) =
            update_pending-Missed id status by now rows (rw (found, missing) refl) in
          inr (inr (inl (raised, kept, λ a row. cc)))
      | inr (a, row) ↦ elim (Bool-cases (is_pending a.status)) [
        | inl waiting ↦
            let same : (a.approval_id == id) ≡ true =
              fetchrow_holds (by_key (λ r. r.approval_id) id) rows a row in
            inr (
              inr (
                inr (
                  a,
                  status,
                  e,
                  human,
                  row,
                  waiting,
                  rw (found, row, waiting) refl,
                  rw
                      (
                        fetchrow-update (λ r. r.approval_id) (open_approval id)
                            (settle status by now) (λ r. refl) id rows,
                        row,
                        same,
                        waiting,
                      )
                      refl,
                )))
        | inr closed ↦
            let (raised, kept) =
              update_pending-Missed id status by now rows (rw (found, row, closed) refl) in
            inr (inr (inl (raised, kept, λ b again. closed_row id rows a b row again closed)))
      ]
    ]

decision_status_cases :
    (decision : String)
    → (decision_status decision ≡ err value_error)
      ⊎ ((status : ApprovalStatus) × (decision_status decision ≡ ok status))
unfolding decision_status
decision_status_cases decision = elim (Bool-cases (str_eq decision "approve")) [
  | inl approves ↦ inr (approved, rw approves refl)
  | inr otherwise ↦ elim (Bool-cases (str_eq decision "deny")) [
    | inl denies ↦ inr (denied, rw (otherwise, denies) refl)
    | inr neither ↦ inl (rw (otherwise, neither) refl)
  ]
]

-- With unique identifiers, resolve raises and leaves the table as it was: PermissionError for an
-- agent, ValueError for a decision that is neither approve nor deny, LookupError exactly if no
-- pending approval has the identifier; or it returns the row of the pending approval with the
-- decision, the approver and the time, and the table has that row.
pub resolve-Resolution :
    (id : ℕ) (decision by : String) (agents : List String) (now : ℕ) (rows : Approvals)
    → IsKeyed (λ a. a.approval_id) rows
    → Resolution id decision by agents now rows (resolve id decision by agents now rows)
unfolding resolve
resolve-Resolution id decision by agents now rows keyed = elim (Bool-cases (is_agent by agents)) [
  | inl agent ↦ rw agent (inl (refl, refl, refl))
  | inr human ↦ elim (decision_status_cases decision) [
    | inl bad ↦
        let raised : resolve id decision by agents now rows ≡ (err value_error, rows) =
          rw (human, bad) refl in
        subst (Resolution id decision by agents now rows) (sym raised) (inr (inl (refl, bad, refl)))
    | inr (status, good) ↦
        let written : resolve id decision by agents now rows
            ≡ update_pending id status by now rows =
          rw (human, good) refl in
        subst (Resolution id decision by agents now rows) (sym written)
          (update_pending-Resolution id decision by agents now rows status keyed good human)
  ]
]
