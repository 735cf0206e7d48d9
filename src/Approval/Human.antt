-- ===== src/Approval/Human.antt =====
-- Who resolves an approval of services/approval/manager.py, and how often.
use agent_os.Prelude.{
  ℕ, String, ◌≡◌, refl, sym, subst, inl, inr, Bool, true, false, Option, some, List, [], ◌∷◌, arith,
  if◌then◌else◌, All, Bool-cases, ◌⊎◌,
}
use agent_os.Errors.{Result, ok, err}
use agent_os.Sql.{update_where, insert, fetchrow}
use agent_os.Sql.Keyed.{by_key, fetchrow-update, fetchrow-insert}
use agent_os.Approval.{
  ApprovalStatus, Approval, Approvals, is_pending, new_approval, request, open_approval, settle,
  update_pending, is_agent, decision_status, resolve,
}

-- The calls that reach the manager; all resolve with the agents known at the time.
pub data Call : Type 0 where
  requests :
      (approval_id now task_id : ℕ) (agent_id : Option String) (action reason : String) → Call
  resolves : (approval_id : ℕ) (decision approved_by : String) (now : ℕ) → Call

abbrev pub run : List String → List Call → Approvals → Approvals
run agents [] rows = rows
run agents (requests id now task agent action reason ∷ calls) rows =
    run agents calls (request id now task agent action reason rows).1
run agents (resolves id decision by now ∷ calls) rows =
    run agents calls (resolve id decision by agents now rows).1

-- Not resolved yet, or resolved by someone who is no agent.
abbrev pub ByHuman : List String → Approval → Type 0
ByHuman agents a =
    (is_pending a.status ≡ true)
    ⊎ ((by : String) × (a.approved_by ≡ some by) × (is_agent by agents ≡ false))

-- The table that a call of resolve leaves: as it was, or with the approval settled by somebody who
-- is no agent.
resolve_table :
    (id : ℕ) (decision by : String) (agents : List String) (now : ℕ) (rows : Approvals)
    → ((resolve id decision by agents now rows).1 ≡ rows)
      ⊎ ((is_agent by agents ≡ false)
          × ((status : ApprovalStatus) × ((resolve id decision by agents now rows).1
                ≡ update_where (open_approval id) (settle status by now) rows)))
unfolding resolve update_pending
resolve_table id decision by agents now rows = elim (Bool-cases (is_agent by agents)) [
  | inl agent ↦ inl (rw agent refl)
  | inr human ↦ decide (decision_status decision) refl human
]
  where
    decide :
        (r : Result ApprovalStatus)
        → decision_status decision ≡ r
        → is_agent by agents ≡ false
        → ((resolve id decision by agents now rows).1 ≡ rows)
          ⊎ ((is_agent by agents ≡ false)
              × ((status : ApprovalStatus) × ((resolve id decision by agents now rows).1
                    ≡ update_where (open_approval id) (settle status by now) rows)))
    decide (err x) e human = inl (rw (human, e) refl)
    decide (ok status) e human = inr (human, (status, rw (human, e) refl))

All-update :
    (P : Approval → Type 0) (p : Approval → Bool) (f : Approval → Approval) (rows : Approvals)
    → ((a : Approval) → P (f a))
    → All P rows
    → All P (update_where p f rows)
All-update P p f [] keep h = tt
All-update P p f (a ∷ rows) keep h = (
  elim (Bool-cases (p a)) [
    | inl hit ↦ subst (λ b. P (if b then f a else a)) (sym hit) (keep a)
    | inr miss ↦ subst (λ b. P (if b then f a else a)) (sym miss) h.0
  ],
  All-update P p f rows keep h.1,
)

All-insert :
    (P : Approval → Type 0) (new : Approval) (rows : Approvals)
    → P new
    → All P rows
    → All P (insert new rows)
All-insert P new [] n h = (n, tt)
All-insert P new (a ∷ rows) n h = (h.0, All-insert P new rows n h.1)

-- Whatever requests and resolutions arrive, in whatever order, every approval of the table is
-- still pending or was resolved by somebody who is not among the agents.
pub run-ByHuman :
    (agents : List String) (calls : List Call) (rows : Approvals)
    → All (ByHuman agents) rows
    → All (ByHuman agents) (run agents calls rows)
unfolding request
run-ByHuman agents [] rows h = h
run-ByHuman agents (requests id now task agent action reason ∷ calls) rows h =
    run-ByHuman agents calls (insert (new_approval id now task agent action reason) rows)
      (All-insert (ByHuman agents) (new_approval id now task agent action reason) rows (inl refl) h)
run-ByHuman agents (resolves id decision by now ∷ calls) rows h =
    run-ByHuman agents calls (resolve id decision by agents now rows).1
      (elim (resolve_table id decision by agents now rows) [
        | inl same ↦ subst (All (ByHuman agents)) (sym same) h
        | inr (human, (status, changed)) ↦ subst (All (ByHuman agents)) (sym changed) (
            All-update (ByHuman agents) (open_approval id) (settle status by now) rows
              (λ a. inr (by, refl, human)) h)
      ])

abbrev pub approval_row : ℕ → Approvals → Option Approval
approval_row approval_id rows = fetchrow (by_key (λ a. a.approval_id) approval_id) rows

settle_row :
    (id j : ℕ) (status : ApprovalStatus) (by : String) (now : ℕ) (rows : Approvals) (a : Approval)
    → approval_row j rows ≡ some a
    → is_pending a.status ≡ false
    → approval_row j (update_where (open_approval id) (settle status by now) rows) ≡ some a
settle_row id j status by now rows a row closed =
    rw
      (
        fetchrow-update (λ r. r.approval_id) (open_approval id) (settle status by now) (λ r. refl) j
            rows,
        row,
      )
      (ground arith)

-- An approval that was resolved stays as it is: no later request or resolution, in whatever
-- order, changes its decision, its approver or anything else of its row.
pub resolved_once :
    (agents : List String) (calls : List Call) (rows : Approvals) (j : ℕ) (a : Approval)
    → approval_row j rows ≡ some a
    → is_pending a.status ≡ false
    → approval_row j (run agents calls rows) ≡ some a
unfolding request
resolved_once agents [] rows j a row closed = row
resolved_once agents (requests id now task agent action reason ∷ calls) rows j a row closed =
    resolved_once agents calls (insert (new_approval id now task agent action reason) rows) j a
      (rw
        (
          fetchrow-insert (by_key (λ r. r.approval_id) j)
              (new_approval id now task agent action reason) rows,
          row,
        )
        refl)
      closed
resolved_once agents (resolves id decision by now ∷ calls) rows j a row closed =
    resolved_once agents calls (resolve id decision by agents now rows).1 j a
      (elim (resolve_table id decision by agents now rows) [
        | inl same ↦ subst (λ rs. approval_row j rs ≡ some a) (sym same) row
        | inr (human, (status, changed)) ↦
            subst (λ rs. approval_row j rs ≡ some a) (sym changed)
              (settle_row id j status by now rows a row closed)
      ])
      closed
