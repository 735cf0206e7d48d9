-- ===== src/Mission/Evidence/Sync.antt =====
-- The column `verified` beside the column `status` in services/mission/evidence.py.
use agent_os.Prelude.{
  ℕ, String, ◌≡◌, refl, sym, subst, inl, inr, Bool, true, Option, some, List, [], ◌∷◌, All,
  Bool-cases, str_eq, ◌⊎◌,
}
use agent_os.Errors.{Result, ok, err, value_error}
use agent_os.Sql.{update_where, insert, fetchrow}
use agent_os.Sql.Keyed.{fetchrow-update, fetchrow_holds}
use agent_os.Json.{Json, truthy}
use agent_os.Mission.Tables.{Evidence, Database}
use agent_os.Mission.Tables.Status.{
  EvidenceKind, verified, verification_pending, verification_failed, same_evidence,
}
use agent_os.Mission.Evidence.{
  by_evidence, set_evidence, new_claim, record_claim, verify, as_verified, mark_pending, as_pending,
  mark_failed, as_failed, reject, as_rejected, mark_expired, as_expired, parse_kind,
}

abbrev pub evidence_row : ℕ → Database → Option Evidence
evidence_row evidence_id db = fetchrow (by_evidence evidence_id) db.evidence

-- The boolean column says what the status says.
abbrev pub InStep : Evidence → Type 0
InStep e = e.verified ≡ same_evidence e.status verified

abbrev pub IsSynced : Database → Type 0
IsSynced db = All InStep db.evidence

All-update :
    (p : Evidence → Bool) (f : Evidence → Evidence) (es : List Evidence)
    → ((e : Evidence) → p e ≡ true → InStep e → InStep (f e))
    → All InStep es
    → All InStep (update_where p f es)
All-update p f [] keep h = tt
All-update p f (e ∷ es) keep h = elim (Bool-cases (p e)) [
  | inl hit ↦ rw hit (keep e hit h.0, All-update p f es keep h.1)
  | inr miss ↦ rw miss (h.0, All-update p f es keep h.1)
]

pub All-insert :
    (new : Evidence) (es : List Evidence) → InStep new → All InStep es → All InStep (insert new es)
All-insert new [] h k = (h, tt)
All-insert new (e ∷ es) h k = (k.0, All-insert new es h k.1)

-- verify refuses an empty detail or verifier name, and else writes.
pub verify_cases :
    (id : ℕ) (detail : Json) (verifier : String) (hash r2 : Option String) (now : ℕ) (db : Database)
    → (verify id detail verifier hash r2 now db ≡ (err value_error, db))
      ⊎ (verify id detail verifier hash r2 now db
          ≡ (ok verified, set_evidence id (as_verified detail verifier hash r2 now) db))
unfolding verify
verify_cases id detail verifier hash r2 now db = elim (Bool-cases (truthy detail)) [
  | inl full ↦ elim (Bool-cases (str_eq verifier "")) [
    | inl unnamed ↦ inl (rw (full, unnamed))
    | inr named ↦ inr (rw (full, named))
  ]
  | inr empty ↦ inl (rw empty)
]

-- The methods that keep the two columns in step on every database.
pub data Method : Type 0 where
  claims : (evidence_id now mission_id : ℕ) (task_id : Option ℕ) (kind claim : String) → Method
  verifies :
      (evidence_id : ℕ) (detail : Json) (verifier : String) (evidence_hash r2_key : Option String)
      (now : ℕ)
      → Method
  rejects : (evidence_id : ℕ) (reason rejected_by : String) → Method
  expires : (evidence_id : ℕ) → Method

abbrev pub leaves : Method → Database → Database
leaves (claims id now m t kind claim) db = (record_claim id now m t kind claim db).1
leaves (verifies id detail verifier hash r2 now) db = (verify id detail verifier hash r2 now db).1
leaves (rejects id reason by) db = (reject id reason by db).1
leaves (expires id) db = (mark_expired id db).1

-- record_claim, verify, reject and mark_expired keep `verified` equal to status == 'verified' in
-- every row, whether they return or raise.
pub leaves-IsSynced : (method : Method) (db : Database) → IsSynced db → IsSynced (leaves method db)
unfolding record_claim verify reject mark_expired same_evidence
leaves-IsSynced (claims id now m t kind claim) db h = parsed (parse_kind kind) refl
  where
    parsed :
        (r : Result EvidenceKind)
        → parse_kind kind ≡ r
        → IsSynced (record_claim id now m t kind claim db).1
    parsed (err x) e = rw e h
    parsed (ok k) e = rw e (All-insert (new_claim id now m t k claim) db.evidence refl h)
leaves-IsSynced (verifies id detail verifier hash r2 now) db h =
    elim (verify_cases id detail verifier hash r2 now db) [
      | inl refused ↦ subst (λ r. IsSynced r.1) (sym refused) h
      | inr done ↦
          subst (λ r. IsSynced r.1) (sym done)
            (All-update (by_evidence id) (as_verified detail verifier hash r2 now) db.evidence
              (λ e hit k. refl) h)
    ]
leaves-IsSynced (rejects id reason by) db h =
    All-update (by_evidence id) (as_rejected reason by) db.evidence (λ e hit k. refl) h
leaves-IsSynced (expires id) db h =
    All-update (by_evidence id) as_expired db.evidence (λ e hit k. refl) h

pub row_after :
    (id : ℕ) (f : Evidence → Evidence) (keeps : (e : Evidence) → (f e).evidence_id ≡ e.evidence_id)
    (db : Database) (e : Evidence)
    → evidence_row id db ≡ some e
    → evidence_row id (set_evidence id f db) ≡ some (f e)
row_after id f keeps db e row =
    let same : by_evidence id e ≡ true = fetchrow_holds (by_evidence id) db.evidence e row in
    rw (fetchrow-update (λ r. r.evidence_id) (by_evidence id) f keeps id db.evidence, row, same)

-- mark_failed and mark_pending do not reset the boolean column: of evidence that was verified they
-- leave a row whose status is verification_failed, or verification_pending, and whose `verified`
-- is still true.
pub verified_stays_set :
    (id now : ℕ) (verifier reason : String) (detail : Json) (db : Database) (e : Evidence)
    → evidence_row id db ≡ some e
    → e.verified ≡ true
    → ((e1 : Evidence) × (evidence_row id (mark_failed id verifier detail now db).1 ≡ some e1)
        × (e1.status ≡ verification_failed)
        × (e1.verified ≡ true))
      × ((e2 : Evidence) × (evidence_row id (mark_pending id reason db).1 ≡ some e2)
          × (e2.status ≡ verification_pending)
          × (e2.verified ≡ true))
unfolding mark_failed mark_pending
verified_stays_set id now verifier reason detail db e row h = (
  (
    as_failed verifier detail now e,
    row_after id (as_failed verifier detail now) (λ r. refl) db e row,
    refl,
    h,
  ),
  (as_pending reason e, row_after id (as_pending reason) (λ r. refl) db e row, refl, h),
)
