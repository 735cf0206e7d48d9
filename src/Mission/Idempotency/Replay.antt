-- ===== src/Mission/Idempotency/Replay.antt =====
-- Calls of services/mission/idempotency.py one after another.
use agent_os.Prelude.{
  ℕ, suc, String, ◌≡◌, refl, sym, subst, ap, ◌∙◌, inl, inr, true, false, Option, none, some, List,
  [], ◌∷◌, str_eq, eq_iff, if◌then◌else◌, Bool-cases, Option-cases,
}
use agent_os.Errors.{Error, Result, ok, err}
use agent_os.Sql.{fetchrow, insert}
use agent_os.Sql.Keyed.{fetchrow-insert}
use agent_os.Json.{Json}
use agent_os.Mission.Idempotency.{
  IdempotencyRecord, World, by_text, check, new_record, record_result, execute, replay_or_run,
  guarded_execute,
}

abbrev pub recorded : String → World → Option IdempotencyRecord
recorded key w = fetchrow (by_text key) w.records

-- How often the effect of a key was performed.
abbrev pub times : String → List String → ℕ
times key [] = 0
times key (k ∷ ks) = let rest = times key ks in if str_eq k key then suc rest else rest

pub record Call : Type 0 where
  pub key : String
  pub task_id : String
  pub kind : String
  pub outcome : Result Json
  pub execution_id : ℕ
  pub now : ℕ

abbrev pub after_call : Call → World → World
after_call c w = (guarded_execute c.key c.task_id c.kind c.outcome c.execution_id c.now w).1

abbrev pub after_calls : List Call → World → World
after_calls [] w = w
after_calls (c ∷ cs) w = after_calls cs (after_call c w)

-- The key has this record, and its effect was performed so many times.
abbrev Kept : String → IdempotencyRecord → ℕ → World → Type 0
Kept key r n w = (recorded key w ≡ some r) × (times key w.performed ≡ n)

str_eq_refl : (s : String) → str_eq s s ≡ true
str_eq_refl s = (eq_iff s s).1 refl

other_key :
    (key k : String) (w : World) (r : IdempotencyRecord)
    → recorded key w ≡ some r
    → recorded k w ≡ none
    → str_eq k key ≡ false
other_key key k w r h missing = elim (Bool-cases (str_eq k key)) [
  | inl same ↦
      let e : k ≡ key = (eq_iff k key).0 same in
      let found : recorded k w ≡ some r = subst (λ s. recorded s w ≡ some r) (sym e) h in cc
  | inr other ↦ other
]

replayed_world :
    (c : Call) (w : World) (x : IdempotencyRecord)
    → recorded c.key w ≡ some x
    → guarded_execute c.key c.task_id c.kind c.outcome c.execution_id c.now w
      ≡ (ok (x.result, true), w)
unfolding guarded_execute replay_or_run check
replayed_world c w x e = rw e refl

first_world :
    (key task kind : String) (result : Json) (id now : ℕ) (w : World)
    → recorded key w ≡ none
    → guarded_execute key task kind (ok result) id now w ≡ (
      ok (result, false),
      record {
        records = insert (new_record key task kind result id now) w.records;
        performed = key ∷ w.performed;
      },
    )
unfolding guarded_execute replay_or_run check execute record_result
first_world key task kind result id now w e = rw (e, e) refl

failed_world :
    (key task kind : String) (x : Error) (id now : ℕ) (w : World)
    → recorded key w ≡ none
    → guarded_execute key task kind (err x) id now w
      ≡ (err x, record { records = w.records; performed = key ∷ w.performed })
unfolding guarded_execute replay_or_run check execute
failed_world key task kind x id now w e = rw e refl

call-Kept :
    (key : String) (r : IdempotencyRecord) (n : ℕ) (c : Call) (w : World)
    → Kept key r n w
    → Kept key r n (after_call c w)
call-Kept key r n c w h = elim (Option-cases (recorded c.key w)) [
  | inl missing ↦ ran c.outcome refl missing (other_key key c.key w r h.0 missing)
  | inr (x, found) ↦ subst (λ p. Kept key r n p.1) (sym (replayed_world c w x found)) h
]
  where
    ran :
        (o : Result Json)
        → c.outcome ≡ o
        → recorded c.key w ≡ none
        → str_eq c.key key ≡ false
        → Kept key r n (after_call c w)
    ran (ok result) e missing other =
        let same =
          ap (λ o. (guarded_execute c.key c.task_id c.kind o c.execution_id c.now w).1) e
          ∙ ap (λ p. p.1)
              (first_world c.key c.task_id c.kind result c.execution_id c.now w missing) in
        subst (Kept key r n) (sym same) (
          rw
              (
                fetchrow-insert (by_text key)
                    (new_record c.key c.task_id c.kind result c.execution_id c.now) w.records,
                h.0,
              )
              refl,
          rw other h.1,
        )
    ran (err x) e missing other =
        let same =
          ap (λ o. (guarded_execute c.key c.task_id c.kind o c.execution_id c.now w).1) e
          ∙ ap (λ p. p.1) (failed_world c.key c.task_id c.kind x c.execution_id c.now w missing) in
        subst (Kept key r n) (sym same) (h.0, rw other h.1)

calls-Kept :
    (key : String) (r : IdempotencyRecord) (n : ℕ) (cs : List Call) (w : World)
    → Kept key r n w
    → Kept key r n (after_calls cs w)
calls-Kept key r n [] w h = h
calls-Kept key r n (c ∷ cs) w h = calls-Kept key r n cs (after_call c w) (call-Kept key r n c w h)

-- If no result is recorded for a key, and the effect succeeds, then after any further calls one
-- after another, with any keys and ends, a call with that key returns the first result as replayed,
-- and the effect was performed for the key exactly once more than before.
pub effect_happens_once :
    (key task kind : String) (result : Json) (id now : ℕ) (w : World) (between : List Call)
    (again : Call)
    → recorded key w ≡ none
    → again.key ≡ key
    → let (answer, last) =
        guarded_execute again.key again.task_id again.kind again.outcome again.execution_id
          again.now
          (after_calls between (guarded_execute key task kind (ok result) id now w).1) in
      (answer ≡ ok (result, true)) × (times key last.performed ≡ suc (times key w.performed))
effect_happens_once key task kind result id now w between again fresh same =
    let first = new_record key task kind result id now in
    let begun : Kept key first (suc (times key w.performed))
        (guarded_execute key task kind (ok result) id now w).1 =
      subst (λ p. Kept key first (suc (times key w.performed)) p.1)
        (sym (first_world key task kind result id now w fresh))
        (
          rw (fetchrow-insert (by_text key) first w.records, fresh, str_eq_refl key) refl,
          rw (str_eq_refl key) refl,
        ) in
    let kept = calls-Kept key first (suc (times key w.performed)) between _ begun in
    let end = after_calls between (guarded_execute key task kind (ok result) id now w).1 in
    let found : recorded again.key end ≡ some first =
      subst (λ k. recorded k end ≡ some first) (sym same) kept.0 in
    let replay = replayed_world again end first found in
    (ap (λ p. p.0) replay, ap (λ p. times key p.1.performed) replay ∙ kept.1)
