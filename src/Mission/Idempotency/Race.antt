-- ===== src/Mission/Idempotency/Race.antt =====
-- Two calls of services/mission/idempotency.py that both check before either runs.
use agent_os.Prelude.{
  ℕ, suc, String, ◌≡◌, refl, ap, ◌∙◌, Bool, true, false, none, some, ◌∷◌, str_eq, eq_iff,
}
use agent_os.Errors.{Result, ok, err, idempotency_violation}
use agent_os.Sql.{insert}
use agent_os.Sql.Keyed.{fetchrow-insert}
use agent_os.Json.{Json}
use agent_os.Mission.Idempotency.{
  IdempotencyRecord, World, by_text, check, new_record, record_result, execute, replay_or_run,
}
use agent_os.Mission.Idempotency.Replay.{recorded, times}

-- What is left of a call after its check found nothing.
abbrev pub continues :
    (key task kind : String) → Json → (id now : ℕ) → World → Result (Json × Bool) × World
continues key task kind result id now = replay_or_run key task kind (ok result) id now none

first_continues :
    (key task kind : String) (result : Json) (id now : ℕ) (w : World)
    → recorded key w ≡ none
    → continues key task kind result id now w ≡ (
      ok (result, false),
      record {
        records = insert (new_record key task kind result id now) w.records;
        performed = key ∷ w.performed;
      },
    )
unfolding replay_or_run check execute record_result
first_continues key task kind result id now w e = rw e refl

second_continues :
    (key task kind : String) (result : Json) (id now : ℕ) (w : World) (r : IdempotencyRecord)
    → recorded key w ≡ some r
    → continues key task kind result id now w
      ≡ (err idempotency_violation, record { records = w.records; performed = key ∷ w.performed })
unfolding replay_or_run check execute record_result
second_continues key task kind result id now w r e = rw e refl

-- If two calls with one key both find nothing in their check, and both effects succeed, the first
-- that continues returns and its record stays; the second raises IdempotencyViolation, but only
-- after its effect: the effect was performed twice.
pub race_runs_twice :
    (key task kind : String) (result1 result2 : Json) (id1 id2 now1 now2 : ℕ) (w : World)
    → recorded key w ≡ none
    → let (answer1, w1) = continues key task kind result1 id1 now1 w in
      let (answer2, w2) = continues key task kind result2 id2 now2 w1 in
      (answer1 ≡ ok (result1, false))
      × (answer2 ≡ err idempotency_violation)
      × (recorded key w2 ≡ some (new_record key task kind result1 id1 now1))
      × (times key w2.performed ≡ suc (suc (times key w.performed)))
race_runs_twice key task kind result1 result2 id1 id2 now1 now2 w fresh =
    let first = first_continues key task kind result1 id1 now1 w fresh in
    let same : str_eq key key ≡ true = (eq_iff key key).1 refl in
    let w1 : World = record {
      records = insert (new_record key task kind result1 id1 now1) w.records;
      performed = key ∷ w.performed;
    } in
    let kept : recorded key w1 ≡ some (new_record key task kind result1 id1 now1) =
      rw
        (
          fetchrow-insert (by_text key) (new_record key task kind result1 id1 now1) w.records,
          fresh,
          same,
        )
        refl in
    let second =
      second_continues key task kind result2 id2 now2 w1 (new_record key task kind result1 id1 now1)
        kept in
    let last = ap (λ p. continues key task kind result2 id2 now2 p.1) first ∙ second in
    (
      ap (λ p. p.0) first,
      ap (λ p. p.0) last,
      ap (λ p. recorded key p.1) last ∙ kept,
      ap (λ p. times key p.1.performed) last ∙ rw same refl,
    )
