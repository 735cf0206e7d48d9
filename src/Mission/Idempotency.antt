-- ===== src/Mission/Idempotency.antt =====
-- services/mission/idempotency.py: a side effect and the record of its result, by key. What the
-- effect does in the outside world is the log of the keys it was performed for.
pub mod Replay
pub mod Race
pub mod Samples
use Prim.Native.String.{◌++◌}
use agent_os.Prelude.{
  ℕ, suc, String, Bool, true, false, not, Option, none, some, List, [], ◌∷◌, str_eq, if◌then◌else◌,
}
use agent_os.Errors.{Error, Result, ok, err}
use agent_os.Exec.{Exec, pure, lift, gets, modify, require, ◌>>=◌, ◌>>◌}
use agent_os.Sql.{fetchrow, insert}
use agent_os.Json.{Json}

pub record IdempotencyRecord : Type 0 where
  pub idempotency_key : String
  pub task_id : String
  pub execution_id : ℕ
  pub side_effect_kind : String
  pub result : Json
  pub created_at : ℕ

-- The table mission_idempotency_records, and the keys whose effect was performed, latest first.
pub record World : Type 0 where
  pub records : List IdempotencyRecord
  pub performed : List String

-- `digest` is the hexadecimal SHA-256 of the payload's text, cut at 16 characters.
abbrev pub make_idempotency_key :
    (digest : Json → String) → (task_id side_effect_kind : String) → Json → String
make_idempotency_key digest task_id side_effect_kind payload =
    task_id ++ (":" ++ (side_effect_kind ++ (":" ++ digest payload)))

abbrev pub by_text : String → IdempotencyRecord → Bool
by_text key r = str_eq r.idempotency_key key

unfoldable pub check : String → Exec World (Option IdempotencyRecord)
check key = gets (λ w. fetchrow (by_text key) w.records)

abbrev pub is_none : Option IdempotencyRecord → Bool
is_none none = true
is_none (some r) = false

abbrev pub new_record :
    (key task_id side_effect_kind : String) → Json → (execution_id now : ℕ) → IdempotencyRecord
new_record key task_id side_effect_kind result execution_id now = record {
  idempotency_key = key;
  task_id = task_id;
  execution_id = execution_id;
  side_effect_kind = side_effect_kind;
  result = result;
  created_at = now;
}

-- `execution_id` is the caller's, or the uuid4 that the call draws. `record` is a word of the
-- language here.
unfoldable pub record_result :
    (key task_id side_effect_kind : String)
    → Json
    → (execution_id now : ℕ) → Exec World (String × ℕ)
record_result key task_id side_effect_kind result execution_id now = do
  existing ← check key
  require (is_none existing) Error.idempotency_violation
  modify (λ w. record w {
    records = insert (new_record key task_id side_effect_kind result execution_id now) w.records;
  })
  pure (key, execution_id)

-- await execute_fn(): the effect happens, and then it returns a result or raises.
unfoldable pub execute : String → Result Json → Exec World Json
execute key outcome = do modify (λ w. record w { performed = key ∷ w.performed }); lift outcome

unfoldable pub replay_or_run :
    (key task_id side_effect_kind : String)
    → Result Json
    → (execution_id now : ℕ) → Option IdempotencyRecord
    → Exec World (Json × Bool)
replay_or_run key task_id side_effect_kind outcome execution_id now (some existing) =
    pure (existing.result, true)
replay_or_run key task_id side_effect_kind outcome execution_id now none = do
  result ← execute key outcome
  record_result key task_id side_effect_kind result execution_id now
  pure (result, false)

-- With the key of the payload, and what execute_fn does if it is called.
unfoldable pub guarded_execute :
    (key task_id side_effect_kind : String)
    → Result Json
    → (execution_id now : ℕ) → Exec World (Json × Bool)
guarded_execute key task_id side_effect_kind outcome execution_id now = do
  existing ← check key
  replay_or_run key task_id side_effect_kind outcome execution_id now existing
