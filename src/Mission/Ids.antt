-- ===== src/Mission/Ids.antt =====
-- Identifiers of tasks as services/mission/task_graph.py compares them: the UUID column task_id comes
-- from the database driver, and the dependencies come from a JSON list of texts.
use agent_os.Prelude.{ℕ, ◌≡◌, ◌≢◌, arith, ◌+◌, ◌*◌}

-- What the driver returns for a UUID column: its text, as the fakes of the tests do, or a uuid.UUID
-- object, as asyncpg does.
pub data Driver : Type 0 where
  texts uuid_objects : Driver

-- The Python values as numbers. The text of a UUID and its object are different values, and no value
-- of one kind equals one of the other.
abbrev pub text_value : ℕ → ℕ
text_value n = 2 * n

abbrev pub object_value : ℕ → ℕ
object_value n = 2 * n + 1

abbrev pub id_value : Driver → ℕ → ℕ
id_value texts n = text_value n
id_value uuid_objects n = object_value n

pub text-object : (m n : ℕ) → text_value m ≢ object_value n
text-object m n e = omega arith

pub id_value-injective : (driver : Driver) (m n : ℕ) → id_value driver m ≡ id_value driver n → m ≡ n
id_value-injective texts m n e = omega arith
id_value-injective uuid_objects m n e = omega arith
