-- ===== src/AgentOs/Checkpoints.antt =====
-- CheckpointStore of services/hermes/agent_os30/trajectory.py, with its table from
-- services/hermes/agent_os30/persistence.py.
pub mod Kept
use agent_os.Prelude.{
  ℕ, String, Bool, true, false, Option, none, some, List, [], ◌∷◌, ◌==◌, leb, if◌then◌else◌,
}
use agent_os.Prelude.Sorting.{sort}
use agent_os.Errors.{Error, Result, ok, err}
use agent_os.Json.{Json}
use agent_os.Redis.{put}
use agent_os.Sql.{select, insert, fetchrow}
use agent_os.Sql.Keyed.{by_key}

pub record Checkpoint : Type 0 where
  pub checkpoint_id : ℕ
  pub mission_id : ℕ
  pub label : String
  pub state : Json
  pub created_at : ℕ

-- The dict self.checkpoints, and the table agent_checkpoints if there is a store.
pub record CheckpointStore : Type 0 where
  pub checkpoints : ℕ → Option Checkpoint
  pub table : Option (List Checkpoint)

abbrev pub by_checkpoint : ℕ → Checkpoint → Bool
by_checkpoint = by_key (λ c. c.checkpoint_id)

-- self.checkpoints[cid] = c
abbrev pub cache : (cid : ℕ) → Checkpoint → CheckpointStore → CheckpointStore
cache cid c store = record store { checkpoints = put cid (some c) store.checkpoints }

-- `cid` is the uuid4 that the call draws.
unfoldable pub save :
    (cid now mission_id : ℕ) → (state : Json) → (label : String) → CheckpointStore → CheckpointStore
save cid now mission_id state label store =
    cache cid
      (record {
        checkpoint_id = cid;
        mission_id = mission_id;
        label = label;
        state = state;
        created_at = now;
      })
      store

-- INSERT INTO agent_checkpoints … ON CONFLICT (checkpoint_id) DO NOTHING, at the database's time
abbrev pub insert_new :
    (conflict : Option Checkpoint) → Checkpoint → List Checkpoint → List Checkpoint
insert_new none row table = insert row table
insert_new (some other) row table = table

abbrev pub save_checkpoint : (created_at : ℕ) → Checkpoint → List Checkpoint → List Checkpoint
save_checkpoint created_at c table =
    insert_new (fetchrow (by_checkpoint c.checkpoint_id) table)
      (record c { created_at = created_at }) table

abbrev pub save_in :
    (created_at : ℕ) → Option Checkpoint → Option (List Checkpoint) → Option (List Checkpoint)
save_in created_at none table = table
save_in created_at (some c) none = none
save_in created_at (some c) (some table) = some (save_checkpoint created_at c table)

unfoldable pub save_durable :
    (cid now created_at mission_id : ℕ)
    → (state : Json) → (label : String) → CheckpointStore
    → CheckpointStore
save_durable cid now created_at mission_id state label store =
    let saved = save cid now mission_id state label store in
    record saved { table = save_in created_at (saved.checkpoints cid) saved.table }

abbrev pub or_key_error : Option Checkpoint → Result Checkpoint
or_key_error none = err Error.key_error
or_key_error (some c) = ok c

unfoldable pub load : (cid : ℕ) → CheckpointStore → Result Checkpoint
load cid store = or_key_error (store.checkpoints cid)

-- ORDER BY created_at DESC
abbrev pub is_later : Checkpoint → Checkpoint → Bool
is_later a b = leb b.created_at a.created_at

abbrev pub head : List Checkpoint → Option Checkpoint
head [] = none
head (c ∷ cs) = some c

unfoldable pub latest_checkpoint : (mission_id : ℕ) → List Checkpoint → Option Checkpoint
latest_checkpoint mission_id table =
    head (sort is_later (select (λ c. c.mission_id == mission_id) table))

abbrev pub cache_row : Option Checkpoint → CheckpointStore → Option Checkpoint × CheckpointStore
cache_row none store = (none, store)
cache_row (some row) store = (some row, cache row.checkpoint_id row store)

abbrev pub latest_in : (mission_id : ℕ) → Option (List Checkpoint) → Option Checkpoint
latest_in mission_id none = none
latest_in mission_id (some table) = latest_checkpoint mission_id table

unfoldable pub load_latest_durable :
    (mission_id : ℕ) → CheckpointStore → Option Checkpoint × CheckpointStore
load_latest_durable mission_id store = cache_row (latest_in mission_id store.table) store
