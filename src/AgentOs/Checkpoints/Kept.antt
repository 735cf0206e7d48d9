-- ===== src/AgentOs/Checkpoints/Kept.antt =====
-- A checkpoint of services/hermes/agent_os30/trajectory.py loads as it was saved.
use agent_os.Prelude.{ℕ, String, ◌≡◌, ◌≢◌, Option, none, some, List, [], ◌∷◌, In}
use agent_os.Json.{Json}
use agent_os.AgentOs.Checkpoints.{Checkpoint, CheckpointStore, save_durable, load_latest_durable}

-- What a store does after a save.
pub data Use : Type 0 where
  saves : (cid now created_at mission_id : ℕ) (state : Json) (label : String) → Use
  loads_latest : (mission_id : ℕ) → Use

abbrev pub use_store : Use → CheckpointStore → CheckpointStore
use_store (saves cid now created_at mission_id state label) store =
    save_durable cid now created_at mission_id state label store
use_store (loads_latest mission_id) store = (load_latest_durable mission_id store).1

abbrev pub use_all : List Use → CheckpointStore → CheckpointStore
use_all [] store = store
use_all (u ∷ us) store = use_all us (use_store u store)

-- A later uuid4 is another one.
abbrev pub Avoids : (cid : ℕ) → Use → Type 0
Avoids cid (saves other now created_at mission_id state label) = other ≢ cid
Avoids cid (loads_latest mission_id) = Unit

abbrev pub rows : Option (List Checkpoint) → List Checkpoint
rows none = []
rows (some table) = table

abbrev in_option : Checkpoint → Option Checkpoint → Checkpoint
in_option c none = c
in_option c (some d) = d

module _ (cid mission_id : ℕ) (state : Json) (label : String) where
  abbrev Same : Checkpoint → Type 0
  Same c = (c.mission_id ≡ mission_id) × (c.label ≡ label) × (c.state ≡ state)

  abbrev Stored : Option (List Checkpoint) → Type 0
  Stored table = (row : Checkpoint) → In row (rows table) → row.checkpoint_id ≡ cid → Same row

  abbrev Kept : CheckpointStore → Type 0
  Kept store = ((c : Checkpoint) × (store.checkpoints cid ≡ some c) × Same c) × Stored store.table
