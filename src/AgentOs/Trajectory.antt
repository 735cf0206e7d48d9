-- ===== src/AgentOs/Trajectory.antt =====
-- services/hermes/agent_os30/trajectory.py, and the trajectory and checkpoint tables of
-- services/hermes/agent_os30/persistence.py.
pub mod Chain
use agent_os.Prelude.{
  ℕ, String, Bool, true, false, Option, none, some, List, [], ◌∷◌, ◌++◌, map, str_eq, ◌==◌, leb,
  ltb, not, ◌&&◌, ◌||◌, if◌then◌else◌,
}
use agent_os.Prelude.Sorting.{sort}
use agent_os.Json.{Json, Fields, end}
use agent_os.Sql.{select, insert}

-- An event without its hash: what the digest is taken of.
pub record EventBody : Type 0 where
  pub id : ℕ
  pub mission_id : ℕ
  pub task_id : Option ℕ
  pub actor : String
  pub event_type : String
  pub payload : Fields
  pub timestamp : ℕ
  pub prev_hash : String

pub record TrajectoryEvent : Type 0 where
  pub body : EventBody
  pub hash : String

-- A row of agent_trajectory: the event as it was, less its timestamp, and the time of the INSERT.
pub record StoredEvent : Type 0 where
  pub event : TrajectoryEvent
  pub created_at : ℕ

-- A recorder, with its table if it has a store.
pub record Recorder : Type 0 where
  pub events : List TrajectoryEvent
  pub table : Option (List StoredEvent)

-- self.events[-1]["hash"] if self.events else first
abbrev pub last_hash : (first : String) → List TrajectoryEvent → String
last_hash first [] = first
last_hash first (e ∷ es) = last_hash e.hash es

-- payload or {}
abbrev pub payload_or_empty : Option Fields → Fields
payload_or_empty none = end
payload_or_empty (some fields) = fields

-- the arguments of `record`, with the uuid and the time that it draws
pub record Entry : Type 0 where
  pub id : ℕ
  pub now : ℕ
  pub mission_id : ℕ
  pub task_id : Option ℕ
  pub actor : String
  pub event_type : String
  pub payload : Option Fields

-- INSERT INTO agent_trajectory
abbrev pub save_trajectory :
    (created_at : ℕ) → TrajectoryEvent → List StoredEvent → List StoredEvent
save_trajectory created_at e = insert (record { event = e; created_at = created_at })

-- the dict that the SELECT makes of a row, whose timestamp is created_at
abbrev pub loaded : StoredEvent → TrajectoryEvent
loaded row = record {
  body = record row.event.body { timestamp = row.created_at };
  hash = row.event.hash;
}

-- ORDER BY created_at, event_id
abbrev pub recorded_before : StoredEvent → StoredEvent → Bool
recorded_before a b =
    ltb a.created_at b.created_at
    || ((a.created_at == b.created_at) && leb a.event.body.id b.event.body.id)

unfoldable pub load_trajectory : (mission_id : ℕ) → List StoredEvent → List TrajectoryEvent
load_trajectory mission_id table =
    map loaded
      (sort recorded_before (select (λ row. row.event.body.mission_id == mission_id) table))

-- what `restore` keeps and returns: the cached events if nothing was loaded
abbrev pub or_cached : (cached : List TrajectoryEvent) → List TrajectoryEvent → List TrajectoryEvent
or_cached cached [] = cached
or_cached cached (e ∷ es) = e ∷ es

unfoldable pub restore : (mission_id : ℕ) → Recorder → List TrajectoryEvent × Recorder
restore mission_id recorder = elim recorder.table [
  | none ↦ ([], recorder)
  | some table ↦
      let events = or_cached recorder.events (load_trajectory mission_id table) in
      (events, record recorder { events = events })
]

-- sha256 of json.dumps with sorted keys
module _ (digest : EventBody → String) where
  abbrev pub event_of : Entry → (prev : String) → TrajectoryEvent
  event_of entry prev =
      let body : EventBody = record {
        id = entry.id;
        mission_id = entry.mission_id;
        task_id = entry.task_id;
        actor = entry.actor;
        event_type = entry.event_type;
        payload = payload_or_empty entry.payload;
        timestamp = entry.now;
        prev_hash = prev;
      } in
      record { body = body; hash = digest body }

  unfoldable pub record_event : Entry → Recorder → TrajectoryEvent × Recorder
  record_event entry recorder =
      let e = event_of entry (last_hash "GENESIS" recorder.events) in
      (e, record recorder { events = recorder.events ++ e ∷ [] })

  -- `created_at` is the database's time.
  unfoldable pub record_durable : (created_at : ℕ) → Entry → Recorder → TrajectoryEvent × Recorder
  record_durable created_at entry recorder =
      let (e, after) = record_event entry recorder in
      elim after.table [
        | none ↦ (e, after)
        | some table ↦ (e, record after { table = some (save_trajectory created_at e table) })
      ]

  unfoldable pub verify_from : (prev : String) → List TrajectoryEvent → Bool
  verify_from prev [] = true
  verify_from prev (e ∷ es) =
      let rest = verify_from e.hash es in
      if not (str_eq e.body.prev_hash prev)
      then false
      else if not (str_eq (digest e.body) e.hash)
      then false
      else rest

  abbrev pub verify_chain : List TrajectoryEvent → Bool
  verify_chain events = verify_from "GENESIS" events
