-- ===== src/AgentOs/Harness.antt =====
-- services/hermes/agent_os30/harness.py: supplemental prompt items that refinements change.
pub mod Rollback
use agent_os.Prelude.{
  ℕ, zero, suc, String, Bool, true, false, not, Option, none, some, List, [], ◌∷◌, ◌++◌, length,
  any, str_eq, ◌==◌, ◌&&◌, ◌||◌, if◌then◌else◌, ◌+◌,
}
use agent_os.Errors.{Error, Result, ok, err}
use agent_os.Exec.{Exec, pure, lift, gets, modify, require, ◌>>=◌, ◌>>◌}
use agent_os.Redis.{put}
use agent_os.Sql.{select, insert, fetchrow, update_where}
use agent_os.Sql.Keyed.{by_key}

pub record SupplementalItem : Type 0 where
  pub item_id : ℕ
  pub kind : String
  pub key : String
  pub value : String
  pub version : ℕ
  pub enabled : Bool
  pub updated_at : ℕ

pub record HistoryEntry : Type 0 where
  pub action : String
  pub item : SupplementalItem
  pub evidence_ids : List ℕ

pub record Snapshot : Type 0 where
  pub base_digest : String
  pub items : List SupplementalItem
  pub history : List HistoryEntry
  pub history_len : ℕ

-- The digest of the frozen base prompt, the dict of items in its order, the dict of snapshots and
-- the history.
pub record ContinualHarness : Type 0 where
  pub base_digest : String
  pub items : List SupplementalItem
  pub snapshots : ℕ → Option Snapshot
  pub history : List HistoryEntry

abbrev pub allowed_kinds : List String
allowed_kinds = "prompt_note" ∷ "memory" ∷ "skill" ∷ "subagent_spec" ∷ []

abbrev pub actions : List String
actions = "upsert" ∷ "delete" ∷ []

abbrev pub is_one_of : List String → String → Bool
is_one_of names s = any (λ name. str_eq name s) names

abbrev pub is_empty : List ℕ → Bool
is_empty [] = true
is_empty (x ∷ xs) = false

abbrev pub by_item : ℕ → SupplementalItem → Bool
by_item = by_key (λ i. i.item_id)

-- The arguments of `refine`, with the uuid and the time that it draws.
pub record Refinement : Type 0 where
  pub kind : String
  pub key : String
  pub value : String
  pub evidence_ids : List ℕ
  pub evidence_verified : Bool
  pub action : String
  pub item_id : Option ℕ
  pub new_id : ℕ
  pub now : ℕ

-- item_id or the new uuid
abbrev pub id_or : Option ℕ → ℕ → ℕ
id_or none new_id = new_id
id_or (some item_id) new_id = item_id

abbrev pub find_item : Option ℕ → List SupplementalItem → Option SupplementalItem
find_item none items = none
find_item (some item_id) items = fetchrow (by_item item_id) items

abbrev pub item_or_key_error : Option SupplementalItem → Result SupplementalItem
item_or_key_error none = err Error.key_error
item_or_key_error (some i) = ok i

abbrev pub entry : String → SupplementalItem → List ℕ → HistoryEntry
entry action item evidence_ids = record {
  action = action;
  item = item;
  evidence_ids = evidence_ids;
}

abbrev pub note : HistoryEntry → ContinualHarness → ContinualHarness
note e h = record h { history = h.history ++ e ∷ [] }

abbrev pub delete_item : Refinement → Exec ContinualHarness SupplementalItem
delete_item r = do
  old ← (gets (λ h. find_item r.item_id h.items) >>= λ found. lift (item_or_key_error found))
  modify (λ h. record h { items = select (λ i. not (by_item old.item_id i)) h.items })
  modify (note (entry "delete" old r.evidence_ids))
  pure old

abbrev pub new_item : Refinement → SupplementalItem
new_item r = record {
  item_id = id_or r.item_id r.new_id;
  kind = r.kind;
  key = r.key;
  value = r.value;
  version = 1;
  enabled = true;
  updated_at = r.now;
}

abbrev pub revised_item : Refinement → SupplementalItem → SupplementalItem
revised_item r i = record i { version = i.version + 1; value = r.value; updated_at = r.now }

-- The item of an upsert: the one that is there, revised, or a new one.
abbrev pub upserted : Refinement → Option SupplementalItem → SupplementalItem
upserted r none = new_item r
upserted r (some old) = revised_item r old

abbrev pub put_item :
    SupplementalItem → Option SupplementalItem → List SupplementalItem → List SupplementalItem
put_item item none items = insert item items
put_item item (some old) items = update_where (by_item old.item_id) (λ i. item) items

abbrev pub upsert_item : Refinement → Exec ContinualHarness SupplementalItem
upsert_item r = do
  found ← gets (λ h. find_item r.item_id h.items)
  let item : SupplementalItem = upserted r found
  modify (λ h. record h { items = put_item item found h.items })
  modify (note (entry "upsert" item r.evidence_ids))
  pure item

unfoldable pub refine : Refinement → Exec ContinualHarness SupplementalItem
refine r = do
  require (is_one_of allowed_kinds r.kind) Error.refinement_rejected
  require (not (is_empty r.evidence_ids) && r.evidence_verified) Error.refinement_rejected
  require (is_one_of actions r.action) Error.refinement_rejected
  if str_eq r.action "delete" then delete_item r else upsert_item r

-- `sid` is the uuid4 that the call draws.
unfoldable pub snapshot : (sid : ℕ) → ContinualHarness → ContinualHarness
snapshot sid h = record h {
  snapshots =
      put sid
        (some (record {
          base_digest = h.base_digest;
          items = h.items;
          history = h.history;
          history_len = length h.history;
        }))
        h.snapshots;
}

abbrev pub snapshot_or_key_error : Option Snapshot → Result Snapshot
snapshot_or_key_error none = err Error.key_error
snapshot_or_key_error (some s) = ok s

-- xs[:n]
unfoldable pub take_entries : ℕ → List HistoryEntry → List HistoryEntry
take_entries zero es = []
take_entries (suc n) [] = []
take_entries (suc n) (e ∷ es) = e ∷ take_entries n es

abbrev pub restore_snapshot_state : Snapshot → ContinualHarness → ContinualHarness
restore_snapshot_state s h = record h { items = s.items; history = s.history }

unfoldable pub rollback : (sid : ℕ) → Exec ContinualHarness (Unit {0})
rollback sid = do
  s ← (gets (λ h. h.snapshots sid) >>= λ found. lift (snapshot_or_key_error found))
  same ← gets (λ h. str_eq s.base_digest h.base_digest)
  require same Error.refinement_rejected
  modify (restore_snapshot_state s)
  modify (λ h. record h { history = take_entries s.history_len h.history })

-- Rows with one id leave the last of them.
abbrev pub put_row : SupplementalItem → List SupplementalItem → List SupplementalItem
put_row row items = put_item row (fetchrow (by_item row.item_id) items) items

unfoldable pub load_rows : List SupplementalItem → List SupplementalItem → List SupplementalItem
load_rows [] items = items
load_rows (row ∷ rows) items = load_rows rows (put_row row items)

unfoldable pub load_items : List SupplementalItem → ContinualHarness → ContinualHarness
load_items rows h = record h { items = load_rows rows [] }
