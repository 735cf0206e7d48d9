-- ===== src/Mission/Control/Interleaving.antt =====
-- Orchestrators that share the `missions` table. Each await of services/mission/control.py is a
-- point where others run: `transition` is a check and, later, the compare-and-set.
use agent_os.Prelude.{
  ℕ, String, ◌≡◌, refl, sym, subst, ◌⊎◌, inl, inr, Bool, true, false, Option, some, arith, ◌==◌,
  ◌+◌, if◌then◌else◌, Bool-cases, &&-true,
}
use agent_os.Prelude.Chains.{Chain, done, link, Chain-trans, Chain-of_eq, Chain-stuck}
use agent_os.Errors.{Result, ok, err}
use agent_os.Sql.Keyed.{fetchrow-update, fetchrow-insert, IsFresh}
use agent_os.Json.{Json}
use agent_os.Mission.Tables.{Mission, Database}
use agent_os.Mission.Tables.Status.{MissionStatus, same_mission, same_mission_iff}
use agent_os.Mission.Control.{
  parse_status, may_transition, set_status, by_mission, compare_and_set, check_transition,
  is_active, NewMission, transition_if_current, create_mission, increment_retry,
  set_final_verification, is_empty, new_mission,
}
use agent_os.Mission.Control.Transitions.{mission_row, mission_row-compare_and_set}

-- Where an orchestrator stands: outside, or between the check of a transition and its UPDATE.
pub data Pc : Type 0 where
  idle : Pc
  checked : (mission_id : ℕ) (current new : MissionStatus) → Pc

pub record System : Type 0 where
  pub db : Database
  pub pc : ℕ → Pc

abbrev pub update : (ℕ → Pc) → ℕ → Pc → ℕ → Pc
update f i p j = if i == j then p else f j

-- One statement of one orchestrator.
pub data Step (s : System) : System → Type 0 where
  check :
      (i mission_id : ℕ) (text : String) (current new : MissionStatus)
      → (check_transition mission_id text s.db).0 ≡ ok (current, new)
      → Step s (record s { pc = update s.pc i (checked mission_id current new) })
  write :
      (i : ℕ) (phase : Option String) (now mission_id : ℕ) (current new : MissionStatus)
      → s.pc i ≡ checked mission_id current new
      → Step s (record {
        db = (compare_and_set mission_id current new phase now s.db).1;
        pc = update s.pc i idle;
      })
  if_current :
      (mission_id : ℕ) (expected : MissionStatus) (text : String) (phase : Option String) (now : ℕ)
      → Step s (record s { db = (transition_if_current mission_id expected text phase now s.db).1 })
  retry : (mission_id now : ℕ) → Step s (record s { db = (increment_retry mission_id now s.db).1 })
  conclude :
      (mission_id : ℕ) (verification : Json) (now : ℕ)
      → Step s (record s { db = (set_final_verification mission_id verification now s.db).1 })
  create :
      (mission_id now : ℕ) (a : NewMission)
      → IsFresh (λ m. m.mission_id) mission_id s.db.missions
      → Step s (record s { db = (create_mission mission_id now a s.db).1 })

pub data Steps (s : System) : System → Type 0 where
  stay : Steps s s
  next : {t u : System} → Steps s t → Step t u → Steps s u

-- An orchestrator goes to its UPDATE only with a transition that the table allows.
pub record IsSound (s : System) : Type 0 where
  pub at :
      (i mission_id : ℕ) (current new : MissionStatus)
      → s.pc i ≡ checked mission_id current new
      → may_transition current new ≡ true

-- A sequence of allowed transitions.
abbrev pub Transitions : MissionStatus → MissionStatus → Type 0
Transitions = Chain may_transition

check_allows :
    (mission_id : ℕ) (text : String) (db : Database) (current new : MissionStatus)
    → (check_transition mission_id text db).0 ≡ ok (current, new)
    → may_transition current new ≡ true
unfolding check_transition
check_allows mission_id text db current new h = ground arith

Step-IsSound : {s t : System} → Step s t → IsSound s → IsSound t
Step-IsSound {s} (check i id text current new h) v = record {
  at = λ j k c n e. ground (arith, check_allows id text s.db current new h, v.at j k c n);
}
Step-IsSound (write i phase now id current new h) v = record {
  at = λ j k c n e. ground (arith, v.at j k c n);
}
Step-IsSound (if_current id expected text phase now) v = record { at = v.at }
Step-IsSound (retry id now) v = record { at = v.at }
Step-IsSound (conclude id verification now) v = record { at = v.at }
Step-IsSound (create id now a h) v = record { at = v.at }

-- The mission `j` of the table `db` is still there in `db'`, further along by allowed transitions.
abbrev pub Advanced : ℕ → Mission → Database → Type 0
Advanced j m db' = (m' : Mission) × (mission_row j db' ≡ some m') × Transitions m.status m'.status

link_if :
    (b : Bool) (m : Mission) (new : MissionStatus) (phase : Option String) (now : ℕ)
    → (b ≡ true → may_transition m.status new ≡ true)
    → Transitions m.status (if b then set_status new phase now m else m).status
link_if true m new phase now h = link done (h refl)
link_if false m new phase now h = done

Advanced-compare_and_set :
    (id : ℕ) (current new : MissionStatus) (phase : Option String) (now j : ℕ) (m : Mission)
    (db : Database)
    → may_transition current new ≡ true
    → mission_row j db ≡ some m
    → Advanced j m (compare_and_set id current new phase now db).1
Advanced-compare_and_set id current new phase now j m db allowed row = (
  _,
  mission_row-compare_and_set id current new phase now db j m row,
  link_if _ m new phase now (λ h.
      let (_, same) = &&-true (by_mission id m) (same_mission m.status current) h in
      subst (λ c. may_transition c new ≡ true) (sym ((same_mission_iff m.status current).0 same))
        allowed),
)

if_current_cases :
    (id : ℕ) (expected : MissionStatus) (text : String) (phase : Option String) (now : ℕ)
    (db : Database)
    → ((transition_if_current id expected text phase now db).1 ≡ db)
      ⊎ ((new : MissionStatus) × (may_transition expected new ≡ true)
          × ((transition_if_current id expected text phase now db).1
              ≡ (compare_and_set id expected new phase now db).1))
unfolding transition_if_current
if_current_cases id expected text phase now db = parsed (parse_status text) refl
  where
    parsed :
        (r : Result MissionStatus)
        → parse_status text ≡ r
        → ((transition_if_current id expected text phase now db).1 ≡ db)
          ⊎ ((new : MissionStatus) × (may_transition expected new ≡ true)
              × ((transition_if_current id expected text phase now db).1
                  ≡ (compare_and_set id expected new phase now db).1))
    parsed (err e) h = inl (rw h)
    parsed (ok new) h = elim (Bool-cases (may_transition expected new)) [
      | inl yes_may ↦ inr (new, yes_may, rw (h, yes_may))
      | inr no_may ↦ inl (rw (h, no_may))
    ]

same_chain :
    (b : Bool) (m m' : Mission)
    → m'.status ≡ m.status
    → Transitions m.status (if b then m' else m).status
same_chain true m m' h = Chain-of_eq may_transition m.status m'.status h
same_chain false m m' h = done

Advanced-increment_retry :
    (id now j : ℕ) (m : Mission) (db : Database)
    → mission_row j db ≡ some m
    → Advanced j m (increment_retry id now db).1
unfolding increment_retry
Advanced-increment_retry id now j m db row =
    let count = λ (r : Mission). record r { retry_count = r.retry_count + 1; updated_at = now } in
    (
      if by_mission id m then count m else m,
      rw (fetchrow-update (λ r. r.mission_id) (by_mission id) count (λ r. refl) j db.missions, row),
      same_chain (by_mission id m) m (count m) refl,
    )

Advanced-set_final_verification :
    (id : ℕ) (verification : Json) (now j : ℕ) (m : Mission) (db : Database)
    → mission_row j db ≡ some m
    → Advanced j m (set_final_verification id verification now db).1
unfolding set_final_verification
Advanced-set_final_verification id verification now j m db row =
    let conclude =
      λ (r : Mission). record r { final_verification = some verification; updated_at = now } in
    (
      if by_mission id m then conclude m else m,
      rw (
        fetchrow-update (λ r. r.mission_id) (by_mission id) conclude (λ r. refl) j db.missions,
        row,
      ),
      same_chain (by_mission id m) m (conclude m) refl,
    )

mission_row-create_mission :
    (id now : ℕ) (a : NewMission) (j : ℕ) (m : Mission) (db : Database)
    → mission_row j db ≡ some m
    → mission_row j (create_mission id now a db).1 ≡ some m
unfolding create_mission
mission_row-create_mission id now a j m db row = elim (Bool-cases (is_empty a.success_criteria)) [
  | inl empty ↦ rw empty row
  | inr full ↦ rw full (rw (fetchrow-insert (by_mission j) (new_mission id now a) db.missions, row))
]

Step-Advanced :
    {s t : System} (j : ℕ) (m : Mission)
    → Step s t
    → IsSound s
    → mission_row j s.db ≡ some m
    → Advanced j m t.db
Step-Advanced j m (check i id text current new h) v row = (m, row, done)
Step-Advanced {s} j m (write i phase now id current new h) v row =
    Advanced-compare_and_set id current new phase now j m s.db (v.at i id current new h) row
Step-Advanced {s} j m (if_current id expected text phase now) v row =
    elim (if_current_cases id expected text phase now s.db) [
      | inl same ↦ (m, rw same row, done)
      | inr (new, allowed, e) ↦
          subst (Advanced j m) (sym e)
            (Advanced-compare_and_set id expected new phase now j m s.db allowed row)
    ]
Step-Advanced {s} j m (retry id now) v row = Advanced-increment_retry id now j m s.db row
Step-Advanced {s} j m (conclude id verification now) v row =
    Advanced-set_final_verification id verification now j m s.db row
Step-Advanced {s} j m (create id now a h) v row =
    (m, mission_row-create_mission id now a j m s.db row, done)

Steps-IsSound : {s t : System} → IsSound s → Steps s t → IsSound t
Steps-IsSound v stay = v
Steps-IsSound v (next r st) = Step-IsSound st (Steps-IsSound v r)

-- However the statements of the orchestrators interleave, a mission stays in the table, and its
-- status moves only along transitions that the table allows.
pub mission_advances :
    {s t : System} (j : ℕ) (m : Mission)
    → Steps s t
    → IsSound s
    → mission_row j s.db ≡ some m
    → Advanced j m t.db
mission_advances j m stay v row = (m, row, done)
mission_advances j m (next r st) v row =
    let (m1, row1, chain1) = mission_advances j m r v row in
    let (m2, row2, chain2) = Step-Advanced j m1 st (Steps-IsSound v r) row1 in
    (m2, row2, Chain-trans may_transition chain1 chain2)

terminal_stays : (a b : MissionStatus) → is_active a ≡ false → may_transition a b ≡ true → b ≡ a
unfolding is_active may_transition
terminal_stays a b h allowed = ground arith

-- A mission that is COMPLETED, FAILED or CANCELLED keeps that status, whatever any number of
-- orchestrators does afterwards, those included that checked a transition before.
pub mission_terminal_forever :
    {s t : System} (j : ℕ) (m : Mission)
    → Steps s t
    → IsSound s
    → mission_row j s.db ≡ some m
    → is_active m.status ≡ false
    → (m' : Mission) × (mission_row j t.db ≡ some m') × (m'.status ≡ m.status)
mission_terminal_forever j m r v row h =
    let (m', row', chain) = mission_advances j m r v row in
    (m', row', Chain-stuck may_transition m.status (λ c. terminal_stays m.status c h) chain)
