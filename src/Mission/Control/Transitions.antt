-- ===== src/Mission/Control/Transitions.antt =====
-- What the transitions of services/mission/control.py do on each of their branches, for a table
-- with a primary key.
use agent_os.Prelude.{
  ℕ, String, ◌≡◌, ◌≢◌, refl, sym, subst, Bool, true, false, ◌&&◌, Option, none, some, arith,
  if◌then◌else◌,
}
use agent_os.Errors.{Error, Result, ok, err, invalid_transition, lookup_error}
use agent_os.Sql.{fetchrow}
use agent_os.Sql.Keyed.{
  fetchrow-and, fetchrow-update, fetchrow-update_ne, fetchrow_key, IsKeyed, IsKeyed-update,
}
use agent_os.Mission.Tables.{Mission, Database}
use agent_os.Mission.Tables.Status.{
  MissionStatus, same_mission, same_mission_iff, same_mission_refl,
}
use agent_os.Mission.Control.{
  parse_status, may_transition, set_status, by_mission, get_mission, compare_and_set,
  check_transition, transition,
}

-- The row of a mission, and the primary key of the table.
abbrev pub mission_row : ℕ → Database → Option Mission
mission_row mission_id db = fetchrow (by_mission mission_id) db.missions

abbrev pub HasKeys : Database → Type 0
HasKeys db = IsKeyed (λ m. m.mission_id) db.missions

module _ (mission_id : ℕ) (expected new : MissionStatus) (phase : Option String) (now : ℕ)
    (db : Database) where
  abbrev after : Database
  after = (compare_and_set mission_id expected new phase now db).1

  pub mission_row-compare_and_set :
      (j : ℕ) (m : Mission)
      → mission_row j db ≡ some m
      → mission_row j after
        ≡ some (
            if by_mission mission_id m && same_mission m.status expected
            then set_status new phase now m
            else m)
  unfolding compare_and_set
  mission_row-compare_and_set j m h = rw (
    fetchrow-update (λ m. m.mission_id) _ (set_status new phase now) (λ r. refl) j db.missions,
    h,
  )

  pub mission_row-compare_and_set_ne :
      (j : ℕ) → j ≢ mission_id → mission_row j after ≡ mission_row j db
  unfolding compare_and_set
  mission_row-compare_and_set_ne j h =
      fetchrow-update_ne (λ m. m.mission_id) _ (set_status new phase now) (λ r. refl) mission_id j
        (λ r hit. ground arith) db.missions h

  pub mission_row-compare_and_set_self :
      (m : Mission)
      → mission_row mission_id db ≡ some m
      → m.status ≡ expected
      → mission_row mission_id after ≡ some (set_status new phase now m)
  mission_row-compare_and_set_self m h e = ground (
    arith,
    mission_row-compare_and_set mission_id m h,
    fetchrow_key (λ m. m.mission_id) mission_id db.missions m h,
    (same_mission_iff m.status expected).1 e,
  )

  pub HasKeys-compare_and_set : HasKeys db → HasKeys after
  unfolding compare_and_set
  HasKeys-compare_and_set h =
      IsKeyed-update (λ m. m.mission_id) _ (set_status new phase now) (λ r. refl) db.missions h

  pub compare_and_set_hits :
      (m : Mission)
      → HasKeys db
      → mission_row mission_id db ≡ some m
      → (compare_and_set mission_id expected new phase now db).0
        ≡ ok (same_mission m.status expected)
  unfolding compare_and_set
  compare_and_set_hits m keys h =
      rw
        (
          fetchrow-and (λ m. m.mission_id) mission_id (λ m. same_mission m.status expected)
              db.missions keys,
          h,
        )
        (ground arith)

module _ (mission_id : ℕ) (text : String) (phase : Option String) (now : ℕ) (db : Database) where
  transition_allowed :
      (m : Mission) (new : MissionStatus)
      → HasKeys db
      → mission_row mission_id db ≡ some m
      → parse_status text ≡ ok new
      → may_transition m.status new ≡ true
      → transition mission_id text phase now db
        ≡ (ok new, (compare_and_set mission_id m.status new phase now db).1)
  unfolding transition check_transition get_mission
  transition_allowed m new keys row parsed allowed =
      rw (parsed, row, allowed)
        (ground (
          arith,
          compare_and_set_hits mission_id m.status new phase now db m keys row,
          same_mission_refl m.status,
        ))

  transition_refused :
      (m : Mission) (new : MissionStatus)
      → mission_row mission_id db ≡ some m
      → parse_status text ≡ ok new
      → may_transition m.status new ≡ false
      → transition mission_id text phase now db ≡ (err invalid_transition, db)
  unfolding transition check_transition get_mission
  transition_refused m new row parsed refused = rw (parsed, row, refused)

  transition_missing :
      (new : MissionStatus)
      → mission_row mission_id db ≡ none
      → parse_status text ≡ ok new
      → transition mission_id text phase now db ≡ (err lookup_error, db)
  unfolding transition check_transition get_mission
  transition_missing new row parsed = rw (parsed, row)

  transition_unknown :
      (e : Error)
      → parse_status text ≡ err e
      → transition mission_id text phase now db ≡ (err e, db)
  unfolding transition check_transition
  transition_unknown e parsed = rw parsed

  -- The four branches, told apart by the text, the row and the transition table.
  data Outcome : Result MissionStatus × Database → Type 0 where
    unknown : {e : Error} → parse_status text ≡ err e → Outcome (err e, db)
    missing : mission_row mission_id db ≡ none → Outcome (err lookup_error, db)
    refused :
        {m : Mission} (new : MissionStatus)
        → mission_row mission_id db ≡ some m
        → parse_status text ≡ ok new
        → may_transition m.status new ≡ false
        → Outcome (err invalid_transition, db)
    moved :
        {m : Mission} {new : MissionStatus}
        → mission_row mission_id db ≡ some m
        → parse_status text ≡ ok new
        → may_transition m.status new ≡ true
        → Outcome (ok new, (compare_and_set mission_id m.status new phase now db).1)

  abbrev pub run : Result MissionStatus × Database
  run = transition mission_id text phase now db

  transition-Outcome : HasKeys db → Outcome run
  transition-Outcome keys = parsed (parse_status text) refl
    where
      judged :
          (m : Mission) (new : MissionStatus)
          → mission_row mission_id db ≡ some m
          → parse_status text ≡ ok new
          → (b : Bool) → may_transition m.status new ≡ b
          → Outcome run
      judged m new row p true h =
          subst Outcome (sym (transition_allowed m new keys row p h)) (moved row p h)
      judged m new row p false h =
          subst Outcome (sym (transition_refused m new row p h)) (refused new row p h)

      found :
          (new : MissionStatus)
          → parse_status text ≡ ok new
          → (o : Option Mission) → mission_row mission_id db ≡ o
          → Outcome run
      found new p none h = subst Outcome (sym (transition_missing new h p)) (missing h)
      found new p (some m) h = judged m new h p (may_transition m.status new) refl

      parsed : (r : Result MissionStatus) → parse_status text ≡ r → Outcome run
      parsed (err e) h = subst Outcome (sym (transition_unknown e h)) (unknown h)
      parsed (ok new) h = found new h (mission_row mission_id db) refl

  -- An Outcome read at a computed pair.
  Outcome-error :
      {r : Result MissionStatus × Database} {e : Error} → Outcome r → r.0 ≡ err e → r.1 ≡ db
  Outcome-error (unknown p) h = refl
  Outcome-error (missing p) h = refl
  Outcome-error (refused n p q a) h = refl
  Outcome-error (moved p q a) h = cc

  abbrev pub Moved : MissionStatus → Database → Type 0
  Moved new db' =
      (m : Mission) × (mission_row mission_id db ≡ some m)
      × (parse_status text ≡ ok new)
      × (may_transition m.status new ≡ true)
      × (mission_row mission_id db' ≡ some (set_status new phase now m))
      × ((j : ℕ) → j ≢ mission_id → mission_row j db' ≡ mission_row j db)

  moved_lem :
      (m : Mission) (new : MissionStatus)
      → mission_row mission_id db ≡ some m
      → parse_status text ≡ ok new
      → may_transition m.status new ≡ true
      → Moved new (compare_and_set mission_id m.status new phase now db).1
  moved_lem m new row p a = (
    m,
    row,
    p,
    a,
    mission_row-compare_and_set_self mission_id m.status new phase now db m row refl,
    mission_row-compare_and_set_ne mission_id m.status new phase now db,
  )

  Outcome-ok :
      {r : Result MissionStatus × Database} {new : MissionStatus}
      → Outcome r
      → r.0 ≡ ok new
      → Moved new r.1
  Outcome-ok (unknown p) h = cc
  Outcome-ok (missing p) h = cc
  Outcome-ok (refused n row p a) h = cc
  Outcome-ok {new = new'} (moved {m} {new} row p a) h =
      let e : new ≡ new' = cc in
      subst (λ n. Moved n (compare_and_set mission_id m.status new phase now db).1) e
        (moved_lem m new row p a)

  -- A transition that raises has written nothing.
  pub transition_error_keeps : (e : Error) → HasKeys db → run.0 ≡ err e → run.1 ≡ db
  transition_error_keeps e keys h = Outcome-error (transition-Outcome keys) h

  -- A transition that returns found the mission in a status from which the table allows the new
  -- one, wrote the new status to that row, and left every other mission as it was.
  pub transition-Moved : (new : MissionStatus) → HasKeys db → run.0 ≡ ok new → Moved new run.1
  transition-Moved new keys h = Outcome-ok (transition-Outcome keys) h
