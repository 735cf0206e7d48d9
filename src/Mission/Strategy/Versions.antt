-- ===== src/Mission/Strategy/Versions.antt =====
-- How the versions that services/mission/strategy.py records follow one another.
use agent_os.Prelude.{
  ℕ, String, ◌≡◌, refl, sym, subst, ap, inl, inr, ◌⊎◌, Bool, true, false, Option, none, some, List,
  [], ◌∷◌, ◌==◌, ==_iff, if◌then◌else◌, Bool-cases, ◌≤◌, ◌<◌, ◌∙◌, arith,
}
use agent_os.Errors.{Result, ok, err, strategy_not_changed}
use agent_os.Sql.{select, insert}
use agent_os.Json.{Json}
use agent_os.Mission.Tables.{Strategy, Database}
use agent_os.Mission.Strategy.{
  of_task, newer, latest, get_current_strategy, is_unchanged, next_version, id_of, new_strategy,
  record_strategy,
}

-- Each strategy has the version after its predecessor's and names it; the first has version 1.
abbrev pub Linked : Option Strategy → List Strategy → Type 0
Linked previous [] = Unit
Linked previous (s ∷ rest) =
    (s.version ≡ next_version previous)
    × (s.previous_strategy_id ≡ id_of previous)
    × Linked (some s) rest

abbrev pub IsNumbered : Database → Type 0
IsNumbered db = (task_id : ℕ) → Linked none (select (of_task task_id) db.strategies)

abbrev final_or : Option Strategy → List Strategy → Option Strategy
final_or previous [] = previous
final_or previous (s ∷ rest) = final_or (some s) rest

final_or_grows :
    (s : Strategy) (rest : List Strategy)
    → Linked (some s) rest
    → (best : Strategy) × (final_or (some s) rest ≡ some best) × (s.version ≤ best.version)
final_or_grows s [] h = (s, refl, omega arith)
final_or_grows s (r ∷ rest) h =
    let (best, e, grows) = final_or_grows r rest h.2 in (best, e, omega (arith, h.0, grows))

newer_later : (s best : Strategy) → s.version < best.version → newer s (some best) ≡ best
newer_later s best h = ground arith

latest_final :
    (previous : Option Strategy) (s : Strategy) (rest : List Strategy)
    → Linked previous (s ∷ rest)
    → latest (s ∷ rest) ≡ final_or (some s) rest
unfolding latest
latest_final previous s [] h = refl
latest_final previous s (r ∷ rest) h =
    let (best, e, grows) = final_or_grows r rest h.2.2 in
    let later : s.version < best.version = omega (arith, h.2.0, grows) in
    ap (λ o. some (newer s o)) (latest_final (some s) r rest h.2 ∙ e)
    ∙ (ap some (newer_later s best later) ∙ sym e)

latest-Linked : (ss : List Strategy) → Linked none ss → latest ss ≡ final_or none ss
unfolding latest
latest-Linked [] h = refl
latest-Linked (s ∷ rest) h = latest_final none s rest h

Linked-insert :
    (previous : Option Strategy) (ss : List Strategy) (new : Strategy)
    → Linked previous ss
    → new.version ≡ next_version (final_or previous ss)
    → new.previous_strategy_id ≡ id_of (final_or previous ss)
    → Linked previous (insert new ss)
Linked-insert previous [] new h v link = (v, link, tt)
Linked-insert previous (s ∷ rest) new h v link =
    (h.0, h.1, Linked-insert (some s) rest new h.2 v link)

select-insert :
    (p : Strategy → Bool) (ss : List Strategy) (new : Strategy)
    → select p (insert new ss) ≡ (if p new then insert new (select p ss) else select p ss)
select-insert p [] new = ground arith
select-insert p (s ∷ rest) new = ground (arith, select-insert p rest new)

-- What record_strategy does on each of its branches.
abbrev pub Recorded :
    (id now task : ℕ) (reason : String) (parameters : Json) (required : Bool) (db : Database)
    → Result (ℕ × ℕ) × Database
    → Type 0
Recorded id now task reason parameters required db (result, after) =
    let previous = latest (select (of_task task) db.strategies) in
    ((required ≡ true)
      × (is_unchanged previous parameters ≡ true)
      × (result ≡ err strategy_not_changed)
      × (after ≡ db))
    ⊎ (((required ≡ false) ⊎ (is_unchanged previous parameters ≡ false))
        × (result ≡ ok (id, next_version previous))
        × (after ≡ record db {
          strategies = insert (new_strategy id now task reason parameters previous) db.strategies;
        }))

-- record_strategy raises and writes nothing exactly if a change is required and the parameters are
-- those of the task's current strategy; else it appends the next version, with a reference to the
-- current strategy.
pub record_strategy-Recorded :
    (id now task : ℕ) (reason : String) (parameters : Json) (required : Bool) (db : Database)
    → Recorded id now task reason parameters required db
        (record_strategy id now task reason parameters required db)
unfolding record_strategy get_current_strategy
record_strategy-Recorded id now task reason parameters false db = inr (inl refl, refl, refl)
record_strategy-Recorded id now task reason parameters true db =
    elim (Bool-cases (is_unchanged (latest (select (of_task task) db.strategies)) parameters)) [
      | inl same ↦ rw same (inl (refl, refl, refl, refl))
      | inr changed ↦ rw changed (inr (inr refl, refl, refl))
    ]

insert-IsNumbered :
    (id now task : ℕ) (reason : String) (parameters : Json) (db : Database)
    → IsNumbered db
    → IsNumbered (record db {
      strategies =
          insert
            (new_strategy id now task reason parameters
              (latest (select (of_task task) db.strategies)))
            db.strategies;
    })
insert-IsNumbered id now task reason parameters db h t =
    let new =
      new_strategy id now task reason parameters (latest (select (of_task task) db.strategies)) in
    let appended : Linked none (insert new (select (of_task task) db.strategies)) =
      Linked-insert none (select (of_task task) db.strategies) new (h task)
        (ap next_version (latest-Linked (select (of_task task) db.strategies) (h task)))
        (ap id_of (latest-Linked (select (of_task task) db.strategies) (h task))) in
    rw (select-insert (of_task t) db.strategies new) (elim (Bool-cases (task == t)) [
      | inl same ↦ rw same (
          subst (λ u. Linked none (insert new (select (of_task u) db.strategies)))
            ((==_iff task t).0 same) appended)
      | inr other ↦ rw other (h t)
    ])

-- record_strategy keeps the strategies of every task numbered 1, 2, 3 … in the order of the table,
-- each with a reference to its predecessor, whether it returns or raises.
pub record_strategy-IsNumbered :
    (id now task : ℕ) (reason : String) (parameters : Json) (required : Bool) (db : Database)
    → IsNumbered db
    → IsNumbered (record_strategy id now task reason parameters required db).1
record_strategy-IsNumbered id now task reason parameters required db h =
    elim (record_strategy-Recorded id now task reason parameters required db) [
      | inl refused ↦ subst IsNumbered (sym refused.3) h
      | inr written ↦
          subst IsNumbered (sym written.2) (insert-IsNumbered id now task reason parameters db h)
    ]
