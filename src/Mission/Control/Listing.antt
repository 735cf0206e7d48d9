-- ===== src/Mission/Control/Listing.antt =====
-- list_active of services/mission/control.py.
use agent_os.Prelude.{◌≡◌, refl, true, false, List, arith}
use agent_os.Prelude.Sorting.{sort, sort-perm, IsSorted, IsSorted-sort}
use mathlib.Core.List.{Perm}
use agent_os.Errors.{ok}
use agent_os.Sql.{select}
use agent_os.Mission.Tables.{Mission, Database}
use agent_os.Mission.Control.{comes_first, list_active, is_active}

comes_first_total : (a b : Mission) → comes_first a b ≡ false → comes_first b a ≡ true
unfolding comes_first
comes_first_total a b h = ground arith

comes_first_trans :
    (a b c : Mission) → comes_first a b ≡ true → comes_first b c ≡ true → comes_first a c ≡ true
unfolding comes_first
comes_first_trans a b c h k = ground arith

-- list_active returns exactly the missions that are not COMPLETED, FAILED or CANCELLED, each as
-- often as the table holds it, by falling priority and then by rising creation time.
pub list_active-IsSorted :
    (db : Database)
    → (result : List Mission) × (list_active db ≡ (ok result, db))
      × Perm result (select (λ m. is_active m.status) db.missions)
      × IsSorted comes_first result
unfolding list_active
list_active-IsSorted db =
    let active = select (λ (m : Mission). is_active m.status) db.missions in
    (
      sort comes_first active,
      refl,
      sort-perm comes_first active,
      IsSorted-sort comes_first comes_first_total comes_first_trans active,
    )
