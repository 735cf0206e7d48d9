-- ===== src/Sql.antt =====
-- PostgreSQL tables: SELECT, UPDATE … WHERE … RETURNING and INSERT over rows in insertion order.
pub mod Keyed
pub mod Select
use agent_os.Prelude.{Bool, Option, none, some, List, [], ◌∷◌, ◌++◌, if◌then◌else◌}

module _ {Row : Type 0} where
  -- SELECT * FROM … WHERE p
  abbrev pub select : (Row → Bool) → List Row → List Row
  select p [] = []
  select p (r ∷ rs) = let rest = select p rs in if p r then r ∷ rest else rest

  -- the row that `fetchrow` returns: the first one that the statement yields
  abbrev pub fetchrow : (Row → Bool) → List Row → Option Row
  fetchrow p [] = none
  fetchrow p (r ∷ rs) = if p r then some r else fetchrow p rs

  -- UPDATE … SET f WHERE p
  abbrev pub update_where : (Row → Bool) → (Row → Row) → List Row → List Row
  update_where p f [] = []
  update_where p f (r ∷ rs) = (if p r then f r else r) ∷ update_where p f rs

  -- INSERT INTO …
  abbrev pub insert : Row → List Row → List Row
  insert r rs = rs ++ r ∷ []
