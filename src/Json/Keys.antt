-- ===== src/Json/Keys.antt =====
-- Laws of `d[key] = value` on a dict.
use agent_os.Prelude.{String, ◌≡◌, refl, inl, inr, false, some, Bool-cases, str_eq, eq_iff}
use agent_os.Json.{Json, Fields, field, end, lookup, assign}

pub lookup-assign : (k : String) (v : Json) (fs : Fields) → lookup k (assign k v fs) ≡ some v
lookup-assign k v end = rw ((eq_iff k k).1 refl) refl
lookup-assign k v (field j w fs) = elim (Bool-cases (str_eq j k)) [
  | inl same ↦ rw (same, same) refl
  | inr other ↦ rw (other, other) (lookup-assign k v fs)
]

-- Another key keeps its value.
pub lookup-assign_ne :
    (j k : String) (v : Json) (fs : Fields)
    → str_eq k j ≡ false
    → lookup j (assign k v fs) ≡ lookup j fs
lookup-assign_ne j k v end apart = rw apart refl
lookup-assign_ne j k v (field i w fs) apart = elim (Bool-cases (str_eq i k)) [
  | inl same ↦
      let other : str_eq i j ≡ false = rw ((eq_iff i k).0 same) apart in rw (same, other) refl
  | inr different ↦ rw different (rw (lookup-assign_ne j k v fs apart) refl)
]
