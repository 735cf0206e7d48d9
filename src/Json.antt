-- ===== src/Json.antt =====
-- JSON values as Python holds them after `json.loads`: the JSONB columns and the task payloads.
pub mod Keys
use agent_os.Prelude.{
  ℕ, suc, String, Bool, true, false, not, ◌&&◌, Option, none, some, str_eq, ◌==◌, if◌then◌else◌,
}

mutual
  pub data Json : Type 0 where
    null : Json
    bool : Bool → Json
    num : ℕ → Json
    str : String → Json
    arr : Items → Json
    obj : Fields → Json

  pub data Items : Type 0 where
    nil : Items
    cons : Json → Items → Items

  pub data Fields : Type 0 where
    end : Fields
    field : String → Json → Fields → Fields

-- d.get(key)
abbrev pub lookup : String → Fields → Option Json
lookup k end = none
lookup k (field j v fs) = if str_eq j k then some v else lookup k fs

-- len(d), for a dict, whose keys are distinct
abbrev pub count : Fields → ℕ
count end = 0
count (field k v fs) = suc (count fs)

-- d[key] = value
abbrev pub assign : String → Json → Fields → Fields
assign k v end = field k v end
assign k v (field j w fs) = if str_eq j k then field j v fs else field j w (assign k v fs)

abbrev pub to_number : Bool → ℕ
to_number true = 1
to_number false = 0

abbrev pub matches : (Json → Bool) → Option Json → Bool
matches same none = false
matches same (some v) = same v

-- Python's `==`: the order of a dict's keys does not count, and True equals 1.
unfoldable mutual
  pub json_eq : Json → Json → Bool
  json_eq null null = true
  json_eq (bool a) (bool b) = to_number a == to_number b
  json_eq (bool a) (num n) = to_number a == n
  json_eq (num m) (num n) = m == n
  json_eq (num m) (bool b) = m == to_number b
  json_eq (str s) (str t) = str_eq s t
  json_eq (arr xs) (arr ys) = items_eq xs ys
  json_eq (obj fs) (obj gs) = (count fs == count gs) && fields_in fs gs
  json_eq _ _ = false

  pub items_eq : Items → Items → Bool
  items_eq nil nil = true
  items_eq (cons x xs) (cons y ys) = json_eq x y && items_eq xs ys
  items_eq _ _ = false

  pub fields_in : Fields → Fields → Bool
  fields_in end gs = true
  fields_in (field k v fs) gs = matches (json_eq v) (lookup k gs) && fields_in fs gs

-- bool(v)
abbrev pub truthy : Json → Bool
truthy null = false
truthy (bool b) = b
truthy (num n) = not (n == 0)
truthy (str s) = not (str_eq s "")
truthy (arr nil) = false
truthy (arr (cons x xs)) = true
truthy (obj end) = false
truthy (obj (field k v fs)) = true
