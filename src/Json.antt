-- ===== src/Json.antt =====
-- JSON values as `serde_json::Value` gives them to the program, and the accessors that it uses. A
-- number is a natural, a negative integer (`neg n` is -(n + 1)) or a float, kept by its spelling. An
-- object has each key once.
use heterion_router.Prelude.{
  ℕ, Bool, Option, none, some, List, [], ◌∷◌, Text, text_eq, text_eq_iff, if◌then◌else◌, ◌≡◌, refl,
  arith,
}

pub data Number : Type 0 where
  nat neg : ℕ → Number
  float : Text → Number

mutual
  pub data Value : Type 0 where
    null : Value
    bool : Bool → Value
    number : Number → Value
    string : Text → Value
    array : Items → Value
    object : Fields → Value

  pub data Items : Type 0 where
    nil : Items
    cons : Value → Items → Items

  pub data Fields : Type 0 where
    end : Fields
    field : Text → Value → Fields → Fields

unfoldable pub items : Items → List Value
items nil = []
items (cons v vs) = v ∷ items vs

unfoldable pub get_field : Text → Fields → Option Value
get_field k end = none
get_field k (field j v fs) = if text_eq j k then some v else get_field k fs

-- `Map::remove`.
unfoldable pub remove_field : Text → Fields → Fields
remove_field k end = end
remove_field k (field j v fs) =
    let rest = remove_field k fs in if text_eq j k then rest else field j v rest

-- `Map::insert`.
unfoldable pub insert_field : Text → Value → Fields → Fields
insert_field k v end = field k v end
insert_field k v (field j w fs) =
    let rest = insert_field k v fs in if text_eq j k then field j v fs else field j w rest

-- The fields of an object that `json!` writes out.
unfoldable pub fields : List (Text × Value) → Fields
fields [] = end
fields ((k, v) ∷ kvs) = field k v (fields kvs)

-- `Value::get` with a key.
abbrev pub get : Text → Value → Option Value
get k (object fs) = get_field k fs
get k null = none
get k (bool b) = none
get k (number n) = none
get k (string s) = none
get k (array vs) = none

abbrev pub as_str : Value → Option Text
as_str (string s) = some s
as_str null = none
as_str (bool b) = none
as_str (number n) = none
as_str (array vs) = none
as_str (object fs) = none

abbrev pub as_array : Value → Option (List Value)
as_array (array vs) = some (items vs)
as_array null = none
as_array (bool b) = none
as_array (number n) = none
as_array (string s) = none
as_array (object fs) = none

abbrev pub as_bool : Value → Option Bool
as_bool (bool b) = some b
as_bool null = none
as_bool (number n) = none
as_bool (string s) = none
as_bool (array vs) = none
as_bool (object fs) = none

abbrev pub as_object : Value → Option Fields
as_object (object fs) = some fs
as_object null = none
as_object (bool b) = none
as_object (number n) = none
as_object (string s) = none
as_object (array vs) = none

-- `Value::as_u64`: a natural below 2^64, which is every natural that the parser keeps as one.
abbrev pub as_u64 : Value → Option ℕ
as_u64 (number (Number.nat n)) = some n
as_u64 (number (Number.neg n)) = none
as_u64 (number (Number.float s)) = none
as_u64 null = none
as_u64 (bool b) = none
as_u64 (string s) = none
as_u64 (array vs) = none
as_u64 (object fs) = none

-- `opt.and_then(f)`, `opt.unwrap_or(d)`.
abbrev pub and_then {ℓ κ} : {A : Type ℓ} {B : Type κ} → Option A → (A → Option B) → Option B
and_then none f = none
and_then (some a) f = f a

abbrev pub unwrap_or {ℓ} : {A : Type ℓ} → Option A → A → A
unwrap_or none d = d
unwrap_or (some a) d = a

pub lookup-remove_self : (k : Text) (fs : Fields) → get_field k (remove_field k fs) ≡ none
unfolding get_field remove_field
lookup-remove_self k end = refl
lookup-remove_self k (field j v fs) = ground (arith, lookup-remove_self k fs)

pub lookup-remove :
    (k j : Text) (fs : Fields)
    → get_field j (remove_field k fs) ≡ (if text_eq k j then none else get_field j fs)
unfolding get_field remove_field
lookup-remove k j end = ground arith
lookup-remove k j (field i v fs) =
    ground (arith, lookup-remove k j fs, text_eq_iff k j, text_eq_iff i k, text_eq_iff i j)

pub lookup-insert_field :
    (k j : Text) (v : Value) (fs : Fields)
    → get_field j (insert_field k v fs) ≡ (if text_eq k j then some v else get_field j fs)
unfolding get_field insert_field
lookup-insert_field k j v end = refl
lookup-insert_field k j v (field i w fs) =
    ground (arith, lookup-insert_field k j v fs, text_eq_iff k j, text_eq_iff i k, text_eq_iff i j)
