-- ===== src/Json.antt =====
-- `serde_json::Value`, with the accessors that the sources call. A number is kept as the text of its
-- literal; an object has distinct names.
use haiai.Prelude.{Bool, Option, none, some, List, [], ◌∷◌, if◌then◌else◌}
use haiai.Text.{Text, text_eq}

mutual
  pub data Fields : Type 0 where
    end : Fields
    field : Text → Value → Fields → Fields

  pub data Value : Type 0 where
    obj : Fields → Value
    null : Value
    str : Text → Value
    bool : Bool → Value
    num : Text → Value
    arr : Items → Value

  pub data Items : Type 0 where
    nil : Items
    cons : Value → Items → Items

abbrev find_field : Text → Fields → Option Value
find_field k end = none
find_field k (field j v fs) = if text_eq j k then some v else find_field k fs

-- `value.get(name)`
unfoldable pub get : Text → Value → Option Value
unfolding text_eq
get k (obj fs) = find_field k fs
get k _ = none

unfoldable pub as_str : Value → Option Text
as_str (str s) = some s
as_str _ = none

unfoldable pub as_bool : Value → Option Bool
as_bool (bool b) = some b
as_bool _ = none

abbrev list_items : Items → List Value
list_items nil = []
list_items (cons v vs) = v ∷ list_items vs

unfoldable pub as_array : Value → Option (List Value)
as_array (arr vs) = some (list_items vs)
as_array _ = none

-- `and_then`, `or_else` and `filter` of `Option`
abbrev pub and_then {ℓ κ} : {A : Type ℓ} {B : Type κ} → Option A → (A → Option B) → Option B
and_then none f = none
and_then (some a) f = f a

abbrev pub or_else {ℓ} : {A : Type ℓ} → Option A → Option A → Option A
or_else none o = o
or_else (some a) o = some a

abbrev pub option_filter {ℓ} : {A : Type ℓ} → (A → Bool) → Option A → Option A
option_filter p none = none
option_filter p (some a) = if p a then some a else none

abbrev pub unwrap_or {ℓ} : {A : Type ℓ} → A → Option A → A
unwrap_or d none = d
unwrap_or d (some a) = a

-- `value.get(name).and_then(Value::as_str)`
unfoldable pub get_str : Text → Value → Option Text
unfolding get as_str
get_str k v = and_then (get k v) as_str
