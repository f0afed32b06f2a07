-- ===== src/Json.antt =====
-- Values that travel between the parts as JSON, and reads of their fields.
use remote_subagent_protocol.Prelude.{
  ℕ, String, Bool, true, false, not, nat_eq, Option, none, some, List, [], ◌∷◌, ◌==◌, if◌then◌else◌,
}

mutual
  pub data Json : Type 0 where
    null : Json
    bool : Bool → Json
    num : ℕ → Json
    str : String → Json
    arr : Items → Json
    obj : Fields → Json

  pub data Items : Type 0 where
    nil : Items
    cons : Json → Items → Items

  pub data Fields : Type 0 where
    end : Fields
    field : String → Json → Fields → Fields

-- `o[k]`; `none` is `undefined`
unfoldable pub get : Fields → String → Option Json
get end k = none
get (field j v rest) k = if j == k then some v else get rest k

-- The text in a field that holds one.
abbrev pub as_text : Option Json → Option String
as_text (some (str s)) = some s
as_text _ = none

abbrev pub as_bool : Option Json → Option Bool
as_bool (some (bool b)) = some b
as_bool _ = none

-- `Number(v)` as far as it is finite: a numeral, a Boolean, and null, which is 0.
abbrev pub as_number : Option Json → Option ℕ
as_number (some (num n)) = some n
as_number (some null) = some 0
as_number (some (bool b)) = some (if b then 1 else 0)
as_number _ = none

-- `v?.k` on a value that may be no object.
unfoldable pub member : Option Json → String → Option Json
unfolding get
member (some (obj o)) k = get o k
member _ k = none

abbrev pub to_list : Items → List Json
to_list nil = []
to_list (cons x xs) = x ∷ to_list xs

-- `Array.isArray(v) ? v : []`
abbrev pub as_array : Option Json → List Json
as_array (some (arr xs)) = to_list xs
as_array _ = []

-- Truthiness of a field.
abbrev pub json_truthy : Option Json → Bool
json_truthy none = false
json_truthy (some null) = false
json_truthy (some (bool b)) = b
json_truthy (some (num n)) = not (nat_eq n 0)
json_truthy (some (str s)) = not (s == "")
json_truthy (some (arr xs)) = true
json_truthy (some (obj o)) = true

-- `field === false`
abbrev pub is_false : Option Json → Bool
is_false (some (bool b)) = not b
is_false _ = false

-- `text === field`, where both may be undefined
abbrev pub is_text : Option String → Option Json → Bool
is_text none none = true
is_text (some a) (some (str b)) = a == b
is_text _ _ = false
