-- ===== src/Harness/Json.antt =====
-- JSON values, as the code that is handed an `unknown` inspects them.
use Prim.Native.String.{String}
use text.Mathlib.Text.{◌==◌ as text_same}
use serverless_harness.Base.{ℕ, Bool, true, false, Option, none, some, if◌then◌else◌, nat_beq}

-- A number that is not a natural one is known by its shortest decimal spelling.
pub data Number : Type 0 where
  whole : ℕ → Number
  other : String → Number

abbrev pub number_beq : Number → Number → Bool
number_beq (whole m) (whole n) = nat_beq m n
number_beq (other s) (other t) = text_same s t
number_beq _ _ = false

mutual
  pub data Json : Type 0 where
    null : Json
    boolean : Bool → Json
    number : Number → Json
    string : String → Json
    array : Items → Json
    object : Fields → Json

  pub data Items : Type 0 where
    no_items : Items
    with_item : Json → Items → Items

  pub data Fields : Type 0 where
    no_fields : Fields
    with_field : String → Json → Fields → Fields

abbrev pub find_field : String → Fields → Option Json
find_field name no_fields = none
find_field name (with_field key value rest) =
    let later = find_field name rest in if text_same key name then some value else later

-- `value.name`, `none` for undefined. Only an object has fields of these names.
abbrev pub prop : Json → String → Option Json
prop (object members) name = find_field name members
prop _ name = none

-- `value === text`
abbrev pub is_text : String → Option Json → Bool
is_text text (some (string s)) = text_same s text
is_text text _ = false

-- `typeof value === 'string'`, `typeof value === 'number'`
abbrev pub string_of : Option Json → Option String
string_of (some (string s)) = some s
string_of _ = none

abbrev pub number_of : Option Json → Option Number
number_of (some (number n)) = some n
number_of _ = none

-- A value that is not falsy.
abbrev pub truthy : Option Json → Option Json
truthy (some (boolean true)) = some (boolean true)
truthy (some (number (whole n))) = if nat_beq n 0 then none else some (number (whole n))
truthy (some (number (other s))) = if text_same s "NaN" then none else some (number (other s))
truthy (some (string s)) = if text_same s "" then none else some (string s)
truthy (some (array items)) = some (array items)
truthy (some (object fields)) = some (object fields)
truthy _ = none
