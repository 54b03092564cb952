-- ===== src/Json.antt =====
-- The values that `JSON.parse` returns, in the order in which `Object.entries` lists their members,
-- and the reads of the decoders (src/transport/desktop-task-decoder.ts).
use codexhook.Base.{
  ℕ, ◌+◌, suc, ◌==◌, String, Bool, false, Option, none, some, List, [], ◌∷◌, if◌then◌else◌,
}

-- A number that is whole and not negative, or any other.
pub data JsonNumber : Type 0 where
  natural : ℕ → JsonNumber
  other_number : JsonNumber

mutual
  pub data Json : Type 0 where
    null : Json
    boolean : Bool → Json
    number : JsonNumber → Json
    text : String → Json
    array : Items → Json
    object : Members → Json

  pub data Items : Type 0 where
    no_items : Items
    item : Json → Items → Items

  pub data Members : Type 0 where
    no_members : Members
    member : String → Json → Members → Members

-- The value of a property; `none` is undefined.
unfoldable pub field : String → Members → Option Json
field key no_members = none
field key (member name value members) = if name == key then some value else field key members

unfoldable pub items_list : Items → List Json
items_list no_items = []
items_list (item value items) = value ∷ items_list items

-- A value that is an object and no array (`record` of src/transport/desktop-task-decoder.ts).
abbrev pub record_of : Option Json → Option Members
record_of (some (object members)) = some members
record_of _ = none

abbrev pub array_of : Option Json → List Json
array_of (some (array items)) = items_list items
array_of _ = []

abbrev pub text_of : Option Json → Option String
text_of (some (text t)) = some t
text_of _ = none

-- `?.`, a property of a value that may be no object.
abbrev pub optional_field : String → Option Members → Option Json
optional_field key none = none
optional_field key (some members) = field key members

-- `===` with a text.
abbrev pub is_the_text : String → Option Json → Bool
is_the_text wanted (some (text t)) = t == wanted
is_the_text wanted _ = false

-- How many values a value holds, itself counted.
unfoldable mutual
  pub weight : Json → ℕ
  weight null = 1
  weight (boolean b) = 1
  weight (number n) = 1
  weight (text t) = 1
  weight (array items) = suc (weight_items items)
  weight (object members) = suc (weight_members members)

  pub weight_items : Items → ℕ
  weight_items no_items = 0
  weight_items (item value items) = weight value + weight_items items

  pub weight_members : Members → ℕ
  weight_members no_members = 0
  weight_members (member name value members) = weight value + weight_members members
