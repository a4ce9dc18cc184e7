-- ===== src/Exporter/Json.antt =====
-- JSON values as rapidjson gives them, and getjsonstring (chronicle-receiver/exp_relic_plugin.hpp).
-- In a build without assertions a missing member is null, and what is no array has no elements.
use fio_chronicle.Prelude.{Bool, true, false, List, [], ◌∷◌, if◌then◌else◌}
use Prim.Native.String.{String}
use fio_chronicle.Exporter.Text.{Text, text, same}

mutual
  pub data Json : Type 0 where
    null : Json
    truth : Bool → Json
    number : Text → Json
    string : Text → Json
    array : Elements → Json
    object : Members → Json

  pub data Elements : Type 0 where
    no_elements : Elements
    element : Json → Elements → Elements

  pub data Members : Type 0 where
    no_members : Members
    member : Text → Json → Members → Members

abbrev pub find_member : Members → Text → Json
find_member no_members key = null
find_member (member name value rest) key =
    let later = find_member rest key in if same name key then value else later

-- `v[key]`
unfoldable pub field : Json → String → Json
field (object ms) key = find_member ms (text key)
field null key = null
field (truth b) key = null
field (number t) key = null
field (string t) key = null
field (array es) key = null

abbrev pub element_list : Elements → List Json
element_list no_elements = []
element_list (element v rest) = v ∷ element_list rest

-- `v.GetArray()`
unfoldable pub elements : Json → List Json
elements (array es) = element_list es
elements null = []
elements (truth b) = []
elements (number t) = []
elements (string t) = []
elements (object ms) = []

abbrev pub is_object : Json → Bool
is_object (object ms) = true
is_object null = false
is_object (truth b) = false
is_object (number t) = false
is_object (string t) = false
is_object (array es) = false

abbrev pub is_string : Json → Bool
is_string (string t) = true
is_string null = false
is_string (truth b) = false
is_string (number t) = false
is_string (array es) = false
is_string (object ms) = false

abbrev pub nonempty_or : Text → Text → Text
nonempty_or default [] = default
nonempty_or default (b ∷ bs) = b ∷ bs

-- `getjsonstring`: a number has its own digits, an object is written by `write`, which is
-- rapidjson's Writer; anything else gives the default.
unfoldable pub get_json_string : (Json → Text) → Text → Json → Bool → Text
get_json_string write default (string t) allow_empty =
    if allow_empty then t else nonempty_or default t
get_json_string write default (object ms) allow_empty = write (object ms)
get_json_string write default (number t) allow_empty = t
get_json_string write default null allow_empty = default
get_json_string write default (truth b) allow_empty = default
get_json_string write default (array es) allow_empty = default
