-- ===== src/Capability/Load.antt =====
-- The reading of provider_specs.json, capability_resolver.py. An exception is none; `int(…)` of a JSON
-- value is a parameter.
use hymer_connect_ha.Prelude.{ℕ, Option, none, some, List, [], ◌∷◌, if◌then◌else◌}
use hymer_connect_ha.Prelude.Text.{codes, text_eq}
use hymer_connect_ha.SignalR.Json.{
  Json, null, bool, num, other_number, str, arr, obj, Items, nil, cons, Fields, end, member,
}
use hymer_connect_ha.Capability.{
  ◌>>=◌, PlatformKey, sensor, binary_sensor, switch, WriteStyle, bool_style, string_on_off,
}
use Prim.Native.String.{String}

-- A string that is not empty.
unfoldable pub text_of : Json → Option (List ℕ)
text_of (str []) = none
text_of (str (c ∷ chars)) = some (c ∷ chars)
text_of null = none
text_of (bool b) = none
text_of (num n) = none
text_of other_number = none
text_of (arr items) = none
text_of (obj fields) = none

unfoldable pub required : Option Json → Option (List ℕ)
required none = none
required (some value) = text_of value

unfoldable pub require_string : Fields → String → Option (List ℕ)
require_string payload key = required (member key payload)

unfoldable pub given_text : Option (List ℕ) → Option (Option (List ℕ))
given_text none = none
given_text (some s) = some (some s)

unfoldable pub optional : Option Json → Option (Option (List ℕ))
optional none = some none
optional (some null) = some none
optional (some (str s)) = given_text (text_of (str s))
optional (some (bool b)) = none
optional (some (num n)) = none
optional (some other_number) = none
optional (some (arr items)) = none
optional (some (obj fields)) = none

unfoldable pub optional_string : Fields → String → Option (Option (List ℕ))
optional_string payload key = optional (member key payload)

-- The texts of a list, where each is a string that is not empty.
unfoldable pub texts_of : Items → Option (List (List ℕ))
texts_of nil = some []
texts_of (cons value items) = do s ← text_of value; rest ← texts_of items; some (s ∷ rest)

unfoldable pub tuple_of : Option Json → Option (List (List ℕ))
tuple_of none = some []
tuple_of (some null) = some []
tuple_of (some (arr items)) = texts_of items
tuple_of (some (str s)) = none
tuple_of (some (bool b)) = none
tuple_of (some (num n)) = none
tuple_of (some other_number) = none
tuple_of (some (obj fields)) = none

unfoldable pub string_tuple : Fields → String → Option (List (List ℕ))
string_tuple payload key = tuple_of (member key payload)

-- `value or default` of a string and of a tuple
unfoldable pub or_default : Option (List ℕ) → List ℕ → List ℕ
or_default none d = d
or_default (some s) d = s

unfoldable pub or_defaults : (texts defaults : List (List ℕ)) → List (List ℕ)
or_defaults [] defaults = defaults
or_defaults (s ∷ texts) defaults = s ∷ texts

pub record Defaults : Type 0 where
  pub read_validation_status : List ℕ
  pub write_validation_status : List ℕ
  pub evidence_sources : List (List ℕ)

-- What is no dict counts as an empty one.
unfoldable pub fields_or_none : Option Json → Fields
fields_or_none (some (obj fields)) = fields
fields_or_none none = end
fields_or_none (some null) = end
fields_or_none (some (bool b)) = end
fields_or_none (some (num n)) = end
fields_or_none (some other_number) = end
fields_or_none (some (str s)) = end
fields_or_none (some (arr items)) = end

unfoldable pub defaults_from : Fields → Option Defaults
defaults_from defaults = do
  read ← optional_string defaults "read_validation_status"
  write ← optional_string defaults "write_validation_status"
  sources ← string_tuple defaults "evidence_sources"
  some (record {
    read_validation_status = or_default read (codes "inferred");
    write_validation_status = or_default write (codes "not_applicable");
    evidence_sources = sources;
  })

unfoldable pub provider_defaults : Fields → Option Defaults
provider_defaults payload = defaults_from (fields_or_none (member "defaults" payload))

unfoldable pub write_style_of : Option (List ℕ) → Option (Option WriteStyle)
write_style_of none = some none
write_style_of (some s) =
    if text_eq s (codes "bool")
    then some (some bool_style)
    else if text_eq s (codes "string_on_off")
    then some (some string_on_off)
    else none

unfoldable pub platform_of : List ℕ → Option PlatformKey
platform_of s =
    if text_eq s (codes "sensor")
    then some sensor
    else if text_eq s (codes "binary_sensor")
    then some binary_sensor
    else if text_eq s (codes "switch")
    then some switch
    else none

-- `payload.get(key)` that is a list with an element
unfoldable pub filled_list : Option Json → Option Items
filled_list (some (arr (cons value items))) = some (cons value items)
filled_list (some (arr nil)) = none
filled_list none = none
filled_list (some null) = none
filled_list (some (bool b)) = none
filled_list (some (num n)) = none
filled_list (some other_number) = none
filled_list (some (str s)) = none
filled_list (some (obj fields)) = none
