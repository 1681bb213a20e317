-- ===== src/Payload.antt =====
-- Decoded webhook bodies: what `json.Unmarshal` into `map[string]any` gives (internal/app/message.go,
-- internal/app/slim.go, internal/app/runner.go). A body is `none` where Unmarshal fails; a JSON
-- `null` body is the empty map.
pub mod Slim
use trello_openclaw_webhook.Prelude.{
  Bool, Option, none, some, List, [], ◌∷◌, Str, ◌==◌, if◌then◌else◌, ◌≡◌,
}

-- A number keeps its literal. The keys of an object are distinct, as those of a Go map.
mutual
  pub data Json : Type 0 where
    null : Json
    bool : Bool → Json
    num : Str → Json
    str : Str → Json
    arr : Items → Json
    obj : Fields → Json

  pub data Items : Type 0 where
    nil : Items
    item : Json → Items → Items

  pub data Fields : Type 0 where
    end : Fields
    field : Str → Json → Fields → Fields

abbrev pub Body : Type 0
Body = Option Fields

-- `v, ok := m[key]`
unfoldable pub get : Str → Fields → Option Json
get key end = none
get key (field k v fs) = if k == key then some v else get key fs

-- `m, _ := v.(map[string]any)`, with an empty map for nil
unfoldable pub as_map : Option Json → Fields
as_map (some (obj fs)) = fs
as_map (some null) = end
as_map (some (bool b)) = end
as_map (some (num n)) = end
as_map (some (str s)) = end
as_map (some (arr xs)) = end
as_map none = end

unfoldable pub as_string : Option Json → Str
as_string (some (str s)) = s
as_string (some null) = []
as_string (some (bool b)) = []
as_string (some (num n)) = []
as_string (some (arr xs)) = []
as_string (some (obj fs)) = []
as_string none = []

unfoldable pub parse_raw_body : Body → Fields
parse_raw_body none = end
parse_raw_body (some fs) = fs

unfoldable pub non_empty_string : Json → Option Str
non_empty_string (str []) = none
non_empty_string (str (c ∷ s)) = some (c ∷ s)
non_empty_string null = none
non_empty_string (bool b) = none
non_empty_string (num n) = none
non_empty_string (arr xs) = none
non_empty_string (obj fs) = none

unfoldable pub member : Json → Str → Option Json
member (obj fs) key = get key fs
member null key = none
member (bool b) key = none
member (num n) key = none
member (str s) key = none
member (arr xs) key = none

-- The loop of `nestedString` from the value `current`.
unfoldable pub nested_from : Json → List Str → Option Str
nested_from current [] = none
nested_from current (key ∷ []) = elim (member current key) [
  | none ↦ none
  | some value ↦ non_empty_string value
]
nested_from current (key ∷ next ∷ path) = elim (member current key) [
  | none ↦ none
  | some value ↦ nested_from value (next ∷ path)
]

unfoldable pub nested_string : Fields → List Str → Option Str
unfolding nested_from member get non_empty_string
nested_string m path = nested_from (obj m) path

unfoldable pub fallback : Str → Str → Str
fallback [] fb = fb
fallback (c ∷ s) fb = c ∷ s
