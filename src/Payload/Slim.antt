-- ===== src/Payload/Slim.antt =====
-- internal/app/slim.go: the routing fields that a prompt may carry.
pub mod Other
use trello_openclaw_webhook.Prelude.{
  ◌≡◌, ◌≢◌, ◌∙◌, Option, none, some, List, [], ◌∷◌, arith, Str, bytes, ◌==◌, if◌then◌else◌, All,
  Option-cases, inl, inr,
}
use mathlib.Core.Path.{subst}
use mathlib.Core.Option.{some-injective}
use trello_openclaw_webhook.Payload.{
  Json, str, obj, Fields, end, field, Body, non_empty_string, member, nested_from, nested_string,
}

abbrev pub path : Str → Str → List Str
path object key = bytes "action" ∷ bytes "data" ∷ object ∷ key ∷ []

abbrev pub type_path : List Str
type_path = bytes "action" ∷ bytes "type" ∷ []

abbrev pub card_id_path : List Str
card_id_path = path (bytes "card") (bytes "id")

abbrev pub before_name_path : List Str
before_name_path = path (bytes "listBefore") (bytes "name")

abbrev pub before_id_path : List Str
before_id_path = path (bytes "listBefore") (bytes "id")

abbrev pub after_name_path : List Str
after_name_path = path (bytes "listAfter") (bytes "name")

abbrev pub after_id_path : List Str
after_id_path = path (bytes "listAfter") (bytes "id")

-- `if v, ok := nestedString(…); ok { m[key] = v }`
put_string : Str → Option Str → Fields → Fields
put_string key none m = m
put_string key (some v) m = field key (str v) m

-- `if len(object) > 0 { m[key] = object }`
put_object : Str → Fields → Fields → Fields
put_object key end m = m
put_object key (field k v fs) m = field key (obj (field k v fs)) m

-- The six values that are kept, put back in their places.
pub slim_of : (type card_id before_name before_id after_name after_id : Option Str) → Fields
unfolding put_string put_object
slim_of type card_id before_name before_id after_name after_id =
    let card : Fields = put_string (bytes "id") card_id end in
    let list_before : Fields =
      put_string (bytes "name") before_name (put_string (bytes "id") before_id end) in
    let list_after : Fields =
      put_string (bytes "name") after_name (put_string (bytes "id") after_id end) in
    let data' : Fields = put_object (bytes "card") card (
      put_object (bytes "listBefore") list_before
        (put_object (bytes "listAfter") list_after end)) in
    let action : Fields = put_string (bytes "type") type (put_object (bytes "data") data' end) in
    put_object (bytes "action") action end

slim_fields : Fields → Fields
unfolding slim_of nested_string
slim_fields raw =
    slim_of (nested_string raw type_path) (nested_string raw card_id_path)
      (nested_string raw before_name_path) (nested_string raw before_id_path)
      (nested_string raw after_name_path) (nested_string raw after_id_path)

-- `none` is the error for a body that is not valid JSON.
unfoldable pub slim_raw_body : Body → Option Fields
unfolding slim_fields
slim_raw_body none = none
slim_raw_body (some raw) = some (slim_fields raw)

-- `mustSlim`: an empty payload for a body that cannot be slimmed.
unfoldable pub must_slim : Body → Fields
unfolding slim_raw_body
must_slim none = end
must_slim (some raw) = slim_fields raw

abbrev pub kept_paths : List (List Str)
kept_paths =
    type_path ∷ card_id_path ∷ before_name_path ∷ before_id_path ∷ after_name_path ∷ after_id_path
    ∷ []

module _ (t c bn bi an ai : Option Str) where
  slim_of-keeps :
      t ≢ some []
      → c ≢ some []
      → bn ≢ some []
      → bi ≢ some []
      → an ≢ some []
      → ai ≢ some []
      → (nested_string (slim_of t c bn bi an ai) type_path ≡ t)
        × (nested_string (slim_of t c bn bi an ai) card_id_path ≡ c)
        × (nested_string (slim_of t c bn bi an ai) before_name_path ≡ bn)
        × (nested_string (slim_of t c bn bi an ai) before_id_path ≡ bi)
        × (nested_string (slim_of t c bn bi an ai) after_name_path ≡ an)
        × (nested_string (slim_of t c bn bi an ai) after_id_path ≡ ai)
  unfolding slim_of nested_string ◌==◌
  slim_of-keeps ht hc hbn hbi han hai =
      (ground arith, ground arith, ground arith, ground arith, ground arith, ground arith)

-- What `nestedString` returns is never empty.
nested_from-ne-empty : (v : Json) (p : List Str) → nested_from v p ≢ some []
unfolding nested_from non_empty_string
nested_from-ne-empty v [] = ground arith
nested_from-ne-empty v (k ∷ []) = ground arith
nested_from-ne-empty v (k ∷ j ∷ p) = elim (Option-cases (member v k)) [
  | inl e ↦ rw (e, nested_from) (ground arith)
  | inr (w, e) ↦ rw (e, nested_from) (nested_from-ne-empty w (j ∷ p))
]

nested_string-ne-empty : (m : Fields) (p : List Str) → nested_string m p ≢ some []
unfolding nested_string
nested_string-ne-empty m p = nested_from-ne-empty (obj m) p

-- Slimming a valid body keeps the string at each of the six routing paths: the action type, the
-- card id, and the name and the id of the lists before and after.
pub slim_raw_body-keeps :
    (raw slimmed : Fields)
    → slim_raw_body (some raw) ≡ some slimmed
    → All (λ p. nested_string slimmed p ≡ nested_string raw p) kept_paths
unfolding slim_raw_body
slim_raw_body-keeps raw slimmed h =
    let ne = nested_string-ne-empty raw in
    let kept =
      slim_of-keeps (nested_string raw type_path) (nested_string raw card_id_path)
        (nested_string raw before_name_path) (nested_string raw before_id_path)
        (nested_string raw after_name_path) (nested_string raw after_id_path) (ne type_path)
        (ne card_id_path) (ne before_name_path) (ne before_id_path) (ne after_name_path)
        (ne after_id_path) in
    subst (λ m. All (λ p. nested_string m p ≡ nested_string raw p) kept_paths)
      (some-injective _ _ h) (kept.0, (kept.1, (kept.2, (kept.3, (kept.4, (kept.5, tt))))))
