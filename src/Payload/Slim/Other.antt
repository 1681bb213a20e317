-- ===== src/Payload/Slim/Other.antt =====
-- The other fields of a body in `slimRawBody` (internal/app/slim.go).
use trello_openclaw_webhook.Prelude.{
  ◌≡◌, ◌≢◌, refl, Option, none, some, List, [], ◌∷◌, arith, Str, bytes, eq_iff, All,
}
use mathlib.Core.Path.{subst}
use mathlib.Core.Option.{some-injective}
use trello_openclaw_webhook.Payload.{
  obj, Fields, end, get, non_empty_string, member, nested_from, nested_string,
}
use trello_openclaw_webhook.Payload.Slim.{
  put_string, put_object, slim_of, slim_raw_body, kept_paths, type_path, card_id_path,
  before_name_path, before_id_path, after_name_path, after_id_path,
}

-- Below an object of two strings there is a value at its two keys only.
other_in_list :
    (name id : Option Str) (key : Str) (rest : List Str)
    → (rest ≡ [] → key ≡ bytes "name" → ⊥)
    → (rest ≡ [] → key ≡ bytes "id" → ⊥)
    → nested_from
        (obj (put_string (bytes "name") name (put_string (bytes "id") id end)))
        (key ∷ rest)
      ≡ none
unfolding put_string nested_from member get non_empty_string
other_in_list name id key [] hn hi =
    ground (arith, eq_iff (bytes "name") key, eq_iff (bytes "id") key, hn refl, hi refl)
other_in_list name id key (next ∷ rest) hn hi =
    ground (arith, eq_iff (bytes "name") key, eq_iff (bytes "id") key)

other_in_card :
    (id : Option Str) (key : Str) (rest : List Str)
    → (rest ≡ [] → key ≡ bytes "id" → ⊥)
    → nested_from (obj (put_string (bytes "id") id end)) (key ∷ rest) ≡ none
unfolding put_string nested_from member get non_empty_string
other_in_card id key [] hi = ground (arith, eq_iff (bytes "id") key, hi refl)
other_in_card id key (next ∷ rest) hi = ground (arith, eq_iff (bytes "id") key)

module _ (card before after : Fields) where
  abbrev data_of : Fields
  data_of =
      put_object (bytes "card") card
        (put_object (bytes "listBefore") before (put_object (bytes "listAfter") after end))

  other_in_data :
      (object key : Str) (rest : List Str)
      → (object ≡ bytes "card" → nested_from (obj card) (key ∷ rest) ≡ none)
      → (object ≡ bytes "listBefore" → nested_from (obj before) (key ∷ rest) ≡ none)
      → (object ≡ bytes "listAfter" → nested_from (obj after) (key ∷ rest) ≡ none)
      → nested_from (obj data_of) (object ∷ key ∷ rest) ≡ none
  unfolding put_object nested_from member get
  other_in_data object key rest hc hb ha = ground (
    arith,
    eq_iff (bytes "card") object,
    eq_iff (bytes "listBefore") object,
    eq_iff (bytes "listAfter") object,
  )

  data_string : (object : Str) → nested_from (obj data_of) (object ∷ []) ≡ none
  unfolding put_object nested_from member get non_empty_string
  data_string object = ground arith

module _ (type : Option Str) (data' : Fields) where
  abbrev action_of : Fields
  action_of = put_string (bytes "type") type (put_object (bytes "data") data' end)

  other_in_action :
      (key : Str) (rest : List Str)
      → (rest ≡ [] → key ≡ bytes "type" → ⊥)
      → (key ≡ bytes "data" → nested_from (obj data') rest ≡ none)
      → nested_from (obj action_of) (key ∷ rest) ≡ none
  unfolding put_string put_object nested_from member get non_empty_string
  other_in_action key [] ht hd =
      ground (arith, eq_iff (bytes "type") key, eq_iff (bytes "data") key, ht refl)
  other_in_action key (next ∷ rest) ht hd =
      ground (arith, eq_iff (bytes "type") key, eq_iff (bytes "data") key)

other_in_body :
    (action : Fields) (key : Str) (rest : List Str)
    → (key ≡ bytes "action" → nested_from (obj action) rest ≡ none)
    → nested_from (obj (put_object (bytes "action") action end)) (key ∷ rest) ≡ none
unfolding put_object nested_from member get non_empty_string
other_in_body action key [] h = ground (arith, eq_iff (bytes "action") key)
other_in_body action key (next ∷ rest) h = ground (arith, eq_iff (bytes "action") key)

module _ (t c bn bi an ai : Option Str) where
  slim_of-other :
      (p : List Str)
      → All (λ q. p ≢ q) kept_paths
      → nested_string (slim_of t c bn bi an ai) p ≡ none
  unfolding slim_of nested_string
  slim_of-other [] h = refl
  slim_of-other (k ∷ []) h = other_in_body _ k [] (λ _. refl)
  slim_of-other (k ∷ l ∷ []) h =
      other_in_body _ k (l ∷ []) λ ek. other_in_action t _ l [] (λ _ el. h.0 (cc)) (λ _. refl)
  slim_of-other (k ∷ l ∷ m ∷ []) h =
      other_in_body _ k (l ∷ m ∷ [])
        λ ek. other_in_action t _ l (m ∷ []) (λ e. cc) (λ el. data_string _ _ _ m)
  slim_of-other (k ∷ l ∷ m ∷ n ∷ p) h = other_in_body _ k (l ∷ m ∷ n ∷ p) λ ek.
      other_in_action t _ l (m ∷ n ∷ p) (λ e. cc)
        λ el.
          other_in_data _ _ _ m n p (λ em. other_in_card c n p (λ ep en. h.1.0 (cc)))
            (λ em. other_in_list bn bi n p (λ ep en. h.1.1.0 (cc)) (λ ep en. h.1.1.1.0 (cc)))
            (λ em.
              other_in_list an ai n p (λ ep en. h.1.1.1.1.0 (cc)) (λ ep en. h.1.1.1.1.1.0 (cc)))

-- A slimmed body has no string at any path but the six kept ones, whatever the raw body holds.
pub slim_raw_body-other :
    (raw slimmed : Fields) (p : List Str)
    → slim_raw_body (some raw) ≡ some slimmed
    → All (λ q. p ≢ q) kept_paths
    → nested_string slimmed p ≡ none
unfolding slim_raw_body
slim_raw_body-other raw slimmed p h apart =
    subst (λ m. nested_string m p ≡ none) (some-injective _ _ h)
      (slim_of-other (nested_string raw type_path) (nested_string raw card_id_path)
        (nested_string raw before_name_path) (nested_string raw before_id_path)
        (nested_string raw after_name_path) (nested_string raw after_id_path) p apart)
