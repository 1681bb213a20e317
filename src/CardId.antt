-- ===== src/CardId.antt =====
-- internal/app/cardid.go, and `sanitizeForFilename` of internal/app/activity.go in the child.
pub mod Safety
pub mod Filename
use trello_openclaw_webhook.Prelude.{
  ℕ, Bool, true, false, ◌&&◌, ◌||◌, [], ◌∷◌, Str, bytes, ◌==◌, leb, nat_eq, not, length, all,
  if◌then◌else◌,
}

-- `[A-Za-z0-9_-]`
unfoldable pub safe_byte : ℕ → Bool
safe_byte c =
    (leb b'A' c && leb c b'Z')
    || ((leb b'a' c && leb c b'z')
        || ((leb b'0' c && leb c b'9') || (nat_eq c b'_' || nat_eq c b'-')))

-- `cardIDPattern.MatchString`
unfoldable pub card_id_pattern : Str → Bool
unfolding safe_byte
card_id_pattern id = all safe_byte id && (leb 3 (length id) && leb (length id) 64)

traversal_byte : ℕ → Bool
traversal_byte c = nat_eq c b'/' || (nat_eq c 0x5C || (nat_eq c b':' || nat_eq c 0))

any_traversal : Str → Bool
unfolding traversal_byte
any_traversal [] = false
any_traversal (c ∷ s) = traversal_byte c || any_traversal s

unfoldable pub contains_path_traversal : Str → Bool
unfolding any_traversal
contains_path_traversal id = id == bytes "." || id == bytes ".." || any_traversal id

pub data CardIdError : Type 0 where
  valid empty_id unsafe_slug path_traversal : CardIdError

-- `valid` is the nil error.
unfoldable pub validate_card_id : Str → CardIdError
unfolding card_id_pattern contains_path_traversal
validate_card_id [] = empty_id
validate_card_id (c ∷ s) =
    if not (card_id_pattern (c ∷ s))
    then unsafe_slug
    else if contains_path_traversal (c ∷ s)
    then path_traversal
    else valid

is_nil : CardIdError → Bool
is_nil valid = true
is_nil empty_id = false
is_nil unsafe_slug = false
is_nil path_traversal = false

unfoldable pub is_valid_card_id : Str → Bool
unfolding validate_card_id is_nil
is_valid_card_id id = is_nil (validate_card_id id)
