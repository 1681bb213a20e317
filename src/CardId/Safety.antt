-- ===== src/CardId/Safety.antt =====
-- Which card ids `ValidateCardID` of internal/app/cardid.go accepts.
use trello_openclaw_webhook.Prelude.{
  ℕ, ◌≤◌, ◌≡◌, ◌≢◌, ◌↔◌, ◌⊎◌, refl, true, false, [], ◌∷◌, arith, Str, ◌==◌, length, all, All,
}
use trello_openclaw_webhook.CardId.{
  safe_byte, card_id_pattern, any_traversal, contains_path_traversal, is_valid_card_id,
}

-- A byte that cannot leave a directory, name a drive or end a C string.
pub record IsPathSafe (c : ℕ) : Type 0 where
  pub no_slash : c ≢ b'/'
  pub no_backslash : c ≢ 0x5C
  pub no_colon : c ≢ b':'
  pub no_nul : c ≢ 0
  pub no_dot : c ≢ b'.'

safe_byte-IsPathSafe : (c : ℕ) → safe_byte c ≡ true → IsPathSafe c
unfolding safe_byte
safe_byte-IsPathSafe c h = ground arith

all-IsPathSafe : (s : Str) → all safe_byte s ≡ true → All IsPathSafe s
all-IsPathSafe [] h = tt
all-IsPathSafe (c ∷ s) h = (safe_byte-IsPathSafe c (ground arith), all-IsPathSafe s (ground arith))

-- The second check never refuses what the pattern accepts.
any_traversal_of_safe : (s : Str) → All IsPathSafe s → any_traversal s ≡ false
unfolding any_traversal
any_traversal_of_safe [] h = refl
any_traversal_of_safe (c ∷ s) (p, h) = ground (arith, any_traversal_of_safe s h)

pattern-no_traversal : (id : Str) → card_id_pattern id ≡ true → contains_path_traversal id ≡ false
unfolding card_id_pattern contains_path_traversal ◌==◌
pattern-no_traversal [] h = ground arith
pattern-no_traversal (a ∷ []) h = ground arith
pattern-no_traversal (a ∷ b ∷ []) h = ground arith
pattern-no_traversal (a ∷ b ∷ c ∷ s) h =
    let safe : all safe_byte (a ∷ b ∷ c ∷ s) ≡ true = ground arith in
    ground (arith, any_traversal_of_safe (a ∷ b ∷ c ∷ s) (all-IsPathSafe (a ∷ b ∷ c ∷ s) safe))

-- A letter, a digit, a dash or an underscore.
abbrev pub IsSlugByte : ℕ → Type 0
IsSlugByte c =
    ((b'A' ≤ c) × (c ≤ b'Z'))
    ⊎ (((b'a' ≤ c) × (c ≤ b'z')) ⊎ (((b'0' ≤ c) × (c ≤ b'9')) ⊎ ((c ≡ b'_') ⊎ (c ≡ b'-'))))

pub safe_byte_iff : (c : ℕ) → (safe_byte c ≡ true) ↔ IsSlugByte c
unfolding safe_byte
safe_byte_iff c = (λ h. ground arith, λ h. ground arith)

all-safe_iff : (s : Str) → (all safe_byte s ≡ true) ↔ All IsSlugByte s
all-safe_iff [] = (λ _. tt, λ _. refl)
all-safe_iff (c ∷ s) =
    let first = safe_byte_iff c in
    let rest = all-safe_iff s in
    (
      λ h. (first.0 (ground arith), rest.0 (ground arith)),
      λ h. ground (arith, first.1 h.0, rest.1 h.1),
    )

is_valid-pattern : (id : Str) → is_valid_card_id id ≡ card_id_pattern id
unfolding is_valid_card_id card_id_pattern
is_valid-pattern [] = refl
is_valid-pattern (c ∷ s) = ground (arith, pattern-no_traversal (c ∷ s))

-- A card id is accepted exactly when it has 3 to 64 bytes, each a letter, a digit, a dash or an
-- underscore; the check for path traversal that follows refuses nothing more.
pub is_valid_card_id_iff :
    (id : Str)
    → (is_valid_card_id id ≡ true) ↔ (All IsSlugByte id × (3 ≤ length id) × (length id ≤ 64))
unfolding card_id_pattern
is_valid_card_id_iff id =
    let same = is_valid-pattern id in
    let slug = all-safe_iff id in
    (λ h. (slug.0 (ground arith), ground arith, ground arith), λ h. ground (arith, slug.1 h.0))

-- No byte of an accepted card id is a path separator, a colon, a NUL or a dot.
pub is_valid_card_id-IsPathSafe : (id : Str) → is_valid_card_id id ≡ true → All IsPathSafe id
unfolding card_id_pattern
is_valid_card_id-IsPathSafe id h =
    let same = is_valid-pattern id in all-IsPathSafe id (ground arith)
