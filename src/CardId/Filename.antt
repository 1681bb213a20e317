-- ===== src/CardId/Filename.antt =====
-- `sanitizeForFilename` of internal/app/activity.go, against the card ids of internal/app/cardid.go.
use trello_openclaw_webhook.Prelude.{
  ℕ, zero, suc, ◌≤◌, ◌<◌, ◌≡◌, refl, ap, ◌∙◌, true, List, [], ◌∷◌, map, arith, Str, bytes, ltb,
  length, take, if◌then◌else◌, All, runes, runes-ascii, length-take, ◌==◌, inl, inr, Bool-cases,
  le→ltb,
}
use trello_openclaw_webhook.CardId.{safe_byte, is_valid_card_id}
use trello_openclaw_webhook.CardId.Safety.{IsSlugByte, safe_byte_iff, is_valid_card_id_iff}

sanitize_rune : Str → ℕ
sanitize_rune (c ∷ []) = if safe_byte c then c else b'_'
sanitize_rune [] = b'_'
sanitize_rune (a ∷ b ∷ s) = b'_'

cut_64 : Str → Str
cut_64 out = if ltb 64 (length out) then take 64 out else out

or_unknown : Str → Str
or_unknown out = if out == bytes "" then bytes "unknown" else out

unfoldable pub sanitize_for_filename : Str → Str
unfolding sanitize_rune cut_64 or_unknown
sanitize_for_filename s = or_unknown (cut_64 (map sanitize_rune (runes s)))

sanitize_rune-IsSlugByte : (r : Str) → IsSlugByte (sanitize_rune r)
unfolding sanitize_rune
sanitize_rune-IsSlugByte [] = inr (inr (inr (inl refl)))
sanitize_rune-IsSlugByte (c ∷ []) = elim (Bool-cases (safe_byte c)) [
  | inl e ↦ rw e ((safe_byte_iff c).0 e)
  | inr e ↦ rw e (inr (inr (inr (inl refl))))
]
sanitize_rune-IsSlugByte (a ∷ b ∷ s) = inr (inr (inr (inl refl)))

map-IsSlugByte : (rs : List Str) → All IsSlugByte (map sanitize_rune rs)
map-IsSlugByte [] = tt
map-IsSlugByte (r ∷ rs) = (sanitize_rune-IsSlugByte r, map-IsSlugByte rs)

All-take : (n : ℕ) (s : Str) → All IsSlugByte s → All IsSlugByte (take n s)
All-take zero s h = tt
All-take (suc n) [] h = tt
All-take (suc n) (c ∷ s) (p, h) = (p, All-take n s h)

unknown-IsSlugByte : All IsSlugByte (bytes "unknown")
unknown-IsSlugByte = omega arith

abbrev IsName : Str → Type 0
IsName s = All IsSlugByte s × (0 < length s) × (length s ≤ 64)

or_unknown-IsName : (cut : Str) → All IsSlugByte cut → length cut ≤ 64 → IsName (or_unknown cut)
unfolding or_unknown ◌==◌
or_unknown-IsName [] h n = (unknown-IsSlugByte, omega arith, omega arith)
or_unknown-IsName (c ∷ s) h n = (h, omega arith, n)

cut_64_lem :
    (out : Str) → All IsSlugByte out → All IsSlugByte (cut_64 out) × (length (cut_64 out) ≤ 64)
unfolding cut_64
cut_64_lem out h = elim (Bool-cases (ltb 64 (length out))) [
  | inl e ↦ rw e (All-take 64 out h, omega (arith, length-take 64 out))
  | inr e ↦ rw e (h, ground arith)
]

-- Whatever the text, the result is a file name of 1 to 64 letters, digits, dashes and underscores.
pub sanitize_for_filename-IsName :
    (s : Str)
    → All IsSlugByte (sanitize_for_filename s)
      × (0 < length (sanitize_for_filename s))
      × (length (sanitize_for_filename s) ≤ 64)
unfolding sanitize_for_filename
sanitize_for_filename-IsName s =
    let cut = cut_64_lem (map sanitize_rune (runes s)) (map-IsSlugByte (runes s)) in
    or_unknown-IsName (cut_64 (map sanitize_rune (runes s))) cut.0 cut.1

IsSlugByte-ascii : (s : Str) → All IsSlugByte s → All (λ c. c < 0x80) s
IsSlugByte-ascii [] h = tt
IsSlugByte-ascii (c ∷ s) (p, h) = (ground arith, IsSlugByte-ascii s h)

sanitize_each : (s : Str) → All IsSlugByte s → map sanitize_rune (map (λ c. c ∷ []) s) ≡ s
unfolding sanitize_rune
sanitize_each [] h = refl
sanitize_each (c ∷ s) (p, h) = rw ((safe_byte_iff c).1 p) (ap (λ l. c ∷ l) (sanitize_each s h))

sanitize_kept : (s : Str) → 0 < length s → length s ≤ 64 → or_unknown (cut_64 s) ≡ s
unfolding or_unknown cut_64 ◌==◌
sanitize_kept [] p n = absurd (omega arith)
sanitize_kept (c ∷ s) p n = rw (le→ltb 64 (length (c ∷ s)) n)

-- A card id that the gateway accepts is its own file name.
pub sanitize_for_filename-card_id :
    (id : Str) → is_valid_card_id id ≡ true → sanitize_for_filename id ≡ id
unfolding sanitize_for_filename
sanitize_for_filename-card_id id valid =
    let (slug, low, high) = (is_valid_card_id_iff id).0 valid in
    ap (λ rs. or_unknown (cut_64 (map sanitize_rune rs)))
      (runes-ascii id (IsSlugByte-ascii id slug))
    ∙ ap (λ s. or_unknown (cut_64 s)) (sanitize_each id slug)
    ∙ sanitize_kept id (omega arith) high
