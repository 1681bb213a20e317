-- ===== src/Prelude/Trim.antt =====
-- `strings.TrimSpace` on bytes: the UTF-8 encodings of the runes that `unicode.IsSpace` accepts
-- (ASCII white space, U+0085, U+00A0, U+1680, U+2000 to U+200A, U+2028, U+2029, U+202F, U+205F
-- and U+3000) are dropped from both ends.
use Prim.Native.Nat.{ℕ, zero, suc}
use mathlib.Core.Bool.{Bool, ◌&&◌, ◌||◌}
use mathlib.Core.List.{[], ◌∷◌, reverse}
use trello_openclaw_webhook.Prelude.Tests.{leb, nat_eq, if◌then◌else◌}
use trello_openclaw_webhook.Prelude.Strs.{Str}

abbrev space1 : ℕ → Bool
space1 c = nat_eq c 32 || (leb 9 c && leb c 13)

abbrev space2 : ℕ → ℕ → Bool
space2 a b = nat_eq a 0xC2 && (nat_eq b 0x85 || nat_eq b 0xA0)

abbrev space3 : ℕ → ℕ → ℕ → Bool
space3 a b c =
    (nat_eq a 0xE1 && (nat_eq b 0x9A && nat_eq c 0x80))
    || ((nat_eq a 0xE2
          && ((nat_eq b 0x80
                && (leb 0x80 c && leb c 0x8A
                    || (nat_eq c 0xA8 || (nat_eq c 0xA9 || nat_eq c 0xAF))))
              || (nat_eq b 0x81 && nat_eq c 0x9F)))
        || (nat_eq a 0xE3 && (nat_eq b 0x80 && nat_eq c 0x80)))

-- The number of bytes of the white-space rune that a text starts with; 0 if none.
space_at_start : Str → ℕ
space_at_start [] = 0
space_at_start (a ∷ []) = if space1 a then 1 else 0
space_at_start (a ∷ b ∷ []) = if space1 a then 1 else if space2 a b then 2 else 0
space_at_start (a ∷ b ∷ c ∷ _) =
    if space1 a then 1 else if space2 a b then 2 else if space3 a b c then 3 else 0

-- The same for the end of a text that is given in reverse.
space_at_end : Str → ℕ
space_at_end [] = 0
space_at_end (c ∷ []) = if space1 c then 1 else 0
space_at_end (c ∷ b ∷ []) = if space1 c then 1 else if space2 b c then 2 else 0
space_at_end (c ∷ b ∷ a ∷ _) =
    if space1 c then 1 else if space2 b c then 2 else if space3 a b c then 3 else 0

-- Drops runes while `rune` measures one; the number counts the bytes still to skip.
skip_runes : (Str → ℕ) → ℕ → Str → Str
skip_runes rune k [] = []
skip_runes rune (suc k) (c ∷ s) = skip_runes rune k s
skip_runes rune zero (c ∷ s) = elim (rune (c ∷ s)) [ zero ↦ c ∷ s | suc k ↦ skip_runes rune k s ]

unfoldable pub trim_space : Str → Str
unfolding space_at_start space_at_end skip_runes
trim_space s = reverse (skip_runes space_at_end 0 (reverse (skip_runes space_at_start 0 s)))
