-- ===== src/Prelude/Utf8.antt =====
-- How Go ranges over the runes of a string: a valid UTF-8 sequence is one rune, and a byte that
-- starts none is one rune, U+FFFD.
use Prim.Native.Nat.{ℕ, zero, suc, ◌<◌}
use mathlib.Core.Bool.{Bool, ◌&&◌, ◌||◌}
use mathlib.Core.List.{List, [], ◌∷◌, map}
use mathlib.Core.Path.{◌≡◌, refl, ap}
use mathlib.Core.Logic.{inl, inr}
use trello_openclaw_webhook.Prelude.Tests.{Bool-cases, lt→ltb, leb, ltb, nat_eq, if◌then◌else◌}
use trello_openclaw_webhook.Prelude.Lists.{take, All}
use trello_openclaw_webhook.Prelude.Strs.{Str}

abbrev within : ℕ → ℕ → ℕ → Bool
within lo hi b = leb lo b && leb b hi

abbrev continues : ℕ → Bool
continues = within 0x80 0xBF

abbrev starts_three : ℕ → ℕ → Bool
starts_three a b =
    (nat_eq a 0xE0 && within 0xA0 0xBF b)
    || ((nat_eq a 0xED && within 0x80 0x9F b)
        || (((within 0xE1 0xEC a || within 0xEE 0xEF a)) && continues b))

abbrev starts_four : ℕ → ℕ → Bool
starts_four a b =
    (nat_eq a 0xF0 && within 0x90 0xBF b)
    || ((nat_eq a 0xF4 && within 0x80 0x8F b) || (within 0xF1 0xF3 a && continues b))

-- The bytes behind the first that belong to the same rune, for a first byte past ASCII; 0 if
-- the first byte starts no valid sequence.
tail_width : ℕ → Str → ℕ
tail_width a [] = 0
tail_width a (b ∷ []) = if within 0xC2 0xDF a && continues b then 1 else 0
tail_width a (b ∷ c ∷ []) =
    if within 0xC2 0xDF a && continues b
    then 1
    else if starts_three a b && continues c
    then 2
    else 0
tail_width a (b ∷ c ∷ d ∷ _) =
    if within 0xC2 0xDF a && continues b
    then 1
    else if starts_three a b && continues c
    then 2
    else if starts_four a b && (continues c && continues d)
    then 3
    else 0

-- The encoding of the first rune, as `string(r)` writes it back.
rune_at : ℕ → Str → Str
unfolding tail_width
rune_at a s =
    if ltb a 0x80
    then a ∷ []
    else elim (tail_width a s) [ zero ↦ 0xEF ∷ 0xBF ∷ 0xBD ∷ [] | suc k ↦ a ∷ take (suc k) s ]

abbrev rest_of : ℕ → Str → ℕ
rest_of a s = if ltb a 0x80 then 0 else tail_width a s

-- The runes after `skip` more bytes of the current one.
runes_from : ℕ → Str → List Str
unfolding rune_at tail_width
runes_from skip [] = []
runes_from (suc skip) (a ∷ s) = runes_from skip s
runes_from zero (a ∷ s) = rune_at a s ∷ runes_from (rest_of a s) s

-- `[]rune(s)`, each rune by its encoding.
unfoldable pub runes : Str → List Str
unfolding runes_from
runes s = runes_from 0 s

-- The bytes of the runes are bytes of the text, or of the encoding of U+FFFD.
module _ (P : ℕ → Type 0) (h1 : P 0xEF) (h2 : P 0xBF) (h3 : P 0xBD) where
  All-take : (n : ℕ) (s : Str) → All P s → All P (take n s)
  All-take zero s h = tt
  All-take (suc n) [] h = tt
  All-take (suc n) (c ∷ s) (p, h) = (p, All-take n s h)

  All-rune_at : (a : ℕ) (s : Str) → P a → All P s → All P (rune_at a s)
  unfolding rune_at
  All-rune_at a s p h = elim (Bool-cases (ltb a 0x80)) [
    | inl e ↦ rw e (p, tt)
    | inr e ↦ rw e (go (tail_width a s))
  ]
    where
      go : (w : ℕ) → All P (elim w [ zero ↦ 0xEF ∷ 0xBF ∷ 0xBD ∷ [] | suc k ↦ a ∷ take (suc k) s ])
      go zero = (h1, (h2, (h3, tt)))
      go (suc k) = (p, All-take (suc k) s h)

  All-runes_from : (k : ℕ) (s : Str) → All P s → All (All P) (runes_from k s)
  unfolding runes_from
  All-runes_from k [] h = tt
  All-runes_from zero (a ∷ s) (p, h) = (All-rune_at a s p h, All-runes_from (rest_of a s) s h)
  All-runes_from (suc k) (a ∷ s) (p, h) = All-runes_from k s h

  pub All-runes : (s : Str) → All P s → All (All P) (runes s)
  unfolding runes
  All-runes s h = All-runes_from 0 s h

-- An ASCII text has one rune to a byte.
runes_from-ascii : (s : Str) → All (λ c. c < 0x80) s → runes_from 0 s ≡ map (λ c. c ∷ []) s
unfolding runes_from
runes_from-ascii [] h = refl
runes_from-ascii (a ∷ s) (p, h) =
    rw (lt→ltb a 0x80 p, rune_at) (ap (λ l. (a ∷ []) ∷ l) (runes_from-ascii s h))

pub runes-ascii : (s : Str) → All (λ c. c < 0x80) s → runes s ≡ map (λ c. c ∷ []) s
unfolding runes
runes-ascii s h = runes_from-ascii s h
