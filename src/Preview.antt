-- ===== src/Preview.antt =====
-- `preview` of internal/app/session_logger.go: one line of bounded length for logs and the TUI.
use trello_openclaw_webhook.Prelude.{
  ℕ, ◌≢◌, ◌||◌, List, [], ◌∷◌, ◌++◌, map, arith, Str, bytes, leb, nat_eq, length, take,
  if◌then◌else◌, All, All-append, runes, All-runes, ◌==◌, Bool-cases, inl, inr, zero, suc,
}

abbrev spaced : ℕ → ℕ
spaced c = if nat_eq c 10 || (nat_eq c 13 || nat_eq c 9) then 32 else c

concat : List Str → Str
concat [] = []
concat (r ∷ rs) = r ++ concat rs

unfoldable pub preview : Str → ℕ → Str
unfolding concat
preview s max_runes =
    if s == bytes ""
    then bytes ""
    else let cleaned = map spaced s in
      if leb (length (runes cleaned)) max_runes
      then cleaned
      else concat (take max_runes (runes cleaned)) ++ bytes "..."

-- No line feed, carriage return or tab.
abbrev pub IsInLine : ℕ → Type 0
IsInLine c = (c ≢ 10) × (c ≢ 13) × (c ≢ 9)

spaced-IsInLine : (s : Str) → All IsInLine (map spaced s)
spaced-IsInLine [] = tt
spaced-IsInLine (c ∷ s) = ((ground arith, ground arith, ground arith), spaced-IsInLine s)

concat-take : (n : ℕ) (rs : List Str) → All (All IsInLine) rs → All IsInLine (concat (take n rs))
unfolding concat
concat-take zero rs h = tt
concat-take (suc n) [] h = tt
concat-take (suc n) (r ∷ rs) (p, h) =
    All-append IsInLine r (concat (take n rs)) p (concat-take n rs h)

-- A preview stays on one line: it holds no line feed, carriage return or tab.
pub preview-IsInLine : (s : Str) (max_runes : ℕ) → All IsInLine (preview s max_runes)
unfolding preview
preview-IsInLine s max_runes =
    let cleaned = spaced-IsInLine s in
    elim (Bool-cases (s == bytes "")) [
      | inl e ↦ rw e tt
      | inr e ↦ rw e (elim (Bool-cases (leb (length (runes (map spaced s))) max_runes)) [
        | inl f ↦ rw f cleaned
        | inr f ↦ rw f (
            All-append IsInLine _ (bytes "...")
              (concat-take max_runes _
                (All-runes IsInLine (omega arith) (omega arith) (omega arith) _ cleaned))
              (omega arith))
      ])
    ]
