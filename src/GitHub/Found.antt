-- ===== src/GitHub/Found.antt =====
-- What `ParseGitHubIssue` of internal/app/router/funcs_github.go finds.
use mathlib.Core.Path.{subst}
use trello_openclaw_webhook.Prelude.{
  ℕ, suc, ◌+◌, ◌≤◌, ◌≡◌, refl, ap, sym, ◌∙◌, Bool, true, false, ◌||◌, Option, none, some, [], ◌∷◌,
  ◌++◌, Str, bytes, has_prefix, length, arith, inl, inr, ◌⊎◌, append_assoc,
}
use trello_openclaw_webhook.GitHub.{
  GitHubIssue, no_issue, Parts, name_byte, digit, span, after_literal, with_owner, with_scheme,
  find_parts, url_of, issue_of, Parsed, parsed, shifted, parse_from, parse_github_issue,
}
use trello_openclaw_webhook.GitHub.Reading.{IsPart, IsItem, owner_read, after_literal-append}

-- The parts of a URL of an issue or a pull request.
abbrev pub IsUrl : Parts → Type 0
IsUrl m =
    ((m.scheme ≡ bytes "https://github.com/") ⊎ (m.scheme ≡ bytes "http://github.com/"))
    × IsPart name_byte m.owner
    × IsPart name_byte m.repo
    × IsItem m.item
    × IsPart digit m.number

abbrev IsRead : Str → Parts → Type 0
IsRead s m = (rest : Str) × (s ≡ url_of m ++ rest) × IsUrl m

url-append :
    (m : Parts) (rest : Str)
    → m.scheme ++ (m.owner ++ (bytes "/" ++ (m.repo ++ (m.item ++ (m.number ++ rest)))))
      ≡ url_of m ++ rest
url-append m rest = grind (arith, append_assoc)

with_owner-IsRead :
    (scheme s tail : Str) (m : Parts)
    → ((scheme ≡ bytes "https://github.com/") ⊎ (scheme ≡ bytes "http://github.com/"))
    → after_literal scheme s ≡ some tail
    → with_owner scheme (span name_byte tail) ≡ some m
    → IsRead s m
with_owner-IsRead scheme s tail m known found h =
    let (rest, split, owner, repo, item, digits, same) = owner_read scheme tail m h in
    (
      rest,
      after_literal-append scheme s tail found
          ∙ (ap (λ t. scheme ++ t) split
              ∙ (ap
                    (λ c.
                      c ++ (m.owner ++ (bytes "/" ++ (m.repo ++ (m.item ++ (m.number ++ rest))))))
                    (sym same)
                  ∙ url-append m rest)),
      (
        subst (λ c. (c ≡ bytes "https://github.com/") ⊎ (c ≡ bytes "http://github.com/")) (sym same)
            known,
        owner,
        repo,
        item,
        digits,
      ),
    )

with_scheme-IsRead :
    (s : Str) (m : Parts) (https http : Option Str)
    → after_literal (bytes "https://github.com/") s ≡ https
    → after_literal (bytes "http://github.com/") s ≡ http
    → with_scheme https http ≡ some m
    → IsRead s m
with_scheme-IsRead s m (some tail) http found other h =
    with_owner-IsRead (bytes "https://github.com/") s tail m (inl refl) found h
with_scheme-IsRead s m none (some tail) other found h =
    with_owner-IsRead (bytes "http://github.com/") s tail m (inr refl) found h
with_scheme-IsRead s m none none other found h = absurd (ground arith)

find_parts-IsRead : (s : Str) (m : Parts) → find_parts s ≡ some m → IsRead s m
unfolding find_parts
find_parts-IsRead s m h =
    with_scheme-IsRead s m (after_literal (bytes "https://github.com/") s)
      (after_literal (bytes "http://github.com/") s) refl refl h

-- The answer for a text: no issue, or the URL of one that stands in the text.
abbrev pub IsAnswer : Str → GitHubIssue → Type 0
IsAnswer s issue =
    (issue ≡ no_issue)
    ⊎ ((m : Parts) × (front : Str) × (rest : Str) × IsUrl m
        × (issue ≡ issue_of m)
        × (s ≡ front ++ (issue.url ++ rest)))

cons-IsAnswer : (c : ℕ) (s : Str) (issue : GitHubIssue) → IsAnswer s issue → IsAnswer (c ∷ s) issue
cons-IsAnswer c s issue (inl nothing) = inl nothing
cons-IsAnswer c s issue (inr (m, front, rest, url, same, split)) =
    inr (m, c ∷ front, rest, url, same, ap (λ t. c ∷ t) split)

issue_of-IsAnswer :
    (s : Str) (m : Parts) (issue : GitHubIssue)
    → find_parts s ≡ some m
    → issue_of m ≡ issue
    → IsAnswer s issue
issue_of-IsAnswer s m issue found same =
    let (rest, split, url) = find_parts-IsRead s m found in
    inr (m, [], rest, url, sym same, split ∙ ap (λ (g : GitHubIssue). g.url ++ rest) same)

-- The bytes of the text that a lowered text still covers.
abbrev reach : Option Str → ℕ
reach none = 0
reach (some lower) = suc (length lower)

abbrev Answered : Str → Parsed → Type 0
Answered s result = (issue : GitHubIssue) × (result ≡ parsed issue) × IsAnswer s issue

round-Answered :
    (c : ℕ) (s : Str) (later : Parsed) (starts : Bool) (found : Option Parts)
    → find_parts (c ∷ s) ≡ found
    → Answered s later
    → Answered (c ∷ s) (elim starts [
      | false ↦ later
      | true ↦ elim found [ none ↦ later | some m ↦ parsed (issue_of m) ]
    ])
round-Answered c s later false found same (issue, is, answer) =
    (issue, is, cons-IsAnswer c s issue answer)
round-Answered c s later true none same (issue, is, answer) =
    (issue, is, cons-IsAnswer c s issue answer)
round-Answered c s later true (some m) same answered =
    (issue_of m, refl, issue_of-IsAnswer (c ∷ s) m (issue_of m) same refl)

shifted-reach : (s lower : Str) → length s ≤ length lower → length s ≤ reach (shifted lower)
shifted-reach s [] h = h
shifted-reach s (d ∷ lower) h = h

parse_from-IsAnswer :
    (s : Str) (lower : Option Str) → length s ≤ reach lower → Answered s (parse_from s lower)
unfolding parse_from
parse_from-IsAnswer [] lower long = (no_issue, refl, inl refl)
parse_from-IsAnswer (c ∷ s) none long = absurd (omega arith)
parse_from-IsAnswer (c ∷ s) (some lower) long =
    round-Answered c s (parse_from s (shifted lower))
      (has_prefix lower (bytes "https://github.com/")
        || has_prefix lower (bytes "http://github.com/"))
      (find_parts (c ∷ s)) refl
      (parse_from-IsAnswer s (shifted lower) (shifted-reach s lower (omega arith)))

-- Where lowering a text does not take more than one byte off it, the parser returns: nothing, or
-- the parts of a URL of an issue or a pull request that stands in the text, with non-empty names
-- of the allowed bytes and a number of digits.
pub parse_github_issue-IsAnswer :
    (to_lower : Str → Str) (s : Str)
    → length s ≤ 1 + length (to_lower s)
    → (issue : GitHubIssue) × (parse_github_issue to_lower s ≡ parsed issue) × IsAnswer s issue
unfolding parse_github_issue
parse_github_issue-IsAnswer to_lower s long =
    parse_from-IsAnswer s (some (to_lower s)) (omega arith)
