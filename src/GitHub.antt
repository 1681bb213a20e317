-- ===== src/GitHub.antt =====
-- internal/app/router/funcs_github.go and internal/app/card_classification.go: the first GitHub
-- issue or pull request that a text names. strings.ToLower is a parameter.
pub mod Reading
pub mod Found
use trello_openclaw_webhook.Prelude.{
  ℕ, Bool, true, false, not, ◌&&◌, ◌||◌, Option, none, some, [], ◌∷◌, ◌++◌, Str, bytes, ◌==◌,
  nat_eq, leb, if◌then◌else◌, has_prefix,
}

pub record GitHubIssue : Type 0 where
  pub owner : Str
  pub repo : Str
  pub number : Str
  pub kind : Str
  pub url : Str

abbrev pub no_issue : GitHubIssue
no_issue = record { owner = []; repo = []; number = []; kind = []; url = [] }

-- `Present`
unfoldable pub present : GitHubIssue → Bool
present g = not (g.owner == []) && not (g.repo == [])

-- `[A-Za-z0-9._-]` and `\d`
unfoldable pub name_byte : ℕ → Bool
name_byte c =
    (leb b'A' c && leb c b'Z')
    || ((leb b'a' c && leb c b'z')
        || ((leb b'0' c && leb c b'9') || (nat_eq c b'.' || (nat_eq c b'_' || nat_eq c b'-'))))

unfoldable pub digit : ℕ → Bool
digit c = leb b'0' c && leb c b'9'

-- The longest front whose bytes pass a test, and the rest.
abbrev pub cons_front : ℕ → Str × Str → Str × Str
cons_front c (front, rest) = (c ∷ front, rest)

unfoldable pub span : (ℕ → Bool) → Str → Str × Str
span test [] = ([], [])
span test (c ∷ s) = let longer = span test s in if test c then cons_front c longer else ([], c ∷ s)

-- What follows a literal.
unfoldable pub after_literal : (literal : Str) → Str → Option Str
after_literal [] s = some s
after_literal (a ∷ literal) [] = none
after_literal (a ∷ literal) (b ∷ s) = if nat_eq a b then after_literal literal s else none

-- `githubURLPattern` from its start. No class of it holds the byte that ends it, so the longest
-- match of each part is the only one.
pub record Parts : Type 0 where
  pub scheme : Str
  pub owner : Str
  pub repo : Str
  pub item : Str
  pub number : Str

abbrev pub with_number : (scheme owner repo item : Str) → Str × Str → Option Parts
with_number scheme owner repo item (number, rest) =
    if number == []
    then none
    else some (record { scheme = scheme; owner = owner; repo = repo; item = item; number = number })

abbrev pub with_item : (scheme owner repo : Str) → (issue pull : Option Str) → Option Parts
with_item scheme owner repo (some rest) pull =
    with_number scheme owner repo (bytes "/issues/") (span digit rest)
with_item scheme owner repo none (some rest) =
    with_number scheme owner repo (bytes "/pull/") (span digit rest)
with_item scheme owner repo none none = none

abbrev pub with_repo : (scheme owner : Str) → Str × Str → Option Parts
with_repo scheme owner (repo, rest) =
    if repo == []
    then none
    else with_item scheme owner repo (after_literal (bytes "/issues/") rest)
        (after_literal (bytes "/pull/") rest)

abbrev pub after_owner : (scheme owner : Str) → Option Str → Option Parts
after_owner scheme owner none = none
after_owner scheme owner (some rest) = with_repo scheme owner (span name_byte rest)

abbrev pub with_owner : (scheme : Str) → Str × Str → Option Parts
with_owner scheme (owner, rest) =
    if owner == [] then none else after_owner scheme owner (after_literal (bytes "/") rest)

abbrev pub with_scheme : (https http : Option Str) → Option Parts
with_scheme (some rest) http = with_owner (bytes "https://github.com/") (span name_byte rest)
with_scheme none (some rest) = with_owner (bytes "http://github.com/") (span name_byte rest)
with_scheme none none = none

unfoldable pub find_parts : Str → Option Parts
unfolding after_literal span name_byte digit
find_parts s =
    with_scheme (after_literal (bytes "https://github.com/") s)
      (after_literal (bytes "http://github.com/") s)

-- `m[0]`
abbrev pub url_of : Parts → Str
url_of m = m.scheme ++ (m.owner ++ (bytes "/" ++ (m.repo ++ (m.item ++ m.number))))

abbrev pub issue_of : Parts → GitHubIssue
issue_of m = record {
  owner = m.owner;
  repo = m.repo;
  number = m.number;
  kind = if m.item == bytes "/pull/" then bytes "pr" else bytes "issue";
  url = url_of m;
}

-- `panicked` is a slice `lower[i:]` with `i` beyond the end of `lower`.
pub data Parsed : Type 0 where
  panicked : Parsed
  parsed : GitHubIssue → Parsed

abbrev pub shifted : Str → Option Str
shifted [] = none
shifted (c ∷ lower) = some lower

-- The loop over `i`: `s[i:]`, and `lower[i:]` where it exists.
unfoldable pub parse_from : Str → Option Str → Parsed
unfolding find_parts has_prefix
parse_from [] lower = parsed no_issue
parse_from (c ∷ s) none = panicked
parse_from (c ∷ s) (some lower) =
    elim (has_prefix lower (bytes "https://github.com/")
      || has_prefix lower (bytes "http://github.com/")) [
        | false ↦ parse_from s (shifted lower)
        | true ↦ elim (find_parts (c ∷ s)) [
          | none ↦ parse_from s (shifted lower)
          | some m ↦ parsed (issue_of m)
        ]
      ]

unfoldable pub parse_github_issue : (to_lower : Str → Str) → Str → Parsed
unfolding parse_from
parse_github_issue to_lower s = parse_from s (some (to_lower s))

pub record CardClassification : Type 0 where
  pub rule_name : Str
  pub github : GitHubIssue

abbrev pub classified : Parsed → Option CardClassification
classified panicked = none
classified (parsed issue) =
    some (record { rule_name = []; github = if present issue then issue else no_issue })

-- `classifyGitHubRef`; `none` is a panic.
unfoldable pub classify_git_hub_ref :
    (to_lower : Str → Str) → (first_line : Str) → Option CardClassification
unfolding parse_github_issue present
classify_git_hub_ref to_lower first_line = classified (parse_github_issue to_lower first_line)
