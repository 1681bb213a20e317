-- ===== src/Tests/GitHub.antt =====
-- Runs of the parser of GitHub links.
use trello_openclaw_webhook.Prelude.{arith, ◌≡◌, refl, [], ◌∷◌, Str, bytes, ◌==◌, if◌then◌else◌}
use trello_openclaw_webhook.GitHub.{GitHubIssue, parse_github_issue, parsed, panicked}
use trello_openclaw_webhook.GitHub.Found.{parse_github_issue-IsAnswer, IsAnswer}
use trello_openclaw_webhook.Tests.Kanban.{lower}

abbrev text : Str
text = bytes "see https://github.com/a/b-c/pull/12!"

abbrev pull_request : GitHubIssue
pull_request = record {
  owner = bytes "a";
  repo = bytes "b-c";
  number = bytes "12";
  kind = bytes "pr";
  url = bytes "https://github.com/a/b-c/pull/12";
}

parse_runs : parse_github_issue lower text ≡ parsed pull_request
unfolding parse_github_issue ◌==◌
parse_runs = refl

parse_github_issue-IsAnswer_example :
    (issue : GitHubIssue) × (parse_github_issue lower text ≡ parsed issue) × IsAnswer text issue
parse_github_issue-IsAnswer_example = parse_github_issue-IsAnswer lower text (omega arith)

-- The Kelvin sign U+212A has three bytes, and the letter that it is lowered to has one.
abbrev kelvin : Str
kelvin = 0xE2 ∷ 0x84 ∷ 0xAA ∷ []

abbrev lower_kelvin : Str → Str
lower_kelvin s = if s == kelvin then bytes "k" else lower s

kelvin_panics : parse_github_issue lower_kelvin kelvin ≡ panicked
unfolding parse_github_issue ◌==◌
kelvin_panics = refl
