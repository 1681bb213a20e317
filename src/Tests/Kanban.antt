-- ===== src/Tests/Kanban.antt =====
-- Runs of the kanban modules on a board.
use trello_openclaw_webhook.Prelude.{
  ℕ, ◌+◌, ◌≤◌, ◌<◌, ◌≡◌, ◌≢◌, ◌↔◌, refl, true, List, [], ◌∷◌, none, some, Str, bytes, arith, leb,
  if◌then◌else◌, map, ◌&&◌,
}
use trello_openclaw_webhook.Kanban.Config.{Config, role_names, validate}
use trello_openclaw_webhook.Kanban.Config.Unique.{Distinct, validate_iff}
use trello_openclaw_webhook.Kanban.Resolve.{Resolved, BoardList, resolve, resolved}
use trello_openclaw_webhook.Kanban.Resolve.Roles.{IsMatched, resolve-IsMatched}
use trello_openclaw_webhook.Kanban.Category.{is_agent_comment}
use trello_openclaw_webhook.Kanban.Category.Totality.{IsCategorised, resolve-category}
use trello_openclaw_webhook.Kanban.PromptVars.{default_agent_comment_prefix}
use trello_openclaw_webhook.Kanban.PromptVars.Prefixes.{is_agent_comment-default_prefix}
use mathlib.Core.List.{Memᴰ}

-- ASCII letters.
abbrev pub lower_byte : ℕ → ℕ
lower_byte c = if leb 65 c && leb c 90 then c + 32 else c

abbrev pub lower : Str → Str
lower s = map lower_byte s

abbrev pub config : Config
config = record {
  plan = bytes "Plan";
  action = bytes "In action";
  done = bytes "Done";
  wait = record {
    plan_review = bytes "Plan review";
    action_review = bytes "Action review";
    generic = bytes "Wait";
    exception = bytes "Exception";
  };
  agent_comment_prefixes = bytes "[agent]:" ∷ [];
}

abbrev pub board_lists : List BoardList
board_lists =
    record { id = bytes "l1"; name = bytes " plan" }
    ∷ record { id = bytes "l2"; name = bytes "In Action" }
    ∷ record { id = bytes "l3"; name = bytes "Done" }
    ∷ record { id = bytes "l4"; name = bytes "Plan Review" }
    ∷ record { id = bytes "l5"; name = bytes "Action Review" }
    ∷ record { id = bytes "l6"; name = bytes "Wait" }
    ∷ record { id = bytes "l7"; name = bytes "Exception" }
    ∷ record { id = bytes "l8"; name = bytes "Backlog" }
    ∷ []

-- The resolution of `config` on `board_lists`.
abbrev pub board : Resolved
board = record {
  board_id = bytes "b";
  plan = record { name = bytes "Plan"; id = bytes "l1" };
  action = record { name = bytes "In action"; id = bytes "l2" };
  done = record { name = bytes "Done"; id = bytes "l3" };
  wait = record {
    plan_review = record { name = bytes "Plan review"; id = bytes "l4" };
    action_review = record { name = bytes "Action review"; id = bytes "l5" };
    generic = record { name = bytes "Wait"; id = bytes "l6" };
    exception = record { name = bytes "Exception"; id = bytes "l7" };
  };
  agent_comment_prefixes = bytes "[agent]:" ∷ [];
  plan_list_ids = bytes "l1" ∷ [];
  action_list_ids = bytes "l2" ∷ [];
  wait_list_ids = bytes "l4" ∷ bytes "l5" ∷ bytes "l6" ∷ bytes "l7" ∷ bytes "l8" ∷ [];
  done_list_ids = bytes "l3" ∷ [];
  unclaimed_list_names = bytes "Backlog" ∷ [];
}

abbrev backlog : BoardList
backlog = record { id = bytes "l8"; name = bytes "Backlog" }

board-resolved : resolve lower (bytes "b") config board_lists ≡ resolved board
unfolding resolve trello_openclaw_webhook.Prelude.◌==◌ trello_openclaw_webhook.Prelude.trim_space
    trello_openclaw_webhook.Prelude.lookup trello_openclaw_webhook.Prelude.insert
    trello_openclaw_webhook.Prelude.contains
board-resolved = refl

validate_iff_example : (validate lower config ≡ none) ↔ Distinct lower (role_names config)
validate_iff_example = validate_iff lower config

resolve-IsMatched_example :
    IsMatched lower board_lists config.plan board.plan
    × IsMatched lower board_lists config.action board.action
    × IsMatched lower board_lists config.wait.plan_review board.wait.plan_review
    × IsMatched lower board_lists config.wait.action_review board.wait.action_review
    × IsMatched lower board_lists config.wait.generic board.wait.generic
    × IsMatched lower board_lists config.wait.exception board.wait.exception
    × IsMatched lower board_lists config.done board.done
resolve-IsMatched_example =
    resolve-IsMatched lower (bytes "b") config board_lists board board-resolved

resolve-category_example : IsCategorised board backlog.id
resolve-category_example =
    resolve-category lower (bytes "b") config board_lists board backlog board-resolved
      (Memᴰ.tail
        (Memᴰ.tail (Memᴰ.tail (Memᴰ.tail (Memᴰ.tail (Memᴰ.tail (Memᴰ.tail (Memᴰ.head refl))))))))
      (λ e. absurd (ground arith))

is_agent_comment-default_prefix_example :
    is_agent_comment (some board) (bytes " [agent]: done") ≡ true
unfolding default_agent_comment_prefix trello_openclaw_webhook.Prelude.◌==◌
    trello_openclaw_webhook.Prelude.trim_space trello_openclaw_webhook.Prelude.has_prefix
is_agent_comment-default_prefix_example =
    is_agent_comment-default_prefix board (bytes " [agent]: done") (λ e. absurd (ground arith)) refl

abbrev unprefixed : Resolved
unprefixed = record board { agent_comment_prefixes = [] ∷ [] }
