-- ===== src/Kanban/PromptVars.antt =====
-- internal/app/kanban/promptvars.go: the template variables of a resolved view.
pub mod Prefixes
use trello_openclaw_webhook.Prelude.{
  Option, none, some, List, [], ◌∷◌, Str, bytes, ◌==◌, if◌then◌else◌, join,
}
use trello_openclaw_webhook.Kanban.Resolve.{Resolved}

unfoldable pub first_non_empty : List Str → Str
first_non_empty [] = []
first_non_empty (x ∷ xs) = let rest = first_non_empty xs in if x == bytes "" then rest else x

unfoldable pub default_agent_comment_prefix : Option Resolved → Str
unfolding first_non_empty
default_agent_comment_prefix none = []
default_agent_comment_prefix (some r) = first_non_empty r.agent_comment_prefixes

abbrev pub prompt_var_join_sep : Str
prompt_var_join_sep = bytes ", "

unfoldable pub prompt_vars : Option Resolved → List (Str × Str)
unfolding default_agent_comment_prefix
prompt_vars none = []
prompt_vars (some r) =
    (bytes "kanban.board.id", r.board_id)
    ∷ (bytes "kanban.plan.id", r.plan.id)
    ∷ (bytes "kanban.plan.name", r.plan.name)
    ∷ (bytes "kanban.action.id", r.action.id)
    ∷ (bytes "kanban.action.name", r.action.name)
    ∷ (bytes "kanban.done.id", r.done.id)
    ∷ (bytes "kanban.done.name", r.done.name)
    ∷ (bytes "kanban.wait.plan_review.id", r.wait.plan_review.id)
    ∷ (bytes "kanban.wait.plan_review.name", r.wait.plan_review.name)
    ∷ (bytes "kanban.wait.action_review.id", r.wait.action_review.id)
    ∷ (bytes "kanban.wait.action_review.name", r.wait.action_review.name)
    ∷ (bytes "kanban.wait.generic.id", r.wait.generic.id)
    ∷ (bytes "kanban.wait.generic.name", r.wait.generic.name)
    ∷ (bytes "kanban.wait.exception.id", r.wait.exception.id)
    ∷ (bytes "kanban.wait.exception.name", r.wait.exception.name)
    ∷ (bytes "kanban.plan.list_ids", join r.plan_list_ids prompt_var_join_sep)
    ∷ (bytes "kanban.action.list_ids", join r.action_list_ids prompt_var_join_sep)
    ∷ (bytes "kanban.wait.list_ids", join r.wait_list_ids prompt_var_join_sep)
    ∷ (bytes "kanban.done.list_ids", join r.done_list_ids prompt_var_join_sep)
    ∷ (bytes "kanban.agent_comment_prefix", default_agent_comment_prefix (some r))
    ∷ (bytes "kanban.agent_comment_prefixes", join r.agent_comment_prefixes prompt_var_join_sep)
    ∷ []
