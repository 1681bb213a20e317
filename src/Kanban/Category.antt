-- ===== src/Kanban/Category.antt =====
-- The category of a list in internal/app/kanban/kanban.go, and its agent comments.
pub mod Totality
use trello_openclaw_webhook.Prelude.{
  Bool, true, false, ◌||◌, Option, none, some, List, [], ◌∷◌, Str, bytes, ◌==◌, if◌then◌else◌,
  trim_space, contains, has_prefix,
}
use trello_openclaw_webhook.Kanban.Config.{normalise_name}
use trello_openclaw_webhook.Kanban.Resolve.{Resolved}

pub data Category : Type 0 where
  unknown plan action wait done : Category

-- A nil view is `none`.
unfoldable pub category_for_list_id : Option Resolved → Str → Category
category_for_list_id none id = unknown
category_for_list_id (some r) id =
    if id == bytes ""
    then unknown
    else if contains r.plan_list_ids id
    then plan
    else if contains r.action_list_ids id
    then action
    else if contains r.done_list_ids id
    then done
    else if contains r.wait_list_ids id
    then wait
    else unknown

-- `IsAgentComment`
unfoldable pub has_agent_prefix : List Str → Str → Bool
has_agent_prefix [] trimmed = false
has_agent_prefix (p ∷ ps) trimmed =
    let rest = has_agent_prefix ps trimmed in
    if p == bytes "" then rest else if has_prefix trimmed p then true else rest

unfoldable pub is_agent_comment : Option Resolved → Str → Bool
unfolding has_agent_prefix
is_agent_comment none text = false
is_agent_comment (some r) text = has_agent_prefix r.agent_comment_prefixes (trim_space text)

module _ (to_lower : Str → Str) where
  -- The names of the unclaimed lists, matched by the normalised name.
  any_named : Str → List Str → Bool
  any_named key [] = false
  any_named key (n ∷ ns) = normalise_name to_lower n == key || any_named key ns

  unfoldable pub category_for_list_name : Option Resolved → Str → Category
  unfolding any_named normalise_name
  category_for_list_name none name = unknown
  category_for_list_name (some r) name =
      let key : Str = normalise_name to_lower name in
      let is : Str → Bool = λ n. key == normalise_name to_lower n in
      if trim_space name == bytes ""
      then unknown
      else if is r.plan.name
      then plan
      else if is r.action.name
      then action
      else if is r.done.name
      then done
      else if is r.wait.plan_review.name
          || (is r.wait.action_review.name || (is r.wait.generic.name || is r.wait.exception.name))
      then wait
      else if any_named key r.unclaimed_list_names
      then wait
      else unknown
