-- ===== src/Router/Defaults/Categories.antt =====
-- The default routes of internal/app/router/defaults.go against the list categories of
-- internal/app/kanban/kanban.go.
use trello_openclaw_webhook.Prelude.{◌≡◌, ◌≢◌, true, some, [], Str, bytes, contains}
use trello_openclaw_webhook.Kanban.Resolve.{Resolved}
use trello_openclaw_webhook.Kanban.Category.{Category}
use trello_openclaw_webhook.Router.Engine.{Event, build_kanban_value, KanbanValue}
use trello_openclaw_webhook.Router.Defaults.{HclFuncs}

-- What a card that moves into a list of the category asks for.
abbrev pub action_of : Category → Str
action_of Category.done = bytes "terminate"
action_of Category.plan = bytes "dispatch"
action_of Category.action = bytes "dispatch"
action_of Category.wait = bytes "notify_departure"
action_of Category.unknown = bytes "notify_departure"

-- A move of a valid card to a list that the payload gives by its id, and perhaps by its name as
-- well: a name that is a role's comes with an id of that role.
pub record IsListMove (f : HclFuncs) (k : KanbanValue) (ev : Event) : Type 0 where
  pub card : ev.card_id ≢ []
  pub valid : ev.card_id_valid ≡ true
  pub update : ev.type ≡ bytes "updateCard"
  pub to : ev.list_after_id ≢ []
  pub plan_named :
      f.contains k.plan_lists (f.lower ev.list_after) ≡ true
      → f.contains k.plan_list_ids ev.list_after_id ≡ true
  pub action_named :
      f.contains k.action_lists (f.lower ev.list_after) ≡ true
      → f.contains k.action_list_ids ev.list_after_id ≡ true
  pub done_named :
      f.contains k.done_lists (f.lower ev.list_after) ≡ true
      → f.contains k.done_list_ids ev.list_after_id ≡ true

module _ (to_lower : Str → Str) (f : HclFuncs) (r : Resolved) (ev : Event) where
  abbrev value : KanbanValue
  value = build_kanban_value to_lower (some r)
