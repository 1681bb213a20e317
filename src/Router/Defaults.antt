-- ===== src/Router/Defaults.antt =====
-- The default route set of internal/app/router/defaults.go. The functions that the HCL library
-- offers to the expressions (`lower`, `trimspace`, `contains`, `startswith`) are a parameter;
-- `&&`, `||`, `!`, `==` and `anytrue` over a `for` are written out. The expressions read only
-- attributes that are always present, and so they always evaluate to a boolean.
pub mod Table
pub mod Categories
use trello_openclaw_webhook.Prelude.{
  Bool, true, ◌&&◌, ◌||◌, not, some, List, [], ◌∷◌, Str, bytes, ◌==◌, any,
}
use trello_openclaw_webhook.Kanban.Resolve.{Role, no_role, Resolved}
use trello_openclaw_webhook.Router.Engine.{Event, KanbanValue, bool, Route, Engine, new_engine}

pub record HclFuncs : Type 0 where
  pub lower : Str → Str
  pub trimspace : Str → Str
  pub contains : List Str → Str → Bool
  pub startswith : Str → Str → Bool

abbrev role_named : Str → Role
role_named n = record no_role { name = n }

-- `DefaultLegacyKanbanView`
unfoldable pub default_legacy_kanban_view : Resolved
default_legacy_kanban_view = record {
  board_id = [];
  plan = role_named (bytes "Analyze");
  action = role_named (bytes "In action");
  done = role_named (bytes "Done");
  wait = record {
    plan_review = no_role;
    action_review = no_role;
    generic = no_role;
    exception = no_role;
  };
  agent_comment_prefixes = bytes "[agent]:" ∷ [];
  plan_list_ids = [];
  action_list_ids = [];
  wait_list_ids = [];
  done_list_ids = [];
  unclaimed_list_names = [];
}

module _ (f : HclFuncs) where
  abbrev pub is_type : Event → Str → Bool
  is_type ev t = ev.type == t

  -- `contains(ids, id) || contains(lists, lower(name))`
  abbrev pub in_lists : List Str → Str → List Str → Str → Bool
  in_lists ids id lists name = f.contains ids id || f.contains lists (f.lower name)

  abbrev pub agent_prefixed : Event → KanbanValue → Bool
  agent_prefixed ev k = any (λ p. f.startswith (f.trimspace ev.comment) p) k.agent_comment_prefixes

  abbrev route : Str → (Event → KanbanValue → Bool) → Str → Str → Route
  route name when action reason = record {
    name = name;
    when = λ ev k. bool (when ev k);
    action = action;
    reason = reason;
  }

  -- `DefaultRoutesHCL`, decoded
  unfoldable pub default_routes : List Route
  default_routes =
      route (bytes "no_card_id") (λ ev k. ev.card_id == bytes "") (bytes "drop")
        (bytes "no_card_id")
      ∷ route (bytes "invalid_card_id")
          (λ ev k. not (ev.card_id == bytes "") && not ev.card_id_valid) (bytes "drop")
          (bytes "invalid_card_id")
      ∷ route (bytes "updateCard_no_list_move")
          (λ ev k.
            is_type ev (bytes "updateCard")
            && (ev.list_after_id == bytes "" && ev.list_after == bytes ""))
          (bytes "drop") (bytes "updateCard_no_list_move")
      ∷ route (bytes "moved_to_done")
          (λ ev k.
            is_type ev (bytes "updateCard")
            && in_lists k.done_list_ids ev.list_after_id k.done_lists ev.list_after)
          (bytes "terminate") (bytes "moved_to_done")
      ∷ route (bytes "moved_to_plan_list")
          (λ ev k.
            is_type ev (bytes "updateCard")
            && in_lists k.plan_list_ids ev.list_after_id k.plan_lists ev.list_after)
          (bytes "dispatch") (bytes "moved_to_active_list")
      ∷ route (bytes "moved_to_action_list")
          (λ ev k.
            is_type ev (bytes "updateCard")
            && in_lists k.action_list_ids ev.list_after_id k.action_lists ev.list_after)
          (bytes "dispatch") (bytes "moved_to_active_list")
      ∷ route (bytes "moved_to_wait_list")
          (λ ev k.
            is_type ev (bytes "updateCard")
            && (not (ev.list_after_id == bytes "") || not (ev.list_after == bytes "")))
          (bytes "notify_departure") (bytes "moved_to_non_active_list")
      ∷ route (bytes "created_in_plan_list")
          (λ ev k.
            is_type ev (bytes "createCard")
            && in_lists k.plan_list_ids ev.list_id k.plan_lists ev.list_name)
          (bytes "dispatch") (bytes "created_in_active_list")
      ∷ route (bytes "created_in_action_list")
          (λ ev k.
            is_type ev (bytes "createCard")
            && in_lists k.action_list_ids ev.list_id k.action_lists ev.list_name)
          (bytes "dispatch") (bytes "created_in_active_list")
      ∷ route (bytes "created_in_non_active_list") (λ ev k. is_type ev (bytes "createCard"))
          (bytes "drop") (bytes "created_in_non_active_list")
      ∷ route (bytes "agent_self_comment")
          (λ ev k. is_type ev (bytes "commentCard") && agent_prefixed ev k) (bytes "drop")
          (bytes "agent_self_comment")
      ∷ route (bytes "human_comment") (λ ev k. is_type ev (bytes "commentCard")) (bytes "dispatch")
          (bytes "human_comment")
      ∷ route (bytes "card_deleted") (λ ev k. is_type ev (bytes "deleteCard")) (bytes "terminate")
          (bytes "card_deleted")
      ∷ route (bytes "deleteComment_not_handled") (λ ev k. is_type ev (bytes "deleteComment"))
          (bytes "drop") (bytes "deleteComment_not_handled")
      ∷ route (bytes "unsupported_action_type") (λ ev k. true) (bytes "drop")
          (bytes "unsupported_action_type")
      ∷ []

  -- `MustNewDefaultEngine`; `to_lower` is `strings.ToLower`.
  unfoldable pub default_engine : (Str → Str) → Engine
  unfolding default_routes default_legacy_kanban_view new_engine
  default_engine to_lower = new_engine to_lower default_routes (some default_legacy_kanban_view)
