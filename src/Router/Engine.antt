-- ===== src/Router/Engine.antt =====
-- internal/app/router/engine.go: the first matching `route {}` block decides.
pub mod FirstMatch
use trello_openclaw_webhook.Prelude.{
  Bool, true, false, Option, none, some, List, [], ◌∷◌, ◌++◌, map, Str, bytes, trim_space,
}
use trello_openclaw_webhook.Kanban.Resolve.{Resolved}

-- The `action.*` values of an expression.
pub record Event : Type 0 where
  pub type : Str
  pub card_id : Str
  pub card_id_valid : Bool
  pub list_after : Str
  pub list_after_id : Str
  pub list_name : Str
  pub list_id : Str
  pub comment : Str

-- The `kanban.*` values of an expression; a role is its name.
pub record KanbanValue : Type 0 where
  pub plan_lists : List Str
  pub action_lists : List Str
  pub wait_lists : List Str
  pub done_lists : List Str
  pub plan_list_ids : List Str
  pub action_list_ids : List Str
  pub wait_list_ids : List Str
  pub done_list_ids : List Str
  pub agent_comment_prefixes : List Str
  pub plan : Str
  pub action : Str
  pub done : Str
  pub plan_review : Str
  pub action_review : Str
  pub generic : Str
  pub exception : Str

-- What an expression evaluates to: an error, null or a value that is no boolean, or a boolean.
pub data WhenResult : Type 0 where
  eval_error not_bool : WhenResult
  bool : Bool → WhenResult

pub record Route : Type 0 where
  pub name : Str
  pub when : Event → KanbanValue → WhenResult
  pub action : Str
  pub reason : Str

-- `action` is the `Do` token.
pub record Decision : Type 0 where
  pub route : Str
  pub action : Str
  pub reason : Str

pub data EngineLog : Type 0 where
  route_when_eval_error : (rule : Str) → EngineLog
  router_no_route_matched : (action_type card_id : Str) → EngineLog

pub record Engine : Type 0 where
  pub routes : List Route
  pub kanban : KanbanValue

abbrev pub no_match : Decision
no_match = record { route = []; action = bytes "drop"; reason = bytes "router_no_route_matched" }

abbrev pub decided : Route → Decision
decided r = record { route = r.name; action = r.action; reason = r.reason }

-- One round of the loop: a rule that does not evaluate to a boolean is logged and skipped.
abbrev pub skip_route : Route → Decision × List EngineLog → Decision × List EngineLog
skip_route r (d, logs) = (d, route_when_eval_error r.name ∷ logs)

unfoldable pub evaluate_routes : KanbanValue → Event → List Route → Decision × List EngineLog
evaluate_routes kanban ev [] = (no_match, router_no_route_matched ev.type ev.card_id ∷ [])
evaluate_routes kanban ev (r ∷ rs) =
    let rest = evaluate_routes kanban ev rs in
    elim (r.when ev kanban) [
      | eval_error ↦ skip_route r rest
      | not_bool ↦ skip_route r rest
      | bool b ↦ elim b [ true ↦ (decided r, []) | false ↦ rest ]
    ]

-- `Evaluate`, with the lines that it logs.
unfoldable pub evaluate : Engine → Event → Decision × List EngineLog
unfolding evaluate_routes
evaluate e ev = evaluate_routes e.kanban ev e.routes

abbrev pub empty_value : KanbanValue
empty_value = record {
  plan_lists = [];
  action_lists = [];
  wait_lists = [];
  done_lists = [];
  plan_list_ids = [];
  action_list_ids = [];
  wait_list_ids = [];
  done_list_ids = [];
  agent_comment_prefixes = [];
  plan = [];
  action = [];
  done = [];
  plan_review = [];
  action_review = [];
  generic = [];
  exception = [];
}

module _ (to_lower : Str → Str) where
  unfoldable pub normalise_list_name : Str → Str
  normalise_list_name s = to_lower (trim_space s)

  -- A nil view is `none`.
  unfoldable pub build_kanban_value : Option Resolved → KanbanValue
  unfolding normalise_list_name
  build_kanban_value none = empty_value
  build_kanban_value (some view) = record {
    plan_lists = normalise_list_name view.plan.name ∷ [];
    action_lists = normalise_list_name view.action.name ∷ [];
    wait_lists =
        (normalise_list_name view.wait.plan_review.name
          ∷ normalise_list_name view.wait.action_review.name
          ∷ normalise_list_name view.wait.generic.name
          ∷ normalise_list_name view.wait.exception.name
          ∷ [])
        ++ map normalise_list_name view.unclaimed_list_names;
    done_lists = normalise_list_name view.done.name ∷ [];
    plan_list_ids = view.plan_list_ids;
    action_list_ids = view.action_list_ids;
    wait_list_ids = view.wait_list_ids;
    done_list_ids = view.done_list_ids;
    agent_comment_prefixes = view.agent_comment_prefixes;
    plan = view.plan.name;
    action = view.action.name;
    done = view.done.name;
    plan_review = view.wait.plan_review.name;
    action_review = view.wait.action_review.name;
    generic = view.wait.generic.name;
    exception = view.wait.exception.name;
  }

  unfoldable pub new_engine : List Route → Option Resolved → Engine
  unfolding build_kanban_value
  new_engine routes view = record { routes = routes; kanban = build_kanban_value view }
