-- ===== src/Router/Defaults/Table.antt =====
-- The decision table of the default routes of internal/app/router/defaults.go.
use trello_openclaw_webhook.Prelude.{
  ◌≡◌, ◌∙◌, refl, Bool, true, false, ◌&&◌, ◌||◌, not, String, List, [], ◌∷◌, arith, bytes, ◌==◌,
  if◌then◌else◌,
}
use trello_openclaw_webhook.Router.Engine.{
  Event, KanbanValue, WhenResult, eval_error, not_bool, bool, Route, Decision, no_match, decided,
  evaluate_routes, evaluate,
}
use trello_openclaw_webhook.Router.Defaults.{HclFuncs, in_lists, agent_prefixed, default_routes}

abbrev pub act : String → String → String → Decision
act route action reason = record {
  route = bytes route;
  action = bytes action;
  reason = bytes reason;
}

module _ (f : HclFuncs) (k : KanbanValue) (ev : Event) where
  -- A card has moved: done comes before plan, and plan before action; any other list is a departure.
  abbrev pub moved : Decision
  moved =
      if ev.list_after_id == bytes "" && ev.list_after == bytes ""
      then act "updateCard_no_list_move" "drop" "updateCard_no_list_move"
      else if in_lists f k.done_list_ids ev.list_after_id k.done_lists ev.list_after
      then act "moved_to_done" "terminate" "moved_to_done"
      else if in_lists f k.plan_list_ids ev.list_after_id k.plan_lists ev.list_after
      then act "moved_to_plan_list" "dispatch" "moved_to_active_list"
      else if in_lists f k.action_list_ids ev.list_after_id k.action_lists ev.list_after
      then act "moved_to_action_list" "dispatch" "moved_to_active_list"
      else act "moved_to_wait_list" "notify_departure" "moved_to_non_active_list"

  abbrev pub created : Decision
  created =
      if in_lists f k.plan_list_ids ev.list_id k.plan_lists ev.list_name
      then act "created_in_plan_list" "dispatch" "created_in_active_list"
      else if in_lists f k.action_list_ids ev.list_id k.action_lists ev.list_name
      then act "created_in_action_list" "dispatch" "created_in_active_list"
      else act "created_in_non_active_list" "drop" "created_in_non_active_list"

  abbrev pub commented : Decision
  commented =
      if agent_prefixed f ev k
      then act "agent_self_comment" "drop" "agent_self_comment"
      else act "human_comment" "dispatch" "human_comment"

  -- What the default routes decide, by the card id, then by the type of the event.
  abbrev pub table : Decision
  table =
      if ev.card_id == bytes ""
      then act "no_card_id" "drop" "no_card_id"
      else if not ev.card_id_valid
      then act "invalid_card_id" "drop" "invalid_card_id"
      else if ev.type == bytes "updateCard"
      then moved
      else if ev.type == bytes "createCard"
      then created
      else if ev.type == bytes "commentCard"
      then commented
      else if ev.type == bytes "deleteCard"
      then act "card_deleted" "terminate" "card_deleted"
      else if ev.type == bytes "deleteComment"
      then act "deleteComment_not_handled" "drop" "deleteComment_not_handled"
      else act "unsupported_action_type" "drop" "unsupported_action_type"

  abbrev is_true : WhenResult → Bool
  is_true eval_error = false
  is_true not_bool = false
  is_true (bool b) = b

  abbrev first : List Route → Decision
  first [] = no_match
  first (r ∷ rs) = if is_true (r.when ev k) then decided r else first rs

  evaluate_routes-first : (rs : List Route) → (evaluate_routes k ev rs).0 ≡ first rs
  unfolding evaluate_routes
  evaluate_routes-first [] = refl
  evaluate_routes-first (r ∷ rs) = ground (arith, evaluate_routes-first rs)

-- The ladder of the routes as a ladder over the kinds of event: the last route for a kind takes
-- whatever those before it leave.
module _ {A : Type 0} (d1 d2 d3 d4 d5 d6 d7 d8 d9 d10 d11 d12 d13 d14 d15 : A) where
  ladder_moved :
      (e1 e2 D P Q : Bool) (z : A)
      → (if e1 && e2
          then d3
          else if D
          then d4
          else if P
          then d5
          else if Q
          then d6
          else if not e1 || not e2
          then d7
          else z)
        ≡ (if e1 && e2 then d3 else if D then d4 else if P then d5 else if Q then d6 else d7)
  ladder_moved e1 e2 D P Q z = ground arith

  ladder :
      (none' valid u c m x y e1 e2 D P Q CP CQ G : Bool)
      → (if none'
          then d1
          else if not none' && not valid
          then d2
          else if u && (e1 && e2)
          then d3
          else if u && D
          then d4
          else if u && P
          then d5
          else if u && Q
          then d6
          else if u && (not e1 || not e2)
          then d7
          else if c && CP
          then d8
          else if c && CQ
          then d9
          else if c
          then d10
          else if m && G
          then d11
          else if m
          then d12
          else if x
          then d13
          else if y
          then d14
          else d15)
        ≡ (if none'
            then d1
            else if not valid
            then d2
            else if u
            then (if e1 && e2 then d3 else if D then d4 else if P then d5 else if Q then d6 else d7)
            else if c
            then (if CP then d8 else if CQ then d9 else d10)
            else if m
            then (if G then d11 else d12)
            else if x
            then d13
            else if y
            then d14
            else d15)
  ladder true valid u c m x y e1 e2 D P Q CP CQ G = refl
  ladder false false u c m x y e1 e2 D P Q CP CQ G = refl
  ladder false true true c m x y e1 e2 D P Q CP CQ G = ladder_moved e1 e2 D P Q _
  ladder false true false true m x y e1 e2 D P Q CP CQ G = refl
  ladder false true false false true x y e1 e2 D P Q CP CQ G = refl
  ladder false true false false false x y e1 e2 D P Q CP CQ G = refl

module _ (f : HclFuncs) (k : KanbanValue) (ev : Event) where
  default_routes-table : (evaluate_routes k ev (default_routes f)).0 ≡ table f k ev
  unfolding default_routes
  default_routes-table =
      evaluate_routes-first f k ev (default_routes f)
      ∙ ladder _ _ _ _ _ _ _ _ _ _ _ _ _ _ _ (ev.card_id == bytes "") ev.card_id_valid
          (ev.type == bytes "updateCard") (ev.type == bytes "createCard")
          (ev.type == bytes "commentCard") (ev.type == bytes "deleteCard")
          (ev.type == bytes "deleteComment") (ev.list_after_id == bytes "")
          (ev.list_after == bytes "")
          (in_lists f k.done_list_ids ev.list_after_id k.done_lists ev.list_after)
          (in_lists f k.plan_list_ids ev.list_after_id k.plan_lists ev.list_after)
          (in_lists f k.action_list_ids ev.list_after_id k.action_lists ev.list_after)
          (in_lists f k.plan_list_ids ev.list_id k.plan_lists ev.list_name)
          (in_lists f k.action_list_ids ev.list_id k.action_lists ev.list_name)
          (agent_prefixed f ev k)

-- With the default routes, whatever the kanban view, every event is decided as in `table`: first
-- by the card id, then by the type of the event.
pub default_routes-evaluate :
    (f : HclFuncs) (k : KanbanValue) (ev : Event)
    → (evaluate (record { routes = default_routes f; kanban = k }) ev).0 ≡ table f k ev
unfolding evaluate
default_routes-evaluate f k ev = default_routes-table f k ev
