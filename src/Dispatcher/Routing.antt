-- ===== src/Dispatcher/Routing.antt =====
-- `evaluateRoute` of internal/app/dispatcher.go: from a raw body to a `RouteDecision`
-- (internal/app/routing.go).
use trello_openclaw_webhook.Prelude.{◌&&◌, ◌||◌, not, [], Str, bytes, ◌==◌, if◌then◌else◌}
use trello_openclaw_webhook.Payload.{Fields, Body, get, as_map, as_string, parse_raw_body}
use trello_openclaw_webhook.CardId.{is_valid_card_id}
use trello_openclaw_webhook.Router.Engine.{Event, Engine, Decision, evaluate}

pub data RouteAction : Type 0 where
  drop dispatch terminate notify_departure : RouteAction

pub record RouteDecision : Type 0 where
  pub action : RouteAction
  pub card_id : Str
  pub list_after : Str
  pub reason : Str

-- `String` of a `RouteAction`
unfoldable pub action_name : RouteAction → Str
action_name drop = bytes "drop"
action_name dispatch = bytes "dispatch"
action_name terminate = bytes "terminate"
action_name notify_departure = bytes "notify_departure"

unfoldable pub route_action_from_do : Str → RouteAction
route_action_from_do token =
    if token == bytes "dispatch"
    then dispatch
    else if token == bytes "terminate"
    then terminate
    else if token == bytes "notify_departure"
    then notify_departure
    else drop

-- The router's event for a decoded body.
unfoldable pub event_of : Fields → Event
unfolding get as_map as_string is_valid_card_id
event_of root =
    let action = as_map (get (bytes "action") root) in
    let data' = as_map (get (bytes "data") action) in
    let card = as_map (get (bytes "card") data') in
    let list_after = as_map (get (bytes "listAfter") data') in
    let list = as_map (get (bytes "list") data') in
    let card_id = as_string (get (bytes "id") card) in
    record {
      type = as_string (get (bytes "type") action);
      card_id = card_id;
      card_id_valid = not (card_id == bytes "") && is_valid_card_id card_id;
      list_after = as_string (get (bytes "name") list_after);
      list_after_id = as_string (get (bytes "id") list_after);
      list_name = as_string (get (bytes "name") list);
      list_id = as_string (get (bytes "id") list);
      comment = as_string (get (bytes "text") data');
    }

-- The card id is left out where the event has none or an unsafe one.
unfoldable pub decision_of : Event → Decision → RouteDecision
unfolding route_action_from_do
decision_of ev dec = record {
  action = route_action_from_do dec.action;
  card_id =
      if dec.reason == bytes "no_card_id" || dec.reason == bytes "invalid_card_id"
      then []
      else ev.card_id;
  list_after = ev.list_after;
  reason = dec.reason;
}

unfoldable pub evaluate_route : Engine → Body → RouteDecision
unfolding event_of decision_of evaluate parse_raw_body
evaluate_route e raw = let ev = event_of (parse_raw_body raw) in decision_of ev (evaluate e ev).0
