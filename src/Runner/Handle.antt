-- ===== src/Runner/Handle.antt =====
-- `Handle` of internal/app/runner.go and the part of `Dispatch` that needs no lock.
pub mod Once
use trello_openclaw_webhook.Prelude.{
  ℕ, Bool, true, false, Option, none, some, List, [], ◌∷◌, Str, bytes,
}
use trello_openclaw_webhook.Payload.{Fields, Body, parse_raw_body, nested_string}
use trello_openclaw_webhook.Payload.Slim.{slim_raw_body, must_slim}
use trello_openclaw_webhook.Router.Engine.{Engine}
use trello_openclaw_webhook.Dispatcher.Routing.{RouteDecision, evaluate_route}
use trello_openclaw_webhook.Dispatcher.System.{State, dispatch_event}
use trello_openclaw_webhook.Runner.Dedup.{Seen, mark_action_seen}

-- The prompts of the embedded templates: `assembleEventPrompt`, `assembleDepartureNotice` and
-- `assembleTerminateNotice`.
pub record Prompts : Type 0 where
  pub event_prompt : Body → Fields → Str
  pub departure_notice : Body → Fields → RouteDecision → Str
  pub terminate_notice : Body → Fields → RouteDecision → Str

pub record Runner : Type 0 where
  pub seen : Seen
  pub dispatcher : State

-- `slim_failed` is the error of `slimRawBody`.
pub data Outcome : Type 0 where
  duplicate slim_failed dispatched : Outcome

module _ (prompts : Prompts) (engine : Engine) where
  -- `Dispatch` up to its call of `enqueue`
  unfoldable pub dispatch_raw : (event_id : Str) → Body → State → State
  unfolding evaluate_route must_slim dispatch_event
  dispatch_raw event_id raw s =
      let d = evaluate_route engine raw in
      dispatch_event d event_id (prompts.event_prompt raw (must_slim raw))
        (prompts.departure_notice raw (must_slim raw) d)
        (prompts.terminate_notice raw (must_slim raw) d) s

  -- `Handle` after the deduplication
  abbrev pub handle_new : (event_id : Str) → Body → Runner → Option Fields → Outcome × Runner
  handle_new event_id raw r none = (slim_failed, r)
  handle_new event_id raw r (some slim) =
      (dispatched, record r { dispatcher = dispatch_raw event_id raw r.dispatcher })

  abbrev pub handle_marked : (event_id : Str) → Body → Runner → Bool × Seen → Outcome × Runner
  handle_marked event_id raw r (true, seen) = (duplicate, record r { seen = seen })
  handle_marked event_id raw r (false, seen) =
      handle_new event_id raw (record r { seen = seen }) (slim_raw_body raw)

  abbrev pub handle_id :
      (ttl now : ℕ) (event_id : Str) → Body → Runner → Option Str → Outcome × Runner
  handle_id ttl now event_id raw r none = handle_new event_id raw r (slim_raw_body raw)
  handle_id ttl now event_id raw r (some action_id) =
      handle_marked event_id raw r (mark_action_seen ttl now action_id r.seen)

  unfoldable pub handle : (ttl now : ℕ) (event_id : Str) → Body → Runner → Outcome × Runner
  unfolding parse_raw_body nested_string
  handle ttl now event_id raw r =
      handle_id ttl now event_id raw r
        (nested_string (parse_raw_body raw) (bytes "action" ∷ bytes "id" ∷ []))

  -- Further deliveries: each is a time, an event id and a body.
  unfoldable pub handle_all : (ttl : ℕ) → List (ℕ × Str × Body) → Runner → Runner
  unfolding handle
  handle_all ttl [] r = r
  handle_all ttl ((now, event_id, raw) ∷ later) r =
      handle_all ttl later (handle ttl now event_id raw r).1
