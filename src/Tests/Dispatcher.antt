-- ===== src/Tests/Dispatcher.antt =====
-- Runs of the dispatcher and of the runner's deduplication.
use trello_openclaw_webhook.Prelude.{
  ℕ, ◌+◌, ◌≤◌, ◌<◌, ◌≡◌, ◌≢◌, refl, Bool, true, false, List, [], ◌∷◌, ◌++◌, Option, none, some, Str,
  bytes, lookup, insert, length, map, arith, ◌==◌,
}
use trello_openclaw_webhook.Payload.Slim.{slim_raw_body}
use trello_openclaw_webhook.Payload.{nested_string, str, obj, Fields, end, field}
use trello_openclaw_webhook.Dispatcher.Routing
use trello_openclaw_webhook.Dispatcher.Routing.{RouteDecision}
use trello_openclaw_webhook.Dispatcher.System
use trello_openclaw_webhook.Dispatcher.System.{State, Handle, Phase, init}
use trello_openclaw_webhook.Dispatcher.Steps.{
  Action, calls, begins, pushes, works, deregisters, deletes, shuts_down, receives, sees_kill,
  opens, sends, run, stop,
}
use trello_openclaw_webhook.Dispatcher.Order.{IsOrdered, run-IsOrdered}
use trello_openclaw_webhook.Dispatcher.Unique.{run-one_worker}
use trello_openclaw_webhook.Dispatcher.Halted.{run-stop}
use trello_openclaw_webhook.Runner.Dedup.{Seen, mark_action_seen}
use trello_openclaw_webhook.Runner.Dedup.Once.{mark_action_seen-accepted}
use trello_openclaw_webhook.Runner.Handle.{Prompts, Runner, duplicate, handle, handle_all}
use trello_openclaw_webhook.Runner.Handle.Once.{handle-once}
use trello_openclaw_webhook.Tests.Router.{kanban}
use trello_openclaw_webhook.Router.Engine.{Engine}

abbrev card : Str
card = bytes "c-1"

abbrev routed : RouteDecision
routed = record {
  action = Routing.dispatch;
  card_id = card;
  list_after = [];
  reason = bytes "human_comment";
}

abbrev call : Str → Action
call id = calls routed id (bytes "p") [] []

abbrev after : Option State → State
after none = init
after (some s) = s

-- Two events of one card: the first is sent, the second waits in the inbox.
abbrev two_events : List Action
two_events =
    call (bytes "e1")
    ∷ begins 0
    ∷ pushes 0
    ∷ call (bytes "e2")
    ∷ begins 0
    ∷ pushes 0
    ∷ works 0 receives
    ∷ works 0 (opens true)
    ∷ works 0 sends
    ∷ []

abbrev message : Str → System.Message
message id = record { kind = System.event; event_id = id; prompt = bytes "p" }

abbrev worker : Handle
worker = record {
  card_id = card;
  inbox = message (bytes "e2") ∷ [];
  killed = false;
  session = true;
  phase = System.sending (message (bytes "e1"));
  accepted = message (bytes "e1") ∷ message (bytes "e2") ∷ [];
  sent = message (bytes "e1") ∷ [];
  lost = [];
}

abbrev busy : State
busy = record {
  handles = worker ∷ [];
  workers = (card, 0) ∷ [];
  stopped = false;
  planned = [];
  pending = [];
  doomed = [];
  replies = (message (bytes "e1"), System.enqueued) ∷ (message (bytes "e2"), System.enqueued) ∷ [];
}

two_events-busy : run 64 true two_events init ≡ some busy
unfolding run System.dispatch_event System.enqueue ◌==◌
    trello_openclaw_webhook.Dispatcher.Steps.work System.receive System.open_session System.send
two_events-busy = refl

run-IsOrdered_example : IsOrdered 64 worker
run-IsOrdered_example = run-IsOrdered 64 true two_events busy 0 worker two_events-busy refl

run-one_worker_example : (◌≡◌ {A = ℕ} 0 0) × lookup card busy.workers ≡ some 0
unfolding lookup ◌==◌
run-one_worker_example =
    run-one_worker 64 true two_events busy 0 0 worker worker refl two_events-busy refl refl refl
      refl refl

abbrev stopped_run : List Action
stopped_run = call (bytes "e3") ∷ begins 0 ∷ shuts_down 0 ∷ []

-- A call after `Stop` returns an error.
abbrev halted : State
halted = record {
  handles = record worker { killed = true } ∷ [];
  workers = (card, 0) ∷ [];
  stopped = true;
  planned = [];
  pending = [];
  doomed = [];
  replies = busy.replies ++ (message (bytes "e3"), System.stopped_error) ∷ [];
}

stopped_run-halted : run 64 true stopped_run (stop busy) ≡ some halted
unfolding run System.dispatch_event stop System.enqueue
stopped_run-halted = refl

run-stop_example : halted.stopped ≡ true × length halted.handles ≡ length busy.handles
run-stop_example = run-stop 64 true stopped_run busy halted stopped_run-halted

abbrev summary : Handle → Str × Bool × Phase
summary h = (h.card_id, h.killed, h.phase)

abbrev left : RouteDecision
left = record routed { action = Routing.notify_departure }

-- A departure finds the card's worker registered; the worker leaves before the departure is enqueued.
abbrev departure_spawns : List Action
departure_spawns =
    call (bytes "e1")
    ∷ begins 0
    ∷ pushes 0
    ∷ calls left (bytes "e2") [] (bytes "left") []
    ∷ works 0 receives
    ∷ works 0 (opens false)
    ∷ deregisters 0
    ∷ begins 0
    ∷ []

-- The departure has started a second worker.
departure_spawns-two :
    map summary (after (run 64 true departure_spawns init)).handles
    ≡ (card, false, System.gone) ∷ (card, false, System.waiting) ∷ []
unfolding run System.dispatch_event System.enqueue ◌==◌
    trello_openclaw_webhook.Dispatcher.Steps.work System.receive System.open_session System.depart
    trello_openclaw_webhook.Prelude.delete
departure_spawns-two = refl

-- A worker is deleted while a second one of its card is registered: its late `deregister` removes
-- the second one's entry, and the next event starts a third.
abbrev late_deregister : List Action
late_deregister =
    call (bytes "e1")
    ∷ begins 0
    ∷ pushes 0
    ∷ deletes card
    ∷ call (bytes "e2")
    ∷ begins 0
    ∷ pushes 0
    ∷ shuts_down 0
    ∷ works 0 sees_kill
    ∷ deregisters 0
    ∷ call (bytes "e3")
    ∷ begins 0
    ∷ pushes 0
    ∷ []

-- Two workers of the card are alive and neither has been killed.
late_deregister-two_alive :
    map summary (after (run 64 true late_deregister init)).handles
    ≡ (card, true, System.gone) ∷ (card, false, System.waiting) ∷ (card, false, System.waiting) ∷ []
unfolding run System.dispatch_event System.enqueue
    trello_openclaw_webhook.Dispatcher.Steps.delete_worker ◌==◌
    trello_openclaw_webhook.Prelude.delete trello_openclaw_webhook.Dispatcher.Steps.work
    System.observe_kill System.depart
late_deregister-two_alive = refl

late_deregister-workers : (after (run 64 true late_deregister init)).workers ≡ (card, 2) ∷ []
unfolding run System.dispatch_event System.enqueue
    trello_openclaw_webhook.Dispatcher.Steps.delete_worker ◌==◌
    trello_openclaw_webhook.Prelude.delete trello_openclaw_webhook.Dispatcher.Steps.work
    System.observe_kill System.depart
late_deregister-workers = refl

abbrev seen : Seen
seen = (bytes "a1", 100) ∷ []

mark_action_seen-accepted_example : (mark_action_seen 50 151 (bytes "a1") seen).0 ≡ false
mark_action_seen-accepted_example =
    mark_action_seen-accepted 50 151 (bytes "a1") seen ((λ e. omega arith), tt)

abbrev body : Fields
body = field (bytes "action") (obj (field (bytes "id") (str (bytes "a1")) end)) end

abbrev prompts : Prompts
prompts = record {
  event_prompt = λ raw slim. bytes "event";
  departure_notice = λ raw slim d. bytes "left";
  terminate_notice = λ raw slim d. bytes "done";
}

abbrev engine : Engine
engine = record { routes = []; kanban = kanban }

abbrev runner : Runner
runner = record { seen = []; dispatcher = init }

abbrev later_runner : Runner
later_runner =
    handle_all prompts engine 50 ((120, bytes "e2", none) ∷ [])
      (handle prompts engine 50 100 (bytes "e1") (some body) runner).1

handle-once_example :
    ((handle prompts engine 50 130 (bytes "e3") (some body) later_runner).0 ≡ duplicate)
    × ((handle prompts engine 50 130 (bytes "e3") (some body) later_runner).1.dispatcher
        ≡ later_runner.dispatcher)
unfolding handle mark_action_seen nested_string ◌==◌ lookup insert slim_raw_body
handle-once_example =
    handle-once prompts engine 50 100 130 (bytes "e1") (bytes "e3") (bytes "a1") (some body)
      (some body) runner ((120, bytes "e2", none) ∷ []) refl refl (λ e. absurd (ground (arith, e)))
      (omega arith, tt) (omega arith)
