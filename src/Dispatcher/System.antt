-- ===== src/Dispatcher/System.antt =====
-- The dispatcher of internal/app/dispatcher.go as a system of interleaved steps. Each step is one
-- critical section of `d.mu`, one channel operation, or one call of a session. A handle is named
-- by its index in `handles`, which keeps those that are no longer registered.
pub mod Handles
use trello_openclaw_webhook.Prelude.{
  ℕ, ◌+◌, Bool, true, false, ◌&&◌, Option, none, some, List, [], ◌∷◌, ◌++◌, Str, if◌then◌else◌,
  length, lookup, insert,
}
use trello_openclaw_webhook.Dispatcher.Routing.{
  RouteDecision, drop, dispatch, terminate, notify_departure,
}

pub data MessageKind : Type 0 where
  event final : MessageKind

-- `dispatchMessage`; `final` is `kindTerminate`.
pub record Message : Type 0 where
  pub kind : MessageKind
  pub event_id : Str
  pub prompt : Str

-- Where the goroutine of `runWorker` stands: at its select, holding a message, inside
-- `SendAndWait`, past its return and before `deregister`, or past `deregister`.
pub data Phase : Type 0 where
  waiting : Phase
  holding : Message → Phase
  sending : Message → Phase
  leaving gone : Phase

-- `workerHandle`, with the loop's `session != nil`. The last three fields record what has been
-- put into the inbox, handed to a session, and dropped because no session could be created.
pub record Handle : Type 0 where
  pub card_id : Str
  pub inbox : List Message
  pub killed : Bool
  pub session : Bool
  pub phase : Phase
  pub accepted : List Message
  pub sent : List Message
  pub lost : List Message

-- What a call of `enqueue` returns.
pub data Reply : Type 0 where
  enqueued stopped_error deleted_error context_error : Reply

-- `planned` holds the calls of `enqueue` that have not yet taken the lock, `pending` those at
-- their select, `doomed` the handles that `Stop` or `DeleteWorker` has yet to shut down.
pub record State : Type 0 where
  pub handles : List Handle
  pub workers : List (Str × ℕ)
  pub stopped : Bool
  pub planned : List (Str × Message)
  pub pending : List (ℕ × Message)
  pub doomed : List ℕ
  pub replies : List (Message × Reply)

abbrev pub init : State
init = record {
  handles = [];
  workers = [];
  stopped = false;
  planned = [];
  pending = [];
  doomed = [];
  replies = [];
}

abbrev pub new_handle : Str → Handle
new_handle card_id = record {
  card_id = card_id;
  inbox = [];
  killed = false;
  session = false;
  phase = waiting;
  accepted = [];
  sent = [];
  lost = [];
}

abbrev pub plan : Str → Message → State → State
plan card_id msg s = record s { planned = s.planned ++ (card_id, msg) ∷ [] }

abbrev pub plan_if_registered : Str → Message → State → Option ℕ → State
plan_if_registered card_id msg s none = s
plan_if_registered card_id msg s (some h) = plan card_id msg s

-- `Dispatch` after `evaluateRoute`, with the prompts assembled: a departure or a termination goes
-- on only if a worker is registered.
unfoldable pub dispatch_event :
    RouteDecision → (event_id prompt departure farewell : Str) → State → State
unfolding lookup
dispatch_event d event_id prompt departure farewell s = elim d.action [
  | drop ↦ s
  | dispatch ↦ plan d.card_id (record { kind = event; event_id = event_id; prompt = prompt }) s
  | notify_departure ↦
      plan_if_registered d.card_id
        (record { kind = event; event_id = event_id; prompt = departure }) s
        (lookup d.card_id s.workers)
  | terminate ↦
      plan_if_registered d.card_id (record { kind = final; event_id = event_id; prompt = farewell })
        s (lookup d.card_id s.workers)
]

-- The critical section of `enqueue`: the registered handle, or a new one with its goroutine.
abbrev pub register : Str → Message → State → Option ℕ → State
register card_id msg s (some h) = record s { pending = s.pending ++ (h, msg) ∷ [] }
register card_id msg s none = record s {
  handles = s.handles ++ new_handle card_id ∷ [];
  workers = insert card_id (length s.handles) s.workers;
  pending = s.pending ++ (length s.handles, msg) ∷ [];
}

unfoldable pub enqueue : Str → Message → State → State
unfolding lookup insert
enqueue card_id msg s =
    if s.stopped
    then record s { replies = s.replies ++ (msg, stopped_error) ∷ [] }
    else register card_id msg s (lookup card_id s.workers)

-- `h.inbox <- msg`
abbrev pub put : Message → Handle → Handle
put msg h = record h { inbox = h.inbox ++ msg ∷ []; accepted = h.accepted ++ msg ∷ [] }

abbrev pub answer : Message → Reply → State → State
answer msg r s = record s { replies = s.replies ++ (msg, r) ∷ [] }

-- The kill channel is closed at most once, and the context is cancelled with it.
abbrev pub shutdown : Handle → Handle
shutdown h = record h { killed = true }

-- The body of the loop of `runWorker`, one step at a time; `none` is a step that cannot be taken.
abbrev pub receive_from : Handle → List Message → Option Handle
receive_from h [] = none
receive_from h (m ∷ ms) = some (record h { inbox = ms; phase = holding m })

unfoldable pub receive : Handle → Option Handle
receive h = elim h.phase [
  | waiting ↦ receive_from h h.inbox
  | holding m ↦ none
  | sending m ↦ none
  | leaving ↦ none
  | gone ↦ none
]

unfoldable pub observe_kill : Handle → Option Handle
observe_kill h = elim h.phase [
  | waiting ↦ if h.killed then some (record h { phase = leaving }) else none
  | holding m ↦ none
  | sending m ↦ none
  | leaving ↦ none
  | gone ↦ none
]

-- The idle timer runs only while there is a session and the timeout is positive.
unfoldable pub idle_reap : Bool → Handle → Option Handle
idle_reap idle_timeout h = elim h.phase [
  | waiting ↦ if h.session && idle_timeout then some (record h { session = false }) else none
  | holding m ↦ none
  | sending m ↦ none
  | leaving ↦ none
  | gone ↦ none
]

-- `NewWorkerSession` when there is no session; on an error the goroutine returns.
unfoldable pub open_session : Bool → Handle → Option Handle
open_session created h = elim h.phase [
  | waiting ↦ none
  | holding m ↦
      if h.session
      then none
      else if created
      then some (record h { session = true })
      else some (record h { phase = leaving; lost = m ∷ [] })
  | sending m ↦ none
  | leaving ↦ none
  | gone ↦ none
]

-- `SendAndWait` begins.
unfoldable pub send : Handle → Option Handle
send h = elim h.phase [
  | waiting ↦ none
  | holding m ↦
      if h.session then some (record h { phase = sending m; sent = h.sent ++ m ∷ [] }) else none
  | sending m ↦ none
  | leaving ↦ none
  | gone ↦ none
]

abbrev pub after_send : MessageKind → Phase
after_send event = waiting
after_send final = leaving

-- `SendAndWait` returns: on an error the goroutine returns only if it has been killed.
unfoldable pub finish : Bool → Handle → Option Handle
finish succeeded h = elim h.phase [
  | waiting ↦ none
  | holding m ↦ none
  | sending m ↦
      if succeeded
      then some (record h { phase = after_send m.kind })
      else if h.killed
      then some (record h { phase = leaving })
      else some (record h { phase = waiting })
  | leaving ↦ none
  | gone ↦ none
]

-- The deferred calls up to `close(handle.done)`.
unfoldable pub depart : Handle → Option Handle
depart h = elim h.phase [
  | waiting ↦ none
  | holding m ↦ none
  | sending m ↦ none
  | leaving ↦ some (record h { phase = gone; session = false })
  | gone ↦ none
]
