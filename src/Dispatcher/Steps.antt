-- ===== src/Dispatcher/Steps.antt =====
-- The steps of the dispatcher of internal/app/dispatcher.go, and its runs: an action names the
-- goroutine that moves and what its environment answers.
use trello_openclaw_webhook.Prelude.{
  ℕ, Bool, true, Option, none, some, List, [], ◌∷◌, ◌++◌, Str, ltb, if◌then◌else◌, length, lookup,
  delete, map,
}
use trello_openclaw_webhook.Dispatcher.System.Handles.{get_elem?, update, take_out}
use trello_openclaw_webhook.Dispatcher.System.{
  Message, Handle, deleted_error, context_error, enqueued, State, dispatch_event, enqueue, put,
  answer, shutdown, receive, observe_kill, idle_reap, open_session, send, finish, depart,
}
use trello_openclaw_webhook.Dispatcher.Routing.{RouteDecision}

-- One step of the goroutine of `runWorker` before its deferred calls.
pub data Work : Type 0 where
  receives sees_kill idles sends : Work
  opens finishes : Bool → Work

-- `calls` is a call of `Dispatch`, `begins` the critical section of `enqueue`, `pushes`, `refuses`
-- and `gives_up` the three arms of its select, `deregisters` the deferred calls of a worker,
-- `stops` and `deletes` the critical sections of `Stop` and `DeleteWorker`, and `shuts_down` their
-- calls of `shutdown`.
pub data Action : Type 0 where
  calls : RouteDecision → (event_id prompt departure farewell : Str) → Action
  begins pushes refuses gives_up : ℕ → Action
  works : ℕ → Work → Action
  deregisters : ℕ → Action
  stops : Action
  deletes : Str → Action
  shuts_down : ℕ → Action

unfoldable pub work : Bool → Work → Handle → Option Handle
work idle_timeout receives h = receive h
work idle_timeout sees_kill h = observe_kill h
work idle_timeout idles h = idle_reap idle_timeout h
work idle_timeout sends h = send h
work idle_timeout (opens created) h = open_session created h
work idle_timeout (finishes succeeded) h = finish succeeded h

abbrev pub set_handle : ℕ → Handle → State → State
set_handle i h s = record s { handles = update i h s.handles }

abbrev pub begin_call : ℕ → State → Option (Str × Message) → Option State
begin_call k s none = none
begin_call k s (some (card_id, msg)) =
    some (enqueue card_id msg (record s { planned = take_out k s.planned }))

-- `case handle.inbox <- msg`, while the buffer has room.
abbrev pub push : (inbox_buf : ℕ) → ℕ → Message → Handle → State → Option State
push inbox_buf i msg h s =
    if ltb (length h.inbox) inbox_buf
    then some (answer msg enqueued (set_handle i (put msg h) s))
    else none

-- `case <-handle.kill`
abbrev pub refuse : Message → Handle → State → Option State
refuse msg h s = if h.killed then some (answer msg deleted_error s) else none

abbrev pub with_handle : (Handle → State → Option State) → State → Option Handle → Option State
with_handle f s none = none
with_handle f s (some h) = f h s

abbrev pub with_pending :
    (ℕ → Message → State → Option State) → ℕ → State → Option (ℕ × Message) → Option State
with_pending f k s none = none
with_pending f k s (some (i, msg)) = f i msg (record s { pending = take_out k s.pending })

abbrev pub work_result : ℕ → State → Option Handle → Option State
work_result i s none = none
work_result i s (some h) = some (set_handle i h s)

-- `defer d.deregister(handle.cardID)`: the entry of the card is deleted, whichever handle it names.
abbrev pub depart_result : ℕ → State → Option Handle → Option State
depart_result i s none = none
depart_result i s (some h) =
    some (record s { handles = update i h s.handles; workers = delete h.card_id s.workers })

abbrev pub index_of : Str × ℕ → ℕ
index_of (card_id, i) = i

-- The critical section of `Stop`.
unfoldable pub stop : State → State
stop s =
    if s.stopped
    then s
    else record s { stopped = true; doomed = s.doomed ++ map index_of s.workers }

-- The critical section of `DeleteWorker`; an unknown card is `ErrWorkerNotFound`.
abbrev pub delete_found : Str → State → Option ℕ → State
delete_found card_id s none = s
delete_found card_id s (some i) = record s {
  workers = delete card_id s.workers;
  doomed = s.doomed ++ i ∷ [];
}

unfoldable pub delete_worker : Str → State → State
unfolding lookup
delete_worker card_id s = delete_found card_id s (lookup card_id s.workers)

abbrev pub shut_down_handle : ℕ → Handle → State → Option State
shut_down_handle i h s = some (set_handle i (shutdown h) s)

abbrev pub shut_down_next : ℕ → State → Option ℕ → Option State
shut_down_next k s none = none
shut_down_next k s (some i) =
    with_handle (shut_down_handle i) (record s { doomed = take_out k s.doomed })
      (get_elem? s.handles i)

-- `none` is an action that cannot be taken in the state.
unfoldable pub step : (inbox_buf : ℕ) (idle_timeout : Bool) → Action → State → Option State
step inbox_buf idle_timeout (calls d event_id prompt departure farewell) s =
    some (dispatch_event d event_id prompt departure farewell s)
step inbox_buf idle_timeout (begins k) s = begin_call k s (get_elem? s.planned k)
step inbox_buf idle_timeout (pushes k) s =
    with_pending (λ i msg t. with_handle (push inbox_buf i msg) t (get_elem? t.handles i)) k s
      (get_elem? s.pending k)
step inbox_buf idle_timeout (refuses k) s =
    with_pending (λ i msg t. with_handle (refuse msg) t (get_elem? t.handles i)) k s
      (get_elem? s.pending k)
step inbox_buf idle_timeout (gives_up k) s =
    with_pending (λ i msg t. some (answer msg context_error t)) k s (get_elem? s.pending k)
step inbox_buf idle_timeout (works i w) s =
    with_handle (λ h t. work_result i t (work idle_timeout w h)) s (get_elem? s.handles i)
step inbox_buf idle_timeout (deregisters i) s =
    with_handle (λ h t. depart_result i t (depart h)) s (get_elem? s.handles i)
step inbox_buf idle_timeout stops s = some (stop s)
step inbox_buf idle_timeout (deletes card_id) s = some (delete_worker card_id s)
step inbox_buf idle_timeout (shuts_down k) s = shut_down_next k s (get_elem? s.doomed k)

abbrev pub run_after : (State → Option State) → Option State → Option State
run_after f none = none
run_after f (some s) = f s

unfoldable pub run : (inbox_buf : ℕ) (idle_timeout : Bool) → List Action → State → Option State
unfolding step
run inbox_buf idle_timeout [] s = some s
run inbox_buf idle_timeout (a ∷ acts) s =
    run_after (run inbox_buf idle_timeout acts) (step inbox_buf idle_timeout a s)
