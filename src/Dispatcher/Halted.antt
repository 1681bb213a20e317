-- ===== src/Dispatcher/Halted.antt =====
-- Runs of the dispatcher after `Stop` (internal/app/dispatcher.go).
use trello_openclaw_webhook.Prelude.{
  ℕ, ◌≡◌, refl, Bool, true, Option, none, some, List, [], ◌∷◌, Str, length, arith,
}
use mathlib.Core.Path.{subst}
use mathlib.Core.Option.{some-injective}
use trello_openclaw_webhook.Dispatcher.Routing.{RouteDecision}
use trello_openclaw_webhook.Dispatcher.System.Handles.{get_elem?, update, length-update}
use trello_openclaw_webhook.Dispatcher.System.{
  Message, Handle, State, dispatch_event, enqueue, put, shutdown, depart, answer, context_error,
}
use trello_openclaw_webhook.Dispatcher.Steps.{
  Work, work, Action, step, run, stop, delete_worker, calls, begins, pushes, refuses, gives_up,
  works, deregisters, stops, deletes, shuts_down, with_handle, work_result, begin_call,
  with_pending, push, refuse, shut_down_next, depart_result, run_after, shut_down_handle,
}

module _ (n : ℕ) where
  -- `Stop` has run, and `n` workers have been made.
  abbrev pub IsHalted : State → Type 0
  IsHalted s = s.stopped ≡ true × length s.handles ≡ n

  replace-IsHalted :
      (s t : State) (i : ℕ) (h : Handle)
      → t.handles ≡ update i h s.handles
      → t.stopped ≡ s.stopped
      → IsHalted s
      → IsHalted t
  replace-IsHalted s t i h eh es (halted, made) =
      let same : length (update i h s.handles) ≡ length s.handles = length-update i h s.handles in
      (cc (es, halted), cc (same, eh, made))

  begin-IsHalted :
      (k : ℕ) (s t : State) (found : Option (Str × Message))
      → begin_call k s found ≡ some t
      → IsHalted s
      → IsHalted t
  unfolding enqueue
  begin-IsHalted k s t none e u = absurd (ground arith)
  begin-IsHalted k s t (some (card_id, msg)) e (halted, made) = (ground arith, ground arith)

  push-IsHalted :
      (inbox_buf i : ℕ) (msg : Message) (s t : State) (found : Option Handle)
      → with_handle (push inbox_buf i msg) s found ≡ some t
      → IsHalted s
      → IsHalted t
  push-IsHalted inbox_buf i msg s t none e u = absurd (ground arith)
  push-IsHalted inbox_buf i msg s t (some h) e u =
      replace-IsHalted s t i (put msg h) (ground arith) (ground arith) u

  pushes-IsHalted :
      (inbox_buf k : ℕ) (s t : State) (found : Option (ℕ × Message))
      → with_pending
          (λ i msg v. with_handle (push inbox_buf i msg) v (get_elem? v.handles i))
          k
          s
          found
        ≡ some t
      → IsHalted s
      → IsHalted t
  pushes-IsHalted inbox_buf k s t none e u = absurd (ground arith)
  pushes-IsHalted inbox_buf k s t (some (i, msg)) e u =
      push-IsHalted inbox_buf i msg _ t (get_elem? s.handles i) e u

  refuse-IsHalted :
      (msg : Message) (s t : State) (found : Option Handle)
      → with_handle (refuse msg) s found ≡ some t
      → IsHalted s
      → IsHalted t
  refuse-IsHalted msg s t none e u = absurd (ground arith)
  refuse-IsHalted msg s t (some h) e (halted, made) = (ground arith, ground arith)

  refuses-IsHalted :
      (k : ℕ) (s t : State) (found : Option (ℕ × Message))
      → with_pending (λ i msg v. with_handle (refuse msg) v (get_elem? v.handles i)) k s found
        ≡ some t
      → IsHalted s
      → IsHalted t
  refuses-IsHalted k s t none e u = absurd (ground arith)
  refuses-IsHalted k s t (some (i, msg)) e u = refuse-IsHalted msg _ t (get_elem? s.handles i) e u

  gives_up-IsHalted :
      (k : ℕ) (s t : State) (found : Option (ℕ × Message))
      → with_pending (λ i msg v. some (answer msg context_error v)) k s found ≡ some t
      → IsHalted s
      → IsHalted t
  gives_up-IsHalted k s t none e u = absurd (ground arith)
  gives_up-IsHalted k s t (some (i, msg)) e (halted, made) = (ground arith, ground arith)

  work-IsHalted :
      (i : ℕ) (s t : State) (done : Option Handle)
      → work_result i s done ≡ some t
      → IsHalted s
      → IsHalted t
  work-IsHalted i s t none e u = absurd (ground arith)
  work-IsHalted i s t (some h) e u = replace-IsHalted s t i h (ground arith) (ground arith) u

  works-IsHalted :
      (idle_timeout : Bool) (i : ℕ) (w : Work) (s t : State) (found : Option Handle)
      → with_handle (λ h v. work_result i v (work idle_timeout w h)) s found ≡ some t
      → IsHalted s
      → IsHalted t
  works-IsHalted idle_timeout i w s t none e u = absurd (ground arith)
  works-IsHalted idle_timeout i w s t (some h) e u = work-IsHalted i s t (work idle_timeout w h) e u

  depart-IsHalted :
      (i : ℕ) (s t : State) (done : Option Handle)
      → depart_result i s done ≡ some t
      → IsHalted s
      → IsHalted t
  depart-IsHalted i s t none e u = absurd (ground arith)
  depart-IsHalted i s t (some h) e u = replace-IsHalted s t i h (ground arith) (ground arith) u

  deregisters-IsHalted :
      (i : ℕ) (s t : State) (found : Option Handle)
      → with_handle (λ h v. depart_result i v (depart h)) s found ≡ some t
      → IsHalted s
      → IsHalted t
  deregisters-IsHalted i s t none e u = absurd (ground arith)
  deregisters-IsHalted i s t (some h) e u = depart-IsHalted i s t (depart h) e u

  shut_down-IsHalted :
      (i : ℕ) (s t : State) (found : Option Handle)
      → with_handle (shut_down_handle i) s found ≡ some t
      → IsHalted s
      → IsHalted t
  shut_down-IsHalted i s t none e u = absurd (ground arith)
  shut_down-IsHalted i s t (some h) e u =
      replace-IsHalted s t i (shutdown h) (ground arith) (ground arith) u

  shuts_down-IsHalted :
      (k : ℕ) (s t : State) (found : Option ℕ)
      → shut_down_next k s found ≡ some t
      → IsHalted s
      → IsHalted t
  shuts_down-IsHalted k s t none e u = absurd (ground arith)
  shuts_down-IsHalted k s t (some i) e u = shut_down-IsHalted i _ t (get_elem? s.handles i) e u

  dispatch_event-IsHalted :
      (d : RouteDecision) (event_id prompt departure farewell : Str) (s : State)
      → IsHalted s
      → IsHalted (dispatch_event d event_id prompt departure farewell s)
  unfolding dispatch_event
  dispatch_event-IsHalted d event_id prompt departure farewell s (halted, made) =
      (ground arith, ground arith)

  step-IsHalted :
      (inbox_buf : ℕ) (idle_timeout : Bool) (a : Action) (s t : State)
      → step inbox_buf idle_timeout a s ≡ some t
      → IsHalted s
      → IsHalted t
  unfolding step stop delete_worker
  step-IsHalted inbox_buf idle_timeout (calls d event_id prompt departure farewell) s t e u =
      subst IsHalted (some-injective _ _ e)
        (dispatch_event-IsHalted d event_id prompt departure farewell s u)
  step-IsHalted inbox_buf idle_timeout (begins k) s t e u =
      begin-IsHalted k s t (get_elem? s.planned k) e u
  step-IsHalted inbox_buf idle_timeout (pushes k) s t e u =
      pushes-IsHalted inbox_buf k s t (get_elem? s.pending k) e u
  step-IsHalted inbox_buf idle_timeout (refuses k) s t e u =
      refuses-IsHalted k s t (get_elem? s.pending k) e u
  step-IsHalted inbox_buf idle_timeout (gives_up k) s t e u =
      gives_up-IsHalted k s t (get_elem? s.pending k) e u
  step-IsHalted inbox_buf idle_timeout (works i w) s t e u =
      works-IsHalted idle_timeout i w s t (get_elem? s.handles i) e u
  step-IsHalted inbox_buf idle_timeout (deregisters i) s t e u =
      deregisters-IsHalted i s t (get_elem? s.handles i) e u
  step-IsHalted inbox_buf idle_timeout stops s t e (halted, made) = (ground arith, ground arith)
  step-IsHalted inbox_buf idle_timeout (deletes card_id) s t e (halted, made) =
      (ground arith, ground arith)
  step-IsHalted inbox_buf idle_timeout (shuts_down k) s t e u =
      shuts_down-IsHalted k s t (get_elem? s.doomed k) e u

  after-IsHalted :
      (f : State → Option State) (next : Option State) (t : State)
      → ((v : State) → next ≡ some v → IsHalted v)
      → ((v : State) → IsHalted v → f v ≡ some t → IsHalted t)
      → run_after f next ≡ some t
      → IsHalted t
  after-IsHalted f none t o rest e = absurd (ground arith)
  after-IsHalted f (some v) t o rest e = rest v (o v refl) e

  run-IsHalted :
      (inbox_buf : ℕ) (idle_timeout : Bool) (acts : List Action) (s t : State)
      → run inbox_buf idle_timeout acts s ≡ some t
      → IsHalted s
      → IsHalted t
  unfolding run
  run-IsHalted inbox_buf idle_timeout [] s t e u = subst IsHalted (some-injective _ _ e) u
  run-IsHalted inbox_buf idle_timeout (a ∷ acts) s t e u =
      after-IsHalted (run inbox_buf idle_timeout acts) (step inbox_buf idle_timeout a s) t
        (λ v d. step-IsHalted inbox_buf idle_timeout a s v d u)
        (λ v d g. run-IsHalted inbox_buf idle_timeout acts v t g d) e

-- Whatever the calls and the workers do after `Stop`, the dispatcher stays stopped and makes no worker.
pub run-stop :
    (inbox_buf : ℕ) (idle_timeout : Bool) (acts : List Action) (s t : State)
    → run inbox_buf idle_timeout acts (stop s) ≡ some t
    → t.stopped ≡ true × length t.handles ≡ length s.handles
unfolding stop
run-stop inbox_buf idle_timeout acts s t e =
    let halted : (stop s).stopped ≡ true = ground arith in
    let made : length (stop s).handles ≡ length s.handles = ground arith in
    run-IsHalted (length s.handles) inbox_buf idle_timeout acts (stop s) t e (halted, made)
