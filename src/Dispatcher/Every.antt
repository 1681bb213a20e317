-- ===== src/Dispatcher/Every.antt =====
-- Properties of single handles along the runs of the dispatcher (internal/app/dispatcher.go).
use trello_openclaw_webhook.Prelude.{
  ℕ, ◌≡◌, refl, Bool, true, Option, none, some, List, [], ◌∷◌, Str, ltb, length, lookup, All,
  All-append, Bool-cases, inl, inr, arith,
}
use trello_openclaw_webhook.Dispatcher.System.Handles.{get_elem?, All-get, All-update}
use trello_openclaw_webhook.Dispatcher.System.{
  Message, Handle, State, new_handle, dispatch_event, enqueue, put, shutdown, depart, register,
  plan_if_registered, answer, context_error,
}
use trello_openclaw_webhook.Dispatcher.Steps.{
  Work, work, Action, step, run, stop, delete_worker, calls, begins, pushes, refuses, gives_up,
  works, deregisters, stops, deletes, shuts_down, with_handle, work_result, begin_call,
  with_pending, push, refuse, shut_down_next, depart_result, delete_found, run_after,
  shut_down_handle, set_handle,
}
use mathlib.Core.Path.{subst}
use mathlib.Core.Option.{some-injective}
use trello_openclaw_webhook.Dispatcher.Routing.{RouteDecision}

module _ (P : Handle → Type 0) (inbox_buf : ℕ) (idle_timeout : Bool)
    (fresh : (card_id : Str) → P (new_handle card_id))
    (on_work : (w : Work) (h h' : Handle) → P h → work idle_timeout w h ≡ some h' → P h')
    (on_put : (msg : Message) (h : Handle)
      → P h
      → ltb (length h.inbox) inbox_buf ≡ true
      → P (put msg h))
    (on_shutdown : (h : Handle) → P h → P (shutdown h))
    (on_depart : (h h' : Handle) → P h → depart h ≡ some h' → P h') where
  register-OfAll :
      (card_id : Str) (msg : Message) (s : State) (found : Option ℕ)
      → All P s.handles
      → All P (register card_id msg s found).handles
  register-OfAll card_id msg s none o = All-append P s.handles _ o (fresh card_id, tt)
  register-OfAll card_id msg s (some h) o = o

  enqueue-OfAll :
      (card_id : Str) (msg : Message) (s : State)
      → All P s.handles
      → All P (enqueue card_id msg s).handles
  unfolding enqueue
  enqueue-OfAll card_id msg s o = elim (Bool-cases s.stopped) [
    | inl stopped ↦
        let same : s.handles ≡ (enqueue card_id msg s).handles = ground arith in
        subst (All P) same o
    | inr running ↦
        let same : (register card_id msg s (lookup card_id s.workers)).handles
            ≡ (enqueue card_id msg s).handles =
          ground arith in
        subst (All P) same (register-OfAll card_id msg s (lookup card_id s.workers) o)
  ]

  begin-OfAll :
      (k : ℕ) (s t : State) (found : Option (Str × Message))
      → All P s.handles
      → begin_call k s found ≡ some t
      → All P t.handles
  begin-OfAll k s t none o e = absurd (ground arith)
  begin-OfAll k s t (some (card_id, msg)) o e =
      subst (λ u. All P u.handles) (some-injective _ _ e) (enqueue-OfAll card_id msg _ o)

  set-OfAll :
      (i : ℕ) (h : Handle) (s : State) → P h → All P s.handles → All P (set_handle i h s).handles
  set-OfAll i h s p o = All-update P i h s.handles p o

  push-OfAll :
      (i : ℕ) (msg : Message) (s t : State) (found : Option Handle)
      → get_elem? s.handles i ≡ found
      → All P s.handles
      → with_handle (push inbox_buf i msg) s found ≡ some t
      → All P t.handles
  push-OfAll i msg s t none f o e = absurd (ground arith)
  push-OfAll i msg s t (some h) f o e = elim (Bool-cases (ltb (length h.inbox) inbox_buf)) [
    | inl room ↦
        let same : (set_handle i (put msg h) s).handles ≡ t.handles = ground arith in
        subst (All P) same (set-OfAll i _ s (on_put msg h (All-get P s.handles i h o f) room) o)
    | inr full ↦ absurd (ground arith)
  ]

  refuse-OfAll :
      (msg : Message) (s t : State) (found : Option Handle)
      → All P s.handles
      → with_handle (refuse msg) s found ≡ some t
      → All P t.handles
  refuse-OfAll msg s t none o e = absurd (ground arith)
  refuse-OfAll msg s t (some h) o e =
      let same : s.handles ≡ t.handles = ground arith in subst (All P) same o

  pushes-OfAll :
      (k : ℕ) (s t : State) (found : Option (ℕ × Message))
      → All P s.handles
      → with_pending
          (λ i msg u. with_handle (push inbox_buf i msg) u (get_elem? u.handles i))
          k
          s
          found
        ≡ some t
      → All P t.handles
  pushes-OfAll k s t none o e = absurd (ground arith)
  pushes-OfAll k s t (some (i, msg)) o e = push-OfAll i msg _ t (get_elem? s.handles i) refl o e

  refuses-OfAll :
      (k : ℕ) (s t : State) (found : Option (ℕ × Message))
      → All P s.handles
      → with_pending (λ i msg u. with_handle (refuse msg) u (get_elem? u.handles i)) k s found
        ≡ some t
      → All P t.handles
  refuses-OfAll k s t none o e = absurd (ground arith)
  refuses-OfAll k s t (some (i, msg)) o e = refuse-OfAll msg _ t (get_elem? s.handles i) o e

  gives_up-OfAll :
      (k : ℕ) (s t : State) (found : Option (ℕ × Message))
      → All P s.handles
      → with_pending (λ i msg u. some (answer msg context_error u)) k s found ≡ some t
      → All P t.handles
  gives_up-OfAll k s t none o e = absurd (ground arith)
  gives_up-OfAll k s t (some (i, msg)) o e =
      let same : s.handles ≡ t.handles = ground arith in subst (All P) same o

  work-OfAll :
      (i : ℕ) (w : Work) (h : Handle) (s t : State) (done : Option Handle)
      → get_elem? s.handles i ≡ some h
      → work idle_timeout w h ≡ done
      → All P s.handles
      → work_result i s done ≡ some t
      → All P t.handles
  work-OfAll i w h s t none f d o e = absurd (ground arith)
  work-OfAll i w h s t (some h') f d o e =
      let same : (set_handle i h' s).handles ≡ t.handles = ground arith in
      subst (All P) same (set-OfAll i h' s (on_work w h h' (All-get P s.handles i h o f) d) o)

  works-OfAll :
      (i : ℕ) (w : Work) (s t : State) (found : Option Handle)
      → get_elem? s.handles i ≡ found
      → All P s.handles
      → with_handle (λ h u. work_result i u (work idle_timeout w h)) s found ≡ some t
      → All P t.handles
  works-OfAll i w s t none f o e = absurd (ground arith)
  works-OfAll i w s t (some h) f o e = work-OfAll i w h s t (work idle_timeout w h) f refl o e

  depart-OfAll :
      (i : ℕ) (h : Handle) (s t : State) (done : Option Handle)
      → get_elem? s.handles i ≡ some h
      → depart h ≡ done
      → All P s.handles
      → depart_result i s done ≡ some t
      → All P t.handles
  depart-OfAll i h s t none f d o e = absurd (ground arith)
  depart-OfAll i h s t (some h') f d o e =
      let same : (set_handle i h' s).handles ≡ t.handles = ground arith in
      subst (All P) same (set-OfAll i h' s (on_depart h h' (All-get P s.handles i h o f) d) o)

  deregisters-OfAll :
      (i : ℕ) (s t : State) (found : Option Handle)
      → get_elem? s.handles i ≡ found
      → All P s.handles
      → with_handle (λ h u. depart_result i u (depart h)) s found ≡ some t
      → All P t.handles
  deregisters-OfAll i s t none f o e = absurd (ground arith)
  deregisters-OfAll i s t (some h) f o e = depart-OfAll i h s t (depart h) f refl o e

  shut_down-OfAll :
      (i : ℕ) (s t : State) (found : Option Handle)
      → get_elem? s.handles i ≡ found
      → All P s.handles
      → with_handle (shut_down_handle i) s found ≡ some t
      → All P t.handles
  shut_down-OfAll i s t none f o e = absurd (ground arith)
  shut_down-OfAll i s t (some h) f o e =
      let same : (set_handle i (shutdown h) s).handles ≡ t.handles = ground arith in
      subst (All P) same (set-OfAll i _ s (on_shutdown h (All-get P s.handles i h o f)) o)

  shuts_down-OfAll :
      (k : ℕ) (s t : State) (found : Option ℕ)
      → All P s.handles
      → shut_down_next k s found ≡ some t
      → All P t.handles
  shuts_down-OfAll k s t none o e = absurd (ground arith)
  shuts_down-OfAll k s t (some i) o e = shut_down-OfAll i _ t (get_elem? s.handles i) refl o e

  plan-handles :
      (card_id : Str) (msg : Message) (s : State) (found : Option ℕ)
      → s.handles ≡ (plan_if_registered card_id msg s found).handles
  plan-handles card_id msg s none = refl
  plan-handles card_id msg s (some h) = refl

  dispatch_event-handles :
      (d : RouteDecision) (event_id prompt departure farewell : Str) (s : State)
      → s.handles ≡ (dispatch_event d event_id prompt departure farewell s).handles
  unfolding dispatch_event
  dispatch_event-handles d event_id prompt departure farewell s = ground arith

  delete-handles :
      (card_id : Str) (s : State) (found : Option ℕ)
      → s.handles ≡ (delete_found card_id s found).handles
  delete-handles card_id s none = refl
  delete-handles card_id s (some h) = refl

  stop-handles : (s : State) → s.handles ≡ (stop s).handles
  unfolding stop
  stop-handles s = ground arith

  step-OfAll :
      (a : Action) (s t : State)
      → All P s.handles
      → step inbox_buf idle_timeout a s ≡ some t
      → All P t.handles
  unfolding step delete_worker
  step-OfAll (calls d event_id prompt departure farewell) s t o e =
      subst (λ u. All P u.handles) (some-injective _ _ e)
        (subst (All P) (dispatch_event-handles d event_id prompt departure farewell s) o)
  step-OfAll (begins k) s t o e = begin-OfAll k s t (get_elem? s.planned k) o e
  step-OfAll (pushes k) s t o e = pushes-OfAll k s t (get_elem? s.pending k) o e
  step-OfAll (refuses k) s t o e = refuses-OfAll k s t (get_elem? s.pending k) o e
  step-OfAll (gives_up k) s t o e = gives_up-OfAll k s t (get_elem? s.pending k) o e
  step-OfAll (works i w) s t o e = works-OfAll i w s t (get_elem? s.handles i) refl o e
  step-OfAll (deregisters i) s t o e = deregisters-OfAll i s t (get_elem? s.handles i) refl o e
  step-OfAll stops s t o e =
      subst (λ u. All P u.handles) (some-injective _ _ e) (subst (All P) (stop-handles s) o)
  step-OfAll (deletes card_id) s t o e =
      subst (λ u. All P u.handles) (some-injective _ _ e)
        (subst (All P) (delete-handles card_id s (lookup card_id s.workers)) o)
  step-OfAll (shuts_down k) s t o e = shuts_down-OfAll k s t (get_elem? s.doomed k) o e

  after-OfAll :
      (acts : List Action) (s : State) (next : Option State) (t : State)
      → ((u : State) → next ≡ some u → All P u.handles)
      → ((u : State)
          → All P u.handles
          → run inbox_buf idle_timeout acts u ≡ some t
          → All P t.handles)
      → run_after (run inbox_buf idle_timeout acts) next ≡ some t
      → All P t.handles
  after-OfAll acts s none t o rest e = absurd (ground arith)
  after-OfAll acts s (some u) t o rest e = rest u (o u refl) e

  pub run-All :
      (acts : List Action) (s t : State)
      → All P s.handles
      → run inbox_buf idle_timeout acts s ≡ some t
      → All P t.handles
  unfolding run
  run-All [] s t o e = subst (λ u. All P u.handles) (some-injective _ _ e) o
  run-All (a ∷ acts) s t o e =
      after-OfAll acts s (step inbox_buf idle_timeout a s) t (λ u. step-OfAll a s u o)
        (λ u. run-All acts u t) e
