-- ===== src/Dispatcher/Unique.antt =====
-- The workers of one card in internal/app/dispatcher.go, in runs without `DeleteWorker`.
mod Keeps
use trello_openclaw_webhook.Prelude.{
  ℕ, ◌≡◌, refl, Bool, true, false, Option, none, some, List, [], ◌∷◌, Str, lookup, ◌<◌, ◌++◌, ◌&&◌,
  not, arith,
}
use trello_openclaw_webhook.Dispatcher.System.Handles.{get_elem?}
use trello_openclaw_webhook.Dispatcher.System.{
  Message, Handle, State, init, dispatch_event, put, shutdown, depart, answer, context_error,
}
use trello_openclaw_webhook.Dispatcher.Steps.{
  Work, work, Action, step, run, stop, calls, begins, pushes, refuses, gives_up, works, deregisters,
  stops, deletes, shuts_down, with_handle, work_result, begin_call, with_pending, push, refuse,
  shut_down_next, depart_result, run_after, shut_down_handle,
}
use mathlib.Core.Path.{subst}
use mathlib.Core.Option.{some-injective}
use trello_openclaw_webhook.Dispatcher.Routing.{RouteDecision}
use trello_openclaw_webhook.Dispatcher.Unique.Keeps.{
  is_gone, IsUnique, work-frame, replace-IsUnique, depart-IsUnique, enqueue-IsUnique,
}

abbrev pub is_delete : Action → Bool
is_delete (deletes card_id) = true
is_delete (calls d event_id prompt departure farewell) = false
is_delete (begins k) = false
is_delete (pushes k) = false
is_delete (refuses k) = false
is_delete (gives_up k) = false
is_delete (works i w) = false
is_delete (deregisters i) = false
is_delete stops = false
is_delete (shuts_down k) = false

-- `DeleteWorker` is not called.
abbrev pub deletes_none : List Action → Bool
deletes_none [] = true
deletes_none (a ∷ acts) = not (is_delete a) && deletes_none acts

keep-IsUnique :
    (s t : State) → s.handles ≡ t.handles → s.workers ≡ t.workers → IsUnique s → IsUnique t
keep-IsUnique s t eh ew u j k fj live =
    let before : get_elem? s.handles j ≡ some k = cc (eh, fj) in cc (u j k before live, ew)

begin-IsUnique :
    (k : ℕ) (s t : State) (found : Option (Str × Message))
    → begin_call k s found ≡ some t
    → IsUnique s
    → IsUnique t
begin-IsUnique k s t none e u = absurd (ground arith)
begin-IsUnique k s t (some (card_id, msg)) e u =
    subst IsUnique (some-injective _ _ e) (enqueue-IsUnique card_id msg _ u)

push-IsUnique :
    (inbox_buf i : ℕ) (msg : Message) (s t : State) (found : Option Handle)
    → get_elem? s.handles i ≡ found
    → with_handle (push inbox_buf i msg) s found ≡ some t
    → IsUnique s
    → IsUnique t
push-IsUnique inbox_buf i msg s t none f e u = absurd (ground arith)
push-IsUnique inbox_buf i msg s t (some h) f e u =
    replace-IsUnique s t i h (put msg h) f refl (λ g. g) (ground arith) (ground arith) u

pushes-IsUnique :
    (inbox_buf k : ℕ) (s t : State) (found : Option (ℕ × Message))
    → with_pending
        (λ i msg v. with_handle (push inbox_buf i msg) v (get_elem? v.handles i))
        k
        s
        found
      ≡ some t
    → IsUnique s
    → IsUnique t
pushes-IsUnique inbox_buf k s t none e u = absurd (ground arith)
pushes-IsUnique inbox_buf k s t (some (i, msg)) e u =
    push-IsUnique inbox_buf i msg _ t (get_elem? s.handles i) refl e u

refuse-IsUnique :
    (msg : Message) (s t : State) (found : Option Handle)
    → with_handle (refuse msg) s found ≡ some t
    → IsUnique s
    → IsUnique t
refuse-IsUnique msg s t none e u = absurd (ground arith)
refuse-IsUnique msg s t (some h) e u = keep-IsUnique s t (ground arith) (ground arith) u

refuses-IsUnique :
    (k : ℕ) (s t : State) (found : Option (ℕ × Message))
    → with_pending (λ i msg v. with_handle (refuse msg) v (get_elem? v.handles i)) k s found
      ≡ some t
    → IsUnique s
    → IsUnique t
refuses-IsUnique k s t none e u = absurd (ground arith)
refuses-IsUnique k s t (some (i, msg)) e u = refuse-IsUnique msg _ t (get_elem? s.handles i) e u

gives_up-IsUnique :
    (k : ℕ) (s t : State) (found : Option (ℕ × Message))
    → with_pending (λ i msg v. some (answer msg context_error v)) k s found ≡ some t
    → IsUnique s
    → IsUnique t
gives_up-IsUnique k s t none e u = absurd (ground arith)
gives_up-IsUnique k s t (some (i, msg)) e u = keep-IsUnique s t (ground arith) (ground arith) u

work-IsUnique :
    (idle_timeout : Bool) (i : ℕ) (w : Work) (h : Handle) (s t : State) (done : Option Handle)
    → get_elem? s.handles i ≡ some h
    → work idle_timeout w h ≡ done
    → work_result i s done ≡ some t
    → IsUnique s
    → IsUnique t
work-IsUnique idle_timeout i w h s t none f d e u = absurd (ground arith)
work-IsUnique idle_timeout i w h s t (some h') f d e u =
    let frame : h'.card_id ≡ h.card_id × is_gone h.phase ≡ false =
      work-frame idle_timeout w h h' d in
    replace-IsUnique s t i h h' f frame.0 (λ g. frame.1) (ground arith) (ground arith) u

works-IsUnique :
    (idle_timeout : Bool) (i : ℕ) (w : Work) (s t : State) (found : Option Handle)
    → get_elem? s.handles i ≡ found
    → with_handle (λ h v. work_result i v (work idle_timeout w h)) s found ≡ some t
    → IsUnique s
    → IsUnique t
works-IsUnique idle_timeout i w s t none f e u = absurd (ground arith)
works-IsUnique idle_timeout i w s t (some h) f e u =
    work-IsUnique idle_timeout i w h s t (work idle_timeout w h) f refl e u

depart-card_id : (h h' : Handle) → depart h ≡ some h' → h'.card_id ≡ h.card_id
unfolding depart
depart-card_id h h' e = ground arith

depart-frame :
    (h h' : Handle) → depart h ≡ some h' → is_gone h.phase ≡ false × is_gone h'.phase ≡ true
unfolding depart
depart-frame h h' e = (ground arith, ground arith)

departed-IsUnique :
    (i : ℕ) (h : Handle) (s t : State) (done : Option Handle)
    → get_elem? s.handles i ≡ some h
    → depart h ≡ done
    → depart_result i s done ≡ some t
    → IsUnique s
    → IsUnique t
departed-IsUnique i h s t none f d e u = absurd (ground arith)
departed-IsUnique i h s t (some h') f d e u =
    let frame : is_gone h.phase ≡ false × is_gone h'.phase ≡ true = depart-frame h h' d in
    depart-IsUnique s t i h h' f frame.0 frame.1 (ground arith)
      (ground (arith, depart-card_id h h' d)) u

deregisters-IsUnique :
    (i : ℕ) (s t : State) (found : Option Handle)
    → get_elem? s.handles i ≡ found
    → with_handle (λ h v. depart_result i v (depart h)) s found ≡ some t
    → IsUnique s
    → IsUnique t
deregisters-IsUnique i s t none f e u = absurd (ground arith)
deregisters-IsUnique i s t (some h) f e u = departed-IsUnique i h s t (depart h) f refl e u

shut_down-IsUnique :
    (i : ℕ) (s t : State) (found : Option Handle)
    → get_elem? s.handles i ≡ found
    → with_handle (shut_down_handle i) s found ≡ some t
    → IsUnique s
    → IsUnique t
shut_down-IsUnique i s t none f e u = absurd (ground arith)
shut_down-IsUnique i s t (some h) f e u =
    replace-IsUnique s t i h (shutdown h) f refl (λ g. g) (ground arith) (ground arith) u

shuts_down-IsUnique :
    (k : ℕ) (s t : State) (found : Option ℕ)
    → shut_down_next k s found ≡ some t
    → IsUnique s
    → IsUnique t
shuts_down-IsUnique k s t none e u = absurd (ground arith)
shuts_down-IsUnique k s t (some i) e u = shut_down-IsUnique i _ t (get_elem? s.handles i) refl e u

dispatch_event-frame :
    (d : RouteDecision) (event_id prompt departure farewell : Str) (s : State)
    → s.handles ≡ (dispatch_event d event_id prompt departure farewell s).handles
      × s.workers ≡ (dispatch_event d event_id prompt departure farewell s).workers
unfolding dispatch_event
dispatch_event-frame d event_id prompt departure farewell s = (ground arith, ground arith)

step-IsUnique :
    (inbox_buf : ℕ) (idle_timeout : Bool) (a : Action) (s t : State)
    → is_delete a ≡ false
    → step inbox_buf idle_timeout a s ≡ some t
    → IsUnique s
    → IsUnique t
unfolding step stop
step-IsUnique inbox_buf idle_timeout (calls d event_id prompt departure farewell) s t n e u =
    let frame = dispatch_event-frame d event_id prompt departure farewell s in
    subst IsUnique (some-injective _ _ e)
      (keep-IsUnique s (dispatch_event d event_id prompt departure farewell s) frame.0 frame.1 u)
step-IsUnique inbox_buf idle_timeout (begins k) s t n e u =
    begin-IsUnique k s t (get_elem? s.planned k) e u
step-IsUnique inbox_buf idle_timeout (pushes k) s t n e u =
    pushes-IsUnique inbox_buf k s t (get_elem? s.pending k) e u
step-IsUnique inbox_buf idle_timeout (refuses k) s t n e u =
    refuses-IsUnique k s t (get_elem? s.pending k) e u
step-IsUnique inbox_buf idle_timeout (gives_up k) s t n e u =
    gives_up-IsUnique k s t (get_elem? s.pending k) e u
step-IsUnique inbox_buf idle_timeout (works i w) s t n e u =
    works-IsUnique idle_timeout i w s t (get_elem? s.handles i) refl e u
step-IsUnique inbox_buf idle_timeout (deregisters i) s t n e u =
    deregisters-IsUnique i s t (get_elem? s.handles i) refl e u
step-IsUnique inbox_buf idle_timeout stops s t n e u =
    keep-IsUnique s t (ground arith) (ground arith) u
step-IsUnique inbox_buf idle_timeout (deletes card_id) s t n e u = absurd (ground arith)
step-IsUnique inbox_buf idle_timeout (shuts_down k) s t n e u =
    shuts_down-IsUnique k s t (get_elem? s.doomed k) e u

after-IsUnique :
    (f : State → Option State) (next : Option State) (t : State)
    → ((v : State) → next ≡ some v → IsUnique v)
    → ((v : State) → IsUnique v → f v ≡ some t → IsUnique t)
    → run_after f next ≡ some t
    → IsUnique t
after-IsUnique f none t o rest e = absurd (ground arith)
after-IsUnique f (some v) t o rest e = rest v (o v refl) e

run-IsUnique :
    (inbox_buf : ℕ) (idle_timeout : Bool) (acts : List Action) (s t : State)
    → deletes_none acts ≡ true
    → run inbox_buf idle_timeout acts s ≡ some t
    → IsUnique s
    → IsUnique t
unfolding run
run-IsUnique inbox_buf idle_timeout [] s t n e u = subst IsUnique (some-injective _ _ e) u
run-IsUnique inbox_buf idle_timeout (a ∷ acts) s t n e u =
    after-IsUnique (run inbox_buf idle_timeout acts) (step inbox_buf idle_timeout a s) t
      (λ v d. step-IsUnique inbox_buf idle_timeout a s v (ground arith) d u)
      (λ v d g. run-IsUnique inbox_buf idle_timeout acts v t (ground arith) g d) e

-- In every state reached without a call of `DeleteWorker`: two workers of one card that have not yet
-- run `deregister` are the same worker, and it is the one that the registry names for the card.
pub run-one_worker :
    (inbox_buf : ℕ) (idle_timeout : Bool) (acts : List Action) (s : State) (i j : ℕ) (h k : Handle)
    → deletes_none acts ≡ true
    → run inbox_buf idle_timeout acts init ≡ some s
    → get_elem? s.handles i ≡ some h
    → get_elem? s.handles j ≡ some k
    → is_gone h.phase ≡ false
    → is_gone k.phase ≡ false
    → h.card_id ≡ k.card_id
    → i ≡ j × lookup h.card_id s.workers ≡ some i
run-one_worker inbox_buf idle_timeout acts s i j h k n e fi fj gi gj same =
    let u : IsUnique s =
      run-IsUnique inbox_buf idle_timeout acts init s n e (λ x y f g. absurd (ground (arith, f))) in
    let ui : lookup h.card_id s.workers ≡ some i = u i h fi gi in
    let uj : lookup k.card_id s.workers ≡ some j = u j k fj gj in
    (some-injective _ _ (cc (ui, uj, same)), ui)
