-- ===== src/Dispatcher/Order.antt =====
-- The messages of one worker in internal/app/dispatcher.go, from its inbox to its sessions.
use trello_openclaw_webhook.Prelude.{
  ℕ, ◌≡◌, ◌≤◌, refl, Bool, true, false, some, List, [], ◌∷◌, ◌++◌, ltb, length, append_assoc,
  length-append, arith,
}
use trello_openclaw_webhook.Dispatcher.System.Handles.{get_elem?, All-get}
use trello_openclaw_webhook.Dispatcher.System.{
  Message, Phase, waiting, holding, sending, leaving, gone, Handle, State, init, put, receive,
  observe_kill, idle_reap, open_session, send, finish, depart,
}
use trello_openclaw_webhook.Dispatcher.Every.{run-All}
use trello_openclaw_webhook.Dispatcher.Steps.{Work, work, run, Action}

-- The message that the goroutine has taken from the inbox and not yet handed to a session.
abbrev held : Phase → List Message
held waiting = []
held (holding m) = m ∷ []
held (sending m) = []
held leaving = []
held gone = []

abbrev has_left : Phase → Bool
has_left waiting = false
has_left (holding m) = false
has_left (sending m) = false
has_left leaving = true
has_left gone = true

-- What the inbox took is what was sent, then what was dropped, then what is held, then the inbox.
pub record IsOrdered (inbox_buf : ℕ) (h : Handle) : Type 0 where
  fifo : h.sent ++ h.lost ++ held h.phase ++ h.inbox ≡ h.accepted
  bounded : length h.inbox ≤ inbox_buf
  kept : has_left h.phase ≡ false → h.lost ≡ []

work-IsOrdered :
    (inbox_buf : ℕ) (idle_timeout : Bool) (w : Work) (h h' : Handle)
    → IsOrdered inbox_buf h
    → work idle_timeout w h ≡ some h'
    → IsOrdered inbox_buf h'
unfolding work receive observe_kill idle_reap open_session send finish
work-IsOrdered inbox_buf idle_timeout w h h' o e = record {
  fifo = grind (arith, append_assoc);
  bounded = ground arith;
  kept = ground arith;
}

put-IsOrdered :
    (inbox_buf : ℕ) (msg : Message) (h : Handle)
    → IsOrdered inbox_buf h
    → ltb (length h.inbox) inbox_buf ≡ true
    → IsOrdered inbox_buf (put msg h)
put-IsOrdered inbox_buf msg h o room = record {
  fifo = grind (arith, append_assoc);
  bounded = ground (arith, length-append h.inbox (msg ∷ []));
  kept = o.kept;
}

depart-IsOrdered :
    (inbox_buf : ℕ) (h h' : Handle)
    → IsOrdered inbox_buf h
    → depart h ≡ some h'
    → IsOrdered inbox_buf h'
unfolding depart
depart-IsOrdered inbox_buf h h' o e = record {
  fifo = ground arith;
  bounded = ground arith;
  kept = ground arith;
}

-- In every state that the dispatcher reaches, and for every worker: the messages its inbox took, in
-- the order in which it took them, are those handed to a session, then the one dropped when no
-- session could be created, then the one it holds, then those in the inbox; the inbox holds at most
-- `inbox_buf` messages; and none is dropped before the worker leaves.
pub run-IsOrdered :
    (inbox_buf : ℕ) (idle_timeout : Bool) (acts : List Action) (s : State) (i : ℕ) (h : Handle)
    → run inbox_buf idle_timeout acts init ≡ some s
    → get_elem? s.handles i ≡ some h
    → IsOrdered inbox_buf h
run-IsOrdered inbox_buf idle_timeout acts s i h e f =
    All-get (IsOrdered inbox_buf) s.handles i h
      (run-All (IsOrdered inbox_buf) inbox_buf idle_timeout
        (λ c. record { fifo = refl; bounded = omega arith; kept = λ k. refl })
        (work-IsOrdered inbox_buf idle_timeout) (put-IsOrdered inbox_buf)
        (λ h o. record { fifo = o.fifo; bounded = o.bounded; kept = o.kept })
        (depart-IsOrdered inbox_buf) acts init s tt e)
      f
