-- ===== src/Dispatcher/Unique/Keeps.antt =====
-- The registry of internal/app/dispatcher.go when a handle changes, leaves or is added.
use trello_openclaw_webhook.Prelude.{
  ℕ, ◌≡◌, refl, Bool, true, false, Option, none, some, [], ◌∷◌, Str, ltb, length, lookup, delete,
  lookup-insert, lookup-delete, eq_iff, eq_refl, ◌<◌, ◌++◌, length-append, nat_eq, Bool-cases, inl,
  inr, arith,
}
use trello_openclaw_webhook.Dispatcher.System.Handles.{
  get_elem?, update, get_elem?-update_self, get_elem?-update_ne, get_elem?-lt,
  get_elem?-append_left, get_elem?-append_last,
}
use trello_openclaw_webhook.Dispatcher.System.{
  Message, Phase, waiting, holding, sending, leaving, gone, Handle, State, new_handle, enqueue,
  register, receive, observe_kill, idle_reap, open_session, send, finish,
}
use trello_openclaw_webhook.Dispatcher.Steps.{Work, work}

abbrev pub is_gone : Phase → Bool
is_gone waiting = false
is_gone (holding m) = false
is_gone (sending m) = false
is_gone leaving = false
is_gone gone = true

-- A worker that has not run `deregister` is the registered one of its card.
abbrev pub IsUnique : State → Type 0
IsUnique s =
    (i : ℕ) (h : Handle)
    → get_elem? s.handles i ≡ some h
    → is_gone h.phase ≡ false
    → lookup h.card_id s.workers ≡ some i

pub work-frame :
    (idle_timeout : Bool) (w : Work) (h h' : Handle)
    → work idle_timeout w h ≡ some h'
    → h'.card_id ≡ h.card_id × is_gone h.phase ≡ false
unfolding work receive observe_kill idle_reap open_session send finish
work-frame idle_timeout w h h' e = (ground arith, ground arith)

pub replace-IsUnique :
    (s t : State) (i : ℕ) (h h' : Handle)
    → get_elem? s.handles i ≡ some h
    → h'.card_id ≡ h.card_id
    → (is_gone h'.phase ≡ false → is_gone h.phase ≡ false)
    → t.handles ≡ update i h' s.handles
    → t.workers ≡ s.workers
    → IsUnique s
    → IsUnique t
replace-IsUnique s t i h h' f c g eh ew u j k fj live = elim (Bool-cases (nat_eq i j)) [
  | inl e ↦
      let self : get_elem? (update i h' s.handles) i ≡ some h' =
        get_elem?-update_self i h' s.handles (get_elem?-lt s.handles i h f) in
      let same : i ≡ j = ground arith in
      let it : h' ≡ k = cc (self, same, fj, eh) in
      let alive : is_gone h'.phase ≡ false = cc (it, live) in
      cc (u i h f (g alive), same, it, c, ew)
  | inr e ↦
      let other : get_elem? (update i h' s.handles) j ≡ get_elem? s.handles j =
        get_elem?-update_ne i j h' s.handles (ground arith) in
      let before : get_elem? s.handles j ≡ some k = cc (other, fj, eh) in cc (u j k before live, ew)
]

pub depart-IsUnique :
    (s t : State) (i : ℕ) (h h' : Handle)
    → get_elem? s.handles i ≡ some h
    → is_gone h.phase ≡ false
    → is_gone h'.phase ≡ true
    → t.handles ≡ update i h' s.handles
    → t.workers ≡ delete h.card_id s.workers
    → IsUnique s
    → IsUnique t
depart-IsUnique s t i h h' f l g eh ew u j k fj live = elim (Bool-cases (nat_eq i j)) [
  | inl e ↦
      let self : get_elem? (update i h' s.handles) i ≡ some h' =
        get_elem?-update_self i h' s.handles (get_elem?-lt s.handles i h f) in
      let same : i ≡ j = ground arith in
      let it : h' ≡ k = cc (self, same, fj, eh) in
      let off : true ≡ false = cc (it, live, g) in absurd (ground (arith, off))
  | inr e ↦
      let other : get_elem? (update i h' s.handles) j ≡ get_elem? s.handles j =
        get_elem?-update_ne i j h' s.handles (ground arith) in
      let before : get_elem? s.handles j ≡ some k = cc (other, fj, eh) in
      let mine : lookup h.card_id s.workers ≡ some i = u i h f l in
      let yours : lookup k.card_id s.workers ≡ some j = u j k before live in
      ground (
        arith,
        eq_iff h.card_id k.card_id,
        lookup-delete h.card_id k.card_id s.workers,
        mine,
        yours,
        ew,
        e,
      )
]

pub register-IsUnique :
    (card_id : Str) (msg : Message) (s : State) (found : Option ℕ)
    → lookup card_id s.workers ≡ found
    → IsUnique s
    → IsUnique (register card_id msg s found)
register-IsUnique card_id msg s none e u j k fj live =
    elim (Bool-cases (ltb j (length s.handles))) [
      | inl old ↦
          let before : get_elem? s.handles j ≡ some k =
            cc (get_elem?-append_left s.handles (new_handle card_id ∷ []) j (ground arith), fj) in
          let yours : lookup k.card_id s.workers ≡ some j = u j k before live in
          ground (
            arith,
            eq_iff card_id k.card_id,
            lookup-insert card_id k.card_id (length s.handles) s.workers,
            yours,
            e,
          )
      | inr new ↦
          let below : j < length (s.handles ++ new_handle card_id ∷ []) =
            get_elem?-lt (s.handles ++ new_handle card_id ∷ []) j k fj in
          let last : length s.handles ≡ j =
            ground (arith, length-append s.handles (new_handle card_id ∷ []), below) in
          let it : new_handle card_id ≡ k =
            cc (get_elem?-append_last s.handles (new_handle card_id), last, fj) in
          let at : card_id ≡ k.card_id = cc it in
          ground (
            arith,
            eq_refl card_id,
            lookup-insert card_id card_id (length s.handles) s.workers,
            at,
            last,
          )
    ]
register-IsUnique card_id msg s (some h) e u j k fj live = u j k fj live

pub enqueue-IsUnique :
    (card_id : Str) (msg : Message) (s : State) → IsUnique s → IsUnique (enqueue card_id msg s)
unfolding enqueue
enqueue-IsUnique card_id msg s u = elim (Bool-cases s.stopped) [
  | inl stopped ↦ λ j k fj live.
      let before : get_elem? s.handles j ≡ some k = ground (arith, fj) in
      ground (arith, u j k before live)
  | inr running ↦ λ j k fj live.
      let r : IsUnique (register card_id msg s (lookup card_id s.workers)) =
        register-IsUnique card_id msg s (lookup card_id s.workers) refl u in
      let after : get_elem? (register card_id msg s (lookup card_id s.workers)).handles j ≡ some k =
        ground (arith, fj) in
      ground (arith, r j k after live)
]
