-- ===== src/Runner/Handle/Once.antt =====
-- Retried deliveries in `Handle` of internal/app/runner.go.
use trello_openclaw_webhook.Prelude.{
  ℕ, ◌+◌, ◌≤◌, ◌≡◌, ◌≢◌, refl, Bool, true, false, List, [], ◌∷◌, Option, none, some, Str, bytes,
  lookup, All, arith,
}
use trello_openclaw_webhook.Payload.{
  Json, obj, Fields, Body, member, non_empty_string, nested_from, nested_string, parse_raw_body,
}
use trello_openclaw_webhook.Payload.Slim.{slim_raw_body}
use trello_openclaw_webhook.Router.Engine.{Engine}
use trello_openclaw_webhook.Runner.Dedup.{Seen, mark_action_seen}
use trello_openclaw_webhook.Runner.Dedup.Once.{
  mark_action_seen-keeps, mark_action_seen-recorded, mark_action_seen-again,
}
use trello_openclaw_webhook.Runner.Handle.{
  Prompts, Runner, duplicate, handle_new, handle_marked, handle_id, handle, handle_all,
}

non_empty_string-some : (v : Json) (s : Str) → non_empty_string v ≡ some s → s ≢ []
unfolding non_empty_string
non_empty_string-some v s e n = absurd (ground arith)

last-some :
    (m : Option Json) (s : Str)
    → (elim m [ none ↦ none | some value ↦ non_empty_string value ]) ≡ some s
    → s ≢ []
last-some none s e = absurd (ground arith)
last-some (some value) s e = non_empty_string-some value s e

step-some :
    (path : List Str) (m : Option Json) (s : Str)
    → ((v : Json) → nested_from v path ≡ some s → s ≢ [])
    → (elim m [ none ↦ none | some value ↦ nested_from value path ]) ≡ some s
    → s ≢ []
step-some path none s ih e = absurd (ground arith)
step-some path (some value) s ih e = ih value e

nested_from-some : (path : List Str) (v : Json) (s : Str) → nested_from v path ≡ some s → s ≢ []
unfolding nested_from
nested_from-some [] v s e = absurd (ground arith)
nested_from-some (key ∷ []) v s e = last-some (member v key) s e
nested_from-some (key ∷ next ∷ path) v s e =
    step-some (next ∷ path) (member v key) s (λ w. nested_from-some (next ∷ path) w s) e

module _ (prompts : Prompts) (engine : Engine) where
  handle_new-seen :
      (event_id : Str) (raw : Body) (r : Runner) (slim : Option Fields)
      → (handle_new prompts engine event_id raw r slim).1.seen ≡ r.seen
  handle_new-seen event_id raw r none = refl
  handle_new-seen event_id raw r (some slim) = refl

  handle_marked-seen :
      (event_id : Str) (raw : Body) (r : Runner) (marked : Bool × Seen)
      → (handle_marked prompts engine event_id raw r marked).1.seen ≡ marked.1
  handle_marked-seen event_id raw r (true, seen) = refl
  handle_marked-seen event_id raw r (false, seen) =
      handle_new-seen event_id raw _ (slim_raw_body raw)

  handle_id-keeps :
      (ttl now t : ℕ) (event_id id : Str) (raw : Body) (r : Runner) (found : Option Str)
      → lookup id r.seen ≡ some t
      → now ≤ t + ttl
      → lookup id (handle_id prompts engine ttl now event_id raw r found).1.seen ≡ some t
  handle_id-keeps ttl now t event_id id raw r none e le =
      cc (handle_new-seen event_id raw r (slim_raw_body raw), e)
  handle_id-keeps ttl now t event_id id raw r (some other) e le = cc (
    handle_marked-seen event_id raw r (mark_action_seen ttl now other r.seen),
    mark_action_seen-keeps ttl now t other id r.seen e le,
  )

  handle_all-keeps :
      (ttl t : ℕ) (id : Str) (later : List (ℕ × Str × Body)) (r : Runner)
      → lookup id r.seen ≡ some t
      → All (λ d. d.0 ≤ t + ttl) later
      → lookup id (handle_all prompts engine ttl later r).seen ≡ some t
  unfolding handle_all handle
  handle_all-keeps ttl t id [] r e h = e
  handle_all-keeps ttl t id ((now, event_id, raw) ∷ later) r e (p, h) =
      handle_all-keeps ttl t id later (handle prompts engine ttl now event_id raw r).1
        (handle_id-keeps ttl now t event_id id raw r
          (nested_string (parse_raw_body raw) (bytes "action" ∷ bytes "id" ∷ [])) e p)
        h

  handle_marked-first :
      (event_id : Str) (raw : Body) (r : Runner) (marked : Bool × Seen)
      → (handle_marked prompts engine event_id raw r marked).0 ≢ duplicate
      → marked.0 ≡ false
  handle_marked-first event_id raw r (true, seen) n = absurd (n refl)
  handle_marked-first event_id raw r (false, seen) n = refl

  handle_marked-again :
      (event_id : Str) (raw : Body) (r : Runner) (marked : Bool × Seen)
      → marked.0 ≡ true
      → (handle_marked prompts engine event_id raw r marked).0 ≡ duplicate
        × (handle_marked prompts engine event_id raw r marked).1.dispatcher ≡ r.dispatcher
  handle_marked-again event_id raw r (true, seen) e = (refl, refl)
  handle_marked-again event_id raw r (false, seen) e = absurd (ground arith)

  handle_id-recorded :
      (ttl t : ℕ) (event_id id : Str) (raw : Body) (r : Runner) (found : Option Str)
      → found ≡ some id
      → id ≢ []
      → (handle_id prompts engine ttl t event_id raw r found).0 ≢ duplicate
      → lookup id (handle_id prompts engine ttl t event_id raw r found).1.seen ≡ some t
  handle_id-recorded ttl t event_id id raw r none e n first = absurd (ground arith)
  handle_id-recorded ttl t event_id id raw r (some other) e n first =
      let same : other ≡ id = cc e in
      let new : (mark_action_seen ttl t other r.seen).0 ≡ false =
        handle_marked-first event_id raw r (mark_action_seen ttl t other r.seen) first in
      let it : (mark_action_seen ttl t id r.seen).0 ≡ false = cc (same, new) in
      cc (
        handle_marked-seen event_id raw r (mark_action_seen ttl t other r.seen),
        same,
        mark_action_seen-recorded ttl t id r.seen it n,
      )

  handle_id-again :
      (ttl now t : ℕ) (event_id id : Str) (raw : Body) (r : Runner) (found : Option Str)
      → found ≡ some id
      → id ≢ []
      → lookup id r.seen ≡ some t
      → now ≤ t + ttl
      → (handle_id prompts engine ttl now event_id raw r found).0 ≡ duplicate
        × (handle_id prompts engine ttl now event_id raw r found).1.dispatcher ≡ r.dispatcher
  handle_id-again ttl now t event_id id raw r none e n f le = absurd (ground arith)
  handle_id-again ttl now t event_id id raw r (some other) e n f le =
      let same : other ≡ id = cc e in
      let it : (mark_action_seen ttl now id r.seen).0 ≡ true =
        mark_action_seen-again ttl now t id r.seen n f le in
      handle_marked-again event_id raw r (mark_action_seen ttl now other r.seen) (cc (same, it))

  -- When a delivery with an action id is not dropped as a duplicate at time `t`, then after any further
  -- deliveries at times up to `t + ttl`, a delivery with the same action id at a time up to `t + ttl` is
  -- dropped as a duplicate, and the dispatcher's state is unchanged by it.
  pub handle-once :
      (ttl t now : ℕ) (event_id event_id' id : Str) (raw raw' : Body) (r : Runner)
      (later : List (ℕ × Str × Body))
      → nested_string (parse_raw_body raw) (bytes "action" ∷ bytes "id" ∷ []) ≡ some id
      → nested_string (parse_raw_body raw') (bytes "action" ∷ bytes "id" ∷ []) ≡ some id
      → (handle prompts engine ttl t event_id raw r).0 ≢ duplicate
      → All (λ d. d.0 ≤ t + ttl) later
      → now ≤ t + ttl
      → let r' =
          handle_all prompts engine ttl later (handle prompts engine ttl t event_id raw r).1 in
        (handle prompts engine ttl now event_id' raw' r').0 ≡ duplicate
        × (handle prompts engine ttl now event_id' raw' r').1.dispatcher ≡ r'.dispatcher
  unfolding handle nested_string
  handle-once ttl t now event_id event_id' id raw raw' r later e e' first h le =
      let n : id ≢ [] =
        nested_from-some (bytes "action" ∷ bytes "id" ∷ []) (obj (parse_raw_body raw)) id e in
      let recorded =
        handle_id-recorded ttl t event_id id raw r
          (nested_string (parse_raw_body raw) (bytes "action" ∷ bytes "id" ∷ [])) e n first in
      handle_id-again ttl now t event_id' id raw' _
        (nested_string (parse_raw_body raw') (bytes "action" ∷ bytes "id" ∷ [])) e' n
        (handle_all-keeps ttl t id later _ recorded h) le
