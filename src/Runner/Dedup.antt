-- ===== src/Runner/Dedup.antt =====
-- `markActionSeen` of internal/app/runner.go. Times and the TTL are in nanoseconds.
pub mod Once
use trello_openclaw_webhook.Prelude.{
  ℕ, ◌+◌, Bool, true, false, List, [], ◌∷◌, Option, none, some, Str, ◌==◌, ltb, if◌then◌else◌,
  lookup, insert,
}

-- `dedupSeen`
abbrev pub Seen : Type 0
Seen = List (Str × ℕ)

-- The entries whose TTL has passed are deleted.
unfoldable pub prune : (ttl now : ℕ) → Seen → Seen
prune ttl now [] = []
prune ttl now ((id, seen_at) ∷ seen) =
    let rest = prune ttl now seen in if ltb (seen_at + ttl) now then rest else (id, seen_at) ∷ rest

abbrev pub mark_found : (now : ℕ) → Str → Seen → Option ℕ → Bool × Seen
mark_found now action_id seen none = (false, insert action_id now seen)
mark_found now action_id seen (some seen_at) = (true, seen)

unfoldable pub mark_action_seen : (ttl now : ℕ) → Str → Seen → Bool × Seen
unfolding prune lookup insert
mark_action_seen ttl now action_id seen =
    if action_id == []
    then (false, seen)
    else mark_found now action_id (prune ttl now seen) (lookup action_id (prune ttl now seen))

-- Further deliveries, each at its time.
unfoldable pub mark_all : (ttl : ℕ) → List (ℕ × Str) → Seen → Seen
unfolding mark_action_seen
mark_all ttl [] seen = seen
mark_all ttl ((now, action_id) ∷ later) seen =
    mark_all ttl later (mark_action_seen ttl now action_id seen).1
