-- ===== src/Runner/Dedup/Once.antt =====
-- Repeated action ids in `markActionSeen` of internal/app/runner.go.
use trello_openclaw_webhook.Prelude.{
  ℕ, ◌+◌, ◌≤◌, ◌<◌, ◌≡◌, ◌≢◌, refl, true, false, List, [], ◌∷◌, Option, none, some, Str, eq_iff,
  eq_refl, lookup, lookup-insert, All, arith,
}
use trello_openclaw_webhook.Runner.Dedup.{Seen, prune, mark_found, mark_action_seen, mark_all}

lookup-prune_fresh :
    (ttl now t : ℕ) (id : Str) (seen : Seen)
    → lookup id seen ≡ some t
    → now ≤ t + ttl
    → lookup id (prune ttl now seen) ≡ some t
unfolding prune lookup
lookup-prune_fresh ttl now t id [] e h = e
lookup-prune_fresh ttl now t id ((i, s) ∷ seen) e h =
    grind (arith, eq_iff i id, lookup-prune_fresh ttl now t id seen)

lookup-prune_expired :
    (ttl now : ℕ) (id : Str) (seen : Seen)
    → All (λ entry. entry.0 ≡ id → entry.1 + ttl < now) seen
    → lookup id (prune ttl now seen) ≡ none
unfolding prune lookup
lookup-prune_expired ttl now id [] h = refl
lookup-prune_expired ttl now id ((i, s) ∷ seen) (p, h) =
    ground (arith, eq_iff i id, p, lookup-prune_expired ttl now id seen h)

mark_found-keeps :
    (now t : ℕ) (other id : Str) (seen : Seen) (found : Option ℕ)
    → lookup other seen ≡ found
    → lookup id seen ≡ some t
    → lookup id (mark_found now other seen found).1 ≡ some t
mark_found-keeps now t other id seen none f e =
    ground (arith, eq_iff other id, lookup-insert other id now seen, f, e)
mark_found-keeps now t other id seen (some s) f e = e

pub mark_action_seen-keeps :
    (ttl now t : ℕ) (other id : Str) (seen : Seen)
    → lookup id seen ≡ some t
    → now ≤ t + ttl
    → lookup id (mark_action_seen ttl now other seen).1 ≡ some t
unfolding mark_action_seen
mark_action_seen-keeps ttl now t other id seen e h = ground (
  arith,
  e,
  mark_found-keeps now t other id (prune ttl now seen) (lookup other (prune ttl now seen)) refl
      (lookup-prune_fresh ttl now t id seen e h),
)

mark_all-keeps :
    (ttl t : ℕ) (id : Str) (later : List (ℕ × Str)) (seen : Seen)
    → lookup id seen ≡ some t
    → All (λ d. d.0 ≤ t + ttl) later
    → lookup id (mark_all ttl later seen) ≡ some t
unfolding mark_all
mark_all-keeps ttl t id [] seen e h = e
mark_all-keeps ttl t id ((now, other) ∷ later) seen e (p, h) =
    mark_all-keeps ttl t id later (mark_action_seen ttl now other seen).1
      (mark_action_seen-keeps ttl now t other id seen e p) h

mark_found-again :
    (now t : ℕ) (id : Str) (seen : Seen) (found : Option ℕ)
    → found ≡ some t
    → (mark_found now id seen found).0 ≡ true
mark_found-again now t id seen none e = absurd (ground arith)
mark_found-again now t id seen (some s) e = refl

mark_found-recorded :
    (now : ℕ) (id : Str) (seen : Seen) (found : Option ℕ)
    → (mark_found now id seen found).0 ≡ false
    → lookup id (mark_found now id seen found).1 ≡ some now
mark_found-recorded now id seen none e = ground (arith, eq_refl id, lookup-insert id id now seen)
mark_found-recorded now id seen (some s) e = absurd (ground arith)

pub mark_action_seen-again :
    (ttl now t : ℕ) (id : Str) (seen : Seen)
    → id ≢ []
    → lookup id seen ≡ some t
    → now ≤ t + ttl
    → (mark_action_seen ttl now id seen).0 ≡ true
unfolding mark_action_seen
mark_action_seen-again ttl now t id seen n e le = ground (
  arith,
  eq_iff id [],
  mark_found-again now t id (prune ttl now seen) (lookup id (prune ttl now seen))
      (lookup-prune_fresh ttl now t id seen e le),
)

pub mark_action_seen-recorded :
    (ttl t : ℕ) (id : Str) (seen : Seen)
    → (mark_action_seen ttl t id seen).0 ≡ false
    → id ≢ []
    → lookup id (mark_action_seen ttl t id seen).1 ≡ some t
unfolding mark_action_seen
mark_action_seen-recorded ttl t id seen e n = ground (
  arith,
  eq_iff id [],
  mark_found-recorded t id (prune ttl t seen) (lookup id (prune ttl t seen)),
)

mark_found-new :
    (now : ℕ) (id : Str) (seen : Seen) (found : Option ℕ)
    → found ≡ none
    → (mark_found now id seen found).0 ≡ false
mark_found-new now id seen none e = refl
mark_found-new now id seen (some s) e = absurd (ground arith)

-- When a delivery of a non-empty action id is accepted at time `t`, then after any further deliveries
-- at times up to `t + ttl`, a delivery of the same id at a time up to `t + ttl` is a duplicate.
pub mark_action_seen-duplicate :
    (ttl t now : ℕ) (id : Str) (seen : Seen) (later : List (ℕ × Str))
    → id ≢ []
    → (mark_action_seen ttl t id seen).0 ≡ false
    → All (λ d. d.0 ≤ t + ttl) later
    → now ≤ t + ttl
    → (mark_action_seen ttl now id (mark_all ttl later (mark_action_seen ttl t id seen).1)).0 ≡ true
mark_action_seen-duplicate ttl t now id seen later n e h le =
    mark_action_seen-again ttl now t id (mark_all ttl later (mark_action_seen ttl t id seen).1) n
      (mark_all-keeps ttl t id later (mark_action_seen ttl t id seen).1
        (mark_action_seen-recorded ttl t id seen e n) h)
      le

-- A delivery is accepted when every recorded delivery of its action id is more than the TTL old.
pub mark_action_seen-accepted :
    (ttl now : ℕ) (id : Str) (seen : Seen)
    → All (λ entry. entry.0 ≡ id → entry.1 + ttl < now) seen
    → (mark_action_seen ttl now id seen).0 ≡ false
unfolding mark_action_seen
mark_action_seen-accepted ttl now id seen h = ground (
  arith,
  mark_found-new now id (prune ttl now seen) (lookup id (prune ttl now seen))
      (lookup-prune_expired ttl now id seen h),
)
