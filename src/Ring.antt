-- ===== src/Ring.antt =====
-- The fixed-size ring that internal/app/activity.go keeps per worker and internal/app/globallog.go
-- keeps for the gateway: a slice, its capacity, and the index of the next write once it is full.
pub mod Slices
pub mod History
pub mod GlobalLog
use trello_openclaw_webhook.Prelude.{
  ℕ, ◌+◌, ◌%◌, List, [], ◌∷◌, ◌++◌, ltb, leb, if◌then◌else◌, length, set, take, drop,
}

pub record Ring {ℓ} (A : Type ℓ) : Type ℓ where
  pub entries : List A
  pub head : ℕ
  pub ring_size : ℕ

module _ {ℓ} {A : Type ℓ} where
  unfoldable pub new_ring : ℕ → ℕ → Ring A
  new_ring default n = record { entries = []; head = 0; ring_size = if leb n 0 then default else n }

  unfoldable pub append_entry : Ring A → A → Ring A
  append_entry r e =
      if ltb (length r.entries) r.ring_size
      then record r { entries = r.entries ++ e ∷ [] }
      else record r { entries = set r.entries r.head e; head = (r.head + 1) % r.ring_size }

  unfoldable pub entries_chronological : Ring A → List A
  entries_chronological r =
      if ltb (length r.entries) r.ring_size
      then r.entries
      else drop r.head r.entries ++ take r.head r.entries

  -- The ring after a sequence of writes.
  unfoldable pub append_entries : Ring A → List A → Ring A
  append_entries r [] = r
  append_entries r (e ∷ es) = append_entries (append_entry r e) es
