-- ===== src/Ring/GlobalLog.antt =====
-- internal/app/globallog.go: the ring of gateway-level events. The time of an event is the
-- caller's clock reading, and the mutex makes each call one step.
use trello_openclaw_webhook.Prelude.{
  ℕ, ◌≡◌, refl, ap, ◌∙◌, Option, none, some, List, [], ◌∷◌, arith, leb, if◌then◌else◌, Str,
}
use trello_openclaw_webhook.Ring.{
  Ring, new_ring, append_entry, entries_chronological, append_entries,
}
use trello_openclaw_webhook.Ring.Slices.{last}
use trello_openclaw_webhook.Ring.History.{entries_chronological-append_entries}

pub record GlobalEvent : Type 0 where
  pub at : ℕ
  pub card_id : Str
  pub kind : Str
  pub summary : Str

abbrev pub GlobalEventLog : Type 0
GlobalEventLog = Ring GlobalEvent

unfoldable pub new_global_event_log : ℕ → GlobalEventLog
unfolding new_ring
new_global_event_log ring_size = new_ring 128 ring_size

unfoldable pub record_global : GlobalEventLog → ℕ → Str → Str → Str → GlobalEventLog
unfolding append_entry
record_global g now card_id kind summary =
    append_entry g (record { at = now; card_id = card_id; kind = kind; summary = summary })

-- `Entries` of a nil log is nil.
unfoldable pub global_entries : Option GlobalEventLog → List GlobalEvent
unfolding entries_chronological
global_entries none = []
global_entries (some g) = entries_chronological g

-- A sequence of `Record` calls.
unfoldable pub record_all : GlobalEventLog → List GlobalEvent → GlobalEventLog
record_all g [] = g
record_all g (e ∷ es) = record_all (record_global g e.at e.card_id e.kind e.summary) es

record_all-eq-append_entries :
    (g : GlobalEventLog) (es : List GlobalEvent) → record_all g es ≡ append_entries g es
unfolding record_all append_entries record_global
record_all-eq-append_entries g [] = refl
record_all-eq-append_entries g (e ∷ es) = record_all-eq-append_entries (append_entry g e) es

-- A new log shows, after any sequence of `Record` calls, the latest events in the order of the
-- calls: as many as its capacity, which is 128 when the requested size is not positive.
pub global_entries-record_all :
    (n : ℕ) (es : List GlobalEvent)
    → global_entries (some (record_all (new_global_event_log n) es))
      ≡ last (if leb n 0 then 128 else n) es
unfolding global_entries new_global_event_log
global_entries-record_all n es =
    ap entries_chronological (record_all-eq-append_entries (new_ring 128 n) es)
    ∙ entries_chronological-append_entries 128 n es (omega arith)
