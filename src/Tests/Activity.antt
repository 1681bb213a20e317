-- ===== src/Tests/Activity.antt =====
-- Runs of the activity tracker at concrete values.
use trello_openclaw_webhook.Prelude.{ℕ, true, List, [], ◌∷◌, none, some, Str, bytes}
use trello_openclaw_webhook.Ring.{new_ring}
use trello_openclaw_webhook.Activity.Tracker
use trello_openclaw_webhook.Activity.Record.{record_event}

abbrev clock : ℕ → Str
clock at = bytes "t"

abbrev tracker : Tracker.Tracker
tracker = record {
  status = record {
    state = Tracker.starting;
    current_tool = [];
    current_tool_started_at = none;
    last_assistant_preview = [];
    last_event_at = 0;
    last_error = [];
    turn_tokens_in = 0;
    turn_tokens_out = 0;
    model = [];
    session_id = [];
  };
  ring = new_ring 64 64;
  log = some [];
  tool_call_names = [];
  subagent_names = (bytes "p1", bytes "probe") ∷ [];
}

-- Another call runs, and the subagent ends, before the call completes.
abbrev between : List (ℕ × Tracker.SessionEvent)
between =
    (2, Tracker.tool_start (bytes "c2") (bytes "edit") none (bytes "b"))
    ∷ (3, Tracker.subagent_completed (bytes "p1") (bytes "probe") none none)
    ∷ (4, Tracker.tool_complete (bytes "c2") none true none)
    ∷ []

abbrev begun : Tracker.Tracker
begun =
    record_event clock 1
      (Tracker.tool_start (bytes "c1") (bytes "view") (some (bytes "p1")) (bytes "a")) tracker
