-- ===== src/Activity/Labels/Calls.antt =====
-- The entries of tool calls that `RecordEvent` of internal/app/activity.go writes.
use trello_openclaw_webhook.Prelude.{ℕ, ◌≡◌, Bool, false, none, [], Str, bytes, ◌==◌, lookup}
use trello_openclaw_webhook.Ring.{append_entry}
use trello_openclaw_webhook.Activity.Tracker

-- The event starts or completes the call.
abbrev pub touches : Str → Tracker.SessionEvent → Bool
touches id (Tracker.tool_start i tool parent arguments) = i == id
touches id (Tracker.tool_complete i parent success error) = i == id
touches id (Tracker.session_start i model) = false
touches id (Tracker.session_shutdown kind) = false
touches id Tracker.session_idle = false
touches id (Tracker.session_error message) = false
touches id (Tracker.user_message content chars) = false
touches id (Tracker.assistant_message content) = false
touches id (Tracker.assistant_usage tokens_in tokens_out model) = false
touches id (Tracker.subagent_started i agent) = false
touches id (Tracker.subagent_completed i agent tool_calls duration_ms) = false
touches id (Tracker.subagent_failed i agent error) = false
touches id (Tracker.permission_requested tool kind) = false
touches id (Tracker.permission_completed kind) = false
touches id Tracker.other_event = false

module _ (format_time : ℕ → Str) where
  -- One entry under the label is written to the ring, and one line to the log.
  abbrev pub Writes : (at : ℕ) (kind label : Str) (before after : Tracker.Tracker) → Type 0
  Writes at kind label before after =
      (summary : Str) × (full : Str) × (after.ring
        ≡ append_entry before.ring
            (record { at = at; kind = kind; tool = label; summary = summary }))
      × (after.log ≡ Tracker.write_log_line format_time at kind label full before.log)

  -- A call's start leads from `t` to `begun`, and its completion from `before` to `after`.
  pub record IsPaired (now later : ℕ) (id label : Str) (t begun before after : Tracker.Tracker)
      : Type 0 where
    pub start : Writes now (bytes "tool_start") label t begun
    pub completion : Writes later (bytes "tool_complete") label before after
    pub forgotten : lookup id after.tool_call_names ≡ none
    pub stopped : after.status.current_tool ≡ []
