-- ===== src/Activity/Tracker.antt =====
-- `ActivityTracker` of internal/app/activity.go. The SDK's events carry the fields that are read.
use trello_openclaw_webhook.Prelude.{
  ℕ, Bool, Option, none, some, List, [], ◌∷◌, ◌++◌, Str, if◌then◌else◌, nat_eq,
}
use trello_openclaw_webhook.Ring.{Ring, append_entry}

pub data WorkerState : Type 0 where
  starting thinking running_tool waiting_permission idle error disconnected : WorkerState

pub record ActivityEntry : Type 0 where
  pub at : ℕ
  pub kind : Str
  pub tool : Str
  pub summary : Str

-- The part of `WorkerStatus` that events change; `current_tool_started_at` is `none` for the zero time.
pub record WorkerStatus : Type 0 where
  pub state : WorkerState
  pub current_tool : Str
  pub current_tool_started_at : Option ℕ
  pub last_assistant_preview : Str
  pub last_event_at : ℕ
  pub last_error : Str
  pub turn_tokens_in : ℕ
  pub turn_tokens_out : ℕ
  pub model : Str
  pub session_id : Str

-- `log` is the content of the log file, newest line last; `none` where there is no file.
pub record Tracker : Type 0 where
  pub status : WorkerStatus
  pub ring : Ring ActivityEntry
  pub log : Option (List Str)
  pub tool_call_names : List (Str × Str)
  pub subagent_names : List (Str × Str)

-- The error of a tool call: its message and its code.
pub data SessionEvent : Type 0 where
  session_start : (session_id : Str) (model : Option Str) → SessionEvent
  session_shutdown : (kind : Str) → SessionEvent
  session_idle : SessionEvent
  session_error : (message : Str) → SessionEvent
  user_message : (content : Str) (chars : Str) → SessionEvent
  assistant_message : (content : Str) → SessionEvent
  assistant_usage : (tokens_in tokens_out : Option ℕ) (model : Str) → SessionEvent
  tool_start : (tool_call_id tool_name : Str) (parent : Option Str) (arguments : Str) → SessionEvent
  tool_complete :
      (tool_call_id : Str) (parent : Option Str) (success : Bool)
      (error : Option (Str × Option Str))
      → SessionEvent
  subagent_started : (tool_call_id agent_name : Str) → SessionEvent
  subagent_completed :
      (tool_call_id agent_name : Str) (tool_calls duration_ms : Option Str) → SessionEvent
  subagent_failed : (tool_call_id agent_name error : Str) → SessionEvent
  permission_requested : (tool_name : Option Str) (kind : Str) → SessionEvent
  permission_completed : (kind : Str) → SessionEvent
  other_event : SessionEvent

-- `strings.NewReplacer("\n", `\n`, "\r", `\r`)`
unfoldable pub escape : Str → Str
escape [] = []
escape (c ∷ s) =
    let rest = escape s in
    if nat_eq c 10 then 0x5C ∷ b'n' ∷ rest else if nat_eq c 13 then 0x5C ∷ b'r' ∷ rest else c ∷ rest

abbrev pub tab : Str
tab = 9 ∷ []

module _ (format_time : ℕ → Str) where
  -- With or without a tool the line has the same four columns.
  unfoldable pub log_line : (at : ℕ) (kind tool full : Str) → Str
  unfolding escape
  log_line at kind tool full =
      format_time at ++ tab ++ kind ++ tab ++ tool ++ tab ++ escape full ++ 10 ∷ []

  unfoldable pub write_log_line :
      (at : ℕ) (kind tool full : Str) → Option (List Str) → Option (List Str)
  unfolding log_line
  write_log_line at kind tool full none = none
  write_log_line at kind tool full (some lines) = some (lines ++ log_line at kind tool full ∷ [])

  unfoldable pub record_entry : (at : ℕ) (kind tool summary full : Str) → Tracker → Tracker
  unfolding write_log_line append_entry
  record_entry at kind tool summary full t = record t {
    ring = append_entry t.ring (record { at = at; kind = kind; tool = tool; summary = summary });
    log = write_log_line at kind tool full t.log;
  }
