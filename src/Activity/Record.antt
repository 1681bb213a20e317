-- ===== src/Activity/Record.antt =====
-- `RecordEvent`, `MarkDisconnected` and `MarkSessionIdleReaped` of internal/app/activity.go.
use trello_openclaw_webhook.Prelude.{
  ℕ, Bool, true, false, Option, none, some, List, [], ◌∷◌, ◌++◌, Str, bytes, ◌==◌, if◌then◌else◌,
  lookup, insert, delete, contains_str, nat_eq,
}
use trello_openclaw_webhook.Preview.{preview}
use trello_openclaw_webhook.Activity.Tracker

-- `*value` where there is one.
abbrev pub or_else : Str → Option Str → Str
or_else d none = d
or_else d (some value) = value

abbrev pub or_keep : ℕ → Option ℕ → ℕ
or_keep d none = d
or_keep d (some n) = n

-- ` key=value` where there is a value.
abbrev pub suffix : Str → Option Str → Str
suffix key none = []
suffix key (some value) = key ++ value

-- `strings.SplitN(s, " ", 2)[0]`
unfoldable pub first_word : Str → Str
first_word [] = []
first_word (c ∷ s) = let rest = first_word s in if nat_eq c 32 then [] else c ∷ rest

-- The tag of a call that a subagent makes.
unfoldable pub sub_tag : List (Str × Str) → Str → Str
unfolding lookup
sub_tag names parent = bytes "[sub:" ++ or_else (bytes "?") (lookup parent names) ++ bytes "]"

unfoldable pub start_label : List (Str × Str) → Str → Option Str → Str
unfolding sub_tag
start_label names tool none = tool
start_label names tool (some parent) = tool ++ sub_tag names parent

-- A completion's label: the tag is added if the call has a parent and the label no tag.
unfoldable pub complete_label : List (Str × Str) → Str → Option Str → Str
unfolding sub_tag contains_str
complete_label names label none = label
complete_label names label (some parent) =
    if contains_str label (bytes "[sub:") then label else label ++ sub_tag names parent

-- The text after `success=`.
unfoldable pub failure : Option (Str × Option Str) → Str
unfolding preview
failure none = bytes "success=false"
failure (some (message, code)) =
    if message == []
    then bytes "success=false"
    else bytes "success=false err="
      ++ preview message 200
      ++ (if or_else [] code == [] then [] else bytes " code=" ++ or_else [] code)

abbrev pub complete_summary : Bool → Option (Str × Option Str) → Str
complete_summary true error = bytes "success=true"
complete_summary false error = failure error

module _ (format_time : ℕ → Str) where
  abbrev pub note : (at : ℕ) (kind tool summary full : Str) → Tracker.Tracker → Tracker.Tracker
  note at kind tool summary full t = Tracker.record_entry format_time at kind tool summary full t

  -- The label of a completed call: by its id, or else from the tool that is running.
  unfoldable pub label_of : Str → Tracker.Tracker → Str
  unfolding lookup first_word
  label_of id t = or_else (first_word t.status.current_tool) (lookup id t.tool_call_names)

  abbrev pub set_status : Tracker.WorkerStatus → Tracker.Tracker → Tracker.Tracker
  set_status s t = record t { status = s }

  -- The cases of `RecordEvent`, once `LastEventAt` is set.
  unfoldable pub record_case : (now : ℕ) → Tracker.SessionEvent → Tracker.Tracker → Tracker.Tracker
  unfolding start_label complete_label label_of lookup insert delete preview
  record_case now (Tracker.session_start id model) t =
      note now (bytes "session_start") [] (bytes "session=" ++ id) (bytes "session=" ++ id) (
        set_status
          (record t.status {
            session_id = id;
            model = or_else t.status.model model;
            state = Tracker.thinking;
          })
          t)
  record_case now (Tracker.session_shutdown kind) t =
      note now (bytes "session_shutdown") [] kind kind
        (set_status (record t.status { state = Tracker.disconnected }) t)
  record_case now Tracker.session_idle t = note now (bytes "idle") [] [] [] (
      set_status
        (record t.status {
          state = Tracker.idle;
          current_tool = [];
          current_tool_started_at = none;
        })
        t)
  record_case now (Tracker.session_error message) t =
      note now (bytes "error") [] message message
        (set_status (record t.status { state = Tracker.error; last_error = message }) t)
  record_case now (Tracker.user_message content chars) t =
      let summary : Str = bytes "chars=" ++ chars in
      note now (bytes "user_message") [] summary
        (if content == [] then summary else summary ++ bytes " content=" ++ content)
        (set_status
          (record t.status { turn_tokens_in = 0; turn_tokens_out = 0; state = Tracker.thinking }) t)
  record_case now (Tracker.assistant_message content) t =
      if content == []
      then t
      else note now (bytes "assistant_message") [] (preview content 200) content
          (set_status (record t.status { last_assistant_preview = preview content 200 }) t)
  record_case now (Tracker.assistant_usage tokens_in tokens_out model) t =
      set_status
        (record t.status {
          turn_tokens_in = or_keep t.status.turn_tokens_in tokens_in;
          turn_tokens_out = or_keep t.status.turn_tokens_out tokens_out;
          model = if model == [] then t.status.model else model;
        })
        t
  record_case now (Tracker.tool_start id tool parent arguments) t =
      let label : Str = start_label t.subagent_names tool parent in
      note now (bytes "tool_start") label (preview arguments 80) arguments (record t {
        status = record t.status {
          state = Tracker.running_tool;
          current_tool = label ++ bytes " " ++ preview arguments 80;
          current_tool_started_at = some now;
        };
        tool_call_names = insert id label t.tool_call_names;
      })
  record_case now (Tracker.tool_complete id parent success error) t =
      note now (bytes "tool_complete") (complete_label t.subagent_names (label_of id t) parent)
        (complete_summary success error) (complete_summary success error)
        (record t {
          status = record t.status {
            state = Tracker.thinking;
            current_tool = [];
            current_tool_started_at = none;
          };
          tool_call_names = delete id t.tool_call_names;
        })
  record_case now (Tracker.subagent_started id agent) t =
      let summary : Str = bytes "name=" ++ agent ++ bytes " parent_tool_call_id=" ++ id in
      note now (bytes "subagent_start") agent summary summary
        (record t { subagent_names = insert id agent t.subagent_names })
  record_case now (Tracker.subagent_completed id agent tool_calls duration_ms) t =
      let summary : Str =
        bytes "name="
        ++ agent
        ++ bytes " success=true"
        ++ suffix (bytes " tool_calls=") tool_calls
        ++ suffix (bytes " duration_ms=") duration_ms in
      note now (bytes "subagent_complete") agent summary summary
        (record t { subagent_names = delete id t.subagent_names })
  record_case now (Tracker.subagent_failed id agent error) t =
      let summary : Str =
        bytes "name=" ++ agent ++ bytes " success=false err=" ++ preview error 200 in
      note now (bytes "subagent_complete") agent summary summary
        (record t { subagent_names = delete id t.subagent_names })
  record_case now (Tracker.permission_requested tool kind) t =
      let summary : Str = bytes "requested kind=" ++ kind in
      note now (bytes "permission") (or_else [] tool) summary summary
        (set_status (record t.status { state = Tracker.waiting_permission }) t)
  record_case now (Tracker.permission_completed kind) t =
      let summary : Str = bytes "completed kind=" ++ kind in
      note now (bytes "permission") [] summary summary
        (set_status (record t.status { state = Tracker.thinking }) t)
  record_case now Tracker.other_event t = t

  unfoldable pub record_event : (now : ℕ) → Tracker.SessionEvent → Tracker.Tracker → Tracker.Tracker
  unfolding record_case
  record_event now e t = record_case now e (set_status (record t.status { last_event_at = now }) t)

  -- Called when the worker's goroutine exits.
  unfoldable pub mark_disconnected : (now : ℕ) → Tracker.Tracker → Tracker.Tracker
  mark_disconnected now t =
      note now (bytes "session_shutdown") [] (bytes "worker exited") (bytes "worker exited")
        (record t {
          status = record t.status { state = Tracker.disconnected };
          tool_call_names = [];
          subagent_names = [];
        })

  unfoldable pub mark_session_idle_reaped : (now : ℕ) → Tracker.Tracker → Tracker.Tracker
  mark_session_idle_reaped now t =
      note now (bytes "session_idle_reaped") [] (bytes "idle timeout") (bytes "idle timeout")
        (record t {
          status = record t.status {
            state = Tracker.disconnected;
            current_tool = [];
            current_tool_started_at = none;
          };
          tool_call_names = [];
          subagent_names = [];
        })

  -- Events, each at its time.
  unfoldable pub record_events : List (ℕ × Tracker.SessionEvent) → Tracker.Tracker → Tracker.Tracker
  unfolding record_event
  record_events [] t = t
  record_events ((now, e) ∷ later) t = record_events later (record_event now e t)
