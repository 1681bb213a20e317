-- ===== src/LocalBoard.antt =====
-- internal/app/localboard: the data of the local board. `Store` is the store over its SQL
-- database, `Payload` the webhook bodies, and
-- `Server` the handlers of its API.
pub mod Sql
pub mod Store
pub mod Payload
pub mod Server
pub use trello_openclaw_webhook.Trello.{Card, ListRef, Comment}
use trello_openclaw_webhook.Prelude.{
  Option, none, some, List, [], ◌∷◌, Str, bytes, ◌==◌, if◌then◌else◌, ◌++◌, nat_eq, trim_space,
  ◌&&◌,
}

pub record Column : Type 0 where
  pub id : Str
  pub name : Str
  pub phase : Str

abbrev pub default_board_id : Str
default_board_id = bytes "local-board"

abbrev pub default_board_name : Str
default_board_name = bytes "Local JJC Board"

abbrev pub agent_name : Str
agent_name = bytes "JJC Local Agent"

abbrev pub human_name : Str
human_name = bytes "Local Operator"

unfoldable pub columns : List Column
columns =
    record { id = bytes "plan"; name = bytes "Analyze"; phase = bytes "plan" }
    ∷ record {
      id = bytes "wait.plan_review";
      name = bytes "Ready for plan review";
      phase = bytes "wait";
    }
    ∷ record { id = bytes "action"; name = bytes "In action"; phase = bytes "action" }
    ∷ record {
      id = bytes "wait.action_review";
      name = bytes "Ready for review";
      phase = bytes "wait";
    }
    ∷ record { id = bytes "wait.generic"; name = bytes "Pending PR"; phase = bytes "wait" }
    ∷ record { id = bytes "wait.exception"; name = bytes "Need Attention"; phase = bytes "wait" }
    ∷ record { id = bytes "done"; name = bytes "Done"; phase = bytes "done" }
    ∷ []

unfoldable pub find_column : List Column → Str → Option Column
find_column [] id = none
find_column (column ∷ rest) id = if column.id == id then some column else find_column rest id

-- `ColumnByID[id]`
unfoldable pub column_by_id : Str → Option Column
unfolding columns find_column
column_by_id id = find_column columns id

-- `strings.ReplaceAll(s, "\r\n", "\n")`
unfoldable pub replace_crlf : Str → Str
replace_crlf [] = []
replace_crlf (a ∷ []) = a ∷ []
replace_crlf (a ∷ b ∷ s) =
    let rest = replace_crlf (b ∷ s) in if nat_eq a 0x0D && nat_eq b 0x0A then rest else a ∷ rest

with_line : Str → List Str → List Str
with_line front [] = front ∷ []
with_line front (line ∷ lines) = (front ++ line) ∷ lines

-- `strings.Split(s, "\n")`
unfoldable pub split_lines : Str → List Str
unfolding with_line
split_lines [] = [] ∷ []
split_lines (b ∷ s) =
    let rest = split_lines s in if nat_eq b 0x0A then [] ∷ rest else with_line (b ∷ []) rest

unfoldable pub first_non_blank : List Str → Str
first_non_blank [] = []
first_non_blank (line ∷ lines) =
    let rest = first_non_blank lines in if trim_space line == [] then rest else trim_space line

-- `firstNonEmptyLine`
unfoldable pub first_non_empty_line : Str → Str
unfolding replace_crlf split_lines first_non_blank
first_non_empty_line s = first_non_blank (split_lines (replace_crlf s))
