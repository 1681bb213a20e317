-- ===== src/Template.antt =====
-- internal/app/prompttmpl/renderer.go: `renderBytes` and `validateBasename`. The children
-- relate the loop to the grammar of templates; `Load` is `New`, with `renderFile`.
pub mod Parts
pub mod Rendering
pub mod Load
use trello_openclaw_webhook.Prelude.{
  ℕ, zero, suc, ◌+◌, ◌++◌, ◌||◌, ◌&&◌, Option, none, some, List, [], ◌∷◌, Str, bytes, ◌==◌, length,
  nat_eq, if◌then◌else◌, trim_space, has_prefix, contains_str, contains_byte, lookup,
}

pub data BasenameError : Type 0 where
  empty_basename path_separator dots : BasenameError

-- `none` is the nil error.
unfoldable pub validate_basename : Str → Option BasenameError
validate_basename name =
    if name == bytes ""
    then some empty_basename
    else if contains_byte name b'/' || contains_byte name 0x5C
    then some path_separator
    else if contains_str name (bytes "..")
    then some dots
    else none

pub data Reason : Type 0 where
  unknown_kanban_key referenced_file_not_found : Reason
  invalid_reference_name : BasenameError → Reason

-- `files` and `kanbanVars` of a Renderer.
pub record Vars : Type 0 where
  pub files : List (Str × Str)
  pub kanban_vars : List (Str × Str)

pub data Resolution : Type 0 where
  replacement : Str → Resolution
  unresolved : Reason → Resolution

or_reason : Reason → Option Str → Resolution
or_reason reason none = unresolved reason
or_reason reason (some text) = replacement text

resolve_basename : Vars → Str → Option BasenameError → Resolution
unfolding or_reason
resolve_basename vars name (some err) = unresolved (invalid_reference_name err)
resolve_basename vars name none = or_reason referenced_file_not_found (lookup name vars.files)

-- The `switch` on the trimmed reference.
unfoldable pub resolve_reference : Vars → (raw_ref : Str) → Resolution
unfolding resolve_basename or_reason
resolve_reference vars raw_ref =
    if has_prefix (trim_space raw_ref) (bytes "kanban.")
    then or_reason unknown_kanban_key (lookup (trim_space raw_ref) vars.kanban_vars)
    else resolve_basename vars (trim_space raw_ref) (validate_basename (trim_space raw_ref))

-- The line and the column, from 1.
pub record Position : Type 0 where
  pub line : ℕ
  pub column : ℕ

abbrev pub start : Position
start = record { line = 1; column = 1 }

abbrev pub after_byte : ℕ → Position → Position
after_byte b at =
    if nat_eq b 0x0A
    then record { line = at.line + 1; column = 1 }
    else record { line = at.line; column = at.column + 1 }

abbrev pub after_bytes : Str → Position → Position
after_bytes [] at = at
after_bytes (b ∷ consumed) at = after_bytes consumed (after_byte b at)

abbrev pub with_first : ℕ → Option (Str × Str) → Option (Str × Str)
with_first b none = none
with_first b (some (raw_ref, rest)) = some (b ∷ raw_ref, rest)

-- The text up to the first `}}`, and what follows that.
unfoldable pub find_close : Str → Option (Str × Str)
find_close [] = none
find_close (a ∷ []) = none
find_close (a ∷ b ∷ s) =
    let later = find_close (b ∷ s) in
    if nat_eq a b'}' && nat_eq b b'}' then some ([], s) else with_first a later

-- A reference that starts here.
unfoldable pub reference_at : Str → Option (Str × Str)
unfolding find_close
reference_at [] = none
reference_at (a ∷ []) = none
reference_at (a ∷ b ∷ s) = if nat_eq a b'{' && nat_eq b b'{' then find_close s else none

pub record RenderError : Type 0 where
  pub position : Position
  pub reference : Str
  pub reason : Reason

pub data Rendered : Type 0 where
  output : Str → Rendered
  failed : RenderError → Rendered

-- `out.WriteString` ahead of what the rest of the loop writes.
abbrev pub write_string : Str → Option Rendered → Option Rendered
write_string s none = none
write_string s (some (failed err)) = some (failed err)
write_string s (some (output rest)) = some (output (s ++ rest))

-- The loop; `none` is a loop whose rounds run out.
unfoldable pub render_from : Vars → (rounds : ℕ) → Position → Str → Option Rendered
unfolding reference_at
render_from vars rounds at [] = some (output [])
render_from vars zero at (b ∷ src) = none
render_from vars (suc rounds) at (b ∷ src) = elim (reference_at (b ∷ src)) [
  | none ↦ write_string (b ∷ []) (render_from vars rounds (after_byte b at) src)
  | some (raw_ref, rest) ↦ elim (resolve_reference vars raw_ref) [
    | unresolved reason ↦
        some (failed (record { position = at; reference = raw_ref; reason = reason }))
    | replacement text ↦
        write_string text
          (render_from vars rounds (after_bytes (bytes "{{" ++ (raw_ref ++ bytes "}}")) at) rest)
  ]
]

unfoldable pub render_bytes : Str → Vars → Option Rendered
unfolding render_from
render_bytes src vars = render_from vars (length src) start src
