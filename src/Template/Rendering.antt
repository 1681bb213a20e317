-- ===== src/Template/Rendering.antt =====
-- Rendering against the grammar, and where it stops in the child.
pub mod Errors
use mathlib.Core.Option.{some-injective, some-ne-none}
use trello_openclaw_webhook.Prelude.{
  ℕ, zero, suc, ◌+◌, ◌++◌, ◌≤◌, ◌≡◌, ◌↔◌, ◌≢◌, refl, ap, sym, Option, none, some, List, [], ◌∷◌,
  Str, bytes, ◌∙◌, length, length-append, arith,
}
use trello_openclaw_webhook.Template.{
  Vars, Rendered, Resolution, Position, output, failed, replacement, unresolved, render_bytes,
  render_from, find_close, resolve_reference, start, after_byte, after_bytes, write_string,
}
use trello_openclaw_webhook.Template.Parts.{
  Part, byte, reference, print, IsTemplate, parts_of, find_close-first, reference_at-none,
}

unfoldable pub write_rendered : Str → Rendered → Rendered
write_rendered s (failed err) = failed err
write_rendered s (output rest) = output (s ++ rest)

-- The parts in turn.
unfoldable pub expand : Vars → Position → List Part → Rendered
unfolding write_rendered
expand vars at [] = output []
expand vars at (byte b ∷ parts) = write_rendered (b ∷ []) (expand vars (after_byte b at) parts)
expand vars at (reference raw_ref ∷ parts) = elim (resolve_reference vars raw_ref) [
  | unresolved reason ↦ failed (record { position = at; reference = raw_ref; reason = reason })
  | replacement text ↦
      write_rendered text
        (expand vars (after_bytes (bytes "{{" ++ (raw_ref ++ bytes "}}")) at) parts)
]

write_string-some : (s : Str) (r : Rendered) → write_string s (some r) ≡ some (write_rendered s r)
unfolding write_rendered
write_string-some s (failed err) = refl
write_string-some s (output rest) = refl

-- A reference, whatever it resolves to, where the rest agrees.
module _ (at : Position) (raw_ref : Str) (next : Position) where
  substituted :
      (found : Resolution) {rest : Option Rendered} {specified : Rendered}
      → rest ≡ some specified
      → ◌≡◌ {A = Option Rendered}
          (elim found [
            | unresolved reason ↦
                some (failed (record { position = at; reference = raw_ref; reason = reason }))
            | replacement text ↦ write_string text rest
          ])
          (some (elim found [
            | unresolved reason ↦
                failed (record { position = at; reference = raw_ref; reason = reason })
            | replacement text ↦ write_rendered text specified
          ]))
  substituted (unresolved reason) same = refl
  substituted (replacement text) {rest} {specified} same =
      ap (write_string text) same ∙ write_string-some text specified

render_from-print :
    (vars : Vars) (rounds : ℕ) (at : Position) (parts : List Part)
    → IsTemplate parts
    → length (print parts) ≤ rounds
    → render_from vars rounds at (print parts) ≡ some (expand vars at parts)
unfolding render_from expand
render_from-print vars rounds at [] h bound = ground arith
render_from-print vars zero at (byte b ∷ parts) h bound = absurd (omega arith)
render_from-print vars (suc rounds) at (byte b ∷ parts) h bound = ground (
  arith,
  reference_at-none (b ∷ print parts),
  write_string-some (b ∷ []) (expand vars (after_byte b at) parts),
  render_from-print vars rounds (after_byte b at) parts,
)
render_from-print vars zero at (reference raw_ref ∷ parts) h bound = absurd (omega arith)
render_from-print vars (suc rounds) at (reference raw_ref ∷ parts) h bound =
    let closes : find_close (raw_ref ++ (b'}' ∷ b'}' ∷ print parts)) ≡ some (raw_ref, print parts) =
      find_close-first raw_ref (print parts) h.0 in
    let size : length (raw_ref ++ (b'}' ∷ b'}' ∷ print parts))
        ≡ length raw_ref + length (b'}' ∷ b'}' ∷ print parts) =
      length-append raw_ref (b'}' ∷ b'}' ∷ print parts) in
    rw (closes, render_from)
      (substituted at raw_ref (after_bytes (bytes "{{" ++ (raw_ref ++ bytes "}}")) at)
        (resolve_reference vars raw_ref)
        (render_from-print vars rounds (after_bytes (bytes "{{" ++ (raw_ref ++ bytes "}}")) at)
          parts h.1 (omega arith)))

pub render_bytes-print :
    (vars : Vars) (parts : List Part)
    → IsTemplate parts
    → render_bytes (print parts) vars ≡ some (expand vars start parts)
unfolding render_bytes
render_bytes-print vars parts h =
    render_from-print vars (length (print parts)) start parts h (omega arith)

-- The text that results when every reference has a replacement.
abbrev pub IsExpansion : Vars → List Part → Str → Type 0
IsExpansion vars [] text = text ≡ []
IsExpansion vars (byte b ∷ parts) text =
    (rest : Str) × (text ≡ b ∷ rest) × IsExpansion vars parts rest
IsExpansion vars (reference raw_ref ∷ parts) text =
    (value : Str) × (rest : Str) × (resolve_reference vars raw_ref ≡ replacement value)
    × (text ≡ value ++ rest)
    × IsExpansion vars parts rest

expand-expansion :
    (vars : Vars) (at : Position) (parts : List Part) (text : Str)
    → IsExpansion vars parts text
    → expand vars at parts ≡ output text
unfolding expand write_rendered
expand-expansion vars at [] text h = ap output (sym h)
expand-expansion vars at (byte b ∷ parts) text (rest, same, further) =
    ground (arith, expand-expansion vars (after_byte b at) parts rest)
expand-expansion vars at (reference raw_ref ∷ parts) text (value, rest, found, same, further) =
    ground (
      arith,
      expand-expansion vars (after_bytes (bytes "{{" ++ (raw_ref ++ bytes "}}")) at) parts rest,
    )

read_byte :
    (b : ℕ) (r : Rendered) (text : Str)
    → write_rendered (b ∷ []) r ≡ output text
    → (rest : Str) × (text ≡ b ∷ rest) × (r ≡ output rest)
unfolding write_rendered
read_byte b (failed err) text h = absurd (ground arith)
read_byte b (output rest) text h = (rest, ground arith, refl)

read_value :
    (raw_ref : Str) (at : Position) (found : Resolution) (r : Rendered) (text : Str)
    → ◌≡◌ {A = Rendered}
        (elim found [
          | unresolved reason ↦
              failed (record { position = at; reference = raw_ref; reason = reason })
          | replacement value ↦ write_rendered value r
        ])
        (output text)
    → (value : Str) × (rest : Str) × (found ≡ replacement value)
      × (text ≡ value ++ rest)
      × (r ≡ output rest)
unfolding write_rendered
read_value raw_ref at (unresolved reason) r text h = absurd (ground arith)
read_value raw_ref at (replacement value) (failed err) text h = absurd (ground arith)
read_value raw_ref at (replacement value) (output rest) text h =
    (value, rest, refl, ground arith, refl)

expand_inverse :
    (vars : Vars) (at : Position) (parts : List Part) (text : Str)
    → expand vars at parts ≡ output text
    → IsExpansion vars parts text
unfolding expand
expand_inverse vars at [] text h = ground arith
expand_inverse vars at (byte b ∷ parts) text h =
    let (rest, same, further) = read_byte b (expand vars (after_byte b at) parts) text h in
    (rest, same, expand_inverse vars (after_byte b at) parts rest further)
expand_inverse vars at (reference raw_ref ∷ parts) text h =
    let next : Position = after_bytes (bytes "{{" ++ (raw_ref ++ bytes "}}")) at in
    let (value, rest, found, same, further) =
      read_value raw_ref at (resolve_reference vars raw_ref) (expand vars next parts) text h in
    (value, rest, found, same, expand_inverse vars next parts rest further)

-- Where every reference of a template has a replacement, the rendering is the template with each
-- reference replaced and every other byte kept, and a rendering with an output is of that form.
pub render_bytes_iff :
    (vars : Vars) (parts : List Part) (text : Str)
    → IsTemplate parts
    → (render_bytes (print parts) vars ≡ some (output text)) ↔ IsExpansion vars parts text
render_bytes_iff vars parts text h =
    let same : render_bytes (print parts) vars ≡ some (expand vars start parts) =
      render_bytes-print vars parts h in
    (
      λ e. expand_inverse vars start parts text (some-injective _ _ (sym same ∙ e)),
      λ e. same ∙ ap some (expand-expansion vars start parts text e),
    )

-- The rendering of every source comes to an end.
pub render_bytes-ends : (src : Str) (vars : Vars) → render_bytes src vars ≢ none
render_bytes-ends src vars stuck =
    let (parts, printed, template) = parts_of src in
    let same : render_bytes (print parts) vars ≡ some (expand vars start parts) =
      render_bytes-print vars parts template in
    some-ne-none _ (sym same ∙ (ap (λ s. render_bytes s vars) printed ∙ stuck))
