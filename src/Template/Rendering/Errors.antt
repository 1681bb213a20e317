-- ===== src/Template/Rendering/Errors.antt =====
-- Where rendering stops: the first reference without a replacement, by line and column.
use trello_openclaw_webhook.Prelude.{
  ℕ, suc, ◌+◌, ◌++◌, ◌≡◌, refl, ap, sym, ◌∙◌, some, List, [], ◌∷◌, Str, bytes, nat_eq, append_assoc,
  length, contains_byte, false, if◌then◌else◌, arith,
}
use trello_openclaw_webhook.Template.{
  Vars, Position, failed, unresolved, Reason, render_bytes, resolve_reference, start, after_byte,
  after_bytes,
}
use trello_openclaw_webhook.Template.Parts.{Part, byte, reference, print, IsTemplate}
use trello_openclaw_webhook.Template.Rendering.{
  IsExpansion, expand, write_rendered, render_bytes-print,
}

abbrev pub newlines : Str → ℕ
newlines [] = 0
newlines (b ∷ s) = if nat_eq b 0x0A then suc (newlines s) else newlines s

-- What follows the last newline.
abbrev pub last_line : Str → Str
last_line [] = []
last_line (b ∷ s) = let rest = last_line s in if contains_byte (b ∷ s) 0x0A then rest else b ∷ s

-- The position of what follows a text.
abbrev pub position_after : Str → Position
position_after s = record { line = 1 + newlines s; column = 1 + length (last_line s) }

after_bytes-line : (s : Str) (at : Position) → (after_bytes s at).line ≡ at.line + newlines s
after_bytes-line [] at = omega arith
after_bytes-line (b ∷ s) at = ground (arith, after_bytes-line s (after_byte b at))

last_line-none : (s : Str) → contains_byte s 0x0A ≡ false → last_line s ≡ s
unfolding contains_byte
last_line-none [] h = refl
last_line-none (b ∷ s) h = ground (arith, last_line-none s)

after_bytes-column :
    (s : Str) (at : Position)
    → (after_bytes s at).column
      ≡ (if contains_byte s 0x0A then 1 + length (last_line s) else at.column + length s)
unfolding contains_byte
after_bytes-column [] at = ground arith
after_bytes-column (b ∷ s) at =
    ground (arith, after_bytes-column s (after_byte b at), last_line-none s)

after_bytes-append :
    (a b : Str) (at : Position) → after_bytes (a ++ b) at ≡ after_bytes b (after_bytes a at)
after_bytes-append [] b at = refl
after_bytes-append (x ∷ a) b at = after_bytes-append a b (after_byte x at)

after_bytes-start : (s : Str) → after_bytes s start ≡ position_after s
after_bytes-start s =
    ground (arith, after_bytes-line s start, after_bytes-column s start, last_line-none s)

reference_position :
    (name s : Str) (at : Position)
    → after_bytes s (after_bytes (bytes "{{" ++ (name ++ bytes "}}")) at)
      ≡ after_bytes (b'{' ∷ b'{' ∷ (name ++ (b'}' ∷ b'}' ∷ s))) at
reference_position name s at =
    sym (after_bytes-append (bytes "{{" ++ (name ++ bytes "}}")) s at)
    ∙ ap (λ t. after_bytes (b'{' ∷ b'{' ∷ t) at) (append_assoc name (bytes "}}") s)

module _ (vars : Vars) (raw_ref : Str) (reason : Reason) (back : List Part) where
  expand-failed :
      (front : List Part) (text : Str) (at : Position)
      → IsExpansion vars front text
      → resolve_reference vars raw_ref ≡ unresolved reason
      → expand vars at (front ++ (reference raw_ref ∷ back))
        ≡ failed (record {
          position = after_bytes (print front) at;
          reference = raw_ref;
          reason = reason;
        })
  unfolding expand write_rendered
  expand-failed [] text at h missing = ground arith
  expand-failed (byte b ∷ front) text at (rest, same, further) missing =
      ground (arith, expand-failed front rest (after_byte b at))
  expand-failed (reference name ∷ front) text at (value, rest, found, same, further) missing =
      let next : Position = after_bytes (bytes "{{" ++ (name ++ bytes "}}")) at in
      let ih : expand vars next (front ++ (reference raw_ref ∷ back))
          ≡ failed (record {
            position = after_bytes (print front) next;
            reference = raw_ref;
            reason = reason;
          }) =
        expand-failed front rest next further missing in
      let moved : after_bytes (print front) next ≡ after_bytes (print (reference name ∷ front)) at =
        reference_position name (print front) at in
      rw (found, expand) (rw (ih, write_rendered) (rw moved refl))

  -- Where the references before it have replacements and this one has none, rendering fails with
  -- this reference, its reason, and the line and the column at which it opens.
  pub render_bytes-failed :
      (front : List Part) (text : Str)
      → IsTemplate (front ++ (reference raw_ref ∷ back))
      → IsExpansion vars front text
      → resolve_reference vars raw_ref ≡ unresolved reason
      → render_bytes (print (front ++ (reference raw_ref ∷ back))) vars
        ≡ some (
            failed (record {
              position = position_after (print front);
              reference = raw_ref;
              reason = reason;
            }))
  render_bytes-failed front text template h missing =
      rw (render_bytes-print vars (front ++ (reference raw_ref ∷ back)) template)
        (rw (expand-failed front text start h missing) (rw (after_bytes-start (print front)) refl))
