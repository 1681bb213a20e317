-- ===== src/Tests/Template.antt =====
-- Runs of the template renderer at concrete values.
use trello_openclaw_webhook.Prelude.{
  Str, true, ◌++◌, ◌≡◌, ◌≢◌, ◌↔◌, refl, some, none, [], ◌∷◌, List, bytes,
}
use trello_openclaw_webhook.Template.{
  Vars, output, failed, render_bytes, resolve_reference, referenced_file_not_found,
}
use trello_openclaw_webhook.Template.Load.{Entry, Temp, regular, new_renderer}
use trello_openclaw_webhook.Template.Load.Loaded.{new_renderer-IsLoaded, IsLoaded, source_of}
use trello_openclaw_webhook.Template.Parts.{Part, byte, reference, print}
use trello_openclaw_webhook.Template.Rendering.{render_bytes_iff, render_bytes-ends, IsExpansion}
use trello_openclaw_webhook.Template.Rendering.Errors.{render_bytes-failed}

abbrev vars : Vars
vars = record {
  files = (bytes "TOOLS.md", bytes "/t/TOOLS.md") ∷ [];
  kanban_vars = (bytes "kanban.plan.id", bytes "l1") ∷ [];
}

abbrev two_references : List Part
two_references =
    byte b'a' ∷ byte 0x0A ∷ reference (bytes " TOOLS.md ") ∷ reference (bytes "kanban.plan.id") ∷ []

render_bytes_iff_example :
    (render_bytes (print two_references) vars ≡ some (output (b'a' ∷ 0x0A ∷ bytes "/t/TOOLS.mdl1")))
    ↔ IsExpansion vars two_references (b'a' ∷ 0x0A ∷ bytes "/t/TOOLS.mdl1")
unfolding trello_openclaw_webhook.Prelude.has_prefix trello_openclaw_webhook.Prelude.contains_str
render_bytes_iff_example =
    render_bytes_iff vars two_references (b'a' ∷ 0x0A ∷ bytes "/t/TOOLS.mdl1")
      (refl, (refl, (refl, (refl, tt))))

render_bytes-ends_example : render_bytes (bytes "{{ {{x}} }}") vars ≢ none
render_bytes-ends_example = render_bytes-ends (bytes "{{ {{x}} }}") vars

render_bytes-failed_example :
    render_bytes (print (two_references ++ (reference (bytes "GONE.md") ∷ []))) vars
    ≡ some (
        failed (record {
          position = record { line = 2; column = 33 };
          reference = bytes "GONE.md";
          reason = referenced_file_not_found;
        }))
unfolding trello_openclaw_webhook.Prelude.has_prefix trello_openclaw_webhook.Prelude.contains_str
    resolve_reference trello_openclaw_webhook.Prelude.trim_space
    trello_openclaw_webhook.Template.validate_basename trello_openclaw_webhook.Prelude.◌==◌
    trello_openclaw_webhook.Prelude.contains_byte trello_openclaw_webhook.Prelude.lookup
render_bytes-failed_example =
    render_bytes-failed vars (bytes "GONE.md") referenced_file_not_found [] two_references
      (b'a' ∷ 0x0A ∷ bytes "/t/TOOLS.mdl1") (refl, (refl, (refl, (refl, (refl, tt)))))
      (
        bytes "\n/t/TOOLS.mdl1",
        refl,
        (
          bytes "/t/TOOLS.mdl1",
          refl,
          (bytes "/t/TOOLS.md", bytes "l1", refl, refl, (bytes "l1", [], refl, refl, refl)),
        ),
      )
      refl

abbrev playbooks : List Entry
playbooks =
    record { name = bytes "USER.md"; kind = regular; content = some (bytes "{{TOOLS.md}}") }
    ∷ record { name = bytes "notes.txt"; kind = regular; content = some (bytes "x") }
    ∷ []

abbrev defaults : List (Str × Str)
defaults = (bytes "USER.md", bytes "u") ∷ (bytes "TOOLS.md", bytes "t") ∷ []

abbrev loaded : Temp
loaded = record {
  files = (bytes "USER.md", bytes "/t/USER.md") ∷ (bytes "TOOLS.md", bytes "/t/TOOLS.md") ∷ [];
  disk = (bytes "USER.md", bytes "/t/TOOLS.md") ∷ (bytes "TOOLS.md", bytes "t") ∷ [];
}

new_renderer-IsLoaded_example :
    IsLoaded
      (λ name. true)
      (bytes "/t")
      []
      (source_of (λ name. true) (bytes "/t") defaults playbooks (bytes "USER.md"))
      loaded
      (bytes "USER.md")
unfolding new_renderer trello_openclaw_webhook.Prelude.◌==◌
    trello_openclaw_webhook.Prelude.contains_byte trello_openclaw_webhook.Prelude.contains_str
    trello_openclaw_webhook.Template.Load.max_playbook_file_bytes
    trello_openclaw_webhook.Prelude.insert trello_openclaw_webhook.Prelude.lookup resolve_reference
    trello_openclaw_webhook.Prelude.trim_space
    trello_openclaw_webhook.Template.Load.max_rendered_file_bytes
new_renderer-IsLoaded_example =
    new_renderer-IsLoaded (λ name. true) (bytes "/t") [] defaults playbooks loaded (bytes "USER.md")
      refl
