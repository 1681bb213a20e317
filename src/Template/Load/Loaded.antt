-- ===== src/Template/Load/Loaded.antt =====
-- What the files of internal/app/prompttmpl/renderer.go hold once `New` has returned.
use mathlib.Core.Path.{subst}
use mathlib.Core.Option.{some-ne-none}
use trello_openclaw_webhook.Prelude.{
  ◌≡◌, refl, ap, sym, ◌∙◌, Bool, Option, none, some, List, [], Str, ◌⊎◌, inl, inr, lookup, arith,
}
use trello_openclaw_webhook.Template.{Vars}
use trello_openclaw_webhook.Template.Load.{
  Entry, LoadError, Temp, path_in, seed, overlay, render_all, all_rendered, after_overlay,
  after_seed, new_renderer, read_playbook,
}
use trello_openclaw_webhook.Template.Load.Sources.{
  IsOver, IsOver-trans, first_of, default_source, user_source, seed-IsOver, overlay-IsOver,
}
use trello_openclaw_webhook.Template.Load.Passes.{IsRendered, AreRendered, render_all-AreRendered}

-- The source of a name: the user's file, or where there is none the embedded default.
abbrev pub source_of :
    (can_write : Str → Bool)
    → (dir : Str) → List (Str × Str)
    → List Entry
    → (name : Str) → Option Str
source_of can_write dir defaults entries name =
    first_of (user_source can_write dir entries name) (default_source can_write dir defaults name)

right_temp :
    (other before after : Temp)
    → ◌≡◌ {A = LoadError ⊎ Temp} (inr before) (inr after)
    → before ≡ after
right_temp other before after h =
    ap (λ (r : LoadError ⊎ Temp). elim r [ inl _ ↦ other | inr t ↦ t ]) h

first_of-some :
    (found : Option Str) (content : Str) (other : Option Str)
    → found ≡ some content
    → first_of found other ≡ found
first_of-some none content other h = absurd (ground arith)
first_of-some (some s) content other h = refl

abbrev empty_temp : Temp
empty_temp = record { files = []; disk = [] }

module _ (can_write : Str → Bool) (dir : Str) (kanban_vars : List (Str × Str)) where
  abbrev pub vars_of : Temp → Vars
  vars_of t = record { files = t.files; kanban_vars = kanban_vars }

  -- What a name has after a start: nothing, or the rendering of its source.
  abbrev pub IsLoaded : (source : Option Str) → Temp → (name : Str) → Type 0
  IsLoaded source t name =
      ((source ≡ none) × (read_playbook t name ≡ none))
      ⊎ IsRendered can_write dir (vars_of t) source (read_playbook t name)

  disk-IsLoaded :
      (source : Str → Option Str) (t : Temp) (disk : List (Str × Str)) (name : Str)
      (found : Option Str)
      → source name ≡ found
      → IsOver can_write dir source empty_temp t
      → AreRendered can_write dir (vars_of t) t.files t.disk disk
      → IsLoaded (source name) (record { files = t.files; disk = disk }) name
  unfolding read_playbook lookup
  disk-IsLoaded source t disk name none same (on_disk, in_files, _) all =
      let absent : lookup name t.files ≡ none = in_files name ∙ rw same refl in
      inl (
        same,
        ap (λ (f : Option Str). elim f [ none ↦ none | some path ↦ lookup name disk ]) absent,
      )
  disk-IsLoaded source t disk name (some content) same (on_disk, in_files, _) all =
      let present : lookup name t.files ≡ some (path_in dir name) = in_files name ∙ rw same refl in
      let stored : lookup name t.disk ≡ source name =
        on_disk name ∙ first_of-some (source name) content (lookup name empty_temp.disk) same in
      elim (all name) [
        | inl missing ↦ absurd (some-ne-none _ (sym present ∙ missing.0))
        | inr rendered ↦ inr (
            subst (λ x. IsRendered can_write dir (vars_of t) (source name) x)
              (sym (
                ap (λ (f : Option Str). elim f [ none ↦ none | some path ↦ lookup name disk ])
                  present))
              (subst (λ x. IsRendered can_write dir (vars_of t) x (lookup name disk)) stored
                rendered.1))
      ]

  render_all-IsLoaded :
      (source : Str → Option Str) (t : Temp) (after : Temp) (name : Str)
      (result : LoadError ⊎ List (Str × Str))
      → render_all can_write dir (vars_of t) t.files t.disk ≡ result
      → IsOver can_write dir source empty_temp t
      → all_rendered can_write dir kanban_vars t result ≡ inr after
      → IsLoaded (source name) after name
  render_all-IsLoaded source t after name (inl err) done over h = absurd (ground arith)
  render_all-IsLoaded source t after name (inr disk) done over h =
      subst (λ x. IsLoaded (source name) x name) (right_temp after _ after h)
        (disk-IsLoaded source t disk name (source name) refl over
          (render_all-AreRendered can_write dir (vars_of t) t.files t.disk disk (over.2 tt) done))

  overlay-IsLoaded :
      (defaults : List (Str × Str)) (entries : List Entry) (seeded after : Temp) (name : Str)
      (result : LoadError ⊎ Temp)
      → overlay can_write dir entries seeded ≡ result
      → IsOver can_write dir (default_source can_write dir defaults) empty_temp seeded
      → after_overlay can_write dir kanban_vars result ≡ inr after
      → IsLoaded (source_of can_write dir defaults entries name) after name
  overlay-IsLoaded defaults entries seeded after name (inl err) done over h = absurd (ground arith)
  overlay-IsLoaded defaults entries seeded after name (inr t) done over h =
      render_all-IsLoaded (source_of can_write dir defaults entries) t after name
        (render_all can_write dir (vars_of t) t.files t.disk) refl
        (IsOver-trans can_write dir (default_source can_write dir defaults)
          (user_source can_write dir entries) empty_temp seeded t over
          (overlay-IsOver can_write dir entries seeded t done))
        h

  seed-IsLoaded :
      (defaults : List (Str × Str)) (entries : List Entry) (after : Temp) (name : Str)
      (result : LoadError ⊎ Temp)
      → seed can_write dir defaults empty_temp ≡ result
      → after_seed can_write dir kanban_vars entries result ≡ inr after
      → IsLoaded (source_of can_write dir defaults entries name) after name
  seed-IsLoaded defaults entries after name (inl err) done h = absurd (ground arith)
  seed-IsLoaded defaults entries after name (inr seeded) done h =
      overlay-IsLoaded defaults entries seeded after name (overlay can_write dir entries seeded)
        refl (seed-IsOver can_write dir defaults empty_temp seeded done) h

  -- When the renderer starts, reading a name gives the rendering of its source, which is the
  -- user's file or else the embedded default, and within the size limit; a name without a source
  -- cannot be read.
  pub new_renderer-IsLoaded :
      (defaults : List (Str × Str)) (entries : List Entry) (t : Temp) (name : Str)
      → new_renderer can_write dir defaults kanban_vars entries ≡ inr t
      → IsLoaded (source_of can_write dir defaults entries name) t name
  unfolding new_renderer
  new_renderer-IsLoaded defaults entries t name h =
      seed-IsLoaded defaults entries t name (seed can_write dir defaults empty_temp) refl h
