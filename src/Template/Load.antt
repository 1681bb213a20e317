-- ===== src/Template/Load.antt =====
-- internal/app/prompttmpl/renderer.go: `New` and `renderFile`. The temp directory is a map from base
-- names to contents; a Go map is a list of pairs in the order in which it is ranged over.
pub mod Sources
pub mod Passes
pub mod Loaded
use trello_openclaw_webhook.Prelude.{
  ℕ, Bool, true, false, not, ◌&&◌, ◌||◌, Option, none, some, List, [], ◌∷◌, ◌++◌, Str, ◌==◌, ◌⊎◌,
  inl, inr, if◌then◌else◌, ltb, length, nat_eq, reverse, lookup, insert,
}
use trello_openclaw_webhook.Template.{
  BasenameError, validate_basename, Vars, RenderError, Rendered, output, failed, render_bytes,
}

unfoldable pub max_playbook_file_bytes : ℕ
max_playbook_file_bytes = 1048576

unfoldable pub max_rendered_file_bytes : ℕ
max_rendered_file_bytes = 4194304

pub data EntryKind : Type 0 where
  directory symlink irregular regular not_stated : EntryKind

-- An entry of the playbooks directory; `content` is `none` where it cannot be copied.
pub record Entry : Type 0 where
  pub name : Str
  pub kind : EntryKind
  pub content : Option Str

pub data LoadError : Type 0 where
  no_playbooks_dir stat_failed not_a_directory no_temp_dir unreadable_dir : LoadError
  bad_name : (name : Str) → BasenameError → LoadError
  too_big write_failed lstat_failed is_symlink not_regular copy_failed : (name : Str) → LoadError
  read_failed unfinished rendered_too_big : (name : Str) → LoadError
  render_failed : (name : Str) → RenderError → LoadError

-- `files`, and what the temp directory holds.
pub record Temp : Type 0 where
  pub files : List (Str × Str)
  pub disk : List (Str × Str)

-- `filepath.Join` of the temp directory and a base name
abbrev pub path_in : (dir name : Str) → Str
path_in dir name = dir ++ (b'/' ∷ name)

abbrev pub place_file : (dir name content : Str) → Temp → Temp
place_file dir name content t = record {
  files = insert name (path_in dir name) t.files;
  disk = insert name content t.disk;
}

-- `strings.EqualFold(filepath.Ext(name), ".md")`
abbrev pub ends_in_md : (reversed : Str) → Bool
ends_in_md (d ∷ m ∷ dot ∷ _) =
    (nat_eq d b'd' || nat_eq d b'D') && ((nat_eq m b'm' || nat_eq m b'M') && nat_eq dot b'.')
ends_in_md (d ∷ m ∷ []) = false
ends_in_md (d ∷ []) = false
ends_in_md [] = false

unfoldable pub is_markdown : (name : Str) → Bool
is_markdown name = ends_in_md (reverse name)

-- `can_write` is whether a file of the temp directory can be written.
module _ (can_write : (name : Str) → Bool) (dir : Str) where
  abbrev pub written : (name content : Str) → Temp → Option BasenameError → LoadError ⊎ Temp
  written name content t (some err) = inl (bad_name name err)
  written name content t none =
      if ltb max_playbook_file_bytes (length content)
      then inl (too_big name)
      else if can_write name
      then inr (place_file dir name content t)
      else inl (write_failed name)

  -- The embedded defaults.
  unfoldable pub seed : List (Str × Str) → Temp → LoadError ⊎ Temp
  unfolding validate_basename
  seed [] t = inr t
  seed ((name, content) ∷ defaults) t = elim (written name content t (validate_basename name)) [
    | inl err ↦ inl err
    | inr next ↦ seed defaults next
  ]

  abbrev pub copied : (name : Str) → Temp → Option Str → LoadError ⊎ Temp
  copied name t none = inl (copy_failed name)
  copied name t (some content) =
      if ltb max_playbook_file_bytes (length content)
      then inl (copy_failed name)
      else if can_write name
      then inr (place_file dir name content t)
      else inl (copy_failed name)

  abbrev pub copied_kind : (name : Str) → Temp → Option Str → EntryKind → LoadError ⊎ Temp
  copied_kind name t content directory = inr t
  copied_kind name t content not_stated = inl (lstat_failed name)
  copied_kind name t content symlink = inl (is_symlink name)
  copied_kind name t content irregular = inl (not_regular name)
  copied_kind name t content regular = copied name t content

  abbrev pub copied_named :
      (name : Str) → Temp → Option Str → EntryKind → Option BasenameError → LoadError ⊎ Temp
  copied_named name t content kind (some err) = inl (bad_name name err)
  copied_named name t content kind none = copied_kind name t content kind

  -- Directories and files with another extension are passed over.
  abbrev pub is_skipped : (name : Str) → EntryKind → Bool
  is_skipped name directory = true
  is_skipped name symlink = not (is_markdown name)
  is_skipped name irregular = not (is_markdown name)
  is_skipped name regular = not (is_markdown name)
  is_skipped name not_stated = not (is_markdown name)

  abbrev pub overlay_entry : Entry → Temp → LoadError ⊎ Temp
  overlay_entry e t =
      if is_skipped e.name e.kind
      then inr t
      else copied_named e.name t e.content e.kind (validate_basename e.name)

  -- The user's files.
  unfoldable pub overlay : List Entry → Temp → LoadError ⊎ Temp
  unfolding validate_basename is_markdown
  overlay [] t = inr t
  overlay (e ∷ entries) t = elim (overlay_entry e t) [
    | inl err ↦ inl err
    | inr next ↦ overlay entries next
  ]

  abbrev pub rewritten :
      (name text : Str) → (disk : List (Str × Str)) → LoadError ⊎ List (Str × Str)
  rewritten name text disk =
      if ltb max_rendered_file_bytes (length text)
      then inl (rendered_too_big name)
      else if can_write name
      then inr (insert name text disk)
      else inl (write_failed name)

  abbrev pub rendered_file :
      (name : Str) → (disk : List (Str × Str)) → Option Rendered → LoadError ⊎ List (Str × Str)
  rendered_file name disk none = inl (unfinished name)
  rendered_file name disk (some (failed err)) = inl (render_failed name err)
  rendered_file name disk (some (output text)) = rewritten name text disk

  abbrev pub render_read :
      Vars → (name : Str) → (disk : List (Str × Str)) → Option Str → LoadError ⊎ List (Str × Str)
  render_read vars name disk none = inl (read_failed name)
  render_read vars name disk (some src) = rendered_file name disk (render_bytes src vars)

  unfoldable pub render_file :
      Vars → (name : Str) → (disk : List (Str × Str)) → LoadError ⊎ List (Str × Str)
  unfolding render_bytes
  render_file vars name disk = render_read vars name disk (lookup name disk)

  unfoldable pub render_all : Vars → (files disk : List (Str × Str)) → LoadError ⊎ List (Str × Str)
  unfolding render_file
  render_all vars [] disk = inr disk
  render_all vars ((name, path) ∷ files) disk = elim (render_file vars name disk) [
    | inl err ↦ inl err
    | inr next ↦ render_all vars files next
  ]

  abbrev pub all_rendered :
      (kanban_vars : List (Str × Str)) → Temp → LoadError ⊎ List (Str × Str) → LoadError ⊎ Temp
  all_rendered kanban_vars t (inl err) = inl err
  all_rendered kanban_vars t (inr disk) = inr (record { files = t.files; disk = disk })

  abbrev pub after_overlay : (kanban_vars : List (Str × Str)) → LoadError ⊎ Temp → LoadError ⊎ Temp
  after_overlay kanban_vars (inl err) = inl err
  after_overlay kanban_vars (inr t) =
      all_rendered kanban_vars t
        (render_all (record { files = t.files; kanban_vars = kanban_vars }) t.files t.disk)

  abbrev pub after_seed :
      (kanban_vars : List (Str × Str)) → List Entry → LoadError ⊎ Temp → LoadError ⊎ Temp
  after_seed kanban_vars entries (inl err) = inl err
  after_seed kanban_vars entries (inr t) = after_overlay kanban_vars (overlay entries t)

  -- `New` once the directories are there: a failure removes the temp directory.
  unfoldable pub new_renderer :
      (defaults kanban_vars : List (Str × Str)) → List Entry → LoadError ⊎ Temp
  unfolding seed overlay render_all
  new_renderer defaults kanban_vars entries =
      after_seed kanban_vars entries (seed defaults (record { files = []; disk = [] }))

-- `Read`; `none` is its error.
unfoldable pub read_playbook : Temp → (name : Str) → Option Str
read_playbook t name = elim (lookup name t.files) [ none ↦ none | some path ↦ lookup name t.disk ]
