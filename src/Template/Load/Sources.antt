-- ===== src/Template/Load/Sources.antt =====
-- Where the files of internal/app/prompttmpl/renderer.go come from: the user's playbooks over the
-- embedded defaults.
use mathlib.Core.Path.{subst}
use trello_openclaw_webhook.Prelude.{
  ◌≡◌, refl, ◌∙◌, Bool, false, Option, none, some, List, [], ◌∷◌, Str, ◌==◌, eq_iff, ◌⊎◌, inl, inr,
  if◌then◌else◌, lookup, insert, lookup-insert, arith, Bool-cases,
}
use trello_openclaw_webhook.Template.{BasenameError, validate_basename}
use trello_openclaw_webhook.Template.Load.{
  Entry, EntryKind, directory, regular, symlink, irregular, not_stated, LoadError, Temp, path_in,
  place_file, written, seed, copied, copied_named, is_skipped, overlay_entry, overlay,
}

abbrev pub first_of : Option Str → Option Str → Option Str
first_of none other = other
first_of (some s) other = some s

-- No name has two paths.
abbrev pub IsDistinct : List (Str × Str) → Type 0
IsDistinct [] = Unit
IsDistinct ((name, path) ∷ files) = (lookup name files ≡ none) × IsDistinct files

insert-IsDistinct :
    (key value : Str) (files : List (Str × Str))
    → IsDistinct files
    → IsDistinct (insert key value files)
unfolding insert lookup
insert-IsDistinct key value [] h = (refl, tt)
insert-IsDistinct key value ((name, path) ∷ files) h = elim (Bool-cases (name == key)) [
  | inl same ↦ rw same h
  | inr other ↦ rw other (
    lookup-insert key name value files ∙ ground (arith, eq_iff name key, eq_iff key name),
    insert-IsDistinct key value files h.1,
  )
]

module _ (can_write : Str → Bool) (dir : Str) where
  -- The default, and the user's file, of a name; the last of them counts.
  abbrev pub default_source : List (Str × Str) → (name : Str) → Option Str
  default_source [] name = none
  default_source ((at, content) ∷ defaults) name =
      first_of (default_source defaults name) (if at == name then some content else none)

  abbrev pub user_source : List Entry → (name : Str) → Option Str
  user_source [] name = none
  user_source (e ∷ entries) name = first_of (user_source entries name) (
      if is_skipped can_write dir e.name e.kind
      then none
      else if e.name == name
      then e.content
      else none)

  -- Some names have new contents, and the others what they had.
  abbrev pub IsOver : (source : Str → Option Str) → (before after : Temp) → Type 0
  IsOver source before after =
      ((name : Str) → lookup name after.disk ≡ first_of (source name) (lookup name before.disk))
      × ((name : Str)
          → lookup name after.files ≡ (elim (source name) [
            | some _ ↦ some (path_in dir name)
            | none ↦ lookup name before.files
          ]))
      × (IsDistinct before.files → IsDistinct after.files)

  place_file-IsOver :
      (at content : Str) (t : Temp)
      → IsOver (λ name. if at == name then some content else none) t (place_file dir at content t)
  place_file-IsOver at content t = (
    λ name. ground (arith, lookup-insert at name content t.disk),
    λ name. ground (arith, lookup-insert at name (path_in dir at) t.files, eq_iff at name),
    insert-IsDistinct at (path_in dir at) t.files,
  )

  pub IsOver-trans :
      (first second : Str → Option Str) (t u v : Temp)
      → IsOver first t u
      → IsOver second u v
      → IsOver (λ name. first_of (second name) (first name)) t v
  IsOver-trans first second t u v (disk1, files1, distinct1) (disk2, files2, distinct2) = (
    λ name. ground (arith, disk1 name, disk2 name),
    λ name. ground (arith, files1 name, files2 name),
    λ h. distinct2 (distinct1 h),
  )

  IsOver-refl :
      (source : Str → Option Str) (t : Temp)
      → ((name : Str) → source name ≡ none)
      → IsOver source t t
  IsOver-refl source t nothing =
      (λ name. ground (arith, nothing name), λ name. ground (arith, nothing name), λ h. h)

  written-IsOver :
      (at content : Str) (t after : Temp) (bad : Option BasenameError)
      → written can_write dir at content t bad ≡ inr after
      → IsOver (λ name. if at == name then some content else none) t after
  written-IsOver at content t after (some err) h = absurd (ground arith)
  written-IsOver at content t after none h =
      let same : place_file dir at content t ≡ after = ground arith in
      subst (IsOver (λ name. if at == name then some content else none) t) same
        (place_file-IsOver at content t)

  pub seed-IsOver :
      (defaults : List (Str × Str)) (t after : Temp)
      → seed can_write dir defaults t ≡ inr after
      → IsOver (default_source defaults) t after
  unfolding seed
  seed-IsOver [] t after h =
      let same : t ≡ after = ground arith in
      subst (IsOver (default_source []) t) same (IsOver-refl (default_source []) t (λ name. refl))
  seed-IsOver ((at, content) ∷ defaults) t after h =
      step (written can_write dir at content t (validate_basename at)) refl h
        (λ u e. seed-IsOver defaults u after e)
    where
      step :
          (next : LoadError ⊎ Temp)
          → written can_write dir at content t (validate_basename at) ≡ next
          → ◌≡◌ {A = LoadError ⊎ Temp}
              (elim next [ inl err ↦ inl err | inr u ↦ seed can_write dir defaults u ])
              (inr after)
          → ((u : Temp)
              → seed can_write dir defaults u ≡ inr after
              → IsOver (default_source defaults) u after)
          → IsOver (default_source ((at, content) ∷ defaults)) t after
      step (inl err) e h further = absurd (ground arith)
      step (inr u) e h further =
          IsOver-trans (λ name. if at == name then some content else none) (default_source defaults)
            t u after (written-IsOver at content t u (validate_basename at) e) (further u h)

  -- What one entry puts in place.
  abbrev entry_source : Entry → (name : Str) → Option Str
  entry_source e name =
      if is_skipped can_write dir e.name e.kind
      then none
      else if e.name == name
      then e.content
      else none

  copied-IsOver :
      (at : Str) (t after : Temp) (content : Option Str)
      → copied can_write dir at t content ≡ inr after
      → IsOver (λ name. if at == name then content else none) t after
  copied-IsOver at t after none h = absurd (ground arith)
  copied-IsOver at t after (some content) h =
      let same : place_file dir at content t ≡ after = ground arith in
      subst (IsOver (λ name. if at == name then some content else none) t) same
        (place_file-IsOver at content t)

  copied_named-IsOver :
      (at : Str) (t after : Temp) (content : Option Str) (kind : EntryKind)
      (bad : Option BasenameError)
      → is_skipped can_write dir at kind ≡ false
      → copied_named can_write dir at t content kind bad ≡ inr after
      → IsOver (λ name. if at == name then content else none) t after
  copied_named-IsOver at t after content kind (some err) kept h = absurd (ground arith)
  copied_named-IsOver at t after content directory none kept h = absurd (ground arith)
  copied_named-IsOver at t after content symlink none kept h = absurd (ground arith)
  copied_named-IsOver at t after content irregular none kept h = absurd (ground arith)
  copied_named-IsOver at t after content not_stated none kept h = absurd (ground arith)
  copied_named-IsOver at t after content regular none kept h = copied-IsOver at t after content h

  overlay_entry-IsOver :
      (e : Entry) (t after : Temp)
      → overlay_entry can_write dir e t ≡ inr after
      → IsOver (entry_source e) t after
  overlay_entry-IsOver e t after h = elim (Bool-cases (is_skipped can_write dir e.name e.kind)) [
    | inl skipped ↦
        let same : t ≡ after = ground arith in
        subst (IsOver (entry_source e) t) same
          (IsOver-refl (entry_source e) t (λ name. rw skipped refl))
    | inr kept ↦ rw kept (
        copied_named-IsOver e.name t after e.content e.kind (validate_basename e.name) kept
          (rw kept at h))
  ]

  pub overlay-IsOver :
      (entries : List Entry) (t after : Temp)
      → overlay can_write dir entries t ≡ inr after
      → IsOver (user_source entries) t after
  unfolding overlay
  overlay-IsOver [] t after h =
      let same : t ≡ after = ground arith in
      subst (IsOver (user_source []) t) same (IsOver-refl (user_source []) t (λ name. refl))
  overlay-IsOver (e ∷ entries) t after h =
      step (overlay_entry can_write dir e t) refl h (λ u same. overlay-IsOver entries u after same)
    where
      step :
          (next : LoadError ⊎ Temp)
          → overlay_entry can_write dir e t ≡ next
          → ◌≡◌ {A = LoadError ⊎ Temp}
              (elim next [ inl err ↦ inl err | inr u ↦ overlay can_write dir entries u ])
              (inr after)
          → ((u : Temp)
              → overlay can_write dir entries u ≡ inr after
              → IsOver (user_source entries) u after)
          → IsOver (user_source (e ∷ entries)) t after
      step (inl err) e1 h1 further = absurd (ground arith)
      step (inr u) e1 h1 further =
          IsOver-trans (entry_source e) (user_source entries) t u after
            (overlay_entry-IsOver e t u e1) (further u h1)
