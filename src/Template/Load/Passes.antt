-- ===== src/Template/Load/Passes.antt =====
-- The rendering of all files of the temp directory, in internal/app/prompttmpl/renderer.go.
use mathlib.Core.Path.{subst}
use mathlib.Core.Option.{some-ne-none}
use trello_openclaw_webhook.Prelude.{
  ◌≡◌, ◌≢◌, ◌≤◌, refl, ap, sym, ◌∙◌, Bool, false, Option, none, some, List, [], ◌∷◌, Str, ◌==◌,
  eq_iff, eq_refl, ◌⊎◌, inl, inr, length, lookup, insert, lookup-insert, arith, Bool-cases,
}
use trello_openclaw_webhook.Template.{Vars, Rendered, output, failed, render_bytes}
use trello_openclaw_webhook.Template.Load.{
  LoadError, rendered_file, render_read, render_file, render_all, max_rendered_file_bytes,
}
use trello_openclaw_webhook.Template.Load.Sources.{IsDistinct}

right :
    (other before after : List (Str × Str))
    → ◌≡◌ {A = LoadError ⊎ List (Str × Str)} (inr before) (inr after)
    → before ≡ after
right other before after h =
    ap (λ (r : LoadError ⊎ List (Str × Str)). elim r [ inl _ ↦ other | inr d ↦ d ]) h

module _ (can_write : Str → Bool) (dir : Str) (vars : Vars) where
  -- A file that is rendered from its source, within the size limit.
  abbrev pub IsRendered : (source result : Option Str) → Type 0
  IsRendered source result =
      (content : Str) × (text : Str) × (source ≡ some content)
      × (render_bytes content vars ≡ some (output text))
      × (length text ≤ max_rendered_file_bytes)
      × (result ≡ some text)

  -- One file is rendered, and the others are what they were.
  abbrev pub IsStep : (name : Str) → (before after : List (Str × Str)) → Type 0
  IsStep name before after =
      IsRendered (lookup name before) (lookup name after)
      × ((other : Str) → (name == other) ≡ false → lookup other after ≡ lookup other before)

  rendered_file-IsStep :
      (name src : Str) (before after : List (Str × Str)) (result : Option Rendered)
      → lookup name before ≡ some src
      → render_bytes src vars ≡ result
      → rendered_file can_write dir name before result ≡ inr after
      → IsStep name before after
  rendered_file-IsStep name src before after none at done h = absurd (ground arith)
  rendered_file-IsStep name src before after (some (failed err)) at done h = absurd (ground arith)
  rendered_file-IsStep name src before after (some (output text)) at done h =
      let same : insert name text before ≡ after = ground arith in
      (
        (
          src,
          text,
          at,
          done,
          ground arith,
          ap (lookup name) (sym same)
              ∙ (lookup-insert name name text before ∙ ground (arith, eq_refl name)),
        ),
        λ other apart.
            ap (lookup other) (sym same) ∙ (lookup-insert name other text before ∙ ground arith),
      )

  render_read-IsStep :
      (name : Str) (before after : List (Str × Str)) (src : Option Str)
      → lookup name before ≡ src
      → render_read can_write dir vars name before src ≡ inr after
      → IsStep name before after
  render_read-IsStep name before after none at h = absurd (ground arith)
  render_read-IsStep name before after (some src) at h =
      rendered_file-IsStep name src before after (render_bytes src vars) at refl h

  -- The files that are still to be rendered are, and the others stay.
  abbrev pub AreRendered : (files before after : List (Str × Str)) → Type 0
  AreRendered files before after =
      (name : Str)
      → ((lookup name files ≡ none) × (lookup name after ≡ lookup name before))
        ⊎ ((lookup name files ≢ none) × IsRendered (lookup name before) (lookup name after))

  -- The outcome for a name in a list of files.
  abbrev pub FileOutcome : (found source result : Option Str) → Type 0
  FileOutcome found source result =
      ((found ≡ none) × (result ≡ source)) ⊎ ((found ≢ none) × IsRendered source result)

  this_file :
      (path : Str) (found source mid result : Option Str)
      → found ≡ none
      → IsRendered source mid
      → FileOutcome found mid result
      → FileOutcome (some path) source result
  this_file path found source mid result absent done (inl (_, kept)) =
      inr (λ e. some-ne-none _ e, subst (IsRendered source) (sym kept) done)
  this_file path found source mid result absent done (inr (present, _)) = absurd (present absent)

  other_file :
      (found source mid result : Option Str)
      → mid ≡ source
      → FileOutcome found mid result
      → FileOutcome found source result
  other_file found source mid result same outcome =
      subst (λ x. FileOutcome found x result) same outcome

  AreRendered-cons :
      (name path : Str) (files before mid after : List (Str × Str))
      → lookup name files ≡ none
      → IsStep name before mid
      → AreRendered files mid after
      → AreRendered ((name, path) ∷ files) before after
  unfolding lookup
  AreRendered-cons name path files before mid after absent (done, others) later k =
      elim (Bool-cases (name == k)) [
        | inl same ↦
            let is : name ≡ k = (eq_iff name k).0 same in
            rw same (
              this_file path (lookup k files) (lookup k before) (lookup k mid) (lookup k after)
                (subst (λ x. lookup x files ≡ none) is absent)
                (subst (λ x. IsRendered (lookup x before) (lookup x mid)) is done) (later k))
        | inr apart ↦ rw apart (
            other_file (lookup k files) (lookup k before) (lookup k mid) (lookup k after)
              (others k apart) (later k))
      ]

  round :
      (name path : Str) (files before after : List (Str × Str))
      (next : LoadError ⊎ List (Str × Str))
      → render_file can_write dir vars name before ≡ next
      → lookup name files ≡ none
      → ((mid : List (Str × Str))
          → render_all can_write dir vars files mid ≡ inr after
          → AreRendered files mid after)
      → ◌≡◌ {A = LoadError ⊎ List (Str × Str)}
          (elim next [ inl err ↦ inl err | inr mid ↦ render_all can_write dir vars files mid ])
          (inr after)
      → AreRendered ((name, path) ∷ files) before after
  unfolding render_file
  round name path files before after (inl err) e absent further h = absurd (ground arith)
  round name path files before after (inr mid) e absent further h =
      AreRendered-cons name path files before mid after absent
        (render_read-IsStep name before mid (lookup name before) refl e) (further mid h)

  pub render_all-AreRendered :
      (files before after : List (Str × Str))
      → IsDistinct files
      → render_all can_write dir vars files before ≡ inr after
      → AreRendered files before after
  unfolding render_all lookup
  render_all-AreRendered [] before after distinct h =
      λ name. inl (refl, ap (lookup name) (sym (right before before after h)))
  render_all-AreRendered ((name, path) ∷ files) before after distinct h =
      round name path files before after (render_file can_write dir vars name before) refl
        distinct.0 (λ mid e. render_all-AreRendered files mid after distinct.1 e) h
