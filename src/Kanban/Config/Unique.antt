-- ===== src/Kanban/Config/Unique.antt =====
-- When `Validate` of internal/app/kanban/decode.go accepts a configuration.
use trello_openclaw_webhook.Prelude.{
  ◌≡◌, ◌≢◌, ◌↔◌, refl, Bool-cases, inl, inr, none, Option-cases, List, [], ◌∷◌, arith, Str, bytes,
  ◌==◌, eq_iff, trim_space, lookup, insert, lookup-insert, All,
}
use trello_openclaw_webhook.Kanban.Config.{
  Config, role_names, normalise_name, validate_roles, validate,
}

lookup-insert-none :
    (k j : Str) (v : Str) (m : List (Str × Str))
    → (lookup j (insert k v m) ≡ none) ↔ ((k ≢ j) × (lookup j m ≡ none))
lookup-insert-none k j v m = (
  λ h. ground (arith, eq_iff k j, lookup-insert k j v m),
  λ h. ground (arith, eq_iff k j, lookup-insert k j v m),
)

module _ (to_lower : Str → Str) where
  abbrev Apart : Str × Str → Str × Str → Type 0
  Apart p q = normalise_name to_lower p.1 ≢ normalise_name to_lower q.1

  -- No name is blank, and no two are the same after trimming and lowering.
  abbrev pub Distinct : List (Str × Str) → Type 0
  Distinct [] = Unit
  Distinct (p ∷ ps) = (trim_space p.1 ≢ []) × All (Apart p) ps × Distinct ps

  -- The names in `seen` are avoided by the roles to come.
  abbrev Fresh : List (Str × Str) → Str × Str → Type 0
  Fresh seen p = lookup (normalise_name to_lower p.1) seen ≡ none

  Fresh-insert :
      (seen : List (Str × Str)) (p : Str × Str) (ps : List (Str × Str))
      → All (Fresh seen) ps
      → All (Apart p) ps
      → All (Fresh (insert (normalise_name to_lower p.1) p.0 seen)) ps
  Fresh-insert seen p [] h k = tt
  Fresh-insert seen p (q ∷ ps) (h, hs) (k, ks) =
      ((lookup-insert-none _ _ p.0 seen).1 (k, h), Fresh-insert seen p ps hs ks)

  Fresh-of_insert :
      (seen : List (Str × Str)) (p : Str × Str) (ps : List (Str × Str))
      → All (Fresh (insert (normalise_name to_lower p.1) p.0 seen)) ps
      → All (Fresh seen) ps × All (Apart p) ps
  Fresh-of_insert seen p [] h = (tt, tt)
  Fresh-of_insert seen p (q ∷ ps) (h, hs) =
      let (apart, fresh) = (lookup-insert-none _ _ p.0 seen).0 h in
      let (rest, aparts) = Fresh-of_insert seen p ps hs in ((fresh, rest), (apart, aparts))

  validate_roles_sound :
      (seen ps : List (Str × Str))
      → validate_roles to_lower seen ps ≡ none
      → Distinct ps × All (Fresh seen) ps
  unfolding validate_roles
  validate_roles_sound seen [] h = (tt, tt)
  validate_roles_sound seen ((key, name) ∷ ps) h = elim (Bool-cases (trim_space name == bytes "")) [
    | inl blank ↦ cc (blank)
    | inr named ↦ elim (Option-cases (lookup (normalise_name to_lower name) seen)) [
      | inr (other, e) ↦ ground arith
      | inl e ↦
          let seen' : List (Str × Str) = insert (normalise_name to_lower name) key seen in
          let (distinct, fresh) = validate_roles_sound seen' ps (ground arith) in
          let (rest, apart) = Fresh-of_insert seen (key, name) ps fresh in
          (((ground (arith, eq_iff (trim_space name) [])), apart, distinct), (e, rest))
    ]
  ]

  validate_roles_complete :
      (seen ps : List (Str × Str))
      → Distinct ps
      → All (Fresh seen) ps
      → validate_roles to_lower seen ps ≡ none
  unfolding validate_roles
  validate_roles_complete seen [] d f = refl
  validate_roles_complete seen ((key, name) ∷ ps) (named, apart, d) (e, f) =
      let rest =
        validate_roles_complete (insert (normalise_name to_lower name) key seen) ps d
          (Fresh-insert seen (key, name) ps f apart) in
      ground (arith, rest, eq_iff (trim_space name) [])

  All-Fresh-nil : (ps : List (Str × Str)) → All (Fresh []) ps
  unfolding lookup
  All-Fresh-nil [] = tt
  All-Fresh-nil (p ∷ ps) = (refl, All-Fresh-nil ps)

  -- `Validate` accepts a configuration exactly when no role's name is blank and no two roles'
  -- names are the same after trimming and lowering.
  pub validate_iff : (c : Config) → (validate to_lower c ≡ none) ↔ Distinct (role_names c)
  unfolding validate
  validate_iff c = (
    λ h. (validate_roles_sound [] (role_names c) h).0,
    λ d. validate_roles_complete [] (role_names c) d (All-Fresh-nil (role_names c)),
  )
