-- ===== src/Kanban/Config.antt =====
-- internal/app/kanban/decode.go: the decoded `kanban {}` block and `Config.Validate`.
pub mod Unique
use trello_openclaw_webhook.Prelude.{
  Option, none, some, List, [], ◌∷◌, Str, bytes, ◌==◌, if◌then◌else◌, trim_space, lookup, insert,
}

pub record WaitConfig : Type 0 where
  pub plan_review : Str
  pub action_review : Str
  pub generic : Str
  pub exception : Str

-- A `NamedRole` is its name.
pub record Config : Type 0 where
  pub plan : Str
  pub action : Str
  pub wait : WaitConfig
  pub done : Str
  pub agent_comment_prefixes : List Str

pub data ConfigError : Type 0 where
  empty_name : (key : Str) → ConfigError
  collision : (other key trimmed : Str) → ConfigError

-- The role keys with their names, in the order in which `Validate` and `Resolve` take them.
abbrev pub role_names : Config → List (Str × Str)
role_names c =
    (bytes "plan", c.plan)
    ∷ (bytes "action", c.action)
    ∷ (bytes "wait.plan_review", c.wait.plan_review)
    ∷ (bytes "wait.action_review", c.wait.action_review)
    ∷ (bytes "wait.generic", c.wait.generic)
    ∷ (bytes "wait.exception", c.wait.exception)
    ∷ (bytes "done", c.done)
    ∷ []

module _ (to_lower : Str → Str) where
  unfoldable pub normalise_name : Str → Str
  normalise_name s = to_lower (trim_space s)

  -- The loop of `Validate`; `seen` maps a normalised name to the role that declared it.
  unfoldable pub validate_roles : List (Str × Str) → List (Str × Str) → Option ConfigError
  unfolding normalise_name
  validate_roles seen [] = none
  validate_roles seen ((key, name) ∷ roles) =
      let rest = validate_roles (insert (normalise_name name) key seen) roles in
      if trim_space name == bytes ""
      then some (empty_name key)
      else elim (lookup (normalise_name name) seen) [
        | some other ↦ some (collision other key (trim_space name))
        | none ↦ rest
      ]

  -- `none` is the nil error.
  unfoldable pub validate : Config → Option ConfigError
  unfolding validate_roles
  validate c = validate_roles [] (role_names c)
