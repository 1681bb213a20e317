-- ===== src/Kanban/Resolve.antt =====
-- `Resolve` of internal/app/kanban/kanban.go: from role names to the lists of the board.
pub mod Index
pub mod Roles
use trello_openclaw_webhook.Prelude.{
  Bool, true, false, ◌&&◌, ◌||◌, Option, none, some, List, [], ◌∷◌, ◌++◌, map, Str, bytes, ◌==◌,
  ltb, nat_eq, if◌then◌else◌, trim_space, lookup, insert, contains,
}
use trello_openclaw_webhook.Kanban.Config.{
  Config, ConfigError, role_names, normalise_name, validate,
}

pub record Role : Type 0 where
  pub name : Str
  pub id : Str

-- The zero value of a role.
abbrev pub no_role : Role
no_role = record { name = []; id = [] }

pub record WaitRoles : Type 0 where
  pub plan_review : Role
  pub action_review : Role
  pub generic : Role
  pub exception : Role

pub record Resolved : Type 0 where
  pub board_id : Str
  pub plan : Role
  pub action : Role
  pub done : Role
  pub wait : WaitRoles
  pub agent_comment_prefixes : List Str
  pub plan_list_ids : List Str
  pub action_list_ids : List Str
  pub wait_list_ids : List Str
  pub done_list_ids : List Str
  pub unclaimed_list_names : List Str

pub record BoardList : Type 0 where
  pub id : Str
  pub name : Str

pub record ResolveError : Type 0 where
  pub board_id : Str
  pub missing_roles : List Str
  pub ambiguous_roles : List Str
  pub ambiguous_detail : List (Str × List Str)

pub data ResolveResult : Type 0 where
  invalid : ConfigError → ResolveResult
  failed : ResolveError → ResolveResult
  resolved : Resolved → ResolveResult

-- `sort.Strings`: by bytes.
str_leb : Str → Str → Bool
str_leb [] t = true
str_leb (c ∷ s) [] = false
str_leb (c ∷ s) (d ∷ t) = ltb c d || (nat_eq c d && str_leb s t)

insert_sorted : Str → List Str → List Str
insert_sorted x [] = x ∷ []
insert_sorted x (y ∷ ys) = if str_leb x y then x ∷ y ∷ ys else y ∷ insert_sorted x ys

pub sort_strings : List Str → List Str
unfolding str_leb insert_sorted
sort_strings [] = []
sort_strings (x ∷ xs) = insert_sorted x (sort_strings xs)

-- The lists under a key of the name index; a missing key is the nil slice.
pub found : Option (List BoardList) → List BoardList
found none = []
found (some ls) = ls

-- What the loop over the role specifications has gathered. A role that is filled through its
-- pointer stands in `roles` under the role's key.
pub record Scan : Type 0 where
  pub missing : List Str
  pub ambiguous : List Str
  pub detail : List (Str × List Str)
  pub claimed : List Str
  pub roles : List (Str × Role)

abbrev pub empty_scan : Scan
empty_scan = record { missing = []; ambiguous = []; detail = []; claimed = []; roles = [] }

-- The `switch len(matches)` of the loop.
pub scan_role : Str → Str → List BoardList → Scan → Scan
scan_role key name [] s = record s { missing = s.missing ++ key ∷ [] }
scan_role key name (l ∷ []) s = record s {
  claimed = l.id ∷ s.claimed;
  roles = s.roles ++ (key, record { name = trim_space name; id = l.id }) ∷ [];
}
scan_role key name (l ∷ m ∷ ls) s = record s {
  ambiguous = s.ambiguous ++ key ∷ [];
  detail = s.detail ++ (key, map (λ b. b.name) (l ∷ m ∷ ls)) ∷ [];
}

pub role_at : Scan → Str → Role
role_at s key = elim (lookup key s.roles) [ none ↦ no_role | some r ↦ r ]

-- The lists that no role claimed, in board order.
unfoldable pub unclaimed : List Str → List BoardList → List BoardList
unclaimed claimed [] = []
unclaimed claimed (l ∷ ls) =
    let rest = unclaimed claimed ls in if contains claimed l.id then rest else l ∷ rest

-- The `Resolved` of a scan without failures.
unfoldable pub resolved_of : Str → Config → List BoardList → Scan → Resolved
unfolding role_at unclaimed
resolved_of board_id c lists s =
    let left = unclaimed s.claimed lists in
    record {
      board_id = board_id;
      plan = role_at s (bytes "plan");
      action = role_at s (bytes "action");
      done = role_at s (bytes "done");
      wait = record {
        plan_review = role_at s (bytes "wait.plan_review");
        action_review = role_at s (bytes "wait.action_review");
        generic = role_at s (bytes "wait.generic");
        exception = role_at s (bytes "wait.exception");
      };
      agent_comment_prefixes = c.agent_comment_prefixes;
      plan_list_ids = (role_at s (bytes "plan")).id ∷ [];
      action_list_ids = (role_at s (bytes "action")).id ∷ [];
      wait_list_ids =
          ((role_at s (bytes "wait.plan_review")).id
            ∷ (role_at s (bytes "wait.action_review")).id
            ∷ (role_at s (bytes "wait.generic")).id
            ∷ (role_at s (bytes "wait.exception")).id
            ∷ [])
          ++ map (λ l. l.id) left;
      done_list_ids = (role_at s (bytes "done")).id ∷ [];
      unclaimed_list_names = map (λ l. l.name) left;
    }

-- The error if a role is missing or ambiguous.
pub finish : Str → Config → List BoardList → Scan → List Str → List Str → ResolveResult
unfolding resolved_of sort_strings
finish board_id c lists s [] [] = resolved (resolved_of board_id c lists s)
finish board_id c lists s missing ambiguous = failed (record {
  board_id = board_id;
  missing_roles = sort_strings missing;
  ambiguous_roles = sort_strings ambiguous;
  ambiguous_detail = s.detail;
})

module _ (to_lower : Str → Str) where
  -- `byName[key] = append(byName[key], l)` for every list
  pub index_lists : List (Str × List BoardList) → List BoardList → List (Str × List BoardList)
  unfolding found normalise_name
  index_lists by_name [] = by_name
  index_lists by_name (l ∷ ls) =
      let key : Str = normalise_name to_lower l.name in
      index_lists (insert key (found (lookup key by_name) ++ l ∷ []) by_name) ls

  pub scan_roles : List (Str × List BoardList) → List (Str × Str) → Scan → Scan
  unfolding found scan_role normalise_name
  scan_roles by_name [] s = s
  scan_roles by_name ((key, name) ∷ specs) s =
      scan_roles by_name specs
        (scan_role key name (found (lookup (normalise_name to_lower name) by_name)) s)

  unfoldable pub resolve : Str → Config → List BoardList → ResolveResult
  unfolding index_lists scan_roles finish validate
  resolve board_id c lists = elim (validate to_lower c) [
    | some e ↦ invalid e
    | none ↦
        let s = scan_roles (index_lists [] lists) (role_names c) empty_scan in
        finish board_id c lists s s.missing s.ambiguous
  ]
