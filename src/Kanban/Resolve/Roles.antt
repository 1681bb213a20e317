-- ===== src/Kanban/Resolve/Roles.antt =====
-- Which list each role gets from `Resolve` (internal/app/kanban/kanban.go).
use trello_openclaw_webhook.Prelude.{
  ◌≡◌, ◌≢◌, refl, sym, ap, ◌∙◌, List, [], ◌∷◌, ◌++◌, arith, Str, bytes, ◌==◌, trim_space, lookup,
  append_assoc, append-nil, All, Option-cases, inl, inr,
}
use mathlib.Core.Path.{subst}
use trello_openclaw_webhook.Kanban.Config.{Config, role_names, normalise_name, validate}
use trello_openclaw_webhook.Kanban.Resolve.{
  Role, Resolved, BoardList, resolved, found, Scan, empty_scan, scan_role, role_at, finish,
  resolved_of, index_lists, scan_roles, resolve,
}
use trello_openclaw_webhook.Kanban.Resolve.Index.{matching, found_lists}

abbrev pub head_id : List BoardList → Str
head_id [] = []
head_id (l ∷ ls) = l.id

module _ (to_lower : Str → Str) (idx : List (Str × List BoardList)) where
  abbrev pub hits : Str → List BoardList
  hits name = found (lookup (normalise_name to_lower name) idx)

  -- What a scan with no failure assigns and claims.
  abbrev pub assigned : List (Str × Str) → List (Str × Role)
  assigned [] = []
  assigned ((key, name) ∷ specs) =
      (key, record { name = trim_space name; id = head_id (hits name) }) ∷ assigned specs

  abbrev pub claims : List Str → List (Str × Str) → List Str
  claims claimed [] = claimed
  claims claimed ((key, name) ∷ specs) = claims (head_id (hits name) ∷ claimed) specs

  abbrev pub Single : Str × Str → Type 0
  Single spec = (l : BoardList) × (hits spec.1 ≡ l ∷ [])

  pub record Clean (specs : List (Str × Str)) (s t : Scan) : Type 0 where
    pub no_missing : s.missing ≡ []
    pub no_ambiguous : s.ambiguous ≡ []
    pub single : All Single specs
    pub roles : t.roles ≡ s.roles ++ assigned specs
    pub claimed : t.claimed ≡ claims s.claimed specs

  snoc-ne-nil : (xs : List Str) (x : Str) → xs ++ x ∷ [] ≢ []
  snoc-ne-nil [] x = cc
  snoc-ne-nil (y ∷ xs) x = cc

  module _ (key name : Str) (specs : List (Str × Str)) (s t : Scan) where
    Clean-one :
        (ls : List BoardList)
        → hits name ≡ ls
        → Clean specs (scan_role key name ls s) t
        → Clean ((key, name) ∷ specs) s t
    unfolding scan_role
    Clean-one [] e c = absurd (snoc-ne-nil s.missing key c.no_missing)
    Clean-one (l ∷ m ∷ ls) e c = absurd (snoc-ne-nil s.ambiguous key c.no_ambiguous)
    Clean-one (l ∷ []) e c =
        let id : l.id ≡ head_id (hits name) = sym (ap head_id e) in
        record {
          no_missing = c.no_missing;
          no_ambiguous = c.no_ambiguous;
          single = ((l, e), c.single);
          roles =
              c.roles
              ∙ append_assoc s.roles _ (assigned specs)
              ∙ ap
                  (λ i.
                    s.roles ++ (key, record { name = trim_space name; id = i }) ∷ assigned specs)
                  id;
          claimed = c.claimed ∙ ap (λ i. claims (i ∷ s.claimed) specs) id;
        }

  pub scan_roles-Clean :
      (specs : List (Str × Str)) (s : Scan)
      → (scan_roles to_lower idx specs s).missing ≡ []
      → (scan_roles to_lower idx specs s).ambiguous ≡ []
      → Clean specs s (scan_roles to_lower idx specs s)
  unfolding scan_roles
  scan_roles-Clean [] s m a = record {
    no_missing = m;
    no_ambiguous = a;
    single = tt;
    roles = sym (append-nil s.roles);
    claimed = refl;
  }
  scan_roles-Clean ((key, name) ∷ specs) s m a =
      Clean-one key name specs s _ (hits name) refl
        (scan_roles-Clean specs (scan_role key name (hits name) s) m a)

-- `finish` succeeds only after a scan with no failure.
finish-resolved :
    (b : Str) (c : Config) (ls : List BoardList) (s : Scan) (m a : List Str) (r : Resolved)
    → finish b c ls s m a ≡ resolved r
    → (m ≡ []) × (a ≡ []) × (resolved_of b c ls s ≡ r)
unfolding finish
finish-resolved b c ls s [] [] r h = (refl, refl, ground arith)
finish-resolved b c ls s [] (x ∷ a) r h = cc
finish-resolved b c ls s (x ∷ m) a r h = cc

module _ (to_lower : Str → Str) where
  -- The role has the trimmed name and the id of the only list with that normalised name.
  abbrev pub IsMatched : List BoardList → Str → Role → Type 0
  IsMatched ls name role =
      (l : BoardList) × (matching to_lower (normalise_name to_lower name) ls ≡ l ∷ [])
      × (role ≡ record { name = trim_space name; id = l.id })

  matched :
      (ls : List BoardList) (name : Str)
      → Single to_lower (index_lists to_lower [] ls) (bytes "", name)
      → IsMatched ls name (record {
        name = trim_space name;
        id = head_id (hits to_lower (index_lists to_lower [] ls) name);
      })
  matched ls name (l, e) = (
    l,
    sym (found_lists to_lower (normalise_name to_lower name) ls) ∙ e,
    ap (λ h. record { name = trim_space name; id = head_id h }) e,
  )

module _ (to_lower : Str → Str) (b : Str) (c : Config) (ls : List BoardList) where
  abbrev pub lists_index : List (Str × List BoardList)
  lists_index = index_lists to_lower [] ls

  abbrev pub board_scan : Scan
  board_scan = scan_roles to_lower lists_index (role_names c) empty_scan

  pub resolve-Clean :
      (r : Resolved)
      → resolve to_lower b c ls ≡ resolved r
      → Clean to_lower lists_index (role_names c) empty_scan board_scan
        × (resolved_of b c ls board_scan ≡ r)
  unfolding resolve
  resolve-Clean r h = elim (Option-cases (validate to_lower c)) [
    | inr (e, bad) ↦ absurd (ground arith)
    | inl good ↦
        let done : finish b c ls board_scan board_scan.missing board_scan.ambiguous ≡ resolved r =
          ground arith in
        let (m, a, same) = finish-resolved b c ls board_scan _ _ r done in
        (scan_roles-Clean to_lower lists_index (role_names c) empty_scan m a, same)
  ]

  abbrev given : Str → Role
  given name = record { name = trim_space name; id = head_id (hits to_lower lists_index name) }

  -- After a clean scan each role stands under its key.
  role_at-assigned :
      (key : Str) (s : Scan)
      → s.roles ≡ assigned to_lower lists_index (role_names c)
      → role_at s key
        ≡ role_at (record empty_scan { roles = assigned to_lower lists_index (role_names c) }) key
  unfolding role_at
  role_at-assigned key s h = rw h

  pub record Given (s : Scan) : Type 0 where
    pub plan : role_at s (bytes "plan") ≡ given c.plan
    pub action : role_at s (bytes "action") ≡ given c.action
    pub plan_review : role_at s (bytes "wait.plan_review") ≡ given c.wait.plan_review
    pub action_review : role_at s (bytes "wait.action_review") ≡ given c.wait.action_review
    pub generic : role_at s (bytes "wait.generic") ≡ given c.wait.generic
    pub exception : role_at s (bytes "wait.exception") ≡ given c.wait.exception
    pub done : role_at s (bytes "done") ≡ given c.done

  pub Clean-Given : (s : Scan) → Clean to_lower lists_index (role_names c) empty_scan s → Given s
  unfolding role_at lookup ◌==◌
  Clean-Given s h = record {
    plan = role_at-assigned (bytes "plan") s h.roles;
    action = role_at-assigned (bytes "action") s h.roles;
    plan_review = role_at-assigned (bytes "wait.plan_review") s h.roles;
    action_review = role_at-assigned (bytes "wait.action_review") s h.roles;
    generic = role_at-assigned (bytes "wait.generic") s h.roles;
    exception = role_at-assigned (bytes "wait.exception") s h.roles;
    done = role_at-assigned (bytes "done") s h.roles;
  }

  as_matched :
      (name : Str) {role : Role}
      → Single to_lower lists_index (bytes "", name)
      → given name ≡ role
      → IsMatched to_lower ls name role
  as_matched name one e = subst (IsMatched to_lower ls name) e (matched to_lower ls name one)

  -- A successful resolution gives each of the seven roles its trimmed name and the id of the one
  -- list of the board whose normalised name is the role's.
  pub resolve-IsMatched :
      (r : Resolved)
      → resolve to_lower b c ls ≡ resolved r
      → IsMatched to_lower ls c.plan r.plan
        × IsMatched to_lower ls c.action r.action
        × IsMatched to_lower ls c.wait.plan_review r.wait.plan_review
        × IsMatched to_lower ls c.wait.action_review r.wait.action_review
        × IsMatched to_lower ls c.wait.generic r.wait.generic
        × IsMatched to_lower ls c.wait.exception r.wait.exception
        × IsMatched to_lower ls c.done r.done
  unfolding resolved_of
  resolve-IsMatched r h =
      let (clean, same) = resolve-Clean r h in
      let g = Clean-Given board_scan clean in
      let one = clean.single in
      (
        as_matched c.plan one.0 (sym g.plan ∙ ap (λ (x : Resolved). x.plan) same),
        as_matched c.action one.1.0 (sym g.action ∙ ap (λ (x : Resolved). x.action) same),
        as_matched c.wait.plan_review one.1.1.0
            (sym g.plan_review ∙ ap (λ (x : Resolved). x.wait.plan_review) same),
        as_matched c.wait.action_review one.1.1.1.0
            (sym g.action_review ∙ ap (λ (x : Resolved). x.wait.action_review) same),
        as_matched c.wait.generic one.1.1.1.1.0
            (sym g.generic ∙ ap (λ (x : Resolved). x.wait.generic) same),
        as_matched c.wait.exception one.1.1.1.1.1.0
            (sym g.exception ∙ ap (λ (x : Resolved). x.wait.exception) same),
        as_matched c.done one.1.1.1.1.1.1.0 (sym g.done ∙ ap (λ (x : Resolved). x.done) same),
      )
