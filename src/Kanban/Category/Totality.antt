-- ===== src/Kanban/Category/Totality.antt =====
-- The categories of the board's lists after `Resolve` (internal/app/kanban/kanban.go).
use trello_openclaw_webhook.Prelude.{
  ◌≡◌, ◌≢◌, ◌∙◌, refl, sym, ap, true, false, ◌||◌, some, List, [], ◌∷◌, ◌++◌, map, arith, Str,
  bytes, ◌==◌, eq_iff, eq_false, eq_refl, contains, Bool-cases, inl, inr,
}
use mathlib.Core.List.{Memᴰ}
use mathlib.Core.Path.{subst}
use trello_openclaw_webhook.Kanban.Config.{Config}
use trello_openclaw_webhook.Kanban.Resolve.{
  Role, Resolved, BoardList, resolved, role_at, resolved_of, resolve, unclaimed,
}
use trello_openclaw_webhook.Kanban.Resolve.Roles.{resolve-Clean, Clean-Given, board_scan}
use trello_openclaw_webhook.Kanban.Category.{plan, action, wait, done, category_for_list_id}

contains-append :
    (xs ys : List Str) (x : Str) → contains (xs ++ ys) x ≡ (contains xs x || contains ys x)
unfolding contains
contains-append [] ys x = refl
contains-append (y ∷ xs) ys x = ground (arith, contains-append xs ys x)

-- A list that no role claimed is among the unclaimed.
contains-unclaimed :
    (claimed : List Str) (ls : List BoardList) (l : BoardList)
    → Memᴰ l ls
    → contains claimed l.id ≡ false
    → contains (map (λ b. b.id) (unclaimed claimed ls)) l.id ≡ true
unfolding unclaimed contains
contains-unclaimed claimed [] l i h = elim i [ ]
contains-unclaimed claimed (m ∷ ls) l (Memᴰ.head e) h =
    ground (arith, e, eq_refl l.id, ap (λ (b : BoardList). b.id) e)
contains-unclaimed claimed (m ∷ ls) l (Memᴰ.tail i) h =
    ground (arith, contains-unclaimed claimed ls l i h)

-- What is claimed by one of the seven roles, or is among the rest, stands in one of the sets.
cover :
    (p a d w1 w2 w3 w4 id : Str) (claimed rest : List Str)
    → claimed ≡ d ∷ w4 ∷ w3 ∷ w2 ∷ w1 ∷ a ∷ p ∷ []
    → (contains claimed id ≡ false → contains rest id ≡ true)
    → (contains (p ∷ []) id
        || (contains (a ∷ []) id
            || (contains (d ∷ []) id || contains ((w1 ∷ w2 ∷ w3 ∷ w4 ∷ []) ++ rest) id)))
      ≡ true
unfolding contains
cover p a d w1 w2 w3 w4 id claimed rest e h = elim (Bool-cases (contains claimed id)) [
  | inl k ↦ ground arith
  | inr k ↦ ground (arith, h k)
]

-- A list has the category of the role with its id, and else counts as a wait list.
pub record IsCategorised (r : Resolved) (id : Str) : Type 0 where
  pub plans : id ≡ r.plan.id → category_for_list_id (some r) id ≡ plan
  pub acts : id ≢ r.plan.id → id ≡ r.action.id → category_for_list_id (some r) id ≡ action
  pub ends :
      id ≢ r.plan.id → id ≢ r.action.id → id ≡ r.done.id → category_for_list_id (some r) id ≡ done
  pub waits :
      id ≢ r.plan.id → id ≢ r.action.id → id ≢ r.done.id → category_for_list_id (some r) id ≡ wait

contains-single : (a id : Str) → (a == id) ≡ contains (a ∷ []) id
unfolding contains
contains-single a id = ground arith

-- A list id that stands in one of the four sets, the first three of which have one role each.
categorised :
    (r : Resolved) (id : Str)
    → id ≢ []
    → r.plan_list_ids ≡ r.plan.id ∷ []
    → r.action_list_ids ≡ r.action.id ∷ []
    → r.done_list_ids ≡ r.done.id ∷ []
    → (contains r.plan_list_ids id
        || (contains r.action_list_ids id
            || (contains r.done_list_ids id || contains r.wait_list_ids id)))
      ≡ true
    → IsCategorised r id
unfolding category_for_list_id
categorised r id h p a d k =
    let of_plan : contains r.plan_list_ids id ≡ (r.plan.id == id) =
      ap (λ ids. contains ids id) p ∙ sym (contains-single r.plan.id id) in
    let of_action : contains r.action_list_ids id ≡ (r.action.id == id) =
      ap (λ ids. contains ids id) a ∙ sym (contains-single r.action.id id) in
    let of_done : contains r.done_list_ids id ≡ (r.done.id == id) =
      ap (λ ids. contains ids id) d ∙ sym (contains-single r.done.id id) in
    let is_plan = eq_iff r.plan.id id in
    let is_action = eq_iff r.action.id id in
    let is_done = eq_iff r.done.id id in
    let named = eq_false id [] h in
    record {
      plans = λ e. ground (arith, is_plan.1 (sym e));
      acts = λ x e. ground (arith, eq_false r.plan.id id (λ y. x (sym y)), is_action.1 (sym e));
      ends = λ x y e. ground (
        arith,
        eq_false r.plan.id id (λ z. x (sym z)),
        eq_false r.action.id id (λ z. y (sym z)),
        is_done.1 (sym e),
      );
      waits = λ x y z. ground (
        arith,
        eq_false r.plan.id id (λ u. x (sym u)),
        eq_false r.action.id id (λ u. y (sym u)),
        eq_false r.done.id id (λ u. z (sym u)),
      );
    }

module _ (to_lower : Str → Str) (b : Str) (c : Config) (ls : List BoardList) where
  -- Once the board is resolved, every list on it that has an id has a category: the plan, action
  -- and done roles' lists have theirs, and every other list of the board, whether it is a wait
  -- role's or no role claims it, counts as a wait list.
  pub resolve-category :
      (r : Resolved) (l : BoardList)
      → resolve to_lower b c ls ≡ resolved r
      → Memᴰ l ls
      → l.id ≢ []
      → IsCategorised r l.id
  unfolding resolved_of
  resolve-category r l h listed named =
      let (clean, same) = resolve-Clean to_lower b c ls r h in
      let s = board_scan to_lower b c ls in
      let g = Clean-Given to_lower b c ls (board_scan to_lower b c ls) clean in
      let claimed : s.claimed
          ≡ (role_at s (bytes "done")).id
            ∷ (role_at s (bytes "wait.exception")).id
            ∷ (role_at s (bytes "wait.generic")).id
            ∷ (role_at s (bytes "wait.action_review")).id
            ∷ (role_at s (bytes "wait.plan_review")).id
            ∷ (role_at s (bytes "action")).id
            ∷ (role_at s (bytes "plan")).id
            ∷ [] =
        cc (
          clean.claimed,
          ap (λ (x : Role). x.id) g.plan,
          ap (λ (x : Role). x.id) g.action,
          ap (λ (x : Role). x.id) g.plan_review,
          ap (λ (x : Role). x.id) g.action_review,
          ap (λ (x : Role). x.id) g.generic,
          ap (λ (x : Role). x.id) g.exception,
          ap (λ (x : Role). x.id) g.done,
        ) in
      subst (λ x. IsCategorised x l.id) same
        (categorised (resolved_of b c ls s) l.id named refl refl refl (
          cover (role_at s (bytes "plan")).id (role_at s (bytes "action")).id
            (role_at s (bytes "done")).id (role_at s (bytes "wait.plan_review")).id
            (role_at s (bytes "wait.action_review")).id (role_at s (bytes "wait.generic")).id
            (role_at s (bytes "wait.exception")).id l.id s.claimed
            (map (λ b. b.id) (unclaimed s.claimed ls)) claimed
            (λ k. contains-unclaimed s.claimed ls l listed k)))
