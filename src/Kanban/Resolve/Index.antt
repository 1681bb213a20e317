-- ===== src/Kanban/Resolve/Index.antt =====
-- The name index of `Resolve` (internal/app/kanban/kanban.go) against a plain search of the board.
use trello_openclaw_webhook.Prelude.{
  ◌≡◌, refl, sym, ap, ◌∙◌, List, [], ◌∷◌, ◌++◌, Str, ◌==◌, eq_iff, if◌then◌else◌, lookup, insert,
  lookup-insert, append_assoc, append-nil, Bool-cases, inl, inr,
}
use trello_openclaw_webhook.Kanban.Config.{normalise_name}
use trello_openclaw_webhook.Kanban.Resolve.{BoardList, found, index_lists}

module _ (to_lower : Str → Str) where
  -- The lists of the board with the normalised name `key`, in board order.
  pub matching : Str → List BoardList → List BoardList
  matching key [] = []
  matching key (l ∷ ls) =
      let rest = matching key ls in if normalise_name to_lower l.name == key then l ∷ rest else rest

  found-index_lists :
      (key : Str) (by_name : List (Str × List BoardList)) (ls : List BoardList)
      → found (lookup key (index_lists to_lower by_name ls))
        ≡ found (lookup key by_name) ++ matching key ls
  unfolding index_lists matching found
  found-index_lists key by_name [] = sym (append-nil _)
  found-index_lists key by_name (l ∷ ls) =
      let name : Str = normalise_name to_lower l.name in
      let grown : List BoardList = found (lookup name by_name) ++ l ∷ [] in
      found-index_lists key (insert name grown by_name) ls ∙ elim (Bool-cases (name == key)) [
        | inl e ↦
            rw (lookup-insert name key grown by_name, e)
              (append_assoc (found (lookup name by_name)) (l ∷ []) (matching key ls)
                ∙ ap (λ k. found (lookup k by_name) ++ l ∷ matching key ls) ((eq_iff name key).0 e))
        | inr e ↦ rw (lookup-insert name key grown by_name, e) refl
      ]

  -- Under each key the finished index holds the lists of that normalised name, in board order.
  pub found_lists :
      (key : Str) (ls : List BoardList)
      → found (lookup key (index_lists to_lower [] ls)) ≡ matching key ls
  unfolding lookup found
  found_lists key ls = found-index_lists key [] ls
