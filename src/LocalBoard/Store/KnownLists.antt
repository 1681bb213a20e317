-- ===== src/LocalBoard/Store/KnownLists.antt =====
-- The lists of the cards in the store, over any run of its operations.
use mathlib.Core.Option.{some-injective, some-ne-none}
use trello_openclaw_webhook.Prelude.{
  ℕ, ◌≡◌, ◌≢◌, refl, sym, ap, ◌∙◌, Option, none, some, List, [], ◌∷◌, Str, ◌==◌, if◌then◌else◌,
  trim_space, inl, inr, nat_eq, arith, Option-cases, Bool-cases,
}
use trello_openclaw_webhook.LocalBoard.{Column, column_by_id, Card, Comment, human_name, agent_name}
use trello_openclaw_webhook.LocalBoard.Sql.{Sql, SqlLaws, CardRow, with_list, CommentRow}
use trello_openclaw_webhook.LocalBoard.Store.{
  Formats, Store, Result, CreateCardInput, create_card, create_in, after_insert, row_of, get_card,
  card_found, move_card, move_to, list_changed, add_comment_by, comment_on, comment_inserted,
  comment_of, get_card_list, list_of_card, unknown_list, list_or_plan, comment_row, add_comment,
  add_human_comment,
}

-- A call of the store that changes it, with the id and the time that it draws.
pub data Operation : Type 0 where
  create : (id : Str) (now : ℕ) → CreateCardInput → Operation
  move : (now : ℕ) (card_id target : Str) → Operation
  human_comment agent_comment : (id : Str) (now : ℕ) (card_id body : Str) → Operation

pub with_list-list :
    (target updated_at : Str) (before : Option CardRow) (row : CardRow)
    → with_list target updated_at before ≡ some row
    → row.id_list ≡ target
with_list-list target updated_at none row h = absurd (ground arith)
with_list-list target updated_at (some old) row h =
    sym (ap (λ (r : CardRow). r.id_list) (some-injective _ _ h))

module _ (w : Formats) (sql : Sql) (laws : SqlLaws sql) where
  unfoldable pub apply : Operation → Store w sql → Store w sql
  unfolding create_card move_card add_human_comment add_comment
  apply (create id now in_) s = (create_card w sql id now in_ s).0
  apply (move now card_id target) s = (move_card w sql now card_id target s).0
  apply (human_comment id now card_id body) s = (add_human_comment w sql id now card_id body s).0
  apply (agent_comment id now card_id body) s = (add_comment w sql id now card_id body s).0

  unfoldable pub apply_all : List Operation → Store w sql → Store w sql
  unfolding apply
  apply_all [] s = s
  apply_all (op ∷ ops) s = apply_all ops (apply op s)

  abbrev pub IsKnown : sql.Db → Type 0
  IsKnown db =
      (id : Str) (row : CardRow) → laws.card_at db id ≡ some row → column_by_id row.id_list ≢ none

  insert-IsKnown :
      (row : CardRow) (db after : sql.Db)
      → sql.insert_card row db ≡ some after
      → column_by_id row.id_list ≢ none
      → IsKnown db
      → IsKnown after
  insert-IsKnown row db after done fine known id found at =
      let rows : laws.card_at after id ≡ (if row.id == id then some row else laws.card_at db id) =
        laws.insert_card-rows row db after id done in
      elim (Bool-cases (row.id == id)) [
        | inl same ↦
            let this : row ≡ found = ground (arith) in
            λ unlisted. fine (ap (λ (r : CardRow). column_by_id r.id_list) this ∙ unlisted)
        | inr other ↦ known id found (ground arith)
      ]

  update_rows-IsKnown :
      (target updated_at key : Str) (db after : sql.Db) (n : ℕ)
      → sql.update_card_list target updated_at key db ≡ some (n, after)
      → column_by_id target ≢ none
      → IsKnown db
      → IsKnown after
  update_rows-IsKnown target updated_at key db after n done fine known id found at =
      let rows : laws.card_at after id ≡ (
          if key == id
          then with_list target updated_at (laws.card_at db id)
          else laws.card_at db id) =
        laws.update_card_list-rows target updated_at key db after n id done in
      elim (Bool-cases (key == id)) [
        | inl same ↦
            let changed_row : with_list target updated_at (laws.card_at db id) ≡ some found =
              ground (arith) in
            λ unlisted. fine (
              ap column_by_id
                (sym (with_list-list target updated_at (laws.card_at db id) found changed_row))
              ∙ unlisted)
        | inr other ↦ known id found (ground (arith))
      ]

  comment-IsKnown :
      (row : CommentRow) (db after : sql.Db)
      → sql.insert_comment row db ≡ some after
      → IsKnown db
      → IsKnown after
  comment-IsKnown row db after done known id found at =
      known id found (sym (laws.insert_comment-rows row db after id done) ∙ at)

  -- Each result of a statement in turn.
  after_insert-IsKnown :
      (row : CardRow) (id : Str) (s : Store w sql) (result : Option sql.Db)
      → sql.insert_card row s.db ≡ result
      → column_by_id row.id_list ≢ none
      → IsKnown s.db
      → IsKnown (after_insert w sql id s result).0.db
  after_insert-IsKnown row id s none done fine known = known
  after_insert-IsKnown row id s (some after) done fine known =
      insert-IsKnown row s.db after done fine known

  create_in-IsKnown :
      (id : Str) (now : ℕ) (name desc list_id : Str) (s : Store w sql) (column : Option Column)
      → column_by_id list_id ≡ column
      → IsKnown s.db
      → IsKnown (create_in w sql id now name desc list_id s column).0.db
  create_in-IsKnown id now name desc list_id s none found known = known
  create_in-IsKnown id now name desc list_id s (some column) found known =
      after_insert-IsKnown (row_of w sql id now name desc list_id) id s
        (sql.insert_card (row_of w sql id now name desc list_id) s.db) refl
        (λ unlisted. some-ne-none _ (sym found ∙ unlisted)) known

  create-IsKnown :
      (id : Str) (now : ℕ) (in_ : CreateCardInput) (s : Store w sql)
      → IsKnown s.db
      → IsKnown (create_card w sql id now in_ s).0.db
  unfolding create_card
  create-IsKnown id now in_ s known = elim (Bool-cases (trim_space in_.desc == [])) [
    | inl empty ↦ rw empty known
    | inr given ↦ rw given (
        create_in-IsKnown id now (trim_space in_.name) (trim_space in_.desc)
          (list_or_plan w sql (trim_space in_.list_id)) s
          (column_by_id (list_or_plan w sql (trim_space in_.list_id))) refl known)
  ]

  list_changed-IsKnown :
      (now : ℕ) (card_id target : Str) (s : Store w sql) (result : Option (ℕ × sql.Db))
      → sql.update_card_list target (w.format_time now) card_id s.db ≡ result
      → column_by_id target ≢ none
      → IsKnown s.db
      → IsKnown (list_changed w sql card_id s result).0.db
  list_changed-IsKnown now card_id target s none done fine known = known
  list_changed-IsKnown now card_id target s (some (rows, after)) done fine known =
      elim (Bool-cases (nat_eq rows 0)) [
        | inl no_row ↦
            rw no_row (
              update_rows-IsKnown target (w.format_time now) card_id s.db after rows done fine
                known)
        | inr row ↦
            rw row (
              update_rows-IsKnown target (w.format_time now) card_id s.db after rows done fine
                known)
      ]

  move_to-IsKnown :
      (now : ℕ) (card_id target : Str) (s : Store w sql) (column : Option Column)
      → column_by_id target ≡ column
      → IsKnown s.db
      → IsKnown (move_to w sql now card_id target s column).0.db
  move_to-IsKnown now card_id target s none found known = known
  move_to-IsKnown now card_id target s (some column) found known =
      list_changed-IsKnown now card_id target s
        (sql.update_card_list target (w.format_time now) card_id s.db) refl
        (λ unlisted. some-ne-none _ (sym found ∙ unlisted)) known

  move-IsKnown :
      (now : ℕ) (card_id target : Str) (s : Store w sql)
      → IsKnown s.db
      → IsKnown (move_card w sql now card_id target s).0.db
  unfolding move_card
  move-IsKnown now card_id target s known = elim (Bool-cases (trim_space card_id == [])) [
    | inl empty ↦ rw empty known
    | inr given ↦ rw given (move_to-IsKnown now card_id target s (column_by_id target) refl known)
  ]

  comment_inserted-IsKnown :
      (card_id : Str) (comment : Comment) (s : Store w sql) (result : Option sql.Db)
      → sql.insert_comment (comment_row w sql card_id comment) s.db ≡ result
      → IsKnown s.db
      → IsKnown (comment_inserted w sql comment s result).0.db
  comment_inserted-IsKnown card_id comment s none done known = known
  comment_inserted-IsKnown card_id comment s (some after) done known =
      comment-IsKnown (comment_row w sql card_id comment) s.db after done known

  comment_on-IsKnown :
      (card_id : Str) (comment : Comment) (s : Store w sql) (card : Result Card)
      → IsKnown s.db
      → IsKnown (comment_on w sql card_id comment s card).0.db
  comment_on-IsKnown card_id comment s (inl err) known = known
  comment_on-IsKnown card_id comment s (inr card) known =
      comment_inserted-IsKnown card_id comment s
        (sql.insert_comment (comment_row w sql card_id comment) s.db) refl known

  add_comment_by-IsKnown :
      (id : Str) (now : ℕ) (card_id body by : Str) (s : Store w sql)
      → IsKnown s.db
      → IsKnown (add_comment_by w sql id now card_id body by s).0.db
  unfolding add_comment_by
  add_comment_by-IsKnown id now card_id body by s known =
      elim (Bool-cases (trim_space card_id == [])) [
        | inl empty ↦ rw empty known
        | inr given ↦ rw given (elim (Bool-cases (trim_space body == [])) [
          | inl blank ↦ rw blank known
          | inr text ↦ rw text (
              comment_on-IsKnown card_id (comment_of w sql id (trim_space body) by now) s
                (card_found w sql card_id (sql.select_card card_id s.db)) known)
        ])
      ]

  apply-IsKnown : (op : Operation) (s : Store w sql) → IsKnown s.db → IsKnown (apply op s).db
  unfolding apply add_human_comment add_comment
  apply-IsKnown (create id now in_) s known = create-IsKnown id now in_ s known
  apply-IsKnown (move now card_id target) s known = move-IsKnown now card_id target s known
  apply-IsKnown (human_comment id now card_id body) s known =
      add_comment_by-IsKnown id now card_id body human_name s known
  apply-IsKnown (agent_comment id now card_id body) s known =
      add_comment_by-IsKnown id now card_id body agent_name s known

  apply_all-IsKnown :
      (ops : List Operation) (s : Store w sql) → IsKnown s.db → IsKnown (apply_all ops s).db
  unfolding apply_all
  apply_all-IsKnown [] s known = known
  apply_all-IsKnown (op ∷ ops) s known =
      apply_all-IsKnown ops (apply op s) (apply-IsKnown op s known)

  -- A query for the list of a card in a database of known lists.
  found-known :
      (card_id : Str) (db : sql.Db) (result : Option (Option CardRow)) (list_id : Str)
      → sql.select_card card_id db ≡ result
      → IsKnown db
      → list_of_card w sql (card_found w sql card_id result) ≢ inl (unknown_list list_id)
  found-known card_id db none list_id done known e = absurd (ground arith)
  found-known card_id db (some none) list_id done known e = absurd (ground arith)
  found-known card_id db (some (some row)) list_id done known e =
      elim (Option-cases (column_by_id row.id_list)) [
        | inl unlisted ↦
            known card_id row (sym (laws.select_card-rows card_id db (some row) done)) unlisted
        | inr (column, listed) ↦ absurd (ground arith)
      ]

  -- After any run of operations on a database without cards, no card of the store is in a list
  -- that the board has no column for: `GetCardList` never reports an unknown list.
  pub get_card_list-apply_all :
      (ops : List Operation) (s : Store w sql) (card_id list_id : Str)
      → ((id : Str) → laws.card_at s.db id ≡ none)
      → get_card_list w sql card_id (apply_all ops s).db ≢ inl (unknown_list list_id)
  unfolding get_card_list get_card
  get_card_list-apply_all ops s card_id list_id empty e =
      let known : IsKnown (apply_all ops s).db =
        apply_all-IsKnown ops s (λ id row at. absurd (some-ne-none _ (sym at ∙ empty id))) in
      elim (Bool-cases (trim_space card_id == [])) [
        | inl blank ↦ absurd (ground arith)
        | inr given ↦
            found-known card_id (apply_all ops s).db (sql.select_card card_id (apply_all ops s).db)
              list_id refl known (ground arith)
      ]
