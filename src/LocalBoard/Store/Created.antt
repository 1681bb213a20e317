-- ===== src/LocalBoard/Store/Created.antt =====
-- Creating a card in the store and reading it back.
use mathlib.Core.Option.{some-injective}
use trello_openclaw_webhook.Prelude.{
  ℕ, suc, ◌≡◌, ◌≢◌, refl, sym, ap, ◌∙◌, Bool, true, false, Option, none, some, List, [], ◌∷◌, ◌++◌,
  All, Str, bytes, ◌==◌, ◌⊎◌, inl, inr, if◌then◌else◌, trim_space, arith, Bool-cases, eq_iff,
  eq_false,
}
use trello_openclaw_webhook.LocalBoard.{
  Card, Column, column_by_id, replace_crlf, split_lines, first_non_blank, first_non_empty_line,
}
use trello_openclaw_webhook.LocalBoard.Sql.{Sql, SqlLaws, CardRow}
use trello_openclaw_webhook.LocalBoard.Store.{
  Formats, Store, CreateCardInput, create_card, create_in, after_insert, row_of, get_card,
  card_found, card_of, list_or_plan,
}

-- The first line of a text that is not blank, trimmed, and no text where every line is blank.
abbrev pub IsFirstLine : (text line : Str) → Type 0
IsFirstLine text line =
    ((before : List Str) × (found : Str) × (after : List Str) × (split_lines (replace_crlf text)
        ≡ before ++ (found ∷ after))
      × All (λ l. trim_space l ≡ []) before
      × (trim_space found ≢ [])
      × (line ≡ trim_space found))
    ⊎ (All (λ l. trim_space l ≡ []) (split_lines (replace_crlf text)) × (line ≡ []))

first_non_blank-first :
    (lines : List Str)
    → ((before : List Str) × (found : Str) × (after : List Str) × (lines
          ≡ before ++ (found ∷ after))
        × All (λ l. trim_space l ≡ []) before
        × (trim_space found ≢ [])
        × (first_non_blank lines ≡ trim_space found))
      ⊎ (All (λ l. trim_space l ≡ []) lines × (first_non_blank lines ≡ []))
unfolding first_non_blank
first_non_blank-first [] = inr (tt, refl)
first_non_blank-first (line ∷ lines) = elim (Bool-cases (trim_space line == [])) [
  | inl blank ↦
      let no_text : trim_space line ≡ [] = (eq_iff (trim_space line) []).0 blank in
      rw blank (elim (first_non_blank-first lines) [
        | inl (before, found, after, at, none_before, text, is) ↦
            inl (line ∷ before, found, after, ap (◌∷◌ line) at, (no_text, none_before), text, is)
        | inr (all, is) ↦ inr ((no_text, all), is)
      ])
  | inr text ↦ rw text (
      inl (
        [],
        line,
        lines,
        refl,
        tt,
        λ e. absurd (ground (arith, eq_iff (trim_space line) [])),
        refl,
      ))
]

first_non_empty_line-IsFirstLine : (text : Str) → IsFirstLine text (first_non_empty_line text)
unfolding first_non_empty_line
first_non_empty_line-IsFirstLine text = first_non_blank-first (split_lines (replace_crlf text))

IsFirstLine-of :
    (desc text line : Str) → text ≡ desc → line ≡ first_non_empty_line desc → IsFirstLine text line
IsFirstLine-of desc text line same e = rw (same, e) (first_non_empty_line-IsFirstLine desc)

if_so : (b : Bool) (x y : Str) → b ≡ true → (if b then x else y) ≡ x
if_so b x y e = ground (arith, e)

if_not : (b : Bool) (x y : Str) → b ≡ false → (if b then x else y) ≡ y
if_not b x y e = ground (arith, e)

module _ (w : Formats) (sql : Sql) (laws : SqlLaws sql) where
  read_row :
      (id : Str) (row : CardRow) (after : sql.Db) (result : Option (Option CardRow)) (card : Card)
      → sql.select_card id after ≡ result
      → laws.card_at after id ≡ some row
      → card_found w sql id result ≡ inr card
      → card ≡ card_of w sql row
  read_row id row after none card done at h = absurd (ground arith)
  read_row id row after (some none) card done at h = absurd (ground arith)
  read_row id row after (some (some found)) card done at h =
      let same : some found ≡ some row = laws.select_card-rows id after (some found) done ∙ at in
      ground (arith, some-injective _ _ same)

  after_insert-card :
      (id : Str) (row : CardRow) (s : Store w sql) (result : Option sql.Db) (card : Card)
      → sql.insert_card row s.db ≡ result
      → row.id ≡ id
      → (after_insert w sql id s result).1 ≡ inr card
      → (card ≡ card_of w sql row)
        × (laws.card_at (after_insert w sql id s result).0.db id ≡ some row)
        × ((after_insert w sql id s result).0.signals ≡ suc s.signals)
  unfolding get_card
  after_insert-card id row s none card done key h = absurd (ground arith)
  after_insert-card id row s (some after) card done key h =
      let stored : laws.card_at after id ≡ some row =
        laws.insert_card-rows row s.db after id done
        ∙ ap (λ t. if t then some row else laws.card_at s.db id) ((eq_iff row.id id).1 key) in
      elim (Bool-cases (trim_space id == [])) [
        | inl blank ↦ absurd (ground arith)
        | inr given ↦ (
          read_row id row after (sql.select_card id after) card refl stored (ground arith),
          stored,
          refl,
        )
      ]

  -- The outcome of creating a card with a row's contents.
  abbrev pub IsStored : (id : Str) (row : CardRow) → Store w sql → Card → Store w sql → Type 0
  IsStored id row before card after =
      (card ≡ card_of w sql row)
      × ((column : Column) × (column_by_id card.id_list ≡ some column))
      × (laws.card_at after.db id ≡ some row)
      × (after.signals ≡ suc before.signals)

  create_in-IsStored :
      (id : Str) (now : ℕ) (name desc list_id : Str) (s : Store w sql) (column : Option Column)
      (card : Card)
      → column_by_id list_id ≡ column
      → (create_in w sql id now name desc list_id s column).1 ≡ inr card
      → IsStored id
          (row_of w sql id now name desc list_id)
          s
          card
          (create_in w sql id now name desc list_id s column).0
  create_in-IsStored id now name desc list_id s none card listed h = absurd (ground arith)
  create_in-IsStored id now name desc list_id s (some column) card listed h =
      let (same, stored, signalled) =
        after_insert-card id (row_of w sql id now name desc list_id) s
          (sql.insert_card (row_of w sql id now name desc list_id) s.db) card refl refl h in
      (same, (column, ap (λ (c : Card). column_by_id c.id_list) same ∙ listed), stored, signalled)

  create_card-row :
      (id : Str) (now : ℕ) (in_ : CreateCardInput) (s : Store w sql) (card : Card)
      → (create_card w sql id now in_ s).1 ≡ inr card
      → (trim_space in_.desc ≢ [])
        × IsStored id
            (row_of w sql id now
              (trim_space in_.name)
              (trim_space in_.desc)
              (list_or_plan w sql (trim_space in_.list_id)))
            s
            card
            (create_card w sql id now in_ s).0
  unfolding create_card
  create_card-row id now in_ s card h = elim (Bool-cases (trim_space in_.desc == [])) [
    | inl empty ↦ absurd (ground arith)
    | inr given ↦ (
      λ no_desc. absurd (ground (arith, eq_iff (trim_space in_.desc) [])),
      rw given (
          create_in-IsStored id now (trim_space in_.name) (trim_space in_.desc)
            (list_or_plan w sql (trim_space in_.list_id)) s
            (column_by_id (list_or_plan w sql (trim_space in_.list_id))) card refl (ground arith)),
    )
  ]

  -- The row that holds a card, written at a time.
  abbrev pub row_with : (now : ℕ) → Card → CardRow
  row_with now card = record {
    id = card.id;
    name = card.name;
    desc = card.desc;
    id_list = card.id_list;
    id_board = card.id_board;
    created_at = w.format_time now;
    updated_at = w.format_time now;
  }

  -- The card that an input asks for, and the store that holds it.
  pub record IsCreated (id : Str) (now : ℕ) (in_ : CreateCardInput) (before : Store w sql)
      (card : Card) (after : Store w sql) : Type 0 where
    pub described : trim_space in_.desc ≢ []
    pub key : card.id ≡ id
    pub desc : card.desc ≡ trim_space in_.desc
    pub board : card.id_board ≡ bytes "local-board"
    pub line : IsFirstLine card.desc card.first_line
    pub named : trim_space in_.name ≢ [] → card.name ≡ trim_space in_.name
    pub unnamed : trim_space in_.name ≡ [] → IsFirstLine card.desc card.name
    pub listed : trim_space in_.list_id ≢ [] → card.id_list ≡ trim_space in_.list_id
    pub unlisted : trim_space in_.list_id ≡ [] → card.id_list ≡ bytes "plan"
    pub known : (column : Column) × (column_by_id card.id_list ≡ some column)
    pub stored : laws.card_at after.db id ≡ some (row_with now card)
    pub signalled : after.signals ≡ suc before.signals

  -- A card that is created has a description. Its id and board are the given id and the local
  -- board; its description is the input's, trimmed; its name is the input's, trimmed, and where that
  -- is empty the first line of the description that is not blank; its list is the input's, trimmed,
  -- and where that is empty `plan`, and is a column of the board. The card's row is stored under its
  -- id, and one change is signalled.
  pub create_card-IsCreated :
      (id : Str) (now : ℕ) (in_ : CreateCardInput) (s : Store w sql) (card : Card)
      → (create_card w sql id now in_ s).1 ≡ inr card
      → IsCreated id now in_ s card (create_card w sql id now in_ s).0
  create_card-IsCreated id now in_ s card h =
      let (described, (same, known, stored, signalled)) = create_card-row id now in_ s card h in
      let desc : card.desc ≡ trim_space in_.desc = ap (λ (c : Card). c.desc) same in
      let name : card.name ≡ (
          if trim_space in_.name == []
          then first_non_empty_line (trim_space in_.desc)
          else trim_space in_.name) =
        ap (λ (c : Card). c.name) same in
      let list : card.id_list
          ≡ (if trim_space in_.list_id == [] then bytes "plan" else trim_space in_.list_id) =
        ap (λ (c : Card). c.id_list) same in
      record {
        described = described;
        key = ap (λ (c : Card). c.id) same;
        desc = desc;
        board = ap (λ (c : Card). c.id_board) same;
        line =
            IsFirstLine-of (trim_space in_.desc) card.desc card.first_line desc
              (ap (λ (c : Card). c.first_line) same);
        named = λ given. name ∙ if_not _ _ _ (eq_false (trim_space in_.name) [] given);
        unnamed = λ empty.
            IsFirstLine-of (trim_space in_.desc) card.desc card.name desc
              (name ∙ if_so _ _ _ ((eq_iff (trim_space in_.name) []).1 empty));
        listed = λ given. list ∙ if_not _ _ _ (eq_false (trim_space in_.list_id) [] given);
        unlisted = λ empty. list ∙ if_so _ _ _ ((eq_iff (trim_space in_.list_id) []).1 empty);
        known = known;
        stored = stored ∙ ap (λ (c : Card). some (row_with now c)) (sym same);
        signalled = signalled;
      }
