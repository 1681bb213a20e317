-- ===== src/LocalBoard/Store.antt =====
-- internal/app/localboard/store.go: the operations of `Store`. Ids (`newID`) and the time are
-- arguments; `Formats` holds what time.Format, time.Parse and strings.ToLower give.
pub mod KnownLists
pub mod Created
pub mod Comments
use trello_openclaw_webhook.Prelude.{
  ℕ, suc, Option, none, some, List, [], ◌∷◌, Str, bytes, ◌==◌, if◌then◌else◌, nat_eq, map,
  trim_space, ◌⊎◌, inl, inr,
}
use trello_openclaw_webhook.LocalBoard.{
  Card, Comment, ListRef, Column, column_by_id, columns, default_board_id, human_name, agent_name,
  first_non_empty_line,
}
use trello_openclaw_webhook.LocalBoard.Sql.{Sql, CardRow, CommentRow}

pub data StoreError : Type 0 where
  empty_desc empty_card_id empty_board_id empty_comment insert_failed select_failed : StoreError
  update_failed bad_time no_comments webhooks_unsupported : StoreError
  unknown_list card_not_found : Str → StoreError

abbrev pub Result : Type 0 → Type 0
Result A = StoreError ⊎ A

pub record Formats : Type 0 where
  pub format_time : ℕ → Str
  pub parse_time : Str → Option ℕ
  pub to_lower : Str → Str

pub record CreateCardInput : Type 0 where
  pub name : Str
  pub desc : Str
  pub list_id : Str

-- `strings.ReplaceAll(by, " ", "-")`
abbrev pub dashed : Str → Str
dashed [] = []
dashed (b ∷ by) = (if nat_eq b b' ' then b'-' else b) ∷ dashed by

module _ (w : Formats) (sql : Sql) where
  -- `signals` counts the calls of the callback that `SetNotify` sets.
  pub record Store : Type 0 where
    pub db : sql.Db
    pub signals : ℕ

  abbrev pub signal_change : sql.Db → ℕ → Store
  signal_change db signals = record { db = db; signals = suc signals }

  abbrev pub card_of : CardRow → Card
  card_of row = record {
    id = row.id;
    name = row.name;
    desc = row.desc;
    first_line = first_non_empty_line row.desc;
    id_list = row.id_list;
    id_board = row.id_board;
  }

  abbrev pub card_found : Str → Option (Option CardRow) → Result Card
  card_found card_id none = inl select_failed
  card_found card_id (some none) = inl (card_not_found card_id)
  card_found card_id (some (some row)) = inr (card_of row)

  unfoldable pub get_card : Str → sql.Db → Result Card
  get_card card_id db =
      if trim_space card_id == []
      then inl empty_card_id
      else card_found card_id (sql.select_card card_id db)

  abbrev pub after_insert : (id : Str) → Store → Option sql.Db → Store × Result Card
  after_insert id s none = (s, inl insert_failed)
  after_insert id s (some after) = (signal_change after s.signals, get_card id after)

  abbrev pub row_of : (id : Str) (now : ℕ) (name desc list_id : Str) → CardRow
  row_of id now name desc list_id = record {
    id = id;
    name = if name == [] then first_non_empty_line desc else name;
    desc = desc;
    id_list = list_id;
    id_board = default_board_id;
    created_at = w.format_time now;
    updated_at = w.format_time now;
  }

  -- With the list id that holds once an empty one is replaced.
  abbrev pub create_in :
      (id : Str) (now : ℕ) (name desc list_id : Str) → Store → Option Column → Store × Result Card
  create_in id now name desc list_id s none = (s, inl (unknown_list list_id))
  create_in id now name desc list_id s (some column) =
      after_insert id s (sql.insert_card (row_of id now name desc list_id) s.db)

  abbrev pub list_or_plan : Str → Str
  list_or_plan list_id = if list_id == [] then bytes "plan" else list_id

  unfoldable pub create_card : (id : Str) (now : ℕ) → CreateCardInput → Store → Store × Result Card
  unfolding get_card
  create_card id now in_ s =
      if trim_space in_.desc == []
      then (s, inl empty_desc)
      else create_in id now (trim_space in_.name) (trim_space in_.desc)
          (list_or_plan (trim_space in_.list_id)) s
          (column_by_id (list_or_plan (trim_space in_.list_id)))

  abbrev pub list_found : Option Column → Str → Result ListRef
  list_found none id_list = inl (unknown_list id_list)
  list_found (some column) id_list = inr (record { id = column.id; name = column.name })

  abbrev pub list_of_card : Result Card → Result ListRef
  list_of_card (inl err) = inl err
  list_of_card (inr card) = list_found (column_by_id card.id_list) card.id_list

  unfoldable pub get_card_list : Str → sql.Db → Result ListRef
  unfolding get_card
  get_card_list card_id db = list_of_card (get_card card_id db)

  unfoldable pub list_board_lists : (board_id : Str) → Result (List ListRef)
  list_board_lists board_id =
      if trim_space board_id == []
      then inl empty_board_id
      else inr (map (λ (c : Column). record { id = c.id; name = c.name }) columns)

  abbrev pub list_changed : Str → Store → Option (ℕ × sql.Db) → Store × Result Unit
  list_changed card_id s none = (s, inl update_failed)
  list_changed card_id s (some (rows, after)) =
      if nat_eq rows 0
      then (record { db = after; signals = s.signals }, inl (card_not_found card_id))
      else (signal_change after s.signals, inr tt)

  abbrev pub move_to :
      (now : ℕ) (card_id target : Str) → Store → Option Column → Store × Result Unit
  move_to now card_id target s none = (s, inl (unknown_list target))
  move_to now card_id target s (some column) =
      list_changed card_id s (sql.update_card_list target (w.format_time now) card_id s.db)

  unfoldable pub move_card : (now : ℕ) (card_id target : Str) → Store → Store × Result Unit
  move_card now card_id target s =
      if trim_space card_id == []
      then (s, inl empty_card_id)
      else move_to now card_id target s (column_by_id target)

  abbrev pub comment_of : (id text by : Str) (now : ℕ) → Comment
  comment_of id text by now = record {
    id = id;
    text = text;
    by = by;
    by_id = w.to_lower (dashed by);
    at = now;
    username = [];
  }

  abbrev pub comment_inserted : Comment → Store → Option sql.Db → Store × Result Comment
  comment_inserted comment s none = (s, inl insert_failed)
  comment_inserted comment s (some after) = (signal_change after s.signals, inr comment)

  abbrev pub comment_row : (card_id : Str) → Comment → CommentRow
  comment_row card_id comment = record {
    id = comment.id;
    card_id = card_id;
    text = comment.text;
    author = comment.by;
    at = w.format_time comment.at;
  }

  abbrev pub comment_on : (card_id : Str) → Comment → Store → Result Card → Store × Result Comment
  comment_on card_id comment s (inl err) = (s, inl err)
  comment_on card_id comment s (inr card) =
      comment_inserted comment s (sql.insert_comment (comment_row card_id comment) s.db)

  unfoldable pub add_comment_by :
      (id : Str) (now : ℕ) (card_id body by : Str) → Store → Store × Result Comment
  unfolding get_card
  add_comment_by id now card_id body by s =
      if trim_space card_id == []
      then (s, inl empty_card_id)
      else if trim_space body == []
      then (s, inl empty_comment)
      else comment_on card_id (comment_of id (trim_space body) by now) s (get_card card_id s.db)

  unfoldable pub add_human_comment :
      (id : Str) (now : ℕ) (card_id body : Str) → Store → Store × Result Comment
  unfolding add_comment_by
  add_human_comment id now card_id body s = add_comment_by id now card_id body human_name s

  unfoldable pub add_comment :
      (id : Str) (now : ℕ) (card_id body : Str) → Store → Store × Result Comment
  unfolding add_comment_by
  add_comment id now card_id body s = add_comment_by id now card_id body agent_name s
