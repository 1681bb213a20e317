-- ===== src/LocalBoard/Sql.antt =====
-- The SQL statements of internal/app/localboard/store.go, as operations of a database that the
-- repository takes from another package, and what SQL documents about them.
use trello_openclaw_webhook.Prelude.{
  ℕ, ◌≡◌, ◌↔◌, Option, none, some, List, Str, ◌==◌, if◌then◌else◌,
}

-- A row of the table `cards`, and one of `comments`.
pub record CardRow : Type 0 where
  pub id : Str
  pub name : Str
  pub desc : Str
  pub id_list : Str
  pub id_board : Str
  pub created_at : Str
  pub updated_at : Str

pub record CommentRow : Type 0 where
  pub id : Str
  pub card_id : Str
  pub text : Str
  pub author : Str
  pub at : Str

-- What follows the `WHERE card_id = ?` of `queryComments`.
pub data Suffix : Type 0 where
  latest_one all_ascending : Suffix
  since_ascending : Str → Suffix

-- One operation per statement; an outer `none` is an error of the database.
pub record Sql : Type 1 where
  pub Db : Type 0
  pub insert_card : CardRow → Db → Option Db
  pub select_card : Str → Db → Option (Option CardRow)
  pub select_cards : Db → Option (List CardRow)
  pub update_card_list : (id_list updated_at id : Str) → Db → Option (ℕ × Db)
  pub insert_comment : CommentRow → Db → Option Db
  pub select_comments : (card_id : Str) → Suffix → Db → Option (List CommentRow)

abbrev pub with_list : (id_list updated_at : Str) → Option CardRow → Option CardRow
with_list id_list updated_at none = none
with_list id_list updated_at (some row) = some (record {
  id = row.id;
  name = row.name;
  desc = row.desc;
  id_list = id_list;
  id_board = row.id_board;
  created_at = row.created_at;
  updated_at = updated_at;
})

-- `card_at` is the row with a key. A query returns it or fails; an insert adds its row under a new
-- key; an update changes the rows that its condition selects and counts them.
pub record SqlLaws (sql : Sql) : Type 0 where
  pub card_at : sql.Db → Str → Option CardRow
  pub select_card-rows :
      (id : Str) (db : sql.Db) (found : Option CardRow)
      → sql.select_card id db ≡ some found
      → found ≡ card_at db id
  pub card_at-key :
      (id : Str) (db : sql.Db) (row : CardRow) → card_at db id ≡ some row → row.id ≡ id
  pub insert_card-rows :
      (row : CardRow) (db after : sql.Db) (id : Str)
      → sql.insert_card row db ≡ some after
      → card_at after id ≡ (if row.id == id then some row else card_at db id)
  pub update_card_list-rows :
      (id_list updated_at key : Str) (db after : sql.Db) (n : ℕ) (id : Str)
      → sql.update_card_list id_list updated_at key db ≡ some (n, after)
      → card_at after id
        ≡ (if key == id then with_list id_list updated_at (card_at db id) else card_at db id)
  pub update_card_list-count :
      (id_list updated_at key : Str) (db after : sql.Db) (n : ℕ)
      → sql.update_card_list id_list updated_at key db ≡ some (n, after)
      → (n ≡ 0) ↔ (card_at db key ≡ none)
  pub insert_comment-rows :
      (row : CommentRow) (db after : sql.Db) (id : Str)
      → sql.insert_comment row db ≡ some after
      → card_at after id ≡ card_at db id
