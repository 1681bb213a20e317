-- ===== src/LocalBoard/Store/Comments.antt =====
-- The comment queries of internal/app/localboard/store.go, and `ListCards`.
use trello_openclaw_webhook.Prelude.{
  ℕ, Option, none, some, List, [], ◌∷◌, Str, ◌==◌, if◌then◌else◌, trim_space, inl, inr,
}
use trello_openclaw_webhook.LocalBoard.{Card, Comment}
use trello_openclaw_webhook.LocalBoard.Sql.{
  Sql, CardRow, CommentRow, Suffix, latest_one, all_ascending, since_ascending,
}
use trello_openclaw_webhook.LocalBoard.Store.{
  Formats, Result, empty_card_id, select_failed, bad_time, no_comments, card_of, dashed,
}

pub record CardView : Type 0 where
  pub card : Card
  pub comments : List Comment

module _ (w : Formats) (sql : Sql) where
  scanned : CommentRow → Option ℕ → Result Comment
  scanned row none = inl bad_time
  scanned row (some at) = inr (record {
    id = row.id;
    text = row.text;
    by = row.author;
    by_id = w.to_lower (dashed row.author);
    at = at;
    username = [];
  })

  and_then : Result Comment → Result (List Comment) → Result (List Comment)
  and_then (inl err) rest = inl err
  and_then (inr comment) (inl err) = inl err
  and_then (inr comment) (inr rest) = inr (comment ∷ rest)

  -- The loop over `rows.Next()`.
  unfoldable pub scan_comments : List CommentRow → Result (List Comment)
  unfolding scanned and_then
  scan_comments [] = inr []
  scan_comments (row ∷ rows) = and_then (scanned row (w.parse_time row.at)) (scan_comments rows)

  queried : Option (List CommentRow) → Result (List Comment)
  unfolding scan_comments
  queried none = inl select_failed
  queried (some rows) = scan_comments rows

  unfoldable pub query_comments : Str → Suffix → sql.Db → Result (List Comment)
  unfolding queried
  query_comments card_id suffix db =
      if trim_space card_id == []
      then inl empty_card_id
      else queried (sql.select_comments card_id suffix db)

  latest : Result (List Comment) → Result Comment
  latest (inl err) = inl err
  latest (inr []) = inl no_comments
  latest (inr (comment ∷ _)) = inr comment

  unfoldable pub get_latest_comment : Str → sql.Db → Result Comment
  unfolding query_comments latest
  get_latest_comment card_id db = latest (query_comments card_id latest_one db)

  -- `none` is the zero time.
  unfoldable pub list_comments_since : Str → Option ℕ → sql.Db → Result (List Comment)
  unfolding query_comments
  list_comments_since card_id none db = query_comments card_id all_ascending db
  list_comments_since card_id (some since) db =
      query_comments card_id (since_ascending (w.format_time since)) db

  view_of : Card → Result (List Comment) → Result (List CardView) → Result (List CardView)
  view_of card (inl err) rest = inl err
  view_of card (inr comments) (inl err) = inl err
  view_of card (inr comments) (inr rest) = inr (record { card = card; comments = comments } ∷ rest)

  unfoldable pub card_views : List CardRow → sql.Db → Result (List CardView)
  unfolding list_comments_since view_of
  card_views [] db = inr []
  card_views (row ∷ rows) db =
      view_of (card_of w sql row) (list_comments_since row.id none db) (card_views rows db)

  listed : Option (List CardRow) → sql.Db → Result (List CardView)
  unfolding card_views
  listed none db = inl select_failed
  listed (some rows) db = card_views rows db

  unfoldable pub list_cards : sql.Db → Result (List CardView)
  unfolding listed
  list_cards db = listed (sql.select_cards db) db
