-- ===== src/Tests/LocalBoard.antt =====
-- Runs of the local board over a database in memory.
use mathlib.Core.Option.{some-injective}
use trello_openclaw_webhook.Prelude.{
  ℕ, suc, ◌≡◌, ◌≢◌, ◌↔◌, refl, sym, ap, ◌∙◌, Bool, true, false, Option, none, some, List, [], ◌∷◌,
  ◌++◌, Str, bytes, ◌==◌, if◌then◌else◌, ◌&&◌, ◌||◌, ltb, nat_eq, trim_space, inl, inr, arith,
  eq_iff,
}
use trello_openclaw_webhook.Dispatcher.Routing.{event_of}
use trello_openclaw_webhook.LocalBoard.{Card, Column, Comment, column_by_id}
use trello_openclaw_webhook.LocalBoard.Sql.{
  Sql, SqlLaws, CardRow, CommentRow, Suffix, latest_one, all_ascending, since_ascending, with_list,
}
use trello_openclaw_webhook.LocalBoard.Store.{
  Formats, Store, CreateCardInput, create_card, get_card_list, unknown_list,
}
use trello_openclaw_webhook.LocalBoard.Store.Comments.{get_latest_comment}
use trello_openclaw_webhook.LocalBoard.Store.KnownLists.{
  Operation, create, move, human_comment, agent_comment, apply_all, get_card_list-apply_all,
}
use trello_openclaw_webhook.LocalBoard.Store.Created.{create_card-IsCreated, IsCreated}
use trello_openclaw_webhook.LocalBoard.Payload.{build_move_payload, move_body}
use trello_openclaw_webhook.LocalBoard.Payload.Events.{event_of-payload, card_event, no_column}
use trello_openclaw_webhook.LocalBoard.Server.{Draws, handle_move}
use trello_openclaw_webhook.LocalBoard.Server.Moves.{handle_move-Landed, Landed}

record Memory : Type 0 where
  cards : List CardRow
  comments : List CommentRow

abbrev find : List CardRow → Str → Option CardRow
find [] id = none
find (row ∷ rows) id = let rest = find rows id in if row.id == id then some row else rest

abbrev insert_new : CardRow → Memory → Option CardRow → Option Memory
insert_new row db (some old) = none
insert_new row db none = some (record { cards = row ∷ db.cards; comments = db.comments })

abbrev changed : (id_list updated_at : Str) → CardRow → CardRow
changed id_list updated_at row = record {
  id = row.id;
  name = row.name;
  desc = row.desc;
  id_list = id_list;
  id_board = row.id_board;
  created_at = row.created_at;
  updated_at = updated_at;
}

abbrev update_rows : (id_list updated_at id : Str) → List CardRow → List CardRow
update_rows id_list updated_at id [] = []
update_rows id_list updated_at id (row ∷ rows) =
    (if row.id == id then changed id_list updated_at row else row)
    ∷ update_rows id_list updated_at id rows

abbrev count : Str → List CardRow → ℕ
count id [] = 0
count id (row ∷ rows) = let rest = count id rows in if row.id == id then suc rest else rest

-- The order of texts, byte by byte.
abbrev text_lt : Str → Str → Bool
text_lt [] [] = false
text_lt [] (b ∷ t) = true
text_lt (a ∷ s) [] = false
text_lt (a ∷ s) (b ∷ t) = ltb a b || (nat_eq a b && text_lt s t)

abbrev place : CommentRow → List CommentRow → List CommentRow
place row [] = row ∷ []
place row (next ∷ rows) =
    let rest = place row rows in if text_lt next.at row.at then next ∷ rest else row ∷ next ∷ rows

-- The comments of a card in ascending order of `at`.
abbrev ascending : Str → List CommentRow → List CommentRow
ascending card_id [] = []
ascending card_id (row ∷ rows) =
    let rest = ascending card_id rows in if row.card_id == card_id then place row rest else rest

abbrev after_time : Str → List CommentRow → List CommentRow
after_time since [] = []
after_time since (row ∷ rows) =
    let rest = after_time since rows in if text_lt since row.at then row ∷ rest else rest

abbrev last_row : List CommentRow → List CommentRow
last_row [] = []
last_row (row ∷ []) = row ∷ []
last_row (row ∷ next ∷ rows) = last_row (next ∷ rows)

abbrev select_comments : Str → Suffix → Memory → Option (List CommentRow)
select_comments card_id latest_one db = some (last_row (ascending card_id db.comments))
select_comments card_id all_ascending db = some (ascending card_id db.comments)
select_comments card_id (since_ascending since) db =
    some (after_time since (ascending card_id db.comments))

abbrev memory : Sql
memory = record {
  Db = Memory;
  insert_card = λ row db. insert_new row db (find db.cards row.id);
  select_card = λ id db. some (find db.cards id);
  select_cards = λ db. some db.cards;
  update_card_list = λ id_list updated_at id db. some (
    count id db.cards,
    record { cards = update_rows id_list updated_at id db.cards; comments = db.comments },
  );
  insert_comment = λ row db. some (record { cards = db.cards; comments = row ∷ db.comments });
  select_comments = select_comments;
}

find-update :
    (id_list updated_at key id : Str) (rows : List CardRow)
    → find (update_rows id_list updated_at key rows) id
      ≡ (if key == id then with_list id_list updated_at (find rows id) else find rows id)
find-update id_list updated_at key id [] = ground arith
find-update id_list updated_at key id (row ∷ rows) = ground (
  arith,
  find-update id_list updated_at key id rows,
  eq_iff row.id id,
  eq_iff key id,
  eq_iff row.id key,
)

count-find : (key : Str) (rows : List CardRow) → (count key rows ≡ 0) ↔ (find rows key ≡ none)
count-find key [] = ground arith
count-find key (row ∷ rows) = ground (arith, count-find key rows)

find-key : (id : Str) (rows : List CardRow) (row : CardRow) → find rows id ≡ some row → row.id ≡ id
find-key id [] row h = absurd (ground arith)
find-key id (first ∷ rows) row h = ground (arith, find-key id rows row, eq_iff first.id id)

insert_new-find :
    (row : CardRow) (db after : Memory) (id : Str) (old : Option CardRow)
    → insert_new row db old ≡ some after
    → find after.cards id ≡ (if row.id == id then some row else find db.cards id)
insert_new-find row db after id none h =
    ap (λ (m : Memory). find m.cards id) (sym (some-injective _ _ h))
insert_new-find row db after id (some old) h = absurd (ground arith)

abbrev memory_laws : SqlLaws memory
memory_laws = record {
  card_at = λ db id. find db.cards id;
  select_card-rows = λ id db found h. sym (some-injective _ _ h);
  card_at-key = λ id db row h. find-key id db.cards row h;
  insert_card-rows = λ row db after id h. insert_new-find row db after id (find db.cards row.id) h;
  update_card_list-rows = λ id_list updated_at key db after n id h.
      ap (λ (m : ℕ × Memory). find m.1.cards id) (sym (some-injective _ _ h))
      ∙ find-update id_list updated_at key id db.cards;
  update_card_list-count = λ id_list updated_at key db after n h.
      let same : count key db.cards ≡ n = ap (λ (m : ℕ × Memory). m.0) (some-injective _ _ h) in
      ground (arith, count-find key db.cards);
  insert_comment-rows =
      λ row db after id h. ap (λ (m : Memory). find m.cards id) (sym (some-injective _ _ h));
}

-- The time of one test is a number of hundredths of a second: `format_time` drops trailing zeros.
abbrev world : Formats
world = record {
  format_time = λ t.
      if nat_eq t 100
      then bytes "2026-01-01T00:00:01Z"
      else if nat_eq t 120
      then bytes "2026-01-01T00:00:01.2Z"
      else bytes "2026-01-01T00:00:02Z";
  parse_time = λ s.
      if s == bytes "2026-01-01T00:00:01Z"
      then some 100
      else if s == bytes "2026-01-01T00:00:01.2Z"
      then some 120
      else some 200;
  to_lower = λ s. s;
}

abbrev empty : Store world memory
empty = record { db = record { cards = []; comments = [] }; signals = 0 }

abbrev jobs : List Operation
jobs =
    create (bytes "c_1") 100
      (record { name = bytes " Fix "; desc = bytes "A bug"; list_id = bytes "" })
    ∷ move 100 (bytes "c_1") (bytes "action")
    ∷ agent_comment (bytes "m_1") 100 (bytes "c_1") (bytes "on it")
    ∷ human_comment (bytes "m_2") 120 (bytes "c_1") (bytes "stop")
    ∷ []

abbrev jobs_done : Store world memory
jobs_done = record {
  db = record {
    cards =
        record {
          id = bytes "c_1";
          name = bytes "Fix";
          desc = bytes "A bug";
          id_list = bytes "action";
          id_board = bytes "local-board";
          created_at = bytes "2026-01-01T00:00:01Z";
          updated_at = bytes "2026-01-01T00:00:01Z";
        }
        ∷ [];
    comments =
        record {
          id = bytes "m_2";
          card_id = bytes "c_1";
          text = bytes "stop";
          author = bytes "Local Operator";
          at = bytes "2026-01-01T00:00:01.2Z";
        }
        ∷ record {
          id = bytes "m_1";
          card_id = bytes "c_1";
          text = bytes "on it";
          author = bytes "JJC Local Agent";
          at = bytes "2026-01-01T00:00:01Z";
        }
        ∷ [];
  };
  signals = 4;
}

jobs_run : apply_all world memory memory_laws jobs empty ≡ jobs_done
unfolding apply_all ◌==◌ trim_space column_by_id
jobs_run = refl

-- The texts of times are not in the order of the times: the comment of 1 s counts as later than
-- that of 1.2 s.
latest_is_earlier :
    get_latest_comment world memory (bytes "c_1") jobs_done.db
    ≡ inr (record {
      id = bytes "m_1";
      text = bytes "on it";
      by = bytes "JJC Local Agent";
      by_id = bytes "JJC-Local-Agent";
      at = 100;
      username = [];
    })
unfolding get_latest_comment ◌==◌ trim_space
latest_is_earlier = refl

get_card_list-apply_all_example :
    get_card_list world memory (bytes "c_1") (apply_all world memory memory_laws jobs empty).db
    ≢ inl (unknown_list (bytes "action"))
get_card_list-apply_all_example =
    get_card_list-apply_all world memory memory_laws jobs empty (bytes "c_1") (bytes "action")
      (λ id. refl)

-- A card without a name or a list.
abbrev report : CreateCardInput
report = record { name = bytes " "; desc = bytes " A bug" ++ (10 ∷ bytes "in prod "); list_id = [] }

abbrev reported : Card
reported = record {
  id = bytes "c_1";
  name = bytes "A bug";
  desc = bytes "A bug" ++ (10 ∷ bytes "in prod");
  first_line = bytes "A bug";
  id_list = bytes "plan";
  id_board = bytes "local-board";
}

create_card-IsCreated_example :
    IsCreated world memory memory_laws
      (bytes "c_1")
      100
      report
      empty
      reported
      (create_card world memory (bytes "c_1") 100 report empty).0
unfolding create_card ◌==◌ trim_space column_by_id
    trello_openclaw_webhook.LocalBoard.first_non_empty_line
create_card-IsCreated_example =
    create_card-IsCreated world memory memory_laws (bytes "c_1") 100 report empty reported refl

abbrev in_action : Column
in_action = record { id = bytes "action"; name = bytes "In action"; phase = bytes "action" }

abbrev done : Column
done = record { id = bytes "done"; name = bytes "Done"; phase = bytes "done" }

abbrev no_word : Comment
no_word = record { id = []; text = []; by = []; by_id = []; at = 0; username = [] }

event_of-payload_example :
    event_of (move_body (bytes "a_1") [] reported in_action done)
    ≡ card_event (bytes "updateCard") (bytes "c_1") done no_column []
unfolding build_move_payload trello_openclaw_webhook.LocalBoard.Payload.validate_card_and_column
    ◌==◌ trim_space
event_of-payload_example =
    (event_of-payload (bytes "a_1") [] reported in_action done no_word
        (move_body (bytes "a_1") [] reported in_action done)).1
      refl

abbrev draws : Draws
draws = record { row_id = bytes "r_2"; action_id = bytes "a_2"; now = 200; date = [] }

handle_move-Landed_example :
    Landed world memory memory_laws
      (some (λ b. true))
      draws
      (move_body
        (bytes "a_2")
        []
        (record {
          id = bytes "c_1";
          name = bytes "Fix";
          desc = bytes "A bug";
          first_line = bytes "A bug";
          id_list = bytes "done";
          id_board = bytes "local-board";
        })
        in_action
        done)
      (bytes "c_1")
      (bytes "done")
      (handle_move world memory
        (some (λ b. true))
        draws
        (bytes "c_1")
        (some (bytes "done"))
        jobs_done).store
unfolding handle_move trello_openclaw_webhook.LocalBoard.Store.get_card ◌==◌ trim_space column_by_id
    trello_openclaw_webhook.LocalBoard.Store.move_card build_move_payload
handle_move-Landed_example =
    handle_move-Landed world memory memory_laws (some (λ b. true)) draws
      (move_body (bytes "a_2") []
        (record {
          id = bytes "c_1";
          name = bytes "Fix";
          desc = bytes "A bug";
          first_line = bytes "A bug";
          id_list = bytes "done";
          id_board = bytes "local-board";
        })
        in_action done)
      (bytes "c_1") (bytes "done") jobs_done refl
