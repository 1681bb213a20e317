-- ===== src/Trello/Tools.antt =====
-- internal/app/trello_tools.go: the tools that a worker calls on its board. strings.ToLower and
-- time.Parse are parameters; logging is left out.
pub mod Listings
pub mod Moved
use trello_openclaw_webhook.Prelude.{
  ℕ, suc, ◌+◌, ◌&&◌, Option, none, some, List, [], ◌∷◌, Str, bytes, ◌==◌, ◌⊎◌, inl, inr,
  if◌then◌else◌, trim_space,
}
use trello_openclaw_webhook.Trello.{Card, ListRef, Comment, Error}

-- The methods of `Client` that the tools call.
pub record CardClient : Type 0 where
  pub get_card : Str → Error ⊎ Card
  pub get_card_list : Str → Error ⊎ ListRef
  pub list_board_lists : Str → Error ⊎ List ListRef
  pub move_card : (card_id target_list_id : Str) → Option Error
  pub add_comment : (card_id text : Str) → Error ⊎ Comment
  pub get_latest_comment : Str → Error ⊎ Comment
  pub list_comments_since : Str → Option ℕ → Error ⊎ List Comment

pub data ToolError : Type 0 where
  required : (name : Str) → ToolError
  no_target bad_since : ToolError
  no_list_named : (name : Str) → ToolError
  client_error : Error → ToolError

abbrev pub from_client : {A : Type 0} → Error ⊎ A → ToolError ⊎ A
from_client (inl err) = inl (client_error err)
from_client (inr a) = inr a

-- `validate` of a single required argument.
abbrev pub required_then : {A : Type 0} → (name argument : Str) → ToolError ⊎ A → ToolError ⊎ A
required_then name argument result =
    if trim_space argument == [] then inl (required name) else result

pub record MoveParams : Type 0 where
  pub card_id : Str
  pub target_list_id : Str
  pub target_list_name : Str

pub record MoveResult : Type 0 where
  pub from : ListRef
  pub to : ListRef

-- What a move did: the lists it fetched, the cards it moved, and its result.
pub record Attempt : Type 0 where
  pub listings : ℕ
  pub moves : List (Str × Str)
  pub result : ToolError ⊎ MoveResult

unfoldable pub find_list_id : List ListRef → Str → Option Str
find_list_id [] list_id = none
find_list_id (l ∷ lists) list_id =
    if l.id == list_id then some l.name else find_list_id lists list_id

module _ (to_lower : Str → Str) (client : CardClient) (parse_time : Str → Option ℕ) where
  unfoldable pub find_lowered : List ListRef → (want : Str) → Option ListRef
  find_lowered [] want = none
  find_lowered (l ∷ lists) want =
      if to_lower l.name == want then some l else find_lowered lists want

  unfoldable pub find_list_by_name : List ListRef → (name : Str) → Option ListRef
  unfolding find_lowered
  find_list_by_name lists name = find_lowered lists (to_lower (trim_space name))

  abbrev pub from_list : Card → Error ⊎ ListRef → ListRef
  from_list card (inl err) = record { id = card.id_list; name = [] }
  from_list card (inr from) = from

  abbrev pub named : ListRef → Option Str → ListRef
  named to none = to
  named to (some name) = record { id = to.id; name = name }

  -- The name of the target once the move is out; `lists` are the cached ones.
  abbrev pub name_from : (listings : ℕ) → ListRef → Error ⊎ List ListRef → ℕ × ListRef
  name_from listings to (inl err) = (listings, to)
  name_from listings to (inr lists) = (listings, named to (find_list_id lists to.id))

  abbrev pub name_target : Card → (listings : ℕ) → Option (List ListRef) → ListRef → ℕ × ListRef
  name_target card listings (some lists) to = name_from listings to (inr lists)
  name_target card listings none to =
      name_from (suc listings) to (client.list_board_lists card.id_board)

  abbrev pub after_put :
      MoveParams
      → Card
      → (listings : ℕ) → Option (List ListRef)
      → (from to : ListRef) → Option Error
      → Attempt
  after_put p card listings cached from to (some err) = record {
    listings = listings;
    moves = (p.card_id, to.id) ∷ [];
    result = inl (client_error err);
  }
  after_put p card listings cached from to none =
      let target = if to.name == [] then name_target card listings cached to else (listings, to) in
      record {
        listings = target.0;
        moves = (p.card_id, to.id) ∷ [];
        result = inr (record { from = from; to = target.1 });
      }

  abbrev pub move_to_list :
      MoveParams → Card → (listings : ℕ) → Option (List ListRef) → (from to : ListRef) → Attempt
  move_to_list p card listings cached from to =
      if to.id == card.id_list
      then record {
        listings = listings;
        moves = [];
        result = inr (record {
          from = from;
          to = if to.name == [] then record { id = to.id; name = from.name } else to;
        });
      }
      else after_put p card listings cached from to (client.move_card p.card_id to.id)

  abbrev pub failed_with : (listings : ℕ) → ToolError → Attempt
  failed_with listings err = record { listings = listings; moves = []; result = inl err }

  abbrev pub move_to_match :
      MoveParams → Card → List ListRef → (from : ListRef) → Option ListRef → Attempt
  move_to_match p card lists from none = failed_with 1 (no_list_named p.target_list_name)
  move_to_match p card lists from (some to) = move_to_list p card 1 (some lists) from to

  abbrev pub move_by_name : MoveParams → Card → (from : ListRef) → Error ⊎ List ListRef → Attempt
  move_by_name p card from (inl err) = failed_with 1 (client_error err)
  move_by_name p card from (inr lists) =
      move_to_match p card lists from (find_list_by_name lists p.target_list_name)

  abbrev pub move_from_list : MoveParams → Card → (from : ListRef) → Attempt
  move_from_list p card from =
      if trim_space p.target_list_id == []
      then move_by_name p card from (client.list_board_lists card.id_board)
      else move_to_list p card 0 none from (record { id = trim_space p.target_list_id; name = [] })

  abbrev pub move_found : MoveParams → Error ⊎ Card → Attempt
  move_found p (inl err) = failed_with 0 (client_error err)
  move_found p (inr card) = move_from_list p card (from_list card (client.get_card_list p.card_id))

  -- `moveCard`
  unfoldable pub move_card : MoveParams → Attempt
  unfolding find_list_by_name find_list_id
  move_card p = move_found p (client.get_card p.card_id)

  -- The handlers of the tools.
  unfoldable pub trello_card_get : (card_id : Str) → ToolError ⊎ Card
  trello_card_get card_id =
      required_then (bytes "card_id") card_id (from_client (client.get_card card_id))

  unfoldable pub trello_card_list : (card_id : Str) → ToolError ⊎ ListRef
  trello_card_list card_id =
      required_then (bytes "card_id") card_id (from_client (client.get_card_list card_id))

  unfoldable pub trello_board_lists : (board_id : Str) → ToolError ⊎ List ListRef
  trello_board_lists board_id =
      required_then (bytes "board_id") board_id (from_client (client.list_board_lists board_id))

  unfoldable pub trello_card_move : MoveParams → Attempt
  unfolding move_card
  trello_card_move p =
      if trim_space p.card_id == []
      then failed_with 0 (required (bytes "card_id"))
      else if trim_space p.target_list_id == [] && trim_space p.target_list_name == []
      then failed_with 0 no_target
      else move_card p

  unfoldable pub trello_card_comment : (card_id text : Str) → ToolError ⊎ Comment
  trello_card_comment card_id text =
      required_then (bytes "card_id") card_id
        (required_then (bytes "text") text (from_client (client.add_comment card_id text)))

  unfoldable pub trello_card_latest_comment : (card_id : Str) → ToolError ⊎ Comment
  trello_card_latest_comment card_id =
      required_then (bytes "card_id") card_id (from_client (client.get_latest_comment card_id))

  abbrev pub comments_from : (card_id : Str) → Option ℕ → ToolError ⊎ List Comment
  comments_from card_id none = inl bad_since
  comments_from card_id (some since) = from_client (client.list_comments_since card_id (some since))

  unfoldable pub trello_card_comments_since : (card_id since : Str) → ToolError ⊎ List Comment
  trello_card_comments_since card_id since = required_then (bytes "card_id") card_id (
      if since == []
      then from_client (client.list_comments_since card_id none)
      else comments_from card_id (parse_time since))
