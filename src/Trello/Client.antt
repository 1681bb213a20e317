-- ===== src/Trello/Client.antt =====
-- The methods of one request of internal/app/trelloclient/client.go. The SDK's calls and the
-- decoding of JSON are parameters; `none` is a decoding error, or the nil error of a method.
use trello_openclaw_webhook.Prelude.{
  Option, none, some, List, [], Str, bytes, ◌==◌, ◌⊎◌, inl, inr, nat_eq, if◌then◌else◌,
}
use trello_openclaw_webhook.LocalBoard.{split_lines, first_non_blank}
use trello_openclaw_webhook.Trello.{
  Card, ListRef, Comment, Webhook, Error, Answer, no_response, response, read_and_check,
  empty_argument, decode_failed, request_failed,
}
use trello_openclaw_webhook.Trello.Comments.{Decoder, decode_comment_action}

pub record Sdk : Type 0 where
  pub get_cards_id : (card_id : Str) → Answer
  pub get_cards_id_list : (card_id : Str) → Answer
  pub get_boards_id_lists : (board_id : Str) → Answer
  pub put_cards_id : (card_id target_list_id : Str) → Answer
  pub post_cards_id_actions_comments : (card_id text : Str) → Answer
  pub get_tokens_token_webhooks : (token : Str) → Answer
  pub put_webhooks_id : (webhook_id callback_url : Str) → Answer
  pub post_tokens_token_webhooks : (token board_id callback_url description : Str) → Answer
  pub delete_tokens_token_webhooks : (token webhook_id : Str) → Answer

-- The fields of a card's body.
pub record RawCard : Type 0 where
  pub id : Str
  pub name : Str
  pub desc : Str
  pub id_list : Str
  pub id_board : Str

pub record BodyDecoder : Type 0 where
  pub card : Str → Option RawCard
  pub list : Str → Option ListRef
  pub lists : Str → Option (List ListRef)
  pub webhook : Str → Option Webhook
  pub webhooks : Str → Option (List Webhook)

-- `firstNonEmptyLine` of this package does not replace line ends.
unfoldable pub first_line_of : Str → Str
unfolding split_lines first_non_blank
first_line_of s = first_non_blank (split_lines s)

-- An argument that must not be empty.
abbrev pub require : {A : Type 0} → (name argument : Str) → Error ⊎ A → Error ⊎ A
require name argument result = if argument == [] then inl (empty_argument name) else result

abbrev pub decode_with : {A : Type 0} → (Str → Option A) → Error ⊎ Str → Error ⊎ A
decode_with decode (inl err) = inl err
decode_with decode (inr body) = elim (decode body) [ none ↦ inl decode_failed | some a ↦ inr a ]

-- Only whether a request succeeds.
abbrev pub failure_of : Error ⊎ Str → Option Error
failure_of (inl err) = some err
failure_of (inr body) = none

abbrev pub require_for : (name argument : Str) → Option Error → Option Error
require_for name argument result = if argument == [] then some (empty_argument name) else result

abbrev pub full_card : Error ⊎ RawCard → Error ⊎ Card
full_card (inl err) = inl err
full_card (inr raw) = inr (record {
  id = raw.id;
  name = raw.name;
  desc = raw.desc;
  first_line = first_line_of raw.desc;
  id_list = raw.id_list;
  id_board = raw.id_board;
})

module _ (sdk : Sdk) (json : BodyDecoder) (d : Decoder) where
  unfoldable pub get_card : Str → Error ⊎ Card
  unfolding read_and_check first_line_of
  get_card card_id =
      require (bytes "card id") card_id
        (full_card (decode_with json.card (read_and_check (sdk.get_cards_id card_id) 200)))

  unfoldable pub get_card_list : Str → Error ⊎ ListRef
  unfolding read_and_check
  get_card_list card_id =
      require (bytes "card id") card_id
        (decode_with json.list (read_and_check (sdk.get_cards_id_list card_id) 200))

  unfoldable pub list_board_lists : Str → Error ⊎ List ListRef
  unfolding read_and_check
  list_board_lists board_id =
      require (bytes "board id") board_id
        (decode_with json.lists (read_and_check (sdk.get_boards_id_lists board_id) 200))

  unfoldable pub move_card : (card_id target_list_id : Str) → Option Error
  unfolding read_and_check
  move_card card_id target_list_id = require_for (bytes "card id") card_id (
      require_for (bytes "target list id") target_list_id
        (failure_of (read_and_check (sdk.put_cards_id card_id target_list_id) 200)))

  unfoldable pub add_comment : (card_id body : Str) → Error ⊎ Comment
  unfolding read_and_check decode_comment_action
  add_comment card_id body = require (bytes "card id") card_id (
      require (bytes "comment body") body (
        decode_with (decode_comment_action d)
          (read_and_check (sdk.post_cards_id_actions_comments card_id body) 200)))

  unfoldable pub list_token_webhooks : (token : Str) → Error ⊎ List Webhook
  unfolding read_and_check
  list_token_webhooks token =
      require (bytes "token") token
        (decode_with json.webhooks (read_and_check (sdk.get_tokens_token_webhooks token) 200))

  unfoldable pub update_webhook_callback : (webhook_id callback_url : Str) → Option Error
  unfolding read_and_check
  update_webhook_callback webhook_id callback_url = require_for (bytes "webhook id") webhook_id (
      require_for (bytes "callback URL") callback_url
        (failure_of (read_and_check (sdk.put_webhooks_id webhook_id callback_url) 200)))

  unfoldable pub create_token_webhook :
      (token board_id callback_url description : Str) → Error ⊎ Webhook
  unfolding read_and_check
  create_token_webhook token board_id callback_url description = require (bytes "token") token (
      require (bytes "board id") board_id (
        require (bytes "callback URL") callback_url (
          decode_with json.webhook (
            read_and_check (sdk.post_tokens_token_webhooks token board_id callback_url description)
              200))))

  -- A webhook that is already gone counts as deleted.
  abbrev pub deleted : Answer → Option Error
  unfolding read_and_check
  deleted no_response = some request_failed
  deleted (response status body) =
      if nat_eq status 404 then none else failure_of (read_and_check (response status body) 200)

  unfoldable pub delete_webhook : (token webhook_id : Str) → Option Error
  unfolding deleted
  delete_webhook token webhook_id = require_for (bytes "token") token (
      require_for (bytes "webhook id") webhook_id
        (deleted (sdk.delete_tokens_token_webhooks token webhook_id)))
