-- ===== src/LocalBoard/Payload.antt =====
-- internal/app/localboard/payload.go: the webhook bodies, as the trees that json.Marshal is given.
-- The keys of a Go map are encoded in sorted order; the trees here list them in the order of the
-- source, which no reader sees. The id (`newID`) and the time's text are arguments.
pub mod Events
use trello_openclaw_webhook.Prelude.{
  ◌||◌, Option, none, some, [], Str, bytes, ◌==◌, if◌then◌else◌, trim_space,
}
use trello_openclaw_webhook.Payload.{Json, str, obj, Fields, end, field}
use trello_openclaw_webhook.LocalBoard.{
  Card, Column, Comment, default_board_id, default_board_name, human_name,
}

pub data PayloadError : Type 0 where
  no_card_id incomplete_column incomplete_source empty_text : PayloadError

pub data Built : Type 0 where
  refused : PayloadError → Built
  payload : Fields → Built

abbrev pub card_object : Card → Json
card_object card = obj (
    field (bytes "id") (str card.id) (
      field (bytes "name") (str card.name) (
        field (bytes "desc") (str card.desc) (
          field (bytes "idList") (str card.id_list) (
            field (bytes "idBoard")
              (str (if card.id_board == [] then default_board_id else card.id_board)) end)))))

abbrev pub list_object : Column → Json
list_object column =
    obj (field (bytes "id") (str column.id) (field (bytes "name") (str column.name) end))

abbrev pub board_object : Json
board_object =
    obj (
      field (bytes "id") (str default_board_id) (field (bytes "name") (str default_board_name) end))

abbrev pub marshal_action_with_member :
    (id date : Str) (action_type : Str) (data' : Fields) (member_name : Str) → Fields
marshal_action_with_member id date action_type data' member_name =
    field (bytes "action")
      (obj (
        field (bytes "id") (str id) (
          field (bytes "type") (str action_type) (
            field (bytes "date") (str date) (
              field (bytes "data") (obj data') (
                field (bytes "memberCreator")
                  (obj (
                    field (bytes "id") (str (bytes "local-operator"))
                      (field (bytes "fullName") (str member_name) end)))
                  end))))))
      end

abbrev pub marshal_action : (id date : Str) (action_type : Str) (data' : Fields) → Fields
marshal_action id date action_type data' =
    marshal_action_with_member id date action_type data' human_name

-- `none` is the nil error.
unfoldable pub validate_card_and_column : Card → Column → Option PayloadError
validate_card_and_column card column =
    if trim_space card.id == []
    then some no_card_id
    else if trim_space column.id == [] || trim_space column.name == []
    then some incomplete_column
    else none

abbrev pub unless_refused : Option PayloadError → Built → Built
unless_refused (some err) built = refused err
unless_refused none built = built

abbrev pub create_body : (id date : Str) → Card → Column → Fields
create_body id date card list = marshal_action id date (bytes "createCard") (
    field (bytes "card") (card_object card)
      (field (bytes "list") (list_object list) (field (bytes "board") board_object end)))

unfoldable pub build_create_payload : (id date : Str) → Card → Column → Built
unfolding validate_card_and_column
build_create_payload id date card list =
    unless_refused (validate_card_and_column card list) (payload (create_body id date card list))

abbrev pub move_body : (id date : Str) → Card → (from to : Column) → Fields
move_body id date card from to = marshal_action id date (bytes "updateCard") (
    field (bytes "card") (card_object card) (
      field (bytes "listBefore") (list_object from)
        (field (bytes "listAfter") (list_object to) (field (bytes "board") board_object end))))

unfoldable pub build_move_payload : (id date : Str) → Card → (from to : Column) → Built
unfolding validate_card_and_column
build_move_payload id date card from to = unless_refused (validate_card_and_column card to) (
    if trim_space from.id == [] || trim_space from.name == []
    then refused incomplete_source
    else payload (move_body id date card from to))

abbrev pub comment_body : (id date : Str) → Card → Comment → Fields
comment_body id date card comment =
    marshal_action_with_member id date (bytes "commentCard")
      (field (bytes "card") (card_object card)
        (field (bytes "text") (str comment.text) (field (bytes "board") board_object end)))
      (if trim_space comment.by == [] then human_name else comment.by)

unfoldable pub build_comment_payload : (id date : Str) → Card → Comment → Built
build_comment_payload id date card comment =
    if trim_space card.id == []
    then refused no_card_id
    else if trim_space comment.text == []
    then refused empty_text
    else payload (comment_body id date card comment)
