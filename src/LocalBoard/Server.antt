-- ===== src/LocalBoard/Server.antt =====
-- internal/app/localboard/server.go: the handlers that create, move and comment on cards. The
-- decoded body of a request is an argument, `none` where `readJSON` fails.
pub mod Moves
use trello_openclaw_webhook.Prelude.{
  ℕ, Bool, true, Option, none, some, [], ◌∷◌, Str, bytes, if◌then◌else◌, inl, inr, ◌==◌, ◌&&◌,
}
use trello_openclaw_webhook.Payload.{Fields}
use trello_openclaw_webhook.LocalBoard.{Card, Comment, Column, column_by_id}
use trello_openclaw_webhook.LocalBoard.Sql.{Sql}
use trello_openclaw_webhook.LocalBoard.Store.{
  Formats, Store, Result, StoreError, create_card, get_card, move_card, add_human_comment,
}
use trello_openclaw_webhook.LocalBoard.Payload.{
  PayloadError, Built, refused, payload, build_create_payload, build_move_payload,
  build_comment_payload,
}

pub data Response : Type 0 where
  ok_card : Card → Response
  ok_comment : Comment → Response
  bad_json dispatch_failed not_found method_not_allowed : Response
  store_failed : StoreError → Response
  payload_refused : PayloadError → Response
  unknown_source unknown_target : Str → Response

-- The new ids of a request, and its time in nanoseconds and as `marshalActionWithMember` formats it.
pub record Draws : Type 0 where
  pub row_id : Str
  pub action_id : Str
  pub now : ℕ
  pub date : Str

module _ (w : Formats) (sql : Sql) where
  -- `sent` is the body that `dispatch` was called with; without a dispatcher nothing is sent.
  pub record Handled : Type 0 where
    pub store : Store w sql
    pub response : Response
    pub sent : Option Fields

  abbrev pub answered : Store w sql → Response → Handled
  answered s response = record { store = s; response = response; sent = none }

  module _ (dispatch : Option (Fields → Bool)) where
    -- `dispatchPayload`; `false` is an error of the dispatcher.
    abbrev pub dispatch_payload : Fields → Bool
    dispatch_payload body = elim dispatch [ none ↦ true | some call ↦ call body ]

    abbrev pub dispatched : Store w sql → Built → Response → Handled
    dispatched s (refused err) response = answered s (payload_refused err)
    dispatched s (payload body) response = record {
      store = s;
      response = if dispatch_payload body then response else dispatch_failed;
      sent = elim dispatch [ none ↦ none | some call ↦ some body ];
    }

    abbrev pub created_in : Draws → Store w sql → Card → Option Column → Handled
    created_in draws s card none =
        dispatched s
          (build_create_payload draws.action_id draws.date card
            (record { id = []; name = []; phase = [] }))
          (ok_card card)
    created_in draws s card (some column) =
        dispatched s (build_create_payload draws.action_id draws.date card column) (ok_card card)

    abbrev pub card_created : Draws → Store w sql × Result Card → Handled
    card_created draws (s, inl err) = answered s (store_failed err)
    card_created draws (s, inr card) = created_in draws s card (column_by_id card.id_list)

    abbrev pub handle_post : Draws → Option (Str × Str) → Store w sql → Handled
    handle_post draws none s = answered s bad_json
    handle_post draws (some (title, description)) s = card_created draws (
        create_card w sql draws.row_id draws.now
          (record { name = title; desc = description; list_id = bytes "plan" }) s)

    unfoldable pub handle_cards :
        Draws → (method : Str) → Option (Str × Str) → Store w sql → Handled
    handle_cards draws method body s =
        if method == bytes "POST" then handle_post draws body s else answered s method_not_allowed

    abbrev pub card_moved : Draws → (from to : Column) → Store w sql → Result Card → Handled
    card_moved draws from to s (inl err) = answered s (store_failed err)
    card_moved draws from to s (inr after) =
        dispatched s (build_move_payload draws.action_id draws.date after from to) (ok_card after)

    abbrev pub after_move :
        Draws → (card_id : Str) → (from to : Column) → Store w sql × Result Unit → Handled
    after_move draws card_id from to (s, inl err) = answered s (store_failed err)
    after_move draws card_id from to (s, inr _) =
        card_moved draws from to s (get_card w sql card_id s.db)

    abbrev pub move_from :
        Draws → (card_id target : Str) → Store w sql → Card → (from to : Option Column) → Handled
    move_from draws card_id target s before none to = answered s (unknown_source before.id_list)
    move_from draws card_id target s before (some from) none = answered s (unknown_target target)
    move_from draws card_id target s before (some from) (some to) =
        after_move draws card_id from to (move_card w sql draws.now card_id target s)

    abbrev pub move_before : Draws → (card_id target : Str) → Store w sql → Result Card → Handled
    move_before draws card_id target s (inl err) = answered s (store_failed err)
    move_before draws card_id target s (inr before) =
        move_from draws card_id target s before (column_by_id before.id_list) (column_by_id target)

    unfoldable pub handle_move : Draws → (card_id : Str) → Option Str → Store w sql → Handled
    handle_move draws card_id none s = answered s bad_json
    handle_move draws card_id (some target) s =
        move_before draws card_id target s (get_card w sql card_id s.db)

    abbrev pub comment_added : Draws → Card → Store w sql × Result Comment → Handled
    comment_added draws card (s, inl err) = answered s (store_failed err)
    comment_added draws card (s, inr comment) =
        dispatched s (build_comment_payload draws.action_id draws.date card comment)
          (ok_comment comment)

    abbrev pub comment_found : Draws → (card_id text : Str) → Store w sql → Result Card → Handled
    comment_found draws card_id text s (inl err) = answered s (store_failed err)
    comment_found draws card_id text s (inr card) =
        comment_added draws card (add_human_comment w sql draws.row_id draws.now card_id text s)

    unfoldable pub handle_comment : Draws → (card_id : Str) → Option Str → Store w sql → Handled
    handle_comment draws card_id none s = answered s bad_json
    handle_comment draws card_id (some text) s =
        comment_found draws card_id text s (get_card w sql card_id s.db)
