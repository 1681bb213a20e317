-- ===== src/LocalBoard/Payload/Events.antt =====
-- What the dispatcher (internal/app/dispatcher.go) reads from the bodies that the local board
-- builds.
use trello_openclaw_webhook.Prelude.{
  ◌≡◌, refl, sym, ap, ◌∙◌, Bool, not, ◌&&◌, Option, none, some, [], Str, bytes, ◌==◌, if◌then◌else◌,
  trim_space, arith, Bool-cases, inl, inr,
}
use trello_openclaw_webhook.Payload.{Fields}
use trello_openclaw_webhook.CardId.{is_valid_card_id}
use trello_openclaw_webhook.Dispatcher.Routing.{event_of}
use trello_openclaw_webhook.Router.Engine.{Event}
use trello_openclaw_webhook.LocalBoard.{Card, Column, Comment}
use trello_openclaw_webhook.LocalBoard.Payload.{
  Built, refused, payload, empty_text, no_card_id, PayloadError, unless_refused,
  build_create_payload, build_move_payload, build_comment_payload, create_body, move_body,
  comment_body, validate_card_and_column,
}

-- The event of a card, where nothing else is known.
abbrev pub card_event : (type card_id : Str) → (after list : Column) → (comment : Str) → Event
card_event type card_id after list comment = record {
  type = type;
  card_id = card_id;
  card_id_valid = not (card_id == []) && is_valid_card_id card_id;
  list_after = after.name;
  list_after_id = after.id;
  list_name = list.name;
  list_id = list.id;
  comment = comment;
}

abbrev pub no_column : Column
no_column = record { id = []; name = []; phase = [] }

payload-injective : (a b : Fields) → payload a ≡ payload b → a ≡ b
payload-injective a b h = ap (λ (x : Built). elim x [ refused _ ↦ a | payload p ↦ p ]) h

unless_refused-built :
    (err : Option PayloadError) (built : Built) (body : Fields)
    → unless_refused err built ≡ payload body
    → built ≡ payload body
unless_refused-built none built body h = h
unless_refused-built (some err) built body h = absurd (ground arith)

guarded :
    (guard : Bool) (err : PayloadError) (built : Built) (body : Fields)
    → (if guard then refused err else built) ≡ payload body
    → built ≡ payload body
guarded guard err built body h = elim (Bool-cases guard) [
  | inl stops ↦ absurd (ground arith)
  | inr goes ↦ ground arith
]

read : (a b : Fields) {ev : Event} → payload a ≡ payload b → event_of a ≡ ev → event_of b ≡ ev
read a b same event = ap event_of (sym (payload-injective a b same)) ∙ event

module _ (id date : Str) (card : Card) where
  event_of-create :
      (to : Column)
      → event_of (create_body id date card to)
        ≡ card_event (bytes "createCard") card.id no_column to []
  unfolding event_of ◌==◌
  event_of-create to = refl

  event_of-move :
      (from to : Column)
      → event_of (move_body id date card from to)
        ≡ card_event (bytes "updateCard") card.id to no_column []
  unfolding event_of ◌==◌
  event_of-move from to = refl

  event_of-comment :
      (comment : Comment)
      → event_of (comment_body id date card comment)
        ≡ card_event (bytes "commentCard") card.id no_column no_column comment.text
  unfolding event_of ◌==◌
  event_of-comment comment = refl

  -- The dispatcher reads from a body that the local board builds the event that it was built for:
  -- a card that is created in a list, one that is moved to a list, or one that gets a comment.
  pub event_of-payload :
      (from to : Column) (comment : Comment) (body : Fields)
      → (build_create_payload id date card to ≡ payload body
          → event_of body ≡ card_event (bytes "createCard") card.id no_column to [])
        × (build_move_payload id date card from to ≡ payload body
            → event_of body ≡ card_event (bytes "updateCard") card.id to no_column [])
        × (build_comment_payload id date card comment ≡ payload body
            → event_of body
              ≡ card_event (bytes "commentCard") card.id no_column no_column comment.text)
  unfolding build_create_payload build_move_payload build_comment_payload
  event_of-payload from to comment body = (
    λ built.
        read (create_body id date card to) body
          (unless_refused-built (validate_card_and_column card to) _ body built)
          (event_of-create to),
    λ built.
        read (move_body id date card from to) body
          (guarded _ _ _ body
            (unless_refused-built (validate_card_and_column card to) _ body built))
          (event_of-move from to),
    λ built.
        read (comment_body id date card comment) body
          (guarded (trim_space comment.text == []) empty_text _ body
            (guarded (trim_space card.id == []) no_card_id _ body built))
          (event_of-comment comment),
  )
