-- ===== src/Tests/Payload.antt =====
-- Runs of the payload, card id and ring modules at concrete values.
use trello_openclaw_webhook.Prelude.{
  ℕ, ◌+◌, ◌≤◌, ◌<◌, ◌≡◌, ◌≢◌, ◌↔◌, refl, true, [], ◌∷◌, none, some, Str, bytes, All, length, arith,
  if◌then◌else◌,
}
use trello_openclaw_webhook.Ring.{new_ring, append_entries, entries_chronological}
use trello_openclaw_webhook.Ring.Slices.{last}
use trello_openclaw_webhook.Ring.History.{entries_chronological-append_entries}
use trello_openclaw_webhook.Ring.GlobalLog.{
  GlobalEvent, new_global_event_log, global_entries, record_all, global_entries-record_all,
}
use trello_openclaw_webhook.Payload.{str, obj, Fields, end, field, nested_string}
use trello_openclaw_webhook.Payload.Slim.{slim_raw_body, slim_raw_body-keeps, must_slim, kept_paths}
use trello_openclaw_webhook.Payload.Slim.Other.{slim_raw_body-other}
use trello_openclaw_webhook.CardId.{is_valid_card_id}
use trello_openclaw_webhook.CardId.Safety.{is_valid_card_id_iff, IsSlugByte}
use trello_openclaw_webhook.CardId.Filename.{
  sanitize_for_filename, sanitize_for_filename-IsName, sanitize_for_filename-card_id,
}
use trello_openclaw_webhook.Preview.{preview}
use trello_openclaw_webhook.Preview.{preview-IsInLine, IsInLine}

abbrev card : Str
card = bytes "5f1a-Card_9"

abbrev moved_card : Fields
moved_card =
    field (bytes "action")
      (obj (
        field (bytes "type") (str (bytes "updateCard")) (
          field (bytes "id") (str (bytes "a1")) (
            field (bytes "data")
              (obj (
                field (bytes "card")
                  (obj
                    (field (bytes "id") (str card) (field (bytes "name") (str (bytes "Fix")) end)))
                  (field (bytes "listBefore") (obj (field (bytes "name") (str (bytes "Plan")) end))
                    (field (bytes "listAfter")
                      (obj (
                        field (bytes "name") (str (bytes "In action"))
                          (field (bytes "id") (str (bytes "l2")) end)))
                      end))))
              end))))
      end

entries_chronological-append_entries_example :
    entries_chronological {A = ℕ} (append_entries (new_ring 64 2) (7 ∷ 8 ∷ 9 ∷ [])) ≡ 8 ∷ 9 ∷ []
entries_chronological-append_entries_example =
    entries_chronological-append_entries 64 2 (7 ∷ 8 ∷ 9 ∷ []) (omega arith)

abbrev registered : GlobalEvent
registered = record { at = 5; card_id = card; kind = bytes "worker_registered"; summary = [] }

global_entries-record_all_example :
    global_entries (some (record_all (new_global_event_log 0) (registered ∷ registered ∷ [])))
    ≡ last 128 (registered ∷ registered ∷ [])
global_entries-record_all_example = global_entries-record_all 0 (registered ∷ registered ∷ [])

slim_raw_body-keeps_example :
    All (λ p. nested_string (must_slim (some moved_card)) p ≡ nested_string moved_card p) kept_paths
unfolding must_slim slim_raw_body
slim_raw_body-keeps_example = slim_raw_body-keeps moved_card (must_slim (some moved_card)) refl

slim_raw_body-other_example :
    nested_string
      (must_slim (some moved_card))
      (bytes "action" ∷ bytes "data" ∷ bytes "card" ∷ bytes "name" ∷ [])
    ≡ none
unfolding must_slim slim_raw_body
slim_raw_body-other_example =
    slim_raw_body-other moved_card (must_slim (some moved_card))
      (bytes "action" ∷ bytes "data" ∷ bytes "card" ∷ bytes "name" ∷ []) refl
      (
        λ e. absurd (ground arith),
        (
          λ e. absurd (ground arith),
          (
            λ e. absurd (ground arith),
            (
              λ e. absurd (ground arith),
              (λ e. absurd (ground arith), (λ e. absurd (ground arith), tt)),
            ),
          ),
        ),
      )

is_valid_card_id_iff_example :
    (is_valid_card_id card ≡ true) ↔ (All IsSlugByte card × (3 ≤ length card) × (length card ≤ 64))
is_valid_card_id_iff_example = is_valid_card_id_iff card

sanitize_for_filename-IsName_example :
    All IsSlugByte (sanitize_for_filename (bytes "a/../b"))
    × (0 < length (sanitize_for_filename (bytes "a/../b")))
    × (length (sanitize_for_filename (bytes "a/../b")) ≤ 64)
sanitize_for_filename-IsName_example = sanitize_for_filename-IsName (bytes "a/../b")

sanitize_for_filename-card_id_example : sanitize_for_filename card ≡ card
unfolding is_valid_card_id trello_openclaw_webhook.Prelude.◌==◌
sanitize_for_filename-card_id_example = sanitize_for_filename-card_id card refl

preview-IsInLine_example : All IsInLine (preview (10 ∷ bytes "two lines") 4)
preview-IsInLine_example = preview-IsInLine (10 ∷ bytes "two lines") 4
