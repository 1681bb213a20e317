-- ===== src/Trello/CardInfo.antt =====
-- internal/app/cardinfo.go: what the parsing of GitHub links and the rules are told about a card.
-- A nil client is `none`.
use trello_openclaw_webhook.Prelude.{
  Option, none, some, [], ◌∷◌, Str, bytes, ◌==◌, ◌⊎◌, inl, inr, if◌then◌else◌, trim_space, join,
}
use trello_openclaw_webhook.Router.Rule.{CardSignals}
use trello_openclaw_webhook.Trello.{Card, ListRef, Error, client_is_nil, empty_argument}
use trello_openclaw_webhook.Trello.Tools.{CardClient}

abbrev pub info_text : Error ⊎ Card → Error ⊎ Str
info_text (inl err) = inl err
info_text (inr card) = inr (
    trim_space (
      join (trim_space card.name ∷ trim_space card.first_line ∷ trim_space card.desc ∷ [])
        (0x0A ∷ [])))

-- `NewSDKCardInfoFetcher`
unfoldable pub fetch_card_info : Option CardClient → (card_id : Str) → Error ⊎ Str
unfolding join trim_space
fetch_card_info none card_id = inl client_is_nil
fetch_card_info (some client) card_id =
    if card_id == []
    then inl (empty_argument (bytes "card id"))
    else info_text (client.get_card card_id)

abbrev pub list_name_of : Error ⊎ ListRef → Str
list_name_of (inl err) = []
list_name_of (inr l) = trim_space l.name

abbrev pub signals_of : Error ⊎ Card → Error ⊎ ListRef → Error ⊎ CardSignals
signals_of (inl err) l = inl err
signals_of (inr card) l = inr (record {
  id = card.id;
  name = trim_space card.name;
  list_name = list_name_of l;
  first_line = trim_space card.first_line;
  labels = [];
})

-- `NewSDKCardSignalsFetcher`
unfoldable pub fetch_card_signals : Option CardClient → (card_id : Str) → Error ⊎ CardSignals
unfolding trim_space
fetch_card_signals none card_id = inl client_is_nil
fetch_card_signals (some client) card_id =
    if card_id == []
    then inl (empty_argument (bytes "card id"))
    else signals_of (client.get_card card_id) (client.get_card_list card_id)
