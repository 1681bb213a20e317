-- ===== src/Trello/Webhooks.antt =====
-- `ReconcileBoardWebhook` and `IsWebhookValidatorRetryable` of internal/app/trelloclient/client.go.
use trello_openclaw_webhook.Prelude.{
  Bool, true, false, ◌||◌, Option, none, some, List, [], ◌∷◌, Str, bytes, ◌==◌, ◌⊎◌, inl, inr,
  nat_eq, if◌then◌else◌, contains_str,
}
use trello_openclaw_webhook.Trello.{Webhook, Error, status_error}

-- The part of `Client` that the webhooks need; `State` is what the server holds. `none` is the nil
-- error.
pub record WebhookClient : Type 1 where
  pub State : Type 0
  pub list_token_webhooks : (token : Str) → State → State × (Error ⊎ List Webhook)
  pub update_webhook_callback : (webhook_id callback_url : Str) → State → State × Option Error
  pub create_token_webhook :
      (token board_id callback_url description : Str) → State → State × (Error ⊎ Webhook)
  pub delete_webhook : (token webhook_id : Str) → State → State × Option Error

-- The webhook's id, and whether this call created it.
abbrev pub Owned : Type 0
Owned = Str × Bool

module _ (c : WebhookClient) where
  abbrev pub updated : (webhook_id : Str) → c.State × Option Error → c.State × (Error ⊎ Owned)
  updated webhook_id (s, some err) = (s, inl err)
  updated webhook_id (s, none) = (s, inr (webhook_id, false))

  abbrev pub created_webhook : c.State × (Error ⊎ Webhook) → c.State × (Error ⊎ Owned)
  created_webhook (s, inl err) = (s, inl err)
  created_webhook (s, inr hook) = (s, inr (hook.id, true))

  -- The loop over the token's webhooks.
  unfoldable pub reconcile_hooks :
      (token board_id callback_url : Str) → List Webhook → c.State → c.State × (Error ⊎ Owned)
  reconcile_hooks token board_id callback_url [] s =
      created_webhook (c.create_token_webhook token board_id callback_url (bytes "jjc-gateway") s)
  reconcile_hooks token board_id callback_url (hook ∷ hooks) s = elim (hook.id_model == board_id) [
    | true ↦ updated hook.id (c.update_webhook_callback hook.id callback_url s)
    | false ↦ reconcile_hooks token board_id callback_url hooks s
  ]

  abbrev pub with_hooks :
      (token board_id callback_url : Str)
      → c.State × (Error ⊎ List Webhook)
      → c.State × (Error ⊎ Owned)
  with_hooks token board_id callback_url (s, inl err) = (s, inl err)
  with_hooks token board_id callback_url (s, inr hooks) =
      reconcile_hooks token board_id callback_url hooks s

  -- For a client that is not nil.
  unfoldable pub reconcile_board_webhook :
      (token board_id callback_url : Str) → c.State → c.State × (Error ⊎ Owned)
  unfolding reconcile_hooks
  reconcile_board_webhook token board_id callback_url s =
      with_hooks token board_id callback_url (c.list_token_webhooks token s)

validator_code : Str → Bool
validator_code code =
    code == bytes "VALIDATOR_URL_NOT_REACHABLE" || code == bytes "VALIDATOR_URL_RETURNED_ERROR"

has_code : Option Str → Bool
unfolding validator_code
has_code none = false
has_code (some code) = validator_code code

-- `error_field` decodes the field `error` of a JSON body.
unfoldable pub is_webhook_validator_retryable : (error_field : Str → Option Str) → Error → Bool
unfolding has_code contains_str
is_webhook_validator_retryable error_field (status_error status body) =
    if nat_eq status 400
    then has_code (error_field body)
      || (contains_str body (bytes "VALIDATOR_URL_NOT_REACHABLE")
          || contains_str body (bytes "VALIDATOR_URL_RETURNED_ERROR"))
    else false
is_webhook_validator_retryable error_field _ = false
