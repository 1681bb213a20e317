-- ===== src/Tunnel.antt =====
-- internal/app/tunnel_startup.go: the webhook of the gateway, from the tunnel's start to the
-- shutdown. The tunnel's provider and its timeouts are parameters.
pub mod Retry
pub mod Ownership
use trello_openclaw_webhook.Prelude.{
  ℕ, zero, suc, ◌+◌, ◌-◌, ◌*◌, Bool, true, false, not, ◌||◌, Option, none, some, List, [], ◌∷◌,
  ◌++◌, Str, bytes, ◌==◌, ◌⊎◌, inl, inr, if◌then◌else◌, leb,
}
use trello_openclaw_webhook.Trello.{Error, canceled}
use trello_openclaw_webhook.Trello.Webhooks.{
  WebhookClient, Owned, reconcile_board_webhook, is_webhook_validator_retryable,
}

-- `webhookReconcileInitialBackoff` and `webhookReconcileMaxBackoff`, in milliseconds
abbrev pub initial_backoff : ℕ
initial_backoff = 500

abbrev pub max_backoff : ℕ
max_backoff = 10000

-- The loop with the number of rounds that are left.
unfoldable pub doubled : (rounds delay : ℕ) → ℕ
doubled zero delay = delay
doubled (suc rounds) delay =
    let further = doubled rounds (delay * 2) in
    if leb max_backoff (delay * 2) then max_backoff else further

unfoldable pub webhook_reconcile_retry_delay : (failed_attempt : ℕ) → ℕ
unfolding doubled
webhook_reconcile_retry_delay failed_attempt = doubled (failed_attempt - 1) initial_backoff

-- What the retries need to know: when a wait is canceled, and how a body's `error` is decoded.
pub record Waiting : Type 0 where
  pub canceled_at : (attempt : ℕ) → Bool
  pub error_field : Str → Option Str

module _ (c : WebhookClient) where
  -- The state, the delays of the waits, and the outcome, `none` while the loop goes on.
  pub record Retried : Type 0 where
    pub state : c.State
    pub waits : List ℕ
    pub outcome : Option (Error ⊎ Owned)

  abbrev pub ended : c.State → Error ⊎ Owned → Retried
  ended s result = record { state = s; waits = []; outcome = some result }

  abbrev pub after_wait : ℕ → Retried → Retried
  after_wait delay r = record { state = r.state; waits = delay ∷ r.waits; outcome = r.outcome }

  -- The loop, for some rounds.
  unfoldable pub retry_from :
      Waiting → (token board_id public_url : Str) → (rounds attempt : ℕ) → c.State → Retried
  unfolding reconcile_board_webhook is_webhook_validator_retryable webhook_reconcile_retry_delay
  retry_from v token board_id public_url zero attempt s = record {
    state = s;
    waits = [];
    outcome = none;
  }
  retry_from v token board_id public_url (suc rounds) attempt s =
      elim ((reconcile_board_webhook c token board_id public_url s).1) [
        | inr owned ↦ ended (reconcile_board_webhook c token board_id public_url s).0 (inr owned)
        | inl err ↦ elim (is_webhook_validator_retryable v.error_field err) [
          | false ↦ ended (reconcile_board_webhook c token board_id public_url s).0 (inl err)
          | true ↦ elim (v.canceled_at attempt) [
            | true ↦
                after_wait (webhook_reconcile_retry_delay attempt)
                  (ended (reconcile_board_webhook c token board_id public_url s).0 (inl canceled))
            | false ↦ after_wait (webhook_reconcile_retry_delay attempt) (
                retry_from v token board_id public_url rounds (attempt + 1)
                  (reconcile_board_webhook c token board_id public_url s).0)
          ]
        ]
      ]

  -- What a start leaves behind: with a failed start the id is empty.
  pub record Started : Type 0 where
    pub state : c.State
    pub webhook_id : Str
    pub created_now : Bool
    pub callback_url : Str
    pub provider_stopped : Bool
    pub failure : Option Error

  abbrev pub not_started : c.State → Str → (stopped : Bool) → Option Error → Started
  not_started s callback_url stopped failure = record {
    state = s;
    webhook_id = [];
    created_now = false;
    callback_url = callback_url;
    provider_stopped = stopped;
    failure = failure;
  }

  -- After the retries: the provider is stopped where they fail.
  abbrev pub reconciled : (callback_url public_url : Str) → c.State → Error ⊎ Owned → Started
  reconciled callback_url public_url s (inl err) = not_started s callback_url true (some err)
  reconciled callback_url public_url s (inr (webhook_id, created_now)) = record {
    state = s;
    webhook_id = webhook_id;
    created_now = created_now;
    callback_url = public_url;
    provider_stopped = false;
    failure = none;
  }

  abbrev pub retried_start : (callback_url public_url : Str) → Retried → Option Started
  retried_start callback_url public_url r = elim (r.outcome) [
    | none ↦ none
    | some result ↦ some (reconciled callback_url public_url r.state result)
  ]

  -- `start` is the result of the provider's `Start`.
  abbrev pub with_url :
      Waiting
      → (token board_id callback_url : Str) → (rounds : ℕ) → Error ⊎ Str
      → c.State
      → Option Started
  with_url v token board_id callback_url rounds (inl err) s =
      some (not_started s callback_url false (some err))
  with_url v token board_id callback_url rounds (inr public_url) s =
      retried_start callback_url public_url (retry_from v token board_id public_url rounds 1 s)

  -- `StartTunnelAndReconcileWithOwnership` for a config, a provider and a client that are not nil.
  unfoldable pub start_tunnel_and_reconcile :
      Waiting
      → (tunnel token board_id callback_url : Str) → (start : Error ⊎ Str) → (rounds : ℕ) → c.State
      → Option Started
  unfolding retry_from
  start_tunnel_and_reconcile v tunnel token board_id callback_url start rounds s =
      if tunnel == bytes "none"
      then some (not_started s callback_url false none)
      else with_url v token board_id callback_url rounds start s

  unfoldable pub delete_gateway_created_webhook :
      (token webhook_id : Str) → (created_now : Bool) → c.State → c.State × Option Error
  delete_gateway_created_webhook token webhook_id created_now s =
      if not created_now || webhook_id == [] then (s, none) else c.delete_webhook token webhook_id s
