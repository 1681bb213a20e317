-- ===== src/Tunnel/Ownership.antt =====
-- Which webhooks a start and a shutdown of internal/app/tunnel_startup.go leave in place.
use mathlib.Core.Path.{subst}
use mathlib.Core.Option.{some-injective}
use trello_openclaw_webhook.Prelude.{
  ℕ, zero, suc, ◌+◌, ◌≡◌, ◌≢◌, refl, ap, ◌∙◌, Bool, true, false, not, ◌||◌, Option, none, some,
  List, [], ◌∷◌, Str, bytes, ◌==◌, ◌⊎◌, inl, inr, arith, Bool-cases,
}
use trello_openclaw_webhook.Trello.{Error, Webhook, canceled}
use trello_openclaw_webhook.Trello.Webhooks.{
  WebhookClient, Owned, reconcile_board_webhook, reconcile_hooks, with_hooks, updated,
  created_webhook, is_webhook_validator_retryable,
}
use trello_openclaw_webhook.Tunnel.{
  Waiting, Retried, retry_from, Started, not_started, reconciled, retried_start, with_url,
  start_tunnel_and_reconcile, delete_gateway_created_webhook, ended, after_wait,
  webhook_reconcile_retry_delay,
}

-- What Trello documents: `registered` are the ids of the webhooks that exist. Listing and updating
-- remove none, a new webhook has a new id, and a deletion removes no other webhook.
pub record WebhookLaws (c : WebhookClient) : Type 0 where
  pub registered : c.State → Str → Bool
  pub list-keeps :
      (token id : Str) (s : c.State)
      → registered s id ≡ true
      → registered (c.list_token_webhooks token s).0 id ≡ true
  pub update-keeps :
      (webhook_id callback_url id : Str) (s : c.State)
      → registered s id ≡ true
      → registered (c.update_webhook_callback webhook_id callback_url s).0 id ≡ true
  pub create-keeps :
      (token board_id callback_url description id : Str) (s : c.State)
      → registered s id ≡ true
      → registered (c.create_token_webhook token board_id callback_url description s).0 id ≡ true
  pub create-new :
      (token board_id callback_url description : Str) (s : c.State) (hook : Webhook)
      → (c.create_token_webhook token board_id callback_url description s).1 ≡ inr hook
      → registered s hook.id ≡ false
  pub delete-keeps :
      (token webhook_id id : Str) (s : c.State)
      → webhook_id ≢ id
      → registered s id ≡ true
      → registered (c.delete_webhook token webhook_id s).0 id ≡ true

module _ (c : WebhookClient) (laws : WebhookLaws c) (token board_id : Str) (id : Str) where
  -- The webhook `id` is still there, and it is not one that the gateway owns.
  abbrev IsKept : c.State × (Error ⊎ Owned) → Type 0
  IsKept (s, result) =
      (laws.registered s id ≡ true)
      × ((owned : Owned) → result ≡ inr owned → owned.1 ≡ true → owned.0 ≢ id)

  updated-IsKept :
      (webhook_id : Str) (answer : c.State × Option Error)
      → laws.registered answer.0 id ≡ true
      → IsKept (updated c webhook_id answer)
  updated-IsKept webhook_id (s, some err) there = (there, λ owned e. absurd (ground arith))
  updated-IsKept webhook_id (s, none) there = (there, λ owned e new same. absurd (ground arith))

  created-IsKept :
      (before : c.State) (answer : c.State × (Error ⊎ Webhook))
      → laws.registered before id ≡ true
      → laws.registered answer.0 id ≡ true
      → ((hook : Webhook) → answer.1 ≡ inr hook → laws.registered before hook.id ≡ false)
      → IsKept (created_webhook c answer)
  created-IsKept before (s, inl err) was there fresh = (there, λ owned e. absurd (ground arith))
  created-IsKept before (s, inr hook) was there fresh = (
    there,
    λ owned e new same.
        let this : hook.id ≡ id =
          ap (λ (r : Error ⊎ Owned). elim r [ inl _ ↦ hook.id | inr o ↦ o.0 ]) e ∙ same in
        absurd (ground (arith, fresh hook refl, ap (laws.registered before) this)),
  )

  reconcile_hooks-IsKept :
      (callback_url : Str) (hooks : List Webhook) (s : c.State)
      → laws.registered s id ≡ true
      → IsKept (reconcile_hooks c token board_id callback_url hooks s)
  unfolding reconcile_hooks
  reconcile_hooks-IsKept callback_url [] s there =
      created-IsKept s (c.create_token_webhook token board_id callback_url (bytes "jjc-gateway") s)
        there (laws.create-keeps token board_id callback_url (bytes "jjc-gateway") id s there)
        (λ hook e. laws.create-new token board_id callback_url (bytes "jjc-gateway") s hook e)
  reconcile_hooks-IsKept callback_url (hook ∷ hooks) s there =
      elim (Bool-cases (hook.id_model == board_id)) [
        | inl ours ↦
            rw (ours, reconcile_hooks)
              (updated-IsKept hook.id (c.update_webhook_callback hook.id callback_url s)
                (laws.update-keeps hook.id callback_url id s there))
        | inr other ↦
            rw (other, reconcile_hooks) (reconcile_hooks-IsKept callback_url hooks s there)
      ]

  with_hooks-IsKept :
      (callback_url : Str) (answer : c.State × (Error ⊎ List Webhook))
      → laws.registered answer.0 id ≡ true
      → IsKept (with_hooks c token board_id callback_url answer)
  with_hooks-IsKept callback_url (s, inl err) there = (there, λ owned e. absurd (ground arith))
  with_hooks-IsKept callback_url (s, inr hooks) there =
      reconcile_hooks-IsKept callback_url hooks s there

  reconcile-IsKept :
      (callback_url : Str) (s : c.State)
      → laws.registered s id ≡ true
      → IsKept (reconcile_board_webhook c token board_id callback_url s)
  unfolding reconcile_board_webhook
  reconcile-IsKept callback_url s there =
      with_hooks-IsKept callback_url (c.list_token_webhooks token s)
        (laws.list-keeps token id s there)

  -- The same for the state and the outcome of the retries.
  abbrev RetriesKeep : Retried c → Type 0
  RetriesKeep r =
      (laws.registered r.state id ≡ true)
      × ((owned : Owned) → r.outcome ≡ some (inr owned) → owned.1 ≡ true → owned.0 ≢ id)

  module _ (v : Waiting) (public_url : Str) where
    round-keeps :
        (rounds attempt : ℕ) (after : c.State) (result : Error ⊎ Owned)
        → IsKept (after, result)
        → RetriesKeep (retry_from c v token board_id public_url rounds (attempt + 1) after)
        → RetriesKeep (elim result [
          | inr owned ↦ ended c after (inr owned)
          | inl err ↦ elim (is_webhook_validator_retryable v.error_field err) [
            | false ↦ ended c after (inl err)
            | true ↦ elim (v.canceled_at attempt) [
              | true ↦
                  after_wait c
                    (webhook_reconcile_retry_delay attempt)
                    (ended c after (inl canceled))
              | false ↦
                  after_wait c
                    (webhook_reconcile_retry_delay attempt)
                    (retry_from c v token board_id public_url rounds (attempt + 1) after)
            ]
          ]
        ])
    round-keeps rounds attempt after (inr owned) kept later =
        (kept.0, λ found e new. kept.1 found (ground arith) new)
    round-keeps rounds attempt after (inl err) kept later =
        elim (Bool-cases (is_webhook_validator_retryable v.error_field err)) [
          | inr permanent ↦ rw permanent (kept.0, λ found e. absurd (ground arith))
          | inl retryable ↦ rw retryable (elim (Bool-cases (v.canceled_at attempt)) [
            | inl stops ↦ rw stops (kept.0, λ found e. absurd (ground arith))
            | inr goes_on ↦ rw goes_on later
          ])
        ]

    retry_from-keeps :
        (rounds attempt : ℕ) (s : c.State)
        → laws.registered s id ≡ true
        → RetriesKeep (retry_from c v token board_id public_url rounds attempt s)
    unfolding retry_from
    retry_from-keeps zero attempt s there = (there, λ owned e. absurd (ground arith))
    retry_from-keeps (suc rounds) attempt s there =
        let kept : IsKept (reconcile_board_webhook c token board_id public_url s) =
          reconcile-IsKept public_url s there in
        round-keeps rounds attempt (reconcile_board_webhook c token board_id public_url s).0
          (reconcile_board_webhook c token board_id public_url s).1 kept
          (retry_from-keeps rounds (attempt + 1)
            (reconcile_board_webhook c token board_id public_url s).0 kept.0)

  -- The same for a start.
  abbrev StartKeeps : Started c → Type 0
  StartKeeps st =
      (laws.registered st.state id ≡ true) × (st.created_now ≡ true → st.webhook_id ≢ id)

  reconciled-keeps :
      (callback_url public_url : Str) (s : c.State) (result : Error ⊎ Owned)
      → laws.registered s id ≡ true
      → ((owned : Owned) → result ≡ inr owned → owned.1 ≡ true → owned.0 ≢ id)
      → StartKeeps (reconciled c callback_url public_url s result)
  reconciled-keeps callback_url public_url s (inl err) there ours =
      (there, λ new. absurd (ground arith))
  reconciled-keeps callback_url public_url s (inr (webhook_id, created_now)) there ours =
      (there, ours (webhook_id, created_now) refl)

  retried_start-keeps :
      (callback_url public_url : Str) (s : c.State) (waits : List ℕ)
      (outcome : Option (Error ⊎ Owned)) (st : Started c)
      → RetriesKeep (record { state = s; waits = waits; outcome = outcome })
      → retried_start c callback_url public_url
          (record { state = s; waits = waits; outcome = outcome })
        ≡ some st
      → StartKeeps st
  retried_start-keeps callback_url public_url s waits none st kept e = absurd (ground arith)
  retried_start-keeps callback_url public_url s waits (some result) st kept e =
      subst StartKeeps (some-injective _ _ e) (
        reconciled-keeps callback_url public_url s result kept.0
          (λ owned same. kept.1 owned (ap some same)))

  with_url-keeps :
      (v : Waiting) (callback_url : Str) (rounds : ℕ) (start : Error ⊎ Str) (s : c.State)
      (st : Started c)
      → laws.registered s id ≡ true
      → with_url c v token board_id callback_url rounds start s ≡ some st
      → StartKeeps st
  with_url-keeps v callback_url rounds (inl err) s st there e =
      subst StartKeeps (some-injective _ _ e) (there, λ new. absurd (ground arith))
  with_url-keeps v callback_url rounds (inr public_url) s st there e =
      let r : Retried c = retry_from c v token board_id public_url rounds 1 s in
      retried_start-keeps callback_url public_url r.state r.waits r.outcome st
        (retry_from-keeps v public_url rounds 1 s there) e

  start-keeps :
      (v : Waiting) (tunnel callback_url : Str) (start : Error ⊎ Str) (rounds : ℕ) (s : c.State)
      (st : Started c)
      → laws.registered s id ≡ true
      → start_tunnel_and_reconcile c v tunnel token board_id callback_url start rounds s ≡ some st
      → StartKeeps st
  unfolding start_tunnel_and_reconcile
  start-keeps v tunnel callback_url start rounds s st there e =
      elim (Bool-cases (tunnel == bytes "none")) [
        | inl off ↦
            let idle : some (not_started c s callback_url false none) ≡ some st = rw off at e in
            subst StartKeeps (some-injective _ _ idle) (there, λ new. absurd (ground arith))
        | inr on ↦ with_url-keeps v callback_url rounds start s st there (rw on at e)
      ]

  -- However the start of the tunnel ends, a webhook that existed before it is still there after
  -- the shutdown has deleted the webhook that the start reports as created by the gateway.
  pub delete_gateway_created_webhook-start :
      (v : Waiting) (tunnel callback_url : Str) (start : Error ⊎ Str) (rounds : ℕ) (s : c.State)
      (st : Started c)
      → laws.registered s id ≡ true
      → start_tunnel_and_reconcile c v tunnel token board_id callback_url start rounds s ≡ some st
      → laws.registered
          (delete_gateway_created_webhook c token st.webhook_id st.created_now st.state).0
          id
        ≡ true
  unfolding delete_gateway_created_webhook
  delete_gateway_created_webhook-start v tunnel callback_url start rounds s st there e =
      let (kept, ours) = start-keeps v tunnel callback_url start rounds s st there e in
      elim (Bool-cases (not st.created_now || st.webhook_id == [])) [
        | inl skipped ↦ rw skipped kept
        | inr owned ↦
            rw owned (laws.delete-keeps token st.webhook_id id st.state (ours (ground arith)) kept)
      ]
