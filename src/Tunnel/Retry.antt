-- ===== src/Tunnel/Retry.antt =====
-- The retries of `reconcileBoardWebhookWithRetry` of internal/app/tunnel_startup.go.
use Prim.Native.Nat.{min}
use native.Mathlib.Nat.{pow-succ'}
use trello_openclaw_webhook.Prelude.{
  ℕ, zero, suc, ◌+◌, ◌-◌, ◌*◌, ◌^◌, ◌≤◌, ◌<◌, ◌≡◌, ap, true, false, some, List, [], ◌∷◌, Str, ◌⊎◌,
  inl, inr, arith,
}
use trello_openclaw_webhook.Trello.{Error}
use trello_openclaw_webhook.Trello.Webhooks.{
  WebhookClient, Owned, reconcile_board_webhook, is_webhook_validator_retryable,
}
use trello_openclaw_webhook.Tunnel.{
  Waiting, retry_from, after_wait, ended, webhook_reconcile_retry_delay, doubled,
}

-- The double of the delay for each failed attempt, at most ten seconds.
abbrev pub backoff : (failed : ℕ) → ℕ
backoff failed = min (500 * 2 ^ failed) 10000

pow_step : (x n : ℕ) → x * 2 ^ suc n ≡ x * 2 * 2 ^ n
pow_step x n = grind (arith, pow-succ' 2 n)

le_pow : (x n : ℕ) → x ≤ x * 2 ^ n
le_pow x zero = omega arith
le_pow x (suc n) = omega (arith, le_pow (x * 2) n, pow_step x n)

doubled-min :
    (rounds delay : ℕ) → delay ≤ 10000 → doubled rounds delay ≡ min (delay * 2 ^ rounds) 10000
unfolding doubled
doubled-min zero delay small = omega arith
doubled-min (suc rounds) delay small =
    ground (arith, doubled-min rounds (delay * 2), le_pow (delay * 2) rounds, pow_step delay rounds)

retry_delay-backoff : (failed : ℕ) → webhook_reconcile_retry_delay (failed + 1) ≡ backoff failed
unfolding webhook_reconcile_retry_delay
retry_delay-backoff failed =
    let before : failed + 1 - 1 ≡ failed = omega arith in
    rw before (doubled-min failed 500 (omega arith))

-- The delays of some attempts in a row.
abbrev pub backoffs : (failed attempts : ℕ) → List ℕ
backoffs failed zero = []
backoffs failed (suc attempts) = backoff failed ∷ backoffs (failed + 1) attempts

module _ (c : WebhookClient) (v : Waiting) (token board_id public_url : Str) where
  -- So many attempts fail because Trello cannot reach the URL, and the next one succeeds.
  abbrev pub Recovers : (attempts : ℕ) → (s after : c.State) → Owned → Type 0
  Recovers zero s after owned =
      reconcile_board_webhook c token board_id public_url s ≡ (after, inr owned)
  Recovers (suc attempts) s after owned =
      (err : Error) × ((reconcile_board_webhook c token board_id public_url s).1 ≡ inl err)
      × (is_webhook_validator_retryable v.error_field err ≡ true)
      × Recovers attempts (reconcile_board_webhook c token board_id public_url s).0 after owned

  retry_after :
      (attempts rounds failed : ℕ) (s after : c.State) (owned : Owned)
      → Recovers attempts s after owned
      → ((attempt : ℕ) → v.canceled_at attempt ≡ false)
      → attempts < rounds
      → retry_from c v token board_id public_url rounds (failed + 1) s
        ≡ record { state = after; waits = backoffs failed attempts; outcome = some (inr owned) }
  unfolding retry_from
  retry_after attempts zero failed s after owned h waits enough = absurd (omega arith)
  retry_after zero (suc rounds) failed s after owned h waits enough =
      rw (h, retry_from) (ap (λ (r : c.State × (Error ⊎ Owned)). ended c r.0 (inr owned)) h)
  retry_after (suc attempts) (suc rounds) failed s after owned (err, fails, retryable, later) waits
        enough =
      rw (fails, retry_from)
        (rw (retryable, waits (failed + 1), retry_delay-backoff failed)
          (ap (after_wait c (backoff failed)) (
            retry_after attempts rounds (failed + 1)
              (reconcile_board_webhook c token board_id public_url s).0 after owned later waits
              (omega arith))))

  -- When attempts fail because Trello cannot reach the callback URL, the next attempt succeeds,
  -- and no wait is canceled, the retries end with its webhook; they have waited after each
  -- failed attempt, for half a second and then twice as long each time, at most ten seconds.
  pub retry_from-Recovers :
      (attempts rounds : ℕ) (s after : c.State) (owned : Owned)
      → Recovers attempts s after owned
      → ((attempt : ℕ) → v.canceled_at attempt ≡ false)
      → attempts < rounds
      → retry_from c v token board_id public_url rounds 1 s
        ≡ record { state = after; waits = backoffs 0 attempts; outcome = some (inr owned) }
  retry_from-Recovers attempts rounds s after owned h waits enough =
      retry_after attempts rounds 0 s after owned h waits enough
