-- ===== src/Server.antt =====
-- internal/app/server.go, verify.go, and the handlers of internal/app/tunnel_startup.go: what the
-- gateway answers to a request, and which bodies it passes to `CopilotRunner.Handle`.
pub mod Guards
use trello_openclaw_webhook.Prelude.{
  ℕ, Bool, false, not, ◌||◌, Option, none, some, [], ◌++◌, Str, bytes, ◌==◌, ltb, length,
  if◌then◌else◌,
}

-- Package crypto and encoding/base64.
pub record Crypto : Type 0 where
  pub hmac_sha1 : (key message : Str) → Str
  pub base64 : Str → Str

-- `hmac.Equal` compares all bytes.
unfoldable pub verify_signature : Crypto → (secret raw_body callback_url header_value : Str) → Bool
verify_signature crypto secret raw_body callback_url header_value =
    if secret == [] || (callback_url == [] || header_value == [])
    then false
    else crypto.base64 (crypto.hmac_sha1 secret (raw_body ++ callback_url)) == header_value

unfoldable pub max_webhook_body_bytes : ℕ
max_webhook_body_bytes = 1048576

-- `content_length` is `none` where it is unknown; the stream of the body gives `received` and then
-- ends, or fails.
pub record Request : Type 0 where
  pub method : Str
  pub path : Str
  pub content_length : Option ℕ
  pub received : Str
  pub stream_fails : Bool
  pub signature : Str

-- The status, and the body that the dispatch goroutine hands to `Handle`.
pub record Reaction : Type 0 where
  pub status : ℕ
  pub handled : Option Str

abbrev pub refuse_with : ℕ → Reaction
refuse_with status = record { status = status; handled = none }

pub data Read : Type 0 where
  too_large read_error : Read
  whole : Str → Read

-- `io.ReadAll` on a `http.MaxBytesReader`
unfoldable pub read_limited : (limit : ℕ) → (received : Str) → (stream_fails : Bool) → Read
read_limited limit received stream_fails =
    if ltb limit (length received)
    then too_large
    else if stream_fails
    then read_error
    else whole received

abbrev pub exceeds : ℕ → Option ℕ → Bool
exceeds limit none = false
exceeds limit (some n) = ltb limit n

module _ (crypto : Crypto) (trello_secret callback_url : Str) where
  abbrev pub checked : (signature : Str) → Read → Reaction
  checked signature too_large = refuse_with 413
  checked signature read_error = refuse_with 400
  checked signature (whole raw) =
      if not (verify_signature crypto trello_secret raw callback_url signature)
      then refuse_with 403
      else record { status = 202; handled = some raw }

  -- The handler of `POST /`.
  unfoldable pub post : Request → Reaction
  unfolding verify_signature max_webhook_body_bytes read_limited
  post req =
      if exceeds max_webhook_body_bytes req.content_length
      then refuse_with 413
      else checked req.signature (read_limited max_webhook_body_bytes req.received req.stream_fails)

  -- The routes of `NewRouterWithRunner`.
  unfoldable pub serve : Request → Reaction
  unfolding post
  serve req =
      if not (req.path == bytes "/")
      then refuse_with 404
      else if req.method == bytes "POST"
      then post req
      else if req.method == bytes "HEAD"
      then refuse_with 200
      else refuse_with 405

-- `NewValidationHandler`
unfoldable pub validate_only : Request → Reaction
validate_only req =
    if not (req.path == bytes "/")
    then refuse_with 404
    else if not (req.method == bytes "HEAD")
    then refuse_with 405
    else refuse_with 200

-- `switchableHandler.ServeHTTP` with the handler that is set at the time.
unfoldable pub serve_switchable : Option (Request → Reaction) → Request → Reaction
serve_switchable none req = refuse_with 503
serve_switchable (some handler) req = handler req
