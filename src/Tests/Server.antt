-- ===== src/Tests/Server.antt =====
-- Runs of the webhook handler at concrete requests.
use trello_openclaw_webhook.Prelude.{◌++◌, ◌≡◌, ◌≢◌, ◌↔◌, refl, some, false, ◌∷◌, bytes}
use trello_openclaw_webhook.Server.{Crypto, Request, serve}
use trello_openclaw_webhook.Server.Guards.{serve_iff, IsSigned}

-- A signature that names its key.
abbrev crypto : Crypto
crypto = record { hmac_sha1 = λ key message. key ++ message; base64 = λ s. s }

abbrev delivery : Request
delivery = record {
  method = bytes "POST";
  path = bytes "/";
  content_length = some 2;
  received = bytes "{}";
  stream_fails = false;
  signature = bytes "s{}u";
}

serve_iff_example :
    ((serve crypto (bytes "s") (bytes "u") delivery).handled ≡ some (bytes "{}"))
    ↔ IsSigned crypto (bytes "s") (bytes "u") delivery (bytes "{}")
serve_iff_example = serve_iff crypto (bytes "s") (bytes "u") delivery (bytes "{}")

delivery_is_accepted :
    serve crypto (bytes "s") (bytes "u") delivery
    ≡ record { status = 202; handled = some (bytes "{}") }
unfolding serve trello_openclaw_webhook.Prelude.◌==◌
delivery_is_accepted = refl
