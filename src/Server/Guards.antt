-- ===== src/Server/Guards.antt =====
-- The guards of the webhook handler of internal/app/server.go.
use trello_openclaw_webhook.Prelude.{
  ℕ, ◌≡◌, ◌≢◌, ◌↔◌, ◌≤◌, Bool, true, false, Option, none, some, [], ◌++◌, Str, bytes, length, arith,
  eq_iff,
}
use trello_openclaw_webhook.Server.{
  Crypto, Request, Read, too_large, read_error, whole, checked, exceeds, read_limited,
  verify_signature, max_webhook_body_bytes, post, serve,
}

-- No larger than a bound, where it is known.
abbrev pub IsWithin : ℕ → Option ℕ → Type 0
IsWithin limit none = Unit
IsWithin limit (some n) = n ≤ limit

module _ (crypto : Crypto) (trello_secret callback_url : Str) where
  -- A whole body of bounded size with a signature by the secret.
  pub record IsSigned (req : Request) (raw : Str) : Type 0 where
    pub to_root : req.path ≡ bytes "/"
    pub by_post : req.method ≡ bytes "POST"
    pub announced : IsWithin max_webhook_body_bytes req.content_length
    pub bounded : length raw ≤ max_webhook_body_bytes
    pub arrived : req.received ≡ raw
    pub complete : req.stream_fails ≡ false
    pub has_secret : trello_secret ≢ []
    pub has_url : callback_url ≢ []
    pub has_signature : req.signature ≢ []
    pub signed :
        crypto.base64 (crypto.hmac_sha1 trello_secret (raw ++ callback_url)) ≡ req.signature

  verify_signature_iff :
      (raw signature : Str)
      → (verify_signature crypto trello_secret raw callback_url signature ≡ true) ↔ (
          (trello_secret ≢ [])
          × (callback_url ≢ [])
          × (signature ≢ [])
          × (crypto.base64 (crypto.hmac_sha1 trello_secret (raw ++ callback_url)) ≡ signature))
  unfolding verify_signature
  verify_signature_iff raw signature = ground (
    arith,
    eq_iff trello_secret [],
    eq_iff callback_url [],
    eq_iff signature [],
    eq_iff (crypto.base64 (crypto.hmac_sha1 trello_secret (raw ++ callback_url))) signature,
  )

  exceeds-IsWithin : (limit : ℕ) (n : Option ℕ) → (exceeds limit n ≡ false) ↔ IsWithin limit n
  exceeds-IsWithin limit none = ground arith
  exceeds-IsWithin limit (some n) = ground arith

  checked-handled :
      (signature : Str) (read : Read) (raw : Str)
      → ((checked crypto trello_secret callback_url signature read).handled ≡ some raw) ↔ (
          (read ≡ whole raw)
          × (verify_signature crypto trello_secret raw callback_url signature ≡ true))
  checked-handled signature too_large raw = ground arith
  checked-handled signature read_error raw = ground arith
  checked-handled signature (whole body) raw = grind arith

  read_limited-whole :
      (limit : ℕ) (received raw : Str) (stream_fails : Bool)
      → (read_limited limit received stream_fails ≡ whole raw)
        ↔ ((received ≡ raw) × (length raw ≤ limit) × (stream_fails ≡ false))
  unfolding read_limited
  read_limited-whole limit received raw stream_fails = grind arith

  post-handled :
      (req : Request) (raw : Str)
      → ((post crypto trello_secret callback_url req).handled ≡ some raw) ↔ (
          IsWithin max_webhook_body_bytes req.content_length
          × (req.received ≡ raw)
          × (length raw ≤ max_webhook_body_bytes)
          × (req.stream_fails ≡ false)
          × (verify_signature crypto trello_secret raw callback_url req.signature ≡ true))
  unfolding post
  post-handled req raw = ground (
    arith,
    exceeds-IsWithin max_webhook_body_bytes req.content_length,
    checked-handled req.signature
        (read_limited max_webhook_body_bytes req.received req.stream_fails) raw,
    read_limited-whole max_webhook_body_bytes req.received raw req.stream_fails,
  )

  serve-handled :
      (req : Request) (raw : Str)
      → ((serve crypto trello_secret callback_url req).handled ≡ some raw) ↔ (
          (req.path ≡ bytes "/")
          × (req.method ≡ bytes "POST")
          × ((post crypto trello_secret callback_url req).handled ≡ some raw))
  unfolding serve
  serve-handled req raw =
      ground (arith, eq_iff req.path (bytes "/"), eq_iff req.method (bytes "POST"))

  -- A body is handed to `Handle` exactly when it is the whole body of a `POST /`, neither it nor
  -- its announced length is above the limit, and the signature in the header is the one that the
  -- secret gives it with the callback URL, none of these three being empty.
  pub serve_iff :
      (req : Request) (raw : Str)
      → ((serve crypto trello_secret callback_url req).handled ≡ some raw) ↔ IsSigned req raw
  serve_iff req raw = (
    λ h.
        let (path, method, posted) = (serve-handled req raw).0 h in
        let (announced, arrived, bounded, complete, verified) = (post-handled req raw).0 posted in
        let (secret, url, header, signed) = (verify_signature_iff raw req.signature).0 verified in
        record {
          to_root = path;
          by_post = method;
          announced = announced;
          bounded = bounded;
          arrived = arrived;
          complete = complete;
          has_secret = secret;
          has_url = url;
          has_signature = header;
          signed = signed;
        },
    λ v. (serve-handled req raw).1 (
      v.to_root,
      v.by_post,
      (post-handled req raw).1 (
        v.announced,
        v.arrived,
        v.bounded,
        v.complete,
        (verify_signature_iff raw req.signature).1
            (v.has_secret, v.has_url, v.has_signature, v.signed),
      ),
    ),
  )
