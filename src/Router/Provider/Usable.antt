-- ===== src/Router/Provider/Usable.antt =====
-- What `validate` and `resolveAPIKey` of internal/app/router/provider.go let through.
use trello_openclaw_webhook.Prelude.{
  ◌≡◌, ◌≢◌, ◌⊎◌, inl, inr, Bool, true, false, not, ◌&&◌, ◌||◌, Option, none, some, [], arith, Str,
  bytes, ◌==◌, eq_iff, if◌then◌else◌, contains, Option-cases,
}
use trello_openclaw_webhook.Router.Provider.{
  ProviderConfig, supported_provider_types, supported_wire_apis, is_set, is_enabled, validate,
  resolve_api_key, ProviderError,
}

pub record IsUsable (p : ProviderConfig) : Type 0 where
  pub type : contains supported_provider_types p.type ≡ true
  pub base_url : p.base_url ≢ []
  pub one_key : (p.api_key ≡ []) ⊎ (p.api_key_ref ≡ [])
  pub azure : p.azure_api_version ≢ [] → p.type ≡ bytes "azure"
  pub wire_api : p.wire_api ≢ [] → contains supported_wire_apis p.wire_api ≡ true

-- A ladder of checks that ends without an error has passed each of them.
passed :
    (en a b c d e f g : Bool) (x1 x2 x3 x4 x5 x6 : ProviderError)
    → (if not en
        then none
        else if a && b
        then some x1
        else if a || b
        then some x2
        else if not c
        then some x3
        else if d && e
        then some x4
        else if f
        then some x5
        else if g
        then some x6
        else none)
      ≡ none
    → en ≡ true
    → (a ≡ false)
      × (b ≡ false)
      × (c ≡ true)
      × ((d ≡ false) ⊎ (e ≡ false))
      × (f ≡ false)
      × (g ≡ false)
passed en a b c d e f g x1 x2 x3 x4 x5 x6 h k =
    (ground arith, ground arith, ground arith, ground arith, ground arith, ground arith)

unset : (s : Str) → is_set s ≡ false → s ≡ []
unset s h = ground (arith, eq_iff s [])

module _ (p : ProviderConfig) where
  -- An enabled provider passes validation only if its type is supported, it has a base URL, it has
  -- no API key beside a reference to one, an Azure API version comes with the type azure, and a
  -- wire API is one of the two supported.
  pub validate-IsUsable : is_enabled p ≡ true → validate p ≡ none → IsUsable p
  unfolding validate
  validate-IsUsable e h =
      let (no_type, no_url, type, keys, azure, wire) =
        passed (is_enabled p) (p.type == bytes "") (p.base_url == bytes "")
          (contains supported_provider_types p.type) (is_set p.api_key) (is_set p.api_key_ref)
          (is_set p.azure_api_version && not (p.type == bytes "azure"))
          (is_set p.wire_api && not (contains supported_wire_apis p.wire_api)) _ _ _ _ _ _ h e in
      record {
        type = type;
        base_url = ground (arith, eq_iff p.base_url []);
        one_key = elim keys [
          | inl k ↦ inl (unset p.api_key k)
          | inr k ↦ inr (unset p.api_key_ref k)
        ];
        azure = λ set. ground (arith, eq_iff p.azure_api_version [], eq_iff p.type (bytes "azure"));
        wire_api = λ set. ground (arith, eq_iff p.wire_api []);
      }

  -- Where a provider names a variable for its key, the key that it is given is that variable's
  -- value and not empty, and nothing else changes.
  pub resolve_api_key-value :
      (lookup : Str → Option Str) (q : ProviderConfig)
      → p.api_key_ref ≢ []
      → resolve_api_key (some lookup) p ≡ inr q
      → (lookup p.api_key_ref ≡ some q.api_key)
        × (q.api_key ≢ [])
        × (q ≡ record p { api_key = q.api_key })
  unfolding resolve_api_key
  resolve_api_key-value lookup q ref h = elim (Option-cases (lookup p.api_key_ref)) [
    | inl e ↦ absurd (ground (arith, eq_iff p.api_key_ref []))
    | inr (v, e) ↦ (
      ground (arith, eq_iff p.api_key_ref [], eq_iff v []),
      ground (arith, eq_iff p.api_key_ref [], eq_iff v []),
      ground (arith, eq_iff p.api_key_ref [], eq_iff v []),
    )
  ]

  -- Without a reference the provider stays as it is.
  pub resolve_api_key-no_ref :
      (lookup : Option (Str → Option Str)) (q : ProviderConfig)
      → p.api_key_ref ≡ []
      → resolve_api_key lookup p ≡ inr q
      → p ≡ q
  unfolding resolve_api_key
  resolve_api_key-no_ref none q ref h = ground (arith, eq_iff p.api_key_ref [])
  resolve_api_key-no_ref (some f) q ref h = ground (arith, eq_iff p.api_key_ref [])
