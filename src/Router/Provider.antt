-- ===== src/Router/Provider.antt =====
-- internal/app/router/provider.go: the provider block of a rule.
pub mod Usable
use trello_openclaw_webhook.Prelude.{
  Bool, ◌&&◌, ◌||◌, not, Option, none, some, List, [], ◌∷◌, Str, bytes, ◌==◌, if◌then◌else◌,
  trim_space, contains, ◌⊎◌, inl, inr,
}

pub record ProviderConfig : Type 0 where
  pub type : Str
  pub base_url : Str
  pub api_key : Str
  pub api_key_ref : Str
  pub bearer_token : Str
  pub wire_api : Str
  pub azure_api_version : Str

abbrev pub supported_provider_types : List Str
supported_provider_types = bytes "openai" ∷ bytes "azure" ∷ bytes "anthropic" ∷ []

abbrev pub supported_wire_apis : List Str
supported_wire_apis = bytes "completions" ∷ bytes "responses" ∷ []

abbrev pub is_set : Str → Bool
is_set s = not (s == bytes "")

unfoldable pub normalize : ProviderConfig → ProviderConfig
normalize p = record p {
  type = trim_space p.type;
  base_url = trim_space p.base_url;
  api_key_ref = trim_space p.api_key_ref;
  wire_api = trim_space p.wire_api;
  azure_api_version = trim_space p.azure_api_version;
}

unfoldable pub is_enabled : ProviderConfig → Bool
is_enabled p =
    is_set p.type
    || (is_set p.base_url
        || (is_set p.api_key
            || (is_set p.api_key_ref
                || (is_set p.bearer_token || (is_set p.wire_api || is_set p.azure_api_version)))))

pub data ProviderError : Type 0 where
  auxiliary_field : (field : Str) → ProviderError
  type_and_base_url unsupported_type exclusive_keys azure_only unsupported_wire_api : ProviderError
  lookup_nil key_unset : ProviderError

unfoldable pub first_auxiliary_field : ProviderConfig → Str
first_auxiliary_field p =
    if is_set p.api_key
    then bytes "api_key"
    else if is_set p.api_key_ref
    then bytes "api_key_ref"
    else if is_set p.bearer_token
    then bytes "bearer_token"
    else if is_set p.wire_api
    then bytes "wire_api"
    else if is_set p.azure_api_version
    then bytes "azure_api_version"
    else bytes "provider"

-- `none` is the nil error.
unfoldable pub validate : ProviderConfig → Option ProviderError
unfolding is_enabled first_auxiliary_field
validate p =
    if not (is_enabled p)
    then none
    else if p.type == bytes "" && p.base_url == bytes ""
    then some (auxiliary_field (first_auxiliary_field p))
    else if p.type == bytes "" || p.base_url == bytes ""
    then some type_and_base_url
    else if not (contains supported_provider_types p.type)
    then some unsupported_type
    else if is_set p.api_key && is_set p.api_key_ref
    then some exclusive_keys
    else if is_set p.azure_api_version && not (p.type == bytes "azure")
    then some azure_only
    else if is_set p.wire_api && not (contains supported_wire_apis p.wire_api)
    then some unsupported_wire_api
    else none

-- `lookup` is `os.LookupEnv` in production; `none` stands for a nil function.
from_env : ProviderConfig → Option Str → ProviderError ⊎ ProviderConfig
from_env p none = inl key_unset
from_env p (some value) =
    if value == bytes "" then inl key_unset else inr (record p { api_key = value })

unfoldable pub resolve_api_key :
    Option (Str → Option Str) → ProviderConfig → ProviderError ⊎ ProviderConfig
unfolding from_env
resolve_api_key none p = if p.api_key_ref == bytes "" then inr p else inl lookup_nil
resolve_api_key (some lookup) p =
    if p.api_key_ref == bytes "" then inr p else from_env p (lookup p.api_key_ref)
