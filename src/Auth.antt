-- ===== src/Auth.antt =====
-- API keys (src/effect_broker/auth.py). The header and the bearer credentials come from the HTTP
-- framework, which passes `None` for what the request does not carry.
pub mod Keys
use effect_broker.Prelude.{
  Text, text, text_eq, Bool, Option, none, some, [], ◌∷◌, if◌then◌else◌, ◌==◌,
}
use effect_broker.Prelude.Dict.{Dict, lookup, insert}
use effect_broker.Platform.{Platform}

-- The settings that the authenticator reads.
pub record Settings : Type 0 where
  pub api_key_hashes : Dict Text Text
  pub dev_api_key_enabled : Bool
  pub dev_api_key : Text
  pub dev_tenant_id : Text

unfoldable pub hash_api_key : Platform → Text → Text
hash_api_key p raw_key = p.sha256_hex raw_key

pub record ApiKeyAuthenticator : Type 0 where
  pub key_hash_to_tenant : Dict Text Text

-- `d.setdefault(k, v)`
unfoldable pub set_default : Text → Text → Dict Text Text → Dict Text Text
set_default k v d = elim (lookup k d) [ some _ ↦ d | none ↦ insert k v d ]

unfoldable pub from_settings : Platform → Settings → ApiKeyAuthenticator
unfolding set_default
from_settings p settings = record {
  key_hash_to_tenant =
      if settings.dev_api_key_enabled
      then set_default (hash_api_key p settings.dev_api_key) settings.dev_tenant_id
          settings.api_key_hashes
      else settings.api_key_hashes;
}

-- The loop of `tenant_for_key`.
unfoldable pub scan_hashes : Text → Dict Text Text → Option Text
scan_hashes incoming [] = none
scan_hashes incoming ((stored_hash, tenant_id) ∷ items) =
    let rest = scan_hashes incoming items in
    if stored_hash == incoming then some tenant_id else rest

unfoldable pub tenant_for_key : Platform → ApiKeyAuthenticator → Text → Option Text
unfolding scan_hashes
tenant_for_key p authenticator raw_key =
    scan_hashes (hash_api_key p raw_key) authenticator.key_hash_to_tenant

-- A tenant, or a response 401 with its detail.
pub data Authentication : Type 0 where
  authenticated : Text → Authentication
  unauthorized : Text → Authentication

-- `raw_key = api_key`, or the bearer's credentials where there is no such header.
unfoldable pub presented_key : Option Text → Option Text → Option Text
presented_key (some api_key) bearer = some api_key
presented_key none bearer = bearer

unfoldable pub tenant_or_401 : Option Text → Authentication
tenant_or_401 none = unauthorized (text "invalid API key")
tenant_or_401 (some tenant_id) = authenticated tenant_id

-- `if not raw_key` holds for `None` and for the empty text.
unfoldable pub check_key : Platform → ApiKeyAuthenticator → Option Text → Authentication
unfolding tenant_or_401
check_key p authenticator none = unauthorized (text "missing API key")
check_key p authenticator (some []) = unauthorized (text "missing API key")
check_key p authenticator (some (c ∷ cs)) = tenant_or_401 (tenant_for_key p authenticator (c ∷ cs))

unfoldable pub require_tenant :
    Platform → ApiKeyAuthenticator → Option Text → Option Text → Authentication
unfolding presented_key check_key
require_tenant p authenticator bearer api_key =
    check_key p authenticator (presented_key api_key bearer)
