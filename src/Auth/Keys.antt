-- ===== src/Auth/Keys.antt =====
-- Which requests are authenticated, and as whom (src/effect_broker/auth.py).
use effect_broker.Prelude.{
  Text, text_eq, ◌≡◌, ◌≢◌, refl, ◌↔◌, inl, inr, true, Option, none, some, [], ◌∷◌, arith,
  Option-cases,
}
use effect_broker.Prelude.Dict.{Dict, lookup, insert, lookup-insert}
use effect_broker.Platform.{Platform}
use effect_broker.Auth.{
  Settings, hash_api_key, set_default, from_settings, scan_hashes, tenant_for_key, authenticated,
  presented_key, check_key, require_tenant, tenant_or_401,
}

-- The key is configured for the tenant: by its hash, or as the development key, where that is
-- enabled and no configured hash takes its place.
pub data Configured (p : Platform) (settings : Settings) (raw_key tenant_id : Text) : Type 0 where
  by_hash :
      lookup (hash_api_key p raw_key) settings.api_key_hashes ≡ some tenant_id
      → Configured p settings raw_key tenant_id
  by_dev_key :
      settings.dev_api_key_enabled ≡ true
      → lookup (hash_api_key p raw_key) settings.api_key_hashes ≡ none
      → hash_api_key p raw_key ≡ hash_api_key p settings.dev_api_key
      → tenant_id ≡ settings.dev_tenant_id
      → Configured p settings raw_key tenant_id

scan_is_lookup : (h : Text) (d : Dict Text Text) → scan_hashes h d ≡ lookup h d
unfolding scan_hashes lookup
scan_is_lookup h [] = refl
scan_is_lookup h ((k, v) ∷ d) = ground (arith, scan_is_lookup h d)

module _ (p : Platform) (settings : Settings) (raw_key tenant_id : Text) where
  abbrev stored : Dict Text Text
  stored =
      insert (hash_api_key p settings.dev_api_key) settings.dev_tenant_id settings.api_key_hashes

  finds :
      tenant_for_key p (from_settings p settings) raw_key ≡ some tenant_id
      → Configured p settings raw_key tenant_id
  unfolding tenant_for_key from_settings set_default
  finds h =
      let incoming = hash_api_key p raw_key in
      let dev = hash_api_key p settings.dev_api_key in
      let plain = scan_is_lookup incoming settings.api_key_hashes in
      let with_dev = scan_is_lookup incoming stored in
      let inserted = lookup-insert dev incoming settings.dev_tenant_id settings.api_key_hashes in
      let same = text_eq.beq_iff dev incoming in
      elim (Option-cases (lookup incoming settings.api_key_hashes)) [
        | inr (t, there) ↦ by_hash (ground (arith, h, there, plain, with_dev, inserted, same))
        | inl missing ↦
            by_dev_key (ground (arith, h, missing, plain, with_dev, inserted, same)) missing
              (ground (arith, h, missing, plain, with_dev, inserted, same))
              (ground (arith, h, missing, plain, with_dev, inserted, same))
      ]

  found :
      Configured p settings raw_key tenant_id
      → tenant_for_key p (from_settings p settings) raw_key ≡ some tenant_id
  unfolding tenant_for_key from_settings set_default
  found (by_hash there) =
      let incoming = hash_api_key p raw_key in
      let dev = hash_api_key p settings.dev_api_key in
      ground (
        arith,
        there,
        scan_is_lookup incoming settings.api_key_hashes,
        scan_is_lookup incoming stored,
        lookup-insert dev incoming settings.dev_tenant_id settings.api_key_hashes,
        text_eq.beq_iff dev incoming,
      )
  found (by_dev_key enabled missing same_hash is_dev) =
      let incoming = hash_api_key p raw_key in
      let dev = hash_api_key p settings.dev_api_key in
      ground (
        arith,
        enabled,
        missing,
        same_hash,
        is_dev,
        scan_is_lookup incoming settings.api_key_hashes,
        scan_is_lookup incoming stored,
        lookup-insert dev incoming settings.dev_tenant_id settings.api_key_hashes,
        text_eq.beq_iff dev incoming,
      )

checked :
    (p : Platform) (settings : Settings) (key : Option Text) (tenant_id : Text)
    → (check_key p (from_settings p settings) key ≡ authenticated tenant_id) ↔ (
        (raw_key : Text) × (key ≡ some raw_key)
        × (raw_key ≢ [])
        × Configured p settings raw_key tenant_id)
unfolding check_key tenant_or_401
checked p settings none tenant_id = (λ h. cc, λ (_, e, _, _). cc)
checked p settings (some []) tenant_id =
    (λ h. cc, λ (_, e, not_empty, _). absurd (not_empty (ground (arith, e))))
checked p settings (some (c ∷ cs)) tenant_id = (
  λ h. (c ∷ cs, refl, (λ e. cc), finds p settings (c ∷ cs) tenant_id (ground (arith, h))),
  λ (raw, e, _, configured). ground (arith, e, found p settings raw tenant_id configured),
)

pub require_tenant_iff :
    (p : Platform) (settings : Settings) (bearer api_key : Option Text) (tenant_id : Text)
    → (require_tenant p (from_settings p settings) bearer api_key ≡ authenticated tenant_id) ↔ (
        (raw_key : Text) × (presented_key api_key bearer ≡ some raw_key)
        × (raw_key ≢ [])
        × Configured p settings raw_key tenant_id)
unfolding require_tenant
require_tenant_iff p settings bearer api_key tenant_id =
    checked p settings (presented_key api_key bearer) tenant_id
