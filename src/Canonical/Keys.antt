-- ===== src/Canonical/Keys.antt =====
-- The message that a downstream key is derived from (src/effect_broker/canonical.py).
use effect_broker.Prelude.{Text, ◌≡◌, ◌≢◌, refl, [], ◌∷◌, All, arith}
use effect_broker.Canonical.{key_message}

-- A text without the separator.
abbrev pub NoNul : Text → Type 0
NoNul t = All (λ c. c ≢ 0) t

-- Two pairs of a tenant and an operation key have one message only if they are the same pair,
-- provided that no tenant id contains the separator; operation keys may contain it.
pub key_message_injective :
    (tenant other : Text) (key other_key : Text)
    → NoNul tenant
    → NoNul other
    → key_message tenant key ≡ key_message other other_key
    → (tenant ≡ other) × (key ≡ other_key)
unfolding key_message
key_message_injective [] [] key other_key h k e = (refl, ground (arith, e))
key_message_injective [] (d ∷ other) key other_key h k e = absurd (k.0 (ground (arith, e)))
key_message_injective (c ∷ tenant) [] key other_key h k e = absurd (h.0 (ground (arith, e)))
key_message_injective (c ∷ tenant) (d ∷ other) key other_key h k e =
    let (tenants, keys) =
      key_message_injective tenant other key other_key h.1 k.1 (ground (arith, e)) in
    (ground (arith, tenants, e), keys)
