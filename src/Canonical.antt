-- ===== src/Canonical.antt =====
-- Canonical serialisation and fingerprints (src/effect_broker/canonical.py). `json.dumps` is
-- modelled as the call uses it: sorted keys, compact separators, no ASCII escaping, no NaN.
pub mod Keys
pub mod Validation
mod Dumps
unfoldable pub use Dumps.{dumps, dump_items, dump_entries, quote, join, members, sort_pairs}
use effect_broker.Prelude.{ℕ, ◌+◌, Text, text, List, [], ◌∷◌, ◌++◌, nat_beq, if◌then◌else◌}
use effect_broker.Prelude.Int.{ℤ}
use effect_broker.Prelude.Decimal.{str_nat}
use effect_broker.Json.{
  Float, finite, nan, inf, neg_inf, Key, text_key, other_key, Value, null, bool, str, int, huge_int,
  float, mapping, proxy, bytes, sequence, lazy_sequence, other, Items, nil, cons, Entries, end,
  entry, JsonObject,
}
use effect_broker.Errors.{
  Result, ok, err, ◌>>=◌, ◌>>◌, canonicalization, non_finite_float, non_string_key, bytes_value,
  unsupported_type,
}
use effect_broker.Platform.{Platform}

-- f"{path}.{key}" and f"{path}[{index}]"
unfoldable pub member_path : Text → Text → Text
member_path path key = path ++ b'.' ∷ key

unfoldable pub index_path : Text → ℕ → Text
index_path path index = path ++ b'[' ∷ (str_nat index ++ b']' ∷ [])

unfoldable mutual
  pub validate : Value → Text → Result (Unit {0})
  validate null path = ok tt
  validate (bool _) path = ok tt
  validate (str _) path = ok tt
  validate (int _) path = ok tt
  validate (huge_int _) path = ok tt
  validate (float (finite _)) path = ok tt
  validate (float nan) path = err (canonicalization non_finite_float path)
  validate (float inf) path = err (canonicalization non_finite_float path)
  validate (float neg_inf) path = err (canonicalization non_finite_float path)
  validate (mapping es) path = validate_entries es path
  validate (proxy es) path = validate_entries es path
  validate (bytes _) path = err (canonicalization bytes_value path)
  validate (sequence xs) path = validate_items xs path 0
  validate (lazy_sequence xs) path = validate_items xs path 0
  validate (other _) path = err (canonicalization unsupported_type path)

  pub validate_items : Items → Text → ℕ → Result (Unit {0})
  validate_items nil path index = ok tt
  validate_items (cons x xs) path index = do
    validate x (index_path path index)
    validate_items xs path (index + 1)

  pub validate_entries : Entries → Text → Result (Unit {0})
  validate_entries end path = ok tt
  validate_entries (entry (text_key k) v es) path = do
    validate v (member_path path k)
    validate_entries es path
  validate_entries (entry (other_key k) v es) path = err (canonicalization non_string_key path)

unfoldable pub canonical_json : Value → Result Text
canonical_json value = do validate value (text "$"); dumps value

unfoldable pub request_value : Text → JsonObject → Text → Text → Value
request_value tool arguments contract_name contract_version = mapping (
    entry (text_key (text "tool")) (str tool) (
      entry (text_key (text "arguments")) (mapping arguments) (
        entry (text_key (text "contract_name")) (str contract_name)
          (entry (text_key (text "contract_version")) (str contract_version) end))))

unfoldable pub request_hash : Platform → Text → JsonObject → Text → Text → Result Text
request_hash p tool arguments contract_name contract_version = do
  canonical ← canonical_json (request_value tool arguments contract_name contract_version)
  ok (p.sha256_hex canonical)

-- `.rstrip(b"=")`
unfoldable pub rstrip_eq : Text → Text
rstrip_eq [] = []
rstrip_eq (c ∷ s) = elim (rstrip_eq s) [
  | [] ↦ if nat_beq c b'=' then [] else c ∷ []
  | d ∷ r ↦ c ∷ d ∷ r
]

-- f"{tenant_id}\0{operation_key}"
unfoldable pub key_message : Text → Text → Text
key_message tenant_id operation_key = tenant_id ++ 0 ∷ operation_key

unfoldable pub downstream_key : Platform → Text → Text → Text → Text
unfolding rstrip_eq key_message
downstream_key p tenant_key tenant_id operation_key =
    rstrip_eq (p.urlsafe_b64encode (p.hmac_sha256 tenant_key (key_message tenant_id operation_key)))
