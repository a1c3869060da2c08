-- ===== src/Store/Rows.antt =====
-- What the stores share: how a stored effect is updated, and which effects a tenant sees, in
-- which order (src/effect_broker/store/memory.py, and the SQL of sqlite.py).
use effect_broker.Prelude.{
  ℕ, ◌+◌, Text, text, text_eq, text_ltb, Bool, true, false, Option, none, some, List, [], ◌∷◌, ◌++◌,
  if◌then◌else◌, ◌==◌,
}
use effect_broker.Prelude.Int.{ltb_ℤ}
use effect_broker.Prelude.Decimal.{str_nat}
use effect_broker.Json.{Value, end, entry, text_key, JsonObject}
use effect_broker.Models.{EffectStatus, status_eq, EffectRecord, Time}

-- A JSON object with these members.
unfoldable pub object : List (Text × Value) → JsonObject
object [] = end
object ((k, v) ∷ ms) = entry (text_key k) v (object ms)

-- f"{effect_id}-attempt-{ordinal}"
unfoldable pub attempt_id_of : Text → ℕ → Text
attempt_id_of effect_id ordinal = effect_id ++ (text "-attempt-" ++ str_nat ordinal)

-- `replace(record, status=target, version=record.version + 1, updated_at=now)`
unfoldable pub updated_record : EffectRecord → EffectStatus → Time → EffectRecord
updated_record r target now = record r {
  status = target;
  version = r.version + 1;
  updated_at = now;
}

-- `replace(record, version=record.version + 1, updated_at=now)`
unfoldable pub claimed_record : EffectRecord → Time → EffectRecord
claimed_record r now = record r { version = r.version + 1; updated_at = now }

-- `None` for another tenant's effect.
unfoldable pub visible_to : Text → Option EffectRecord → Option EffectRecord
visible_to tenant_id none = none
visible_to tenant_id (some effect) = if effect.tenant_id == tenant_id then some effect else none

-- `status is None or record.status is status`
unfoldable pub status_matches : Option EffectStatus → EffectStatus → Bool
status_matches none status = true
status_matches (some wanted) status = status == wanted

-- The order of `(record.created_at, record.effect_id)`.
unfoldable pub sorts_before : EffectRecord → EffectRecord → Bool
unfolding text_ltb
sorts_before a b =
    if ltb_ℤ a.created_at b.created_at
    then true
    else if ltb_ℤ b.created_at a.created_at
    then false
    else text_ltb a.effect_id b.effect_id

unfoldable pub insert_record : EffectRecord → List EffectRecord → List EffectRecord
insert_record r [] = r ∷ []
insert_record r (x ∷ xs) =
    let rest = insert_record r xs in if sorts_before x r then x ∷ rest else r ∷ x ∷ xs

unfoldable pub sort_records : List EffectRecord → List EffectRecord
sort_records [] = []
sort_records (r ∷ rs) = insert_record r (sort_records rs)
