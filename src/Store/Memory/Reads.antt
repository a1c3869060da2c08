-- ===== src/Store/Memory/Reads.antt =====
-- The methods of src/effect_broker/store/memory.py that read: `get`, `list`, `receipt`, `events`,
-- `attempt_count` and `count`. Of `list` the model takes `limit` and `offset` at 0 or more, as the
-- HTTP surface does.
use effect_broker.Prelude.{
  ℕ, Text, text, text_eq, Bool, true, false, ◌&&◌, Option, none, some, List, [], ◌∷◌, length, take,
  drop, keep_if, if◌then◌else◌, ◌==◌,
}
use effect_broker.Prelude.Dict.{lookup, values}
use effect_broker.Json.{text_key, other_key, Value, str, mapping, end, entry, JsonObject}
use effect_broker.Models.{EffectStatus, succeeded, status_eq, status_value, EffectRecord}
use effect_broker.Errors.{Result, ok, err, ◌>>=◌, other_exception}
use effect_broker.Platform.{Platform}
use effect_broker.Store.Rows.{object, visible_to, status_matches, sort_records}
use effect_broker.Store.Memory.State.{MemoryStore, MemoryEvent, EventType, transitioned}

unfoldable pub get : Text → Text → MemoryStore → Option EffectRecord
unfolding visible_to
get tenant_id effect_id s = visible_to tenant_id (lookup effect_id s.records)

unfoldable pub list : Text → Option EffectStatus → ℕ → ℕ → MemoryStore → List EffectRecord
list tenant_id status limit offset s = take limit (
    drop offset (
      sort_records (
        keep_if (λ r. r.tenant_id == tenant_id && status_matches status r.status)
          (values s.records))))

-- `data.get(key)` on a JSON object
unfoldable pub get_member : Text → JsonObject → Option Value
get_member k end = none
get_member k (entry (text_key j) v es) = if j == k then some v else get_member k es
get_member k (entry (other_key j) v es) = get_member k es

-- `value == "…"` on a member that may be absent
unfoldable pub is_text : Text → Option Value → Bool
is_text t (some (str s)) = s == t
is_text t _ = false

unfoldable pub is_transition : EventType → Bool
is_transition transitioned = true
is_transition _ = false

-- The two tests that skip an event.
unfoldable pub is_success : MemoryEvent → Bool
unfolding is_transition is_text get_member
is_success e =
    is_transition e.event_type
    && is_text (status_value succeeded) (get_member (text "to") e.payload)

-- The first event that passes, from the newest.
unfoldable pub last_success : List MemoryEvent → Option MemoryEvent
last_success [] = none
last_success (e ∷ es) = elim (last_success es) [
  | some later ↦ some later
  | none ↦ if is_success e then some e else none
]

-- `dict(event.data.get("metadata", {}))`; `dict` of a value that is no mapping raises.
unfoldable pub metadata_of : Option Value → Result JsonObject
metadata_of none = ok end
metadata_of (some (mapping es)) = ok es
metadata_of (some _) = err (other_exception (text "TypeError"))

-- `d.get(key, [])`
unfoldable pub or_empty {ℓ} : {A : Type ℓ} → Option (List A) → List A
or_empty none = []
or_empty (some xs) = xs

module _ (p : Platform) where
  unfoldable pub receipt_of : Text → EffectRecord → MemoryEvent → Result (Option JsonObject)
  unfolding metadata_of
  receipt_of effect_id effect event = do
    metadata ← metadata_of (get_member (text "metadata") event.payload)
    ok (
        some (
          object (
            (text "effect_id", str effect_id)
            ∷ (text "status", str (status_value succeeded))
            ∷ (text "contract", str effect.contract.name)
            ∷ (text "contract_version", str effect.contract.version)
            ∷ (text "downstream_key", str effect.downstream_key)
            ∷ (text "metadata", mapping metadata)
            ∷ (text "recorded_at", str (p.isoformat event.at))
            ∷ [])))

  newest_receipt : Text → EffectRecord → Option MemoryEvent → Result (Option JsonObject)
  newest_receipt effect_id effect none = ok none
  newest_receipt effect_id effect (some event) = receipt_of effect_id effect event

  receipt_with : Text → Option EffectRecord → List MemoryEvent → Result (Option JsonObject)
  unfolding newest_receipt
  receipt_with effect_id none log = ok none
  receipt_with effect_id (some effect) log = newest_receipt effect_id effect (last_success log)

-- `self._events.get(effect_id, [])`
unfoldable pub events : Text → MemoryStore → List MemoryEvent
unfolding or_empty
events effect_id s = or_empty (lookup effect_id s.events)

unfoldable pub receipt : Platform → Text → Text → MemoryStore → Result (Option JsonObject)
unfolding receipt_with
receipt p tenant_id effect_id s =
    receipt_with p effect_id (get tenant_id effect_id s) (events effect_id s)

unfoldable pub attempt_count : Text → MemoryStore → ℕ
unfolding or_empty
attempt_count effect_id s = length (or_empty (lookup effect_id s.attempts))

unfoldable pub count : MemoryStore → ℕ
count s = length s.records
