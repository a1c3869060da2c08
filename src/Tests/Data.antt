-- ===== src/Tests/Data.antt =====
-- Concrete values: a platform whose functions keep their text, a tenant, a request, and one
-- effect of each safety class in the in-memory store.
use effect_broker.Prelude.{
  ℕ, ◌+◌, Text, text, text_eq, ◌≡◌, refl, ◌∙◌, none, some, [], true, ==_refl,
}
use effect_broker.Prelude.Int.{pos}
use effect_broker.Prelude.Dict.{lookup, lookup-insert}
use effect_broker.Json.{end, entry, text_key, int}
use effect_broker.Models.{
  EffectRecord, EffectRequest, EffectContract, EffectStatus, dispatching, outcome_unknown,
  manual_review, DispatchResult, ProbeResult, not_committed, SafetyClass,
}
use effect_broker.Errors.{Result, ok}
use effect_broker.Platform.{Platform}
use effect_broker.Store.Rows.{updated_record}
use effect_broker.Observability.{no_metrics}
use effect_broker.StateMachine.{is_allowed}
use effect_broker.Adapters.{EffectAdapter, AdapterFor}
use effect_broker.Store.Laws.{StoreView, StoreLaws}
use effect_broker.Store.Memory.{MemoryStore, empty_store, new_record}
use effect_broker.Store.Memory.Invariant.{IsValid, empty-IsValid}
use effect_broker.Store.Memory.Reservation.{fresh_record, fresh_store, fresh-IsValid}
use effect_broker.Store.Memory.Conforms.{memory_store, memory_view, memory-StoreLaws}
use effect_broker.World.{World}

abbrev pub platform : Platform
platform = record {
  sha256_hex = λ t. t;
  hmac_sha256 = λ key message. message;
  urlsafe_b64encode = λ t. t;
  isoformat = λ t. text "now";
}

abbrev pub tenant_key : Text → Text
tenant_key t = t

abbrev pub request : EffectRequest
request = record {
  operation_key = text "op";
  tool = text "charge";
  arguments = entry (text_key (text "amount")) (int (pos 5)) end;
  requested_by = text "agent";
  trace_id = none;
}

abbrev pub contract_of : SafetyClass → EffectContract
contract_of safety = record {
  name = text "charge";
  version = text "v1";
  safety = safety;
  retry_limit = pos 0;
  key_retention = some (pos 100);
  settlement_bound = some (pos 10);
}

abbrev pub tenant : Text
tenant = text "acme"

abbrev pub view : StoreView MemoryStore
view = memory_view platform tenant_key

abbrev pub laws : StoreLaws (memory_store platform tenant_key) view
laws = memory-StoreLaws platform tenant_key

module _ (safety : SafetyClass) where
  abbrev pub effect : EffectRecord
  effect =
      fresh_record platform tenant_key tenant request (contract_of safety) (pos 0) empty_store
        (text "digest")

  abbrev pub store : MemoryStore
  store =
      fresh_store platform tenant_key tenant request (contract_of safety) (pos 0) empty_store
        (text "digest")

  pub store-IsValid : IsValid platform tenant_key store
  unfolding empty_store lookup
  store-IsValid =
      fresh-IsValid platform tenant_key tenant request (contract_of safety) (pos 0) empty_store
        (text "digest") (empty-IsValid platform tenant_key) refl

  pub store_has : lookup effect.effect_id store.records ≡ some effect
  unfolding empty_store lookup new_record
  store_has =
      lookup-insert effect.effect_id effect.effect_id effect [] ∙ rw (==_refl effect.effect_id)

  -- The target is the number of its dispatches.
  abbrev pub world : World MemoryStore ℕ
  world = record { store = store; target = 0; metrics = no_metrics; clock = λ n. pos n; reads = 0 }

-- An adapter that answers every call alike.
abbrev pub answering : Result DispatchResult → Result ProbeResult → EffectAdapter ℕ
answering dispatched probed = record {
  dispatch = λ e attempt_id n. (dispatched, n + 1);
  probe = λ e n. (probed, n);
}

abbrev pub adapters : Result DispatchResult → Result ProbeResult → AdapterFor ℕ
adapters dispatched probed e = ok (answering dispatched probed)

abbrev pub a_commit : Result DispatchResult
a_commit = ok (record { external_id = some (text "charge_000001"); output = end; committed = true })

abbrev pub an_absence : ProbeResult
an_absence = record { status = not_committed; external_id = none; output = none; evidence = end }

-- A store with the effect in a later status.
pub record Reached (safety : SafetyClass) (r : EffectRecord) : Type 0 where
  pub state : MemoryStore
  pub valid : IsValid platform tenant_key state
  pub has : lookup r.effect_id state.records ≡ some r

module _ (safety : SafetyClass) where
  abbrev pub reach_start : Reached safety (effect safety)
  reach_start = record {
    state = store safety;
    valid = store-IsValid safety;
    has = store_has safety;
  }

  pub reach_next :
      {r : EffectRecord} (target : EffectStatus)
      → Reached safety r
      → is_allowed r.status target ≡ true
      → Reached safety (updated_record r target (pos 1))
  unfolding updated_record
  reach_next {r = r} target s edge =
      let (s', e, valid', found, _) =
        laws.transition_allowed r.effect_id r.version target end (pos 1) s.state r s.valid s.has
          refl edge in
      record { state = s'; valid = valid'; has = found r.effect_id ∙ rw (==_refl r.effect_id) }

  -- The effect once its outcome is unknown, and once it is under review.
  abbrev pub ambiguous_effect : EffectRecord
  ambiguous_effect =
      updated_record (updated_record (effect safety) dispatching (pos 1)) outcome_unknown (pos 1)

  pub reach_unknown : Reached safety ambiguous_effect
  unfolding new_record updated_record is_allowed
  reach_unknown = reach_next outcome_unknown (reach_next dispatching reach_start refl) refl

  abbrev pub reviewed_effect : EffectRecord
  reviewed_effect = updated_record ambiguous_effect manual_review (pos 1)

  pub reach_review : Reached safety reviewed_effect
  unfolding new_record updated_record is_allowed
  reach_review = reach_next manual_review reach_unknown refl

  abbrev pub world_of : {r : EffectRecord} → Reached safety r → World MemoryStore ℕ
  world_of x = record {
    store = x.state;
    target = 0;
    metrics = no_metrics;
    clock = λ n. pos n;
    reads = 0;
  }
