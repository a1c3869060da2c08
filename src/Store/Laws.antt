-- ===== src/Store/Laws.antt =====
-- What the worker, the reconciler and the broker rely on in a store
-- (src/effect_broker/store/base.py): every transition is a compare-and-swap on the version.
-- `MemoryStore` fills this interface in Store/Memory/Conforms.
use effect_broker.Prelude.{
  ℕ, ◌+◌, Text, text_eq, ◌≡◌, ◌≢◌, ◌⊎◌, Option, none, some, List, [], ◌∷◌, true, false, All,
  if◌then◌else◌, ◌==◌,
}
use effect_broker.Prelude.Int.{ℤ}
use effect_broker.Json.{JsonObject}
use effect_broker.Models.{EffectRecord, EffectStatus, prepared, retryable, Time, Duration}
use effect_broker.Errors.{ok, err, unknown_effect, version_conflict, invalid_transition}
use effect_broker.StateMachine.{is_allowed}
use effect_broker.Store.Interface.{EffectStore}
use effect_broker.Store.Rows.{updated_record, claimed_record, attempt_id_of, visible_to}

-- A status in which an effect can be claimed.
abbrev pub Claimable : EffectStatus → Type 0
Claimable status = (status ≡ prepared) ⊎ (status ≡ retryable)

-- What the laws say of a state: its invariant, the effect under an id, and the attempts of one.
pub record StoreView (S : Type 0) : Type 1 where
  pub Valid : S → Type 0
  pub find : Text → S → Option EffectRecord
  pub attempts : Text → S → ℕ

-- No two effects of a batch are the same.
abbrev pub Apart : List EffectRecord → Type 0
Apart [] = Unit
Apart (x ∷ xs) = All (λ y. x.effect_id ≢ y.effect_id) xs × Apart xs

pub record StoreLaws {S : Type 0} (store : EffectStore S) (view : StoreView S) : Type 0 where
  pub get_lem : (t id : Text) (s : S) → store.get t id s ≡ visible_to t (view.find id s)
  pub transition_missing :
      (id : Text) (v : ℕ) (target : EffectStatus) (metadata : JsonObject) (now : Time) (s : S)
      → view.find id s ≡ none
      → store.transition id v target metadata now s ≡ (err (unknown_effect id), s)
  pub transition_stale :
      (id : Text) (v : ℕ) (target : EffectStatus) (metadata : JsonObject) (now : Time) (s : S)
      (r : EffectRecord)
      → view.find id s ≡ some r
      → r.version ≢ v
      → store.transition id v target metadata now s ≡ (err (version_conflict id v r.version), s)
  pub transition_forbidden :
      (id : Text) (v : ℕ) (target : EffectStatus) (metadata : JsonObject) (now : Time) (s : S)
      (r : EffectRecord)
      → view.find id s ≡ some r
      → r.version ≡ v
      → is_allowed r.status target ≡ false
      → store.transition id v target metadata now s ≡ (err (invalid_transition r.status target), s)
  pub transition_allowed :
      (id : Text) (v : ℕ) (target : EffectStatus) (metadata : JsonObject) (now : Time) (s : S)
      (r : EffectRecord)
      → view.Valid s
      → view.find id s ≡ some r
      → r.version ≡ v
      → is_allowed r.status target ≡ true
      → (s' : S) × (store.transition id v target metadata now s
          ≡ (ok (updated_record r target now), s'))
        × view.Valid s'
        × ((j : Text)
            → view.find j s'
              ≡ (if id == j then some (updated_record r target now) else view.find j s))
        × ((j : Text) → view.attempts j s' ≡ view.attempts j s)
  pub start_stale :
      (id : Text) (v : ℕ) (worker : Text) (now : Time) (s : S) (r : EffectRecord)
      → view.find id s ≡ some r
      → r.version ≢ v
      → store.start_attempt id v worker now s ≡ (err (version_conflict id v r.version), s)
  pub start_allowed :
      (id : Text) (v : ℕ) (worker : Text) (now : Time) (s : S) (r : EffectRecord)
      → view.Valid s
      → view.find id s ≡ some r
      → r.version ≡ v
      → (s' : S) × (store.start_attempt id v worker now s
          ≡ (ok (attempt_id_of id (view.attempts id s + 1)), s'))
        × view.Valid s'
        × ((j : Text) → view.find j s' ≡ view.find j s)
        × ((j : Text)
            → view.attempts j s' ≡ (if id == j then view.attempts id s + 1 else view.attempts j s))
  -- The id under which an effect is found is its own.
  pub find_keyed :
      (id : Text) (s : S) (r : EffectRecord)
      → view.Valid s
      → view.find id s ≡ some r
      → r.effect_id ≡ id
  pub claim_lem :
      (worker : Text) (now : Time) (lease_for : Duration) (limit : ℤ) (s : S)
      → view.Valid s
      → (s' : S) × (batch : List EffectRecord) × (store.claim_due worker now lease_for limit s
          ≡ (ok batch, s'))
        × view.Valid s'
        × ((j : Text) (r : EffectRecord)
            → view.find j s ≡ some r
            → (view.find j s' ≡ some r)
              ⊎ ((view.find j s' ≡ some (claimed_record r now)) × Claimable r.status))
        × ((j : Text) → view.attempts j s' ≡ view.attempts j s)
        × All
            (λ x.
              (r : EffectRecord) × (view.find x.effect_id s ≡ some r)
              × Claimable r.status
              × (x ≡ claimed_record r now)
              × (view.find x.effect_id s' ≡ some x))
            batch
        × Apart batch
