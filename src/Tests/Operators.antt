-- ===== src/Tests/Operators.antt =====
-- What callers and operators do to an effect of the in-memory store.
use effect_broker.Prelude.{
  ℕ, Text, text, text_eq, ◌≡◌, ◌≢◌, ◌⊎◌, refl, inl, Option, some, none, [], if◌then◌else◌, ◌==◌,
  arith,
}
use effect_broker.Prelude.Int.{pos}
use effect_broker.Json.{JsonObject, end}
use effect_broker.Models.{EffectStatus, manual_review, cancelled, failed_final, unsafe}
use effect_broker.Errors.{ok, err, invalid_transition, unknown_effect}
use effect_broker.Contracts.{ContractRegistry}
use effect_broker.Adapters.{AdapterFor}
use effect_broker.Store.{EffectStore}
use effect_broker.Store.Rows.{updated_record}
use effect_broker.Store.Memory.{MemoryStore, new_record}
use effect_broker.Store.Memory.Conforms.{memory_store}
use effect_broker.World.{World}
use effect_broker.Fenced.Laws.{Moves}
use effect_broker.Engine.{cancel, resolve, get}
use effect_broker.Engine.Cancel.{
  Resolution, cancel_cancels, resolve_settles_reviews, tenants_are_apart,
}
use effect_broker.Api.{
  problem, problem_of, respond, get_effect, cancel_effect, resolve_effect, CancelEffectBody,
  ResolveEffectBody,
}
use effect_broker.Api.Tenants.{foreign_effect_is_not_found}
use effect_broker.Tests.Data.{
  platform, tenant_key, tenant, view, laws, effect, store-IsValid, store_has, world,
  reviewed_effect, reach_review, world_of,
}

abbrev broker : EffectStore MemoryStore
broker = memory_store platform tenant_key

abbrev registry : ContractRegistry
registry = record { by_tool = [] }

abbrev no_adapters : Option (AdapterFor ℕ)
no_adapters = none

cancel_cancels_example :
    (w' : World MemoryStore ℕ) × (cancel broker registry no_adapters tenant
        (effect unsafe).effect_id
        0
        (text "bob")
        (text "mistake")
        (world unsafe)
      ≡ (ok (updated_record (effect unsafe) cancelled (pos 0)), w'))
    × Moves broker view laws
        (effect unsafe)
        (updated_record (effect unsafe) cancelled (pos 0))
        (world unsafe)
        w'
unfolding new_record
cancel_cancels_example =
    cancel_cancels broker view laws registry no_adapters tenant (effect unsafe) (text "bob")
      (text "mistake") (world unsafe) (store-IsValid unsafe) (store_has unsafe, refl) (inl refl)

abbrev under_review : World MemoryStore ℕ
under_review = world_of unsafe (reach_review unsafe)

resolve_settles_reviews_example :
    (manual_review ≡ manual_review
      → Resolution failed_final
      → (s' : MemoryStore) × (resolve broker registry no_adapters tenant
            (reviewed_effect unsafe).effect_id
            failed_final
            end
            under_review
          ≡ (
            ok (updated_record (reviewed_effect unsafe) failed_final (pos 0)),
            record under_review { store = s'; reads = 1 },
          ))
        × view.Valid s'
        × ((j : Text)
            → view.find j s' ≡ (
                if (reviewed_effect unsafe).effect_id == j
                then some (updated_record (reviewed_effect unsafe) failed_final (pos 0))
                else view.find j under_review.store)))
    × ((manual_review ≢ manual_review) ⊎ (¬ Resolution failed_final)
        → resolve broker registry no_adapters tenant
            (reviewed_effect unsafe).effect_id
            failed_final
            end
            under_review
          ≡ (err (invalid_transition manual_review failed_final), under_review))
unfolding new_record updated_record
resolve_settles_reviews_example =
    resolve_settles_reviews broker view laws registry no_adapters tenant (reviewed_effect unsafe)
      failed_final end under_review (reach_review unsafe).valid ((reach_review unsafe).has, refl)

tenants_are_apart_example :
    (get broker registry no_adapters (text "rival") (effect unsafe).effect_id (world unsafe)
      ≡ (err (unknown_effect (effect unsafe).effect_id), world unsafe))
    × ((version : ℕ) (actor reason : Text)
        → cancel broker registry no_adapters
            (text "rival")
            (effect unsafe).effect_id
            version
            actor
            reason
            (world unsafe)
          ≡ (err (unknown_effect (effect unsafe).effect_id), world unsafe))
    × ((resolution : EffectStatus) (evidence : JsonObject)
        → resolve broker registry no_adapters
            (text "rival")
            (effect unsafe).effect_id
            resolution
            evidence
            (world unsafe)
          ≡ (err (unknown_effect (effect unsafe).effect_id), world unsafe))
unfolding new_record text
tenants_are_apart_example =
    tenants_are_apart broker view laws registry no_adapters (text "rival") (effect unsafe).effect_id
      (world unsafe) (λ r found. ground (arith, found, store_has unsafe))

foreign_effect_is_not_found_example :
    ((problem_of (unknown_effect (effect unsafe).effect_id)).status ≡ 404)
    × (respond
          (get_effect broker registry no_adapters (effect unsafe).effect_id (text "rival"))
          (world unsafe)
        ≡ (problem (problem_of (unknown_effect (effect unsafe).effect_id)), world unsafe))
    × ((request : CancelEffectBody)
        → respond
            (cancel_effect broker registry no_adapters
              (effect unsafe).effect_id
              request
              (text "rival"))
            (world unsafe)
          ≡ (problem (problem_of (unknown_effect (effect unsafe).effect_id)), world unsafe))
    × ((request : ResolveEffectBody)
        → respond
            (resolve_effect broker registry no_adapters
              (effect unsafe).effect_id
              request
              (text "rival"))
            (world unsafe)
          ≡ (problem (problem_of (unknown_effect (effect unsafe).effect_id)), world unsafe))
unfolding new_record text
foreign_effect_is_not_found_example =
    foreign_effect_is_not_found broker view laws registry no_adapters (text "rival")
      (effect unsafe).effect_id (world unsafe) (λ r found. ground (arith, found, store_has unsafe))
