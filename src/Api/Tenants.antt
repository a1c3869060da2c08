-- ===== src/Api/Tenants.antt =====
-- What the HTTP interface (src/effect_broker/api.py) tells about another tenant's effects.
use effect_broker.Prelude.{Text, ◌≡◌, ◌≢◌, refl, Option, some, arith}
use effect_broker.Models.{EffectRecord}
use effect_broker.Errors.{unknown_effect}
use effect_broker.Contracts.{ContractRegistry}
use effect_broker.Adapters.{AdapterFor}
use effect_broker.Store.{EffectStore}
use effect_broker.Store.Laws.{StoreView, StoreLaws}
use effect_broker.World.{World}
use effect_broker.Engine.Cancel.{tenants_are_apart}
use effect_broker.Api.{
  problem, problem_of, respond, get_effect, cancel_effect, resolve_effect, CancelEffectBody,
  ResolveEffectBody, status_for_error, domain_error_handler, resolution_status,
}

-- Over any lawful store: a request for an effect that is another tenant's or does not exist is
-- answered with status 404 and the id that was asked for, whether it reads, cancels or resolves,
-- and it changes nothing.
pub foreign_effect_is_not_found :
    {S T : Type 0} (store : EffectStore S) (view : StoreView S) (laws : StoreLaws store view)
    (contracts : ContractRegistry) (adapter_for : Option (AdapterFor T))
    (tenant_id effect_id : Text) (w : World S T)
    → ((r : EffectRecord) → view.find effect_id w.store ≡ some r → r.tenant_id ≢ tenant_id)
    → ((problem_of (unknown_effect effect_id)).status ≡ 404)
      × (respond (get_effect store contracts adapter_for effect_id tenant_id) w
          ≡ (problem (problem_of (unknown_effect effect_id)), w))
      × ((request : CancelEffectBody)
          → respond (cancel_effect store contracts adapter_for effect_id request tenant_id) w
            ≡ (problem (problem_of (unknown_effect effect_id)), w))
      × ((request : ResolveEffectBody)
          → respond (resolve_effect store contracts adapter_for effect_id request tenant_id) w
            ≡ (problem (problem_of (unknown_effect effect_id)), w))
unfolding respond get_effect cancel_effect resolve_effect problem_of status_for_error
    domain_error_handler
foreign_effect_is_not_found store view laws contracts adapter_for tenant_id effect_id w foreign =
    let (hidden, uncancelled, unresolved) =
      tenants_are_apart store view laws contracts adapter_for tenant_id effect_id w foreign in
    (
      refl,
      ground (arith, hidden),
      λ request. ground (arith, uncancelled request.expected_version request.actor request.reason),
      λ request. ground (arith, unresolved (resolution_status request.resolution) request.evidence),
    )
