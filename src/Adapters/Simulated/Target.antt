-- ===== src/Adapters/Simulated/Target.antt =====
-- `SimulatedTarget` and `SimulatedAdapter` of src/effect_broker/adapters/simulated.py.
use effect_broker.Prelude.{
  ℕ, ◌+◌, Text, text, text_eq, Bool, true, false, ◌&&◌, ◌||◌, not, Option, none, some, List, [],
  ◌∷◌, ◌++◌, if◌then◌else◌, ◌==◌,
}
use effect_broker.Prelude.Int.{◌+ℤ◌, leb_ℤ}
use effect_broker.Prelude.Dict.{Dict, lookup, insert}
use effect_broker.Prelude.Decimal.{str_nat, pad_zero}
use effect_broker.Json.{Value, bool, str}
use effect_broker.Models.{
  EffectRecord, SafetyClass, idempotent, transactional, reconcilable, unsafe, safety_eq, safety_beq,
  DispatchResult, ProbeResult, committed, not_committed, unknown, Time, Duration,
}
use effect_broker.Errors.{Result, ok, err, adapter_error, ambiguous_dispatch, key_error}
use effect_broker.Exec.{Exec, modify, ◌>>=◌, ◌>>◌}
use effect_broker.Store.Rows.{object}
use effect_broker.Store.Memory.{get_member}
use effect_broker.Adapters.Protocol.{EffectAdapter}

pub record SimulatedCharge : Type 0 where
  pub external_id : Text
  pub downstream_key : Text
  pub request_hash : Text
  -- `arguments.get("amount")`
  pub amount : Option Value
  pub committed_at : Time

pub record SimulatedTarget : Type 0 where
  pub charges : Dict Text SimulatedCharge
  pub by_downstream_key : Dict Text (List Text)
  pub next_charge_id : ℕ
  pub lose_next_response_after_commit : Bool
  pub hide_commits_until_settled : Bool
  pub now : Time
  pub dispatch_count : ℕ

-- `__init__` at the time `now`
unfoldable pub empty_target : Time → SimulatedTarget
empty_target now = record {
  charges = [];
  by_downstream_key = [];
  next_charge_id = 1;
  lose_next_response_after_commit = false;
  hide_commits_until_settled = false;
  now = now;
  dispatch_count = 0;
}

unfoldable pub lose_next_response : SimulatedTarget → SimulatedTarget
lose_next_response t = record t { lose_next_response_after_commit = true }

unfoldable pub set_now : Time → SimulatedTarget → SimulatedTarget
set_now now t = record t { now = now }

-- `self._by_downstream_key.get(key, [])`
unfoldable pub ids_for_key : Option (List Text) → List Text
ids_for_key none = []
ids_for_key (some ids) = ids

-- `self.charges[external_id]` on the first id; a missing charge is a KeyError.
unfoldable pub first_charge :
    Dict Text SimulatedCharge → List Text → Result (Option SimulatedCharge)
first_charge charges [] = ok none
first_charge charges (id ∷ ids) = elim (lookup id charges) [
  | none ↦ err (key_error id)
  | some charge ↦ ok (some charge)
]

unfoldable pub first_by_downstream_key : Text → SimulatedTarget → Result (Option SimulatedCharge)
unfolding ids_for_key first_charge
first_by_downstream_key key t =
    first_charge t.charges (ids_for_key (lookup key t.by_downstream_key))

unfoldable pub charges_of_ids :
    Dict Text SimulatedCharge → List Text → Result (List SimulatedCharge)
charges_of_ids charges [] = ok []
charges_of_ids charges (id ∷ ids) = elim (lookup id charges) [
  | none ↦ err (key_error id)
  | some charge ↦ elim (charges_of_ids charges ids) [ ok rest ↦ ok (charge ∷ rest) | err e ↦ err e ]
]

unfoldable pub charges_for_key : Text → SimulatedTarget → Result (List SimulatedCharge)
unfolding ids_for_key
charges_for_key key t = charges_of_ids t.charges (ids_for_key (lookup key t.by_downstream_key))

-- f"charge_{n:06d}"
unfoldable pub charge_id_of : ℕ → Text
charge_id_of n = text "charge_" ++ pad_zero 6 (str_nat n)

-- The part of `commit` that makes a new charge.
unfoldable pub new_charge : EffectRecord → Exec SimulatedTarget SimulatedCharge
unfolding ids_for_key
new_charge effect t =
    let external_id = charge_id_of t.next_charge_id in
    let charge : SimulatedCharge = record {
      external_id = external_id;
      downstream_key = effect.downstream_key;
      request_hash = effect.request_hash;
      amount = get_member (text "amount") effect.request.arguments;
      committed_at = t.now;
    } in
    (
      ok charge,
      record t {
        next_charge_id = t.next_charge_id + 1;
        charges = insert external_id charge t.charges;
        by_downstream_key =
            insert effect.downstream_key
              (ids_for_key (lookup effect.downstream_key t.by_downstream_key) ++ external_id ∷ [])
              t.by_downstream_key;
      },
    )

unfoldable pub commit_with :
    EffectRecord → Bool → Option SimulatedCharge → Exec SimulatedTarget SimulatedCharge
commit_with effect dedupe none t = new_charge effect t
commit_with effect dedupe (some existing) t =
    if not (existing.request_hash == effect.request_hash)
    then (err (adapter_error (text "target rejected payload drift for reused key")), t)
    else if dedupe
    then (ok existing, t)
    else new_charge effect t

unfoldable pub commit : EffectRecord → Bool → Exec SimulatedTarget SimulatedCharge
unfolding new_charge commit_with
commit effect dedupe = do
  modify λ t. record t { dispatch_count = t.dispatch_count + 1 }
  existing ← λ t. (first_by_downstream_key effect.downstream_key t, t)
  commit_with effect dedupe existing

-- The classes whose target honours a stable key.
unfoldable pub dedupes : SafetyClass → Bool
unfolding safety_beq
dedupes safety = safety == idempotent || safety == transactional

unfoldable pub answer : SimulatedCharge → Exec SimulatedTarget DispatchResult
answer charge t =
    if t.lose_next_response_after_commit
    then (
      err (ambiguous_dispatch (text "response lost after target commit")),
      record t { lose_next_response_after_commit = false },
    )
    else (
      ok (record {
        external_id = some charge.external_id;
        output = object ((text "external_id", str charge.external_id) ∷ []);
        committed = true;
      }),
      t,
    )

unfoldable pub dispatch : EffectRecord → Text → Exec SimulatedTarget DispatchResult
unfolding answer
dispatch effect attempt_id = do
  charge ← commit effect (dedupes effect.contract.safety)
  answer charge

unfoldable pub elapsed_since : Time → Time → Option Duration → Bool
elapsed_since now created_at none = false
elapsed_since now created_at (some bound) = leb_ℤ (created_at +ℤ bound) now

unfoldable pub settlement_elapsed : EffectRecord → SimulatedTarget → Bool
unfolding elapsed_since
settlement_elapsed effect t = elapsed_since t.now effect.created_at effect.contract.settlement_bound

-- The answers of `probe` when no commit is shown.
unfoldable pub probe_absent : EffectRecord → Bool → ProbeResult
unfolding safety_beq
probe_absent effect settled =
    if effect.contract.safety == reconcilable && settled
    then record {
      status = not_committed;
      external_id = none;
      output = none;
      evidence = object ((text "settlement_bound_elapsed", bool true) ∷ []);
    }
    else record {
      status = unknown;
      external_id = none;
      output = none;
      evidence = object ((text "settlement_bound_elapsed", bool settled) ∷ []);
    }

unfoldable pub probe_charge : EffectRecord → SimulatedTarget → Option SimulatedCharge → ProbeResult
probe_charge effect t none = probe_absent effect (settlement_elapsed effect t)
probe_charge effect t (some charge) =
    if not t.hide_commits_until_settled || settlement_elapsed effect t
    then record {
      status = committed;
      external_id = some charge.external_id;
      output = some (object ((text "external_id", str charge.external_id) ∷ []));
      evidence = object ((text "downstream_key", str effect.downstream_key) ∷ []);
    }
    else probe_absent effect (settlement_elapsed effect t)

unfoldable pub probe : EffectRecord → Exec SimulatedTarget ProbeResult
unfolding probe_charge safety_beq
probe effect t =
    if effect.contract.safety == unsafe
    then (
      ok (record {
        status = unknown;
        external_id = none;
        output = none;
        evidence =
            object ((text "reason", str (text "unsafe target has no authoritative lookup")) ∷ []);
      }),
      t,
    )
    else (
      elim (first_by_downstream_key effect.downstream_key t) [
        | err e ↦ err e
        | ok charge ↦ ok (probe_charge effect t charge)
      ],
      t,
    )

unfoldable pub simulated_adapter : EffectAdapter SimulatedTarget
simulated_adapter = record { dispatch = dispatch; probe = probe }
