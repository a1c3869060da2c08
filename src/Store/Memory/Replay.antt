-- ===== src/Store/Memory/Replay.antt =====
-- A second `reserve` of one operation key, after any calls (src/effect_broker/store/memory.py).
use effect_broker.Prelude.{
  Text, text_eq, pair_eq, ◌≡◌, ◌≢◌, refl, ap, sym, ◌∙◌, none, some, List, true, false, arith,
  Option-cases, Bool-cases, inl, inr, ==_refl, ==_eq, ◌==◌, subst₂,
}
use effect_broker.Prelude.Dict.{lookup, lookup-insert}
use effect_broker.Models.{EffectRecord, EffectRequest, EffectContract, Reservation, Time}
use effect_broker.Errors.{ok, err, payload_conflict, Result-cases}
use effect_broker.Platform.{Platform}
use effect_broker.Store.Memory.State.{MemoryStore, reserve, new_record}
use effect_broker.Store.Memory.Invariant.{IsValid}
use effect_broker.Store.Memory.Reservation.{
  digest_of, fresh_record, fresh_store, reserve_rejects, reserve_creates, reserve_replays,
  reserve_conflicts, fresh-IsValid,
}
use effect_broker.Store.Memory.Evolves.{Evolves, same, moved}
use effect_broker.Store.Memory.Runs.{Call, calls, calls-IsValid, calls-Evolves}

kept_fields :
    {r r' : EffectRecord}
    → Evolves r r'
    → (r'.tenant_id ≡ r.tenant_id) × (r'.request ≡ r.request) × (r'.request_hash ≡ r.request_hash)
kept_fields (same e) = (
  ap (λ (z : EffectRecord). z.tenant_id) e,
  ap (λ (z : EffectRecord). z.request) e,
  ap (λ (z : EffectRecord). z.request_hash) e,
)
kept_fields (moved _ _ _ _ a2 a3 a4 _ _ _) = (a2, a3, a4)

module _ (p : Platform) (tenant_key : Text → Text) where
  -- What a successful reservation leaves: the effect is stored under its identity and fingerprint.
  pub record Reserved (t : Text) (request : EffectRequest) (contract : EffectContract)
      (res : Reservation) (s1 : MemoryStore) : Type 0 where
    pub valid : IsValid p tenant_key s1
    pub stored : lookup res.effect.effect_id s1.records ≡ some res.effect
    pub tenant : res.effect.tenant_id ≡ t
    pub key : res.effect.request.operation_key ≡ request.operation_key
    pub hashed : digest_of p request contract ≡ ok res.effect.request_hash

  module _ (t : Text) (request : EffectRequest) (contract : EffectContract) (now : Time)
      (s s1 : MemoryStore) (res : Reservation) (v : IsValid p tenant_key s)
      (h : reserve p tenant_key t request contract now s ≡ (ok res, s1)) (digest : Text)
      (good : digest_of p request contract ≡ ok digest) where
    created_Reserved :
        lookup (t, request.operation_key) s.identity ≡ none → Reserved t request contract res s1
    unfolding new_record
    created_Reserved new =
        let made = reserve_creates p tenant_key t request contract now s digest good new in
        let r = fresh_record p tenant_key t request contract now s digest in
        let effect_is : r ≡ res.effect = cc (made, h) in
        let store_is : fresh_store p tenant_key t request contract now s digest ≡ s1 =
          cc (made, h) in
        subst₂
          (λ (x : EffectRecord) (q : MemoryStore).
            Reserved t request contract (record res { effect = x }) q)
          effect_is store_is
          (record {
            valid = fresh-IsValid p tenant_key t request contract now s digest v new;
            stored = lookup-insert r.effect_id r.effect_id r s.records ∙ rw (==_refl r.effect_id);
            tenant = refl;
            key = refl;
            hashed = good;
          })

    known_Reserved :
        (id : Text)
        → lookup (t, request.operation_key) s.identity ≡ some id
        → Reserved t request contract res s1
    known_Reserved id known =
        let (r, found, tenant, key) = v.named t request.operation_key id known in
        elim (Bool-cases (r.request_hash == digest)) [
          | inl same_hash ↦
              let hash_is = ==_eq r.request_hash digest same_hash in
              let replayed =
                reserve_replays p tenant_key t request contract now s id digest r good known found
                  hash_is in
              let effect_is : r ≡ res.effect = cc (replayed, h) in
              let store_is : s ≡ s1 = cc (replayed, h) in
              subst₂
                (λ (x : EffectRecord) (q : MemoryStore).
                  Reserved t request contract (record res { effect = x }) q)
                effect_is store_is
                (record {
                  valid = v;
                  stored =
                      ap (λ (j : Text). lookup j s.records) (v.matches id r found).keyed ∙ found;
                  tenant = tenant;
                  key = key;
                  hashed = good ∙ ap ok (sym hash_is);
                })
          | inr other ↦ cc (
            reserve_conflicts p tenant_key t request contract now s id digest r good known found
                (λ e. ground (arith, e, other, ==_refl digest)),
            h,
          )
        ]

  reserved_lem :
      (t : Text) (request : EffectRequest) (contract : EffectContract) (now : Time)
      (s s1 : MemoryStore) (res : Reservation)
      → IsValid p tenant_key s
      → reserve p tenant_key t request contract now s ≡ (ok res, s1)
      → Reserved t request contract res s1
  reserved_lem t request contract now s s1 res v h =
      elim (Result-cases (digest_of p request contract)) [
        | inr (e, bad) ↦ cc (reserve_rejects p tenant_key t request contract now s e bad, h)
        | inl (digest, good) ↦ elim (Option-cases (lookup (t, request.operation_key) s.identity)) [
          | inl new ↦ created_Reserved t request contract now s s1 res v h digest good new
          | inr (id, known) ↦
              known_Reserved t request contract now s s1 res v h digest good id known
        ]
      ]

  -- After a reservation, and any calls by anyone, a reservation with the same operation key
  -- creates nothing and changes nothing: with the same payload and contract it returns the first
  -- effect, as it then is, and with any other it is a payload conflict.
  pub reserve_again :
      (t : Text) (request again : EffectRequest) (contract contract_again : EffectContract)
      (now later : Time) (s s1 : MemoryStore) (res : Reservation) (cs : List Call) (digest : Text)
      → IsValid p tenant_key s
      → reserve p tenant_key t request contract now s ≡ (ok res, s1)
      → again.operation_key ≡ request.operation_key
      → digest_of p again contract_again ≡ ok digest
      → (r : EffectRecord) × (lookup res.effect.effect_id (calls p tenant_key cs s1).records
          ≡ some r)
        × Evolves res.effect r
        × (digest_of p request contract ≡ ok digest
            → reserve p tenant_key t again contract_again later (calls p tenant_key cs s1) ≡ (
              ok (record { effect = r; created = false; replayed = true }),
              calls p tenant_key cs s1,
            ))
        × (digest_of p request contract ≢ ok digest
            → reserve p tenant_key t again contract_again later (calls p tenant_key cs s1) ≡ (
              err (payload_conflict request.operation_key r.request_hash digest),
              calls p tenant_key cs s1,
            ))
  reserve_again t request again contract contract_again now later s s1 res cs digest v h same_key
        hashed =
      let first = reserved_lem t request contract now s s1 res v h in
      let (r, found, ev) =
        calls-Evolves p tenant_key cs s1 res.effect.effect_id res.effect first.valid first.stored in
      let (same_tenant, same_request, same_hash) = kept_fields ev in
      let s2 = calls p tenant_key cs s1 in
      let m = (calls-IsValid p tenant_key cs s1 first.valid).matches res.effect.effect_id r found in
      let known : lookup (t, again.operation_key) s2.identity ≡ some res.effect.effect_id =
        rw (same_tenant, same_request, first.tenant, first.key, ← same_key) at m.indexed in
      (
        r,
        found,
        ev,
        λ same_digest.
            reserve_replays p tenant_key t again contract_again later s2 res.effect.effect_id digest
              r hashed known found (ground (arith, same_hash, first.hashed, same_digest)),
        λ other_digest. rw (← same_key) (
            reserve_conflicts p tenant_key t again contract_again later s2 res.effect.effect_id
              digest r hashed known found
              (λ e. ground (arith, same_hash, first.hashed, other_digest, e))),
      )
