-- ===== src/Store/Sqlite/Reservations.antt =====
-- What `reserve` of src/effect_broker/store/sqlite.py decides on.
use effect_broker.Prelude.{
  Text, text, text_eq, ◌==◌, ◌≡◌, Bool, true, false, ◌&&◌, Option, none, some, [], ◌∷◌,
  if◌then◌else◌, arith, inl, inr, Option-cases,
}
use effect_broker.Json.{str, mapping}
use effect_broker.Models.{
  EffectRequest, EffectContract, EffectRecord, Reservation, prepared, status_value,
}
use effect_broker.Errors.{Result, ok, err, >>=-eq-ok}
use effect_broker.Platform.{Platform}
use effect_broker.Canonical.{canonical_json, request_hash, request_value}
use effect_broker.Canonical.Validation.{Reproducible, canonical_json_total}
use effect_broker.Store.Rows.{object}
use effect_broker.Store.Sql.{first_where, count_where-eq-zero, first_where-eq-none}
use effect_broker.Store.Sqlite.Tables.{
  Decoders, EffectRow, Database, of_effect, of_identity, is_known, integrity_error,
}
use effect_broker.Store.Sqlite.Records.{select_by_identity, read_row}
use effect_broker.Store.Sqlite.Methods.{reserve_known}

-- A request with a digest has arguments with a canonical form.
pub arguments_encode :
    (p : Platform) (request : EffectRequest) (contract : EffectContract) (digest : Text)
    → request_hash p request.tool request.arguments contract.name contract.version ≡ ok digest
    → (t : Text) × (canonical_json (mapping request.arguments) ≡ ok t)
unfolding request_hash request_value Reproducible
arguments_encode p request contract digest h =
    let (t, encoded, _) =
      >>=-eq-ok
        (canonical_json
          (request_value request.tool request.arguments contract.name contract.version))
        (λ canonical. ok (p.sha256_hex canonical)) h in
    (canonical_json_total (mapping request.arguments)).1
      ((canonical_json_total
          (request_value request.tool request.arguments contract.name contract.version)).0
        (t, encoded)).2.1

pub status_encodes :
    (t : Text) × (canonical_json
        (mapping (object ((text "status", str (status_value prepared)) ∷ [])))
      ≡ ok t)
unfolding object Reproducible
status_encodes =
    (canonical_json_total (mapping (object ((text "status", str (status_value prepared)) ∷ [])))).1
      (tt, tt, tt)

-- A reservation as a decision on what is stored under its identity, and on whether the drawn id is
-- taken.
unfoldable pub reserve_outcome :
    EffectRequest → Text → EffectRecord → Option EffectRecord → Bool → Result Reservation
reserve_outcome request digest effect (some existing) taken =
    reserve_known request digest (some existing)
reserve_outcome request digest effect none true = err integrity_error
reserve_outcome request digest effect none false =
    ok (record { effect = effect; created = true; replayed = false })

-- What is stored under `j` after a reservation that drew `id`.
abbrev pub created_after :
    Text → Text → Result Reservation → Result (Option EffectRecord) → Result (Option EffectRecord)
created_after id j (ok res) before = if res.created && id == j then ok (some res.effect) else before
created_after id j (err e) before = before

module _ (d : Decoders) where
  -- The row behind an identity that is known.
  pub row_of_identity :
      (tenant key : Text) (s : Database) (r : EffectRecord)
      → select_by_identity d tenant key s ≡ ok (some r)
      → (row : EffectRow) × (first_where (of_identity tenant key) s.effects ≡ some row)
  unfolding select_by_identity read_row
  row_of_identity tenant key s r h =
      elim (Option-cases (first_where (of_identity tenant key) s.effects)) [
        | inl absent ↦ ground (arith, absent, h)
        | inr (row, present) ↦ (row, present)
      ]

pub row_of_known :
    (id : Text) (s : Database)
    → is_known id s ≡ true
    → (row : EffectRow) × (first_where (of_effect id) s.effects ≡ some row)
row_of_known id s h = elim (Option-cases (first_where (of_effect id) s.effects)) [
  | inl absent ↦ ground (
    arith,
    count_where-eq-zero (of_effect id) s.effects
        (first_where-eq-none (of_effect id) s.effects absent),
    h,
  )
  | inr (row, present) ↦ (row, present)
]
