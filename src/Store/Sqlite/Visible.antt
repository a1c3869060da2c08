-- ===== src/Store/Sqlite/Visible.antt =====
-- `get` of src/effect_broker/store/sqlite.py: a tenant sees its own effects and no other's.
use effect_broker.Prelude.{
  Text, text_eq, ◌==◌, ◌≡◌, refl, false, Option, none, some, List, [], ◌∷◌, All-map, if◌then◌else◌,
  arith, Bool-cases, Option-cases, inl, inr,
}
use effect_broker.Models.{EffectRecord}
use effect_broker.Errors.{ok, Result-cases}
use effect_broker.Store.Rows.{visible_to}
use effect_broker.Store.Sql.{first_where, first_where-none}
use effect_broker.Store.Sqlite.Tables.{Decoders, EffectRow, Database, of_effect}
use effect_broker.Store.Sqlite.Records.{row_to_record, read_row, select_by_effect_id}
use effect_broker.Store.Sqlite.Reads.{get, of_tenant}
use effect_broker.Store.Sqlite.Invariant.{IsValid, ApartRow, ApartRows}
use effect_broker.Store.Sqlite.Steps.{row_columns}

abbrev owned : Text → Option EffectRow → Option EffectRow
owned tenant none = none
owned tenant (some row) = if row.tenant_id == tenant then some row else none

-- Ids are unique, so the tenant's query looks at the row with the id and at no other.
first_where-of_tenant :
    (tenant id : Text) (rows : List EffectRow)
    → ApartRows rows
    → first_where (of_tenant tenant id) rows ≡ owned tenant (first_where (of_effect id) rows)
unfolding first_where
first_where-of_tenant tenant id [] h = refl
first_where-of_tenant tenant id (x ∷ xs) h = elim (Bool-cases (x.effect_id == id)) [
  | inl same ↦
      let later = first_where-none (of_tenant tenant id) xs (
        All-map (ApartRow x) (λ y. of_tenant tenant id y ≡ false) xs
          (λ y a.
            ground
              (arith, a.0, same, text_eq.beq_iff x.effect_id id, text_eq.beq_iff y.effect_id id))
          h.0) in
      ground (arith, same, later)
  | inr other ↦ ground (arith, other, first_where-of_tenant tenant id xs h.1)
]

seen_row :
    (d : Decoders) (tenant : Text) (row : EffectRow) (o : Option EffectRecord)
    → read_row d (some row) ≡ ok o
    → read_row d (owned tenant (some row)) ≡ ok (visible_to tenant o)
seen_row d tenant row o h = elim (Result-cases (row_to_record d row)) [
  | inr (e, bad) ↦ unfold read_row in ground (arith, bad, h)
  | inl (r, read) ↦
      let (_, _, same_tenant) = row_columns d row r read in
      let this : o ≡ some r = unfold read_row in ground (arith, read, h) in
      rw this (elim (Bool-cases (row.tenant_id == tenant)) [
        | inl mine ↦ unfold read_row visible_to in ground (arith, read, mine, same_tenant)
        | inr other ↦ unfold read_row visible_to in ground (arith, read, other, same_tenant)
      ])
]

-- `get` answers for an effect exactly to the tenant that it belongs to, and `None` to every other.
pub get-visible_to :
    (d : Decoders) (tenant id : Text) (s : Database) (o : Option EffectRecord)
    → IsValid d s
    → select_by_effect_id d id s ≡ ok o
    → get d tenant id s ≡ ok (visible_to tenant o)
unfolding get read_row select_by_effect_id
get-visible_to d tenant id s o valid h =
    rw (first_where-of_tenant tenant id s.effects valid.apart)
      (elim (Option-cases (first_where (of_effect id) s.effects)) [
        | inl absent ↦ unfold visible_to in ground (arith, absent, h)
        | inr (row, present) ↦ rw present (seen_row d tenant row o (rw present at h))
      ])
