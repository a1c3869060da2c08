-- ===== src/Store/Sqlite/DueRows.antt =====
-- The rows that the query of `claim_due` selects and orders (src/effect_broker/store/sqlite.py).
use effect_broker.Prelude.{
  Text, text_eq, ◌≡◌, ◌≢◌, refl, sym, Bool, true, Option, none, some, List, [], ◌∷◌, All, All-map,
  All-both, keep_if, arith, Bool-cases, inl, inr, ==_refl,
}
use effect_broker.Prelude.Int.{leb_ℤ}
use effect_broker.Models.{EffectRecord, Time, Duration}
use effect_broker.Errors.{ok}
use effect_broker.Platform.{Platform}
use effect_broker.Store.Sql.{first_where}
use effect_broker.Store.Sqlite.Tables.{Decoders, EffectRow, Database, of_effect}
use effect_broker.Store.Sqlite.Records.{row_to_record, read_row, select_by_effect_id}
use effect_broker.Store.Sqlite.Claim.{lease_over, order_rows, insert_row, row_before}
use effect_broker.Store.Sqlite.Invariant.{LeaseReads, ApartRow, ApartRows}
use effect_broker.Store.Sqlite.ClaimLoop.{Without, ApartIds}

-- The rows of the query: ordering and the WHERE clause keep what holds of every row.
All-insert_row :
    (P : EffectRow → Type 0) (row : EffectRow) (rows : List EffectRow)
    → P row
    → All P rows
    → All P (insert_row row rows)
unfolding insert_row
All-insert_row P row [] h hs = (h, tt)
All-insert_row P row (x ∷ xs) h hs = ground (arith, All-insert_row P row xs h hs.1)

pub All-order_rows :
    (P : EffectRow → Type 0) (rows : List EffectRow) → All P rows → All P (order_rows rows)
unfolding order_rows
All-order_rows P [] h = tt
All-order_rows P (row ∷ rows) h =
    All-insert_row P row (order_rows rows) h.0 (All-order_rows P rows h.1)

ApartIds-insert_row :
    (row : EffectRow) (rows : List EffectRow)
    → Without row.effect_id rows
    → ApartIds rows
    → ApartIds (insert_row row rows)
unfolding insert_row
ApartIds-insert_row row [] h hs = (tt, tt)
ApartIds-insert_row row (x ∷ xs) h hs = elim (Bool-cases (row_before x row)) [
  | inl before ↦ rw before (
    All-insert_row (λ y. y.effect_id ≢ x.effect_id) row xs (λ e. h.0 (sym e)) hs.0,
    ApartIds-insert_row row xs h.1 hs.1,
  )
  | inr after ↦ rw after (h, hs)
]

pub ApartIds-order_rows : (rows : List EffectRow) → ApartIds rows → ApartIds (order_rows rows)
unfolding order_rows
ApartIds-order_rows [] h = tt
ApartIds-order_rows (row ∷ rows) h =
    ApartIds-insert_row row (order_rows rows)
      (All-order_rows (λ y. y.effect_id ≢ row.effect_id) rows h.0) (ApartIds-order_rows rows h.1)

pub All-keep_if :
    (P : EffectRow → Type 0) (test : EffectRow → Bool) (rows : List EffectRow)
    → All P rows
    → All (λ row. P row × (test row ≡ true)) (keep_if test rows)
unfolding keep_if
All-keep_if P test [] h = tt
All-keep_if P test (row ∷ rows) h = ground (arith, All-keep_if P test rows h.1)

All-keep :
    (P : EffectRow → Type 0) (test : EffectRow → Bool) (rows : List EffectRow)
    → All P rows
    → All P (keep_if test rows)
All-keep P test rows h =
    All-map (λ row. P row × (test row ≡ true)) P (keep_if test rows) (λ row q. q.0)
      (All-keep_if P test rows h)

pub ApartIds-keep_if :
    (test : EffectRow → Bool) (rows : List EffectRow)
    → ApartRows rows
    → ApartIds (keep_if test rows)
unfolding keep_if
ApartIds-keep_if test [] h = tt
ApartIds-keep_if test (row ∷ rows) h =
    let rest = ApartIds-keep_if test rows h.1 in
    let apart =
      All-keep (λ y. y.effect_id ≢ row.effect_id) test rows
        (All-map (ApartRow row) (λ y. y.effect_id ≢ row.effect_id) rows (λ y q e. q.0 (sym e))
          h.0) in
    ground (arith, rest, apart)

-- And what holds of the rows of the query holds of every row that passes its WHERE clause.
insert_row-All :
    (P : EffectRow → Type 0) (row : EffectRow) (rows : List EffectRow)
    → All P (insert_row row rows)
    → P row × All P rows
unfolding insert_row
insert_row-All P row [] h = h
insert_row-All P row (x ∷ xs) h = elim (Bool-cases (row_before x row)) [
  | inl before ↦
      let (first, rest) = insert_row-All P row xs (ground (arith, h, before)) in
      (first, (ground (arith, h, before), rest))
  | inr after ↦ ground (arith, h, after)
]

pub order_rows-All :
    (P : EffectRow → Type 0) (rows : List EffectRow) → All P (order_rows rows) → All P rows
unfolding order_rows
order_rows-All P [] h = tt
order_rows-All P (row ∷ rows) h =
    let (first, rest) = insert_row-All P row (order_rows rows) h in
    (first, order_rows-All P rows rest)

pub keep_if-All :
    (P : EffectRow → Type 0) (test : EffectRow → Bool) (rows : List EffectRow)
    → All P (keep_if test rows)
    → All (λ row. test row ≡ true → P row) rows
unfolding keep_if
keep_if-All P test [] h = tt
keep_if-All P test (row ∷ rows) h = elim (Bool-cases (test row)) [
  | inl passes ↦
      let both : P row × All P (keep_if test rows) = rw passes at h in
      (λ _. both.0, keep_if-All P test rows both.1)
  | inr fails ↦ (λ e. cc (fails, e), keep_if-All P test rows (rw fails at h))
]

-- A query by the id of a row finds this row.
pub stands :
    (rows : List EffectRow)
    → ApartRows rows
    → All (λ row. first_where (of_effect row.effect_id) rows ≡ some row) rows
unfolding first_where
stands [] h = tt
stands (x ∷ xs) h = (
  rw (==_refl x.effect_id),
  All-both (ApartRow x) (λ row. first_where (of_effect row.effect_id) xs ≡ some row)
      (λ row. first_where (of_effect row.effect_id) (x ∷ xs) ≡ some row) xs
      (λ row a at. ground (arith, at, a.0, text_eq.beq_iff x.effect_id row.effect_id)) h.0
      (stands xs h.1),
)

-- Whether the lease of a row is over can be told.
pub lease-reads :
    (p : Platform) (d : Decoders) (worker : Text) (now : Time) (lease_for : Duration)
    (until : Option Text)
    → LeaseReads d until
    → (over : Bool) × (lease_over p d worker now lease_for until ≡ ok over)
unfolding lease_over
lease-reads p d worker now lease_for none h = (true, refl)
lease-reads p d worker now lease_for (some t) (until, h) = (leb_ℤ until now, ground (arith, h))

module _ (d : Decoders) where
  pub selects :
      (s : Database) (row : EffectRow) (r : EffectRecord)
      → first_where (of_effect row.effect_id) s.effects ≡ some row
      → row_to_record d row ≡ ok r
      → select_by_effect_id d row.effect_id s ≡ ok (some r)
  unfolding select_by_effect_id read_row
  selects s row r first read = rw (first, read)
