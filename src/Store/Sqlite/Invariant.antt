-- ===== src/Store/Sqlite/Invariant.antt =====
-- The invariant of the tables of src/effect_broker/store/sqlite.py, and what inserts and updates do
-- to it.
use effect_broker.Prelude.{
  Text, text_eq, ◌≡◌, ◌≢◌, Bool, Option, none, some, List, [], ◌∷◌, ◌++◌, All, All-append,
  if◌then◌else◌, arith,
}
use effect_broker.Models.{EffectRecord, Time}
use effect_broker.Errors.{ok}
use effect_broker.Store.Rows.{attempt_id_of}
use effect_broker.Store.Sql.{update_where}
use effect_broker.Store.Sqlite.Tables.{Decoders, EffectRow, AttemptRow, Database, empty_database}
use effect_broker.Store.Numbered.{Numbered}
use effect_broker.Store.Sqlite.Records.{row_to_record}

-- No two effects have one id or one identity.
abbrev pub ApartRow : EffectRow → EffectRow → Type 0
ApartRow x y =
    (x.effect_id ≢ y.effect_id) × (x.tenant_id ≡ y.tenant_id → x.operation_key ≢ y.operation_key)

abbrev pub ApartRows : List EffectRow → Type 0
ApartRows [] = Unit
ApartRows (x ∷ xs) = All (ApartRow x) xs × ApartRows xs

abbrev pub NamedAttempt : AttemptRow → Type 0
NamedAttempt a = a.attempt_id ≡ attempt_id_of a.effect_id a.ordinal

-- An update that leaves ids and identities alone keeps the rows apart.
module _ (where_test : EffectRow → Bool) (set : EffectRow → EffectRow)
    (same_id : (x : EffectRow) → (set x).effect_id ≡ x.effect_id)
    (same_tenant : (x : EffectRow) → (set x).tenant_id ≡ x.tenant_id)
    (same_key : (x : EffectRow) → (set x).operation_key ≡ x.operation_key) where
  ApartRow-update :
      (x y : EffectRow)
      → ApartRow x y
      → ApartRow (if where_test x then set x else x) (if where_test y then set y else y)
  ApartRow-update x y h =
      ground (arith, same_id x, same_id y, same_tenant x, same_tenant y, same_key x, same_key y)

  All-ApartRow-update :
      (x : EffectRow) (xs : List EffectRow)
      → All (ApartRow x) xs
      → All (ApartRow (if where_test x then set x else x)) (update_where where_test set xs)
  unfolding update_where
  All-ApartRow-update x [] h = tt
  All-ApartRow-update x (y ∷ xs) h = (ApartRow-update x y h.0, All-ApartRow-update x xs h.1)

  pub ApartRows-update_where :
      (xs : List EffectRow) → ApartRows xs → ApartRows (update_where where_test set xs)
  unfolding update_where
  ApartRows-update_where [] h = tt
  ApartRows-update_where (x ∷ xs) h = (All-ApartRow-update x xs h.0, ApartRows-update_where xs h.1)

pub ApartRows-append :
    (xs : List EffectRow) (y : EffectRow)
    → ApartRows xs
    → All (λ x. ApartRow x y) xs
    → ApartRows (xs ++ y ∷ [])
ApartRows-append [] y h new = (tt, tt)
ApartRows-append (x ∷ xs) y h new =
    (All-append (ApartRow x) xs (y ∷ []) h.0 (new.0, tt), ApartRows-append xs y h.1 new.1)

module _ (d : Decoders) where
  abbrev pub LeaseReads : Option Text → Type 0
  LeaseReads none = Unit
  LeaseReads (some lease_text) = (until : Time) × (d.fromisoformat lease_text ≡ ok until)

  abbrev pub RowReads : EffectRow → Type 0
  RowReads row = ((r : EffectRecord) × (row_to_record d row ≡ ok r)) × LeaseReads row.lease_until

  -- Every row reads back, ids and identities are unique, and the rows that belong to an effect are
  -- numbered.
  pub record IsValid (s : Database) : Type 0 where
    pub readable : All RowReads s.effects
    pub apart : ApartRows s.effects
    pub named : All NamedAttempt s.attempts
    pub attempts_numbered : Numbered (λ a. a.effect_id) (λ a. a.ordinal) s.attempts
    pub events_numbered : Numbered (λ e. e.effect_id) (λ e. e.sequence) s.events

  pub empty-IsValid : IsValid empty_database
  unfolding empty_database
  empty-IsValid = record {
    readable = tt;
    apart = tt;
    named = tt;
    attempts_numbered = tt;
    events_numbered = tt;
  }
