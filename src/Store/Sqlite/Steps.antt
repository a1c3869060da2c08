-- ===== src/Store/Sqlite/Steps.antt =====
-- `transition` and `start_attempt` of src/effect_broker/store/sqlite.py on every branch.
use effect_broker.Prelude.{
  ℕ, Text, text_eq, ◌==◌, ◌≡◌, ◌≢◌, ◌∙◌, refl, subst, false, none, some, if◌then◌else◌, arith,
  Bool-cases, inl, inr, ==_eq, Option-cases,
}
use effect_broker.Json.{JsonObject}
use effect_broker.Models.{EffectRecord, EffectStatus, Time}
use effect_broker.Errors.{ok, err, unknown_effect, version_conflict, invalid_transition}
use effect_broker.Platform.{Platform}
use effect_broker.StateMachine.{is_allowed, assert_transition}
use effect_broker.Store.Rows.{updated_record}
use effect_broker.Store.Sql.{
  first_where, first_where-eq-some, first_where-update_where, count_where, count_where-ne-zero,
  update_where,
}
use effect_broker.Store.Sqlite.Tables.{
  in_transaction, finish, Decoders, EffectRow, Database, of_effect,
}
use effect_broker.Store.Sqlite.Records.{row_to_record, read_row, select_by_effect_id}
use effect_broker.Store.Values.{effect_status-status_value}
use effect_broker.Store.Sqlite.Methods.{
  transition, transition_body, record_for_expected_version, update_effect, moved_row, of_version,
}
use effect_broker.Store.Sqlite.RoundTrip.{Faithful}

module _ (d : Decoders) where
  -- The row behind an effect that is found.
  pub row_of :
      (id : Text) (s : Database) (r : EffectRecord)
      → select_by_effect_id d id s ≡ ok (some r)
      → (row : EffectRow) × (first_where (of_effect id) s.effects ≡ some row)
        × (row_to_record d row ≡ ok r)
  unfolding select_by_effect_id read_row
  row_of id s r h = elim (Option-cases (first_where (of_effect id) s.effects)) [
    | inl absent ↦ ground (arith, absent, h)
    | inr (row, present) ↦ (row, present, ground (arith, present, h))
  ]

  -- The columns that a record takes over as they are.
  pub row_columns :
      (row : EffectRow) (r : EffectRecord)
      → row_to_record d row ≡ ok r
      → (r.version ≡ row.version) × (r.effect_id ≡ row.effect_id) × (r.tenant_id ≡ row.tenant_id)
  unfolding row_to_record
  row_columns row r h = ground (arith, h)

module _ (p : Platform) (d : Decoders) where
  module _ (id : Text) (v : ℕ) (target : EffectStatus) (metadata : JsonObject) (now : Time)
      (s : Database) where
    pub transition_missing :
        select_by_effect_id d id s ≡ ok none
        → transition p d id v target metadata now s ≡ (err (unknown_effect id), s)
    unfolding transition transition_body in_transaction finish record_for_expected_version
    transition_missing h = ground (arith, h)

    pub transition_stale :
        (r : EffectRecord)
        → select_by_effect_id d id s ≡ ok (some r)
        → r.version ≢ v
        → transition p d id v target metadata now s ≡ (err (version_conflict id v r.version), s)
    unfolding transition transition_body in_transaction finish record_for_expected_version
    transition_stale r h ne = ground (arith, h)

    pub transition_forbidden :
        (r : EffectRecord)
        → select_by_effect_id d id s ≡ ok (some r)
        → r.version ≡ v
        → is_allowed r.status target ≡ false
        → transition p d id v target metadata now s ≡ (err (invalid_transition r.status target), s)
    unfolding transition transition_body in_transaction finish record_for_expected_version
        assert_transition
    transition_forbidden r h e no_edge = ground (arith, h)

module _ (p : Platform) (d : Decoders) (id : Text) (v : ℕ) (target : EffectStatus) (now : Time)
    (s : Database) where
  -- The database after the UPDATE of a transition.
  abbrev pub moved : Database
  moved = record s { effects = update_where (of_version id v) (moved_row p target now) s.effects }

  pub update_runs :
      update_effect p id v target now s ≡ (ok (count_where (of_version id v) s.effects), moved)
  unfolding update_effect
  update_runs = refl

module _ (p : Platform) (d : Decoders) (faithful : Faithful p d) where
  pub moved_row_reads :
      (target : EffectStatus) (now : Time) (row : EffectRow) (r : EffectRecord)
      → row_to_record d row ≡ ok r
      → row_to_record d (moved_row p target now row) ≡ ok (updated_record r target now)
  unfolding row_to_record moved_row updated_record
  moved_row_reads target now row r h =
      ground (arith, h, faithful.time_back now, effect_status-status_value target)

  module _ (id : Text) (v : ℕ) (target : EffectStatus) (now : Time) (s : Database)
      (r : EffectRecord) (found : select_by_effect_id d id s ≡ ok (some r))
      (current : r.version ≡ v) where
    pub one_row : count_where (of_version id v) s.effects ≢ 0
    one_row =
        let (row, first, read) = row_of d id s r found in
        let (version, _, _) = row_columns d row r read in
        count_where-ne-zero (of_effect id) (of_version id v) s.effects row first
          (ground (arith, first_where-eq-some (of_effect id) s.effects row first))

    -- What the row of an effect reads as after the UPDATE.
    moved_or_kept :
        (j : Text) (row : EffectRow)
        → first_where (of_effect j) s.effects ≡ some row
        → read_row d (some (if of_version id v row then moved_row p target now row else row))
          ≡ (if id == j then ok (some (updated_record r target now)) else read_row d (some row))
    unfolding read_row
    moved_or_kept j row present = elim (Bool-cases (id == j)) [
      | inl same ↦
          let at_j = subst (λ i. select_by_effect_id d i s ≡ ok (some r)) (==_eq id j same) found in
          let (row', first, read) = row_of d j s r at_j in
          let this : row_to_record d row ≡ ok r = ground (arith, first, present, read) in
          let (version, _, _) = row_columns d row r this in
          ground (
            arith,
            moved_row_reads target now row r this,
            first_where-eq-some (of_effect j) s.effects row present,
            ==_eq id j same,
          )
      | inr other ↦ ground (
        arith,
        first_where-eq-some (of_effect j) s.effects row present,
        text_eq.beq_iff row.effect_id j,
        text_eq.beq_iff row.effect_id id,
        text_eq.beq_iff id j,
      )
    ]

    -- The rows of other effects stay as they are, in every column.
    pub first_moved :
        (j : Text)
        → id ≢ j
        → first_where (of_effect j) (moved p d id v target now s).effects
          ≡ first_where (of_effect j) s.effects
    first_moved j other =
        first_where-update_where (of_effect j) (of_version id v) (moved_row p target now) s.effects
          same_id
        ∙ elim (Option-cases (first_where (of_effect j) s.effects)) [
          | inl absent ↦ rw absent
          | inr (row, present) ↦ rw present (
              ground (
                arith,
                first_where-eq-some (of_effect j) s.effects row present,
                text_eq.beq_iff row.effect_id j,
                text_eq.beq_iff row.effect_id id,
              ))
        ]
      where
        same_id : (x : EffectRow) → of_effect j (moved_row p target now x) ≡ of_effect j x
        same_id x = unfold moved_row in refl

    pub select_moved :
        (j : Text)
        → select_by_effect_id d j (moved p d id v target now s)
          ≡ (if id == j then ok (some (updated_record r target now)) else select_by_effect_id d j s)
    unfolding select_by_effect_id
    select_moved j =
        rw
          (first_where-update_where (of_effect j) (of_version id v) (moved_row p target now)
            s.effects same_id)
          (elim (Option-cases (first_where (of_effect j) s.effects)) [
            | inl absent ↦
                let (row, first, read) = row_of d id s r found in
                ground (arith, first, absent, text_eq.beq_iff id j)
            | inr (row, present) ↦ rw present (moved_or_kept j row present)
          ])
      where
        same_id : (x : EffectRow) → of_effect j (moved_row p target now x) ≡ of_effect j x
        same_id x = unfold moved_row in refl
