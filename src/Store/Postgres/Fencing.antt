-- ===== src/Store/Postgres/Fencing.antt =====
-- `transition` of src/effect_broker/store/postgres.py when other transactions commit between its
-- read and its UPDATE (READ COMMITTED lets them).
use effect_broker.Prelude.{
  ℕ, ◌+◌, ◌≤◌, Text, text, text_eq, ◌==◌, ◌≡◌, ◌≢◌, ◌⊎◌, refl, subst, sym, ap, ◌∙◌, true, none,
  some, [], ◌∷◌, if◌then◌else◌, nat_beq, arith, Bool-cases, Option-cases, inl, inr, ==_eq,
}
use effect_broker.Json.{str, mapping, JsonObject}
use effect_broker.Models.{EffectRecord, EffectStatus, status_eq, status_value, Time}
use effect_broker.Errors.{ok, err, version_conflict}
use effect_broker.StateMachine.{is_allowed, assert_transition}
use effect_broker.Store.Rows.{updated_record, object}
use effect_broker.Store.Memory.Evolves.{Evolves, same, moved}
use effect_broker.Store.Sql.{
  first_where, first_where-eq-some, first_where-both, first_where-update_where, count_where,
  update_where,
}
use effect_broker.Store.Values.{effect_status-status_value}
use effect_broker.Store.Postgres.Tables.{
  Driver, IntentRow, Database, of_intent, insert_event, insert_receipt_row,
}
use effect_broker.Store.Postgres.Records.{row_to_record, read_row, select_by_effect_id}
use effect_broker.Store.Postgres.Methods.{
  append_event, insert_receipt, record_receipt, record_for_expected_version, moved_row, of_version,
  update_intent, transition_read, transition_write,
}

-- No id is there twice.
abbrev pub Unique : Database → Type 0
Unique s = (j : Text) → count_where (of_intent j) s.intents ≤ 1

pub row_of :
    (id : Text) (s : Database) (r : EffectRecord)
    → select_by_effect_id id s ≡ ok (some r)
    → (row : IntentRow) × (first_where (of_intent id) s.intents ≡ some row)
      × (row_to_record row ≡ ok r)
unfolding select_by_effect_id read_row
row_of id s r h = elim (Option-cases (first_where (of_intent id) s.intents)) [
  | inl absent ↦ ground (arith, absent, h)
  | inr (row, present) ↦ (row, present, ground (arith, present, h))
]

pub row_version :
    (row : IntentRow) (r : EffectRecord)
    → row_to_record row ≡ ok r
    → (r.version ≡ row.version) × (r.effect_id ≡ row.effect_id) × (r.tenant_id ≡ row.tenant_id)
unfolding row_to_record
row_version row r h = ground (arith, h)

pub moved_row_reads :
    (target : EffectStatus) (now : Time) (row : IntentRow) (r : EffectRecord)
    → row_to_record row ≡ ok r
    → row_to_record (moved_row target now row) ≡ ok (updated_record r target now)
unfolding row_to_record moved_row updated_record
moved_row_reads target now row r h = ground (arith, h, effect_status-status_value target)

-- The inserts that follow the UPDATE leave the effects alone.
pub append_event_keeps :
    (d : Driver) (id type : Text) (version : ℕ) (payload : JsonObject) (now : Time) (s : Database)
    → ((append_event d id type version payload now s).1.intents ≡ s.intents)
      × ((append_event d id type version payload now s).1.receipts ≡ s.receipts)
unfolding append_event insert_event
append_event_keeps d id type version payload now s = ground arith

pub record_receipt_keeps :
    (d : Driver) (target : EffectStatus) (r : EffectRecord) (payload : JsonObject) (now : Time)
    (hex : Text) (s : Database)
    → (record_receipt d target r payload now hex s).1.intents ≡ s.intents
unfolding record_receipt insert_receipt insert_receipt_row
record_receipt_keeps d target r payload now hex s = ground arith

module _ (id : Text) (v : ℕ) (target : EffectStatus) (now : Time) (s : Database) where
  abbrev pub moved_tables : Database
  moved_tables = record s {
    intents = update_where (of_version id v) (moved_row target now) s.intents;
  }

  module _ (r : EffectRecord) (unique : Unique s)
      (found : select_by_effect_id id s ≡ ok (some r)) where
    -- The row that the UPDATE returns.
    pub returned :
        (row : IntentRow)
        → first_where (of_intent id) s.intents ≡ some row
        → row_to_record row ≡ ok r
        → update_intent id v target now s ≡ (
          ok (if nat_beq r.version v then some (moved_row target now row) else none),
          moved_tables,
        )
    unfolding update_intent
    returned row first read = ground (
      arith,
      first_where-both (of_intent id) (λ x. nat_beq x.version v) s.intents row (unique id) first,
      row_version row r read,
    )

    -- What is stored after an UPDATE that reached the row.
    pub select_moved :
        r.version ≡ v
        → (j : Text)
        → select_by_effect_id j moved_tables
          ≡ (if id == j then ok (some (updated_record r target now)) else select_by_effect_id j s)
    unfolding select_by_effect_id read_row
    select_moved current j =
        rw
          (first_where-update_where (of_intent j) (of_version id v) (moved_row target now) s.intents
            (λ x. unfold moved_row in refl))
          (elim (Option-cases (first_where (of_intent j) s.intents)) [
            | inl absent ↦
                let (row, first, read) = row_of id s r found in
                ground (arith, first, absent, text_eq.beq_iff id j)
            | inr (row, present) ↦ rw present (moved_or_kept j row present current)
          ])
      where
        moved_or_kept :
            (j : Text) (row : IntentRow)
            → first_where (of_intent j) s.intents ≡ some row
            → r.version ≡ v
            → read_row (some (if of_version id v row then moved_row target now row else row))
              ≡ (if id == j then ok (some (updated_record r target now)) else read_row (some row))
        moved_or_kept j row present current = elim (Bool-cases (id == j)) [
          | inl at_id ↦
              let at_j =
                subst (λ i. select_by_effect_id i s ≡ ok (some r)) (==_eq id j at_id) found in
              let (row', first, read) = row_of j s r at_j in
              let this : row_to_record row ≡ ok r = ground (arith, first, present, read) in
              ground (
                arith,
                moved_row_reads target now row r this,
                row_version row r this,
                first_where-eq-some (of_intent j) s.intents row present,
                ==_eq id j at_id,
              )
          | inr other ↦ ground (
            arith,
            first_where-eq-some (of_intent j) s.intents row present,
            text_eq.beq_iff row.effect_id j,
            text_eq.beq_iff row.effect_id id,
            text_eq.beq_iff id j,
          )
        ]

module _ (d : Driver) (id : Text) (v : ℕ) (target : EffectStatus) (metadata : JsonObject)
    (now : Time) (hex : Text) where
  -- What the read of a transition has checked.
  pub read_checks :
      (s : Database) (r : EffectRecord)
      → transition_read id v target s ≡ (ok r, s)
      → (select_by_effect_id id s ≡ ok (some r))
        × (r.version ≡ v)
        × (is_allowed r.status target ≡ true)
  unfolding transition_read record_for_expected_version assert_transition
  read_checks s r h = (ground (arith, h), ground (arith, h), ground (arith, h))

  module _ (s0 s1 : Database) (before after : EffectRecord)
      (read : transition_read id v target s0 ≡ (ok before, s0)) (unique : Unique s1)
      (found : select_by_effect_id id s1 ≡ ok (some after)) (evolved : Evolves before after) where
    -- An effect that another transaction has changed has another version.
    version_tells : (after ≡ before) ⊎ ((after ≢ before) × (after.version ≢ v))
    version_tells = let (_, current, _) = read_checks s0 before read in tells evolved current
      where
        tells :
            Evolves before after
            → before.version ≡ v
            → (after ≡ before) ⊎ ((after ≢ before) × (after.version ≢ v))
        tells (same e) current = inl e
        tells (moved t grows w a1 a2 a3 a4 a5 a6 a7) current = inr (
          (λ e. absurd (omega (arith, grows, ap (λ (r : EffectRecord). r.version) e))),
          λ e. absurd (omega (arith, grows, current, e)),
        )

    write_conflicts :
        after.version ≢ v
        → transition_write d id v target metadata now hex before s1
          ≡ (err (version_conflict id v before.version), moved_tables id v target now s1)
    unfolding transition_write
    write_conflicts stale =
        let (row, first, reads) = row_of id s1 after found in
        ground (arith, returned id v target now s1 after unique found row first reads)

    -- The payload of the event, by the effect that was read.
    abbrev payload : JsonObject
    payload = object (
        (text "from", str (status_value before.status))
        ∷ (text "to", str (status_value target))
        ∷ (text "metadata", mapping metadata)
        ∷ [])

    abbrev after_event : Database
    after_event =
        (append_event d id (text "transition") (after.version + 1) payload now
          (moved_tables id v target now s1)).1

    write_returns :
        (x : EffectRecord) (s' : Database)
        → after.version ≡ v
        → transition_write d id v target metadata now hex before s1 ≡ (ok x, s')
        → (x ≡ updated_record after target now)
          × (s'.intents ≡ (moved_tables id v target now s1).intents)
    unfolding transition_write updated_record moved_row
    write_returns x s' current h =
        let (row, first, reads) = row_of id s1 after found in
        let facts = returned id v target now s1 after unique found row first reads in
        let reads_moved = moved_row_reads target now row after reads in
        let (version, _, _) = row_version row after reads in
        (
          ground (arith, h, current, facts, reads_moved, version),
          ground (
            arith,
            h,
            current,
            facts,
            reads_moved,
            version,
            append_event_keeps d id (text "transition") (after.version + 1) payload now
                (moved_tables id v target now s1),
            record_receipt_keeps d target (updated_record after target now) metadata now hex
                after_event,
          ),
        )

    returned_moved :
        (x : EffectRecord) (s' : Database)
        → transition_write d id v target metadata now hex before s1 ≡ (ok x, s')
        → (after ≡ before) ⊎ ((after ≢ before) × (after.version ≢ v))
        → (after ≡ before)
          × (is_allowed before.status target ≡ true)
          × (x ≡ updated_record before target now)
          × ((j : Text)
              → select_by_effect_id j s'
                ≡ (if id == j then ok (some x) else select_by_effect_id j s1))
    unfolding select_by_effect_id
    returned_moved x s' h (inr (_, stale)) = absurd (cc (h, write_conflicts stale))
    returned_moved x s' h (inl e) =
        let (_, current, edge) = read_checks s0 before read in
        let still : after.version ≡ v = ap (λ (r : EffectRecord). r.version) e ∙ current in
        let (is_moved, same_intents) = write_returns x s' still h in
        (
          e,
          edge,
          is_moved ∙ ap (λ (r : EffectRecord). updated_record r target now) e,
          λ j. rw same_intents (
              select_moved id v target now s1 after unique found still j
              ∙ ap (λ (y : EffectRecord). if id == j then ok (some y) else select_by_effect_id j s1)
                  (sym is_moved)),
        )

    -- Whatever other transactions commit between the read of a transition and its UPDATE, there is
    -- no lost update: when the transition returns, the effect was still the one that was read, it
    -- has moved along the edge that was checked on it, and no other effect has changed.
    pub no_lost_update :
        (x : EffectRecord) (s' : Database)
        → transition_write d id v target metadata now hex before s1 ≡ (ok x, s')
        → (after ≡ before)
          × (is_allowed before.status target ≡ true)
          × (x ≡ updated_record before target now)
          × ((j : Text)
              → select_by_effect_id j s'
                ≡ (if id == j then ok (some x) else select_by_effect_id j s1))
    no_lost_update x s' h = returned_moved x s' h version_tells

    -- When another transaction has changed the effect, the transition is a version conflict.
    pub changed_effect_conflicts :
        after ≢ before
        → (transition_write d id v target metadata now hex before s1).0
          ≡ err (version_conflict id v before.version)
    changed_effect_conflicts changed = elim version_tells [
      | inl kept ↦ absurd (changed kept)
      | inr stale ↦ rw (write_conflicts stale.1)
    ]
