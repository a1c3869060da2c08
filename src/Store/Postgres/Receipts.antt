-- ===== src/Store/Postgres/Receipts.antt =====
-- Receipts of src/effect_broker/store/postgres.py: a success is receipted in its own transaction.
use effect_broker.Prelude.{
  ℕ, ◌+◌, Text, text, text_eq, ◌==◌, ◌≡◌, refl, sym, true, false, ◌||◌, Option, some, [], ◌∷◌, ◌++◌,
  All, All-both, if◌then◌else◌, arith, Bool-cases, Option-cases, inl, inr, ==_refl,
}
use mathlib.Core.Option.{or_else}
use effect_broker.Json.{JsonObject, str, mapping}
use effect_broker.Models.{EffectRecord, succeeded, status_eq, status_beq, status_value, Time}
use effect_broker.Errors.{ok}
use effect_broker.Platform.{Platform}
use effect_broker.StateMachine.{is_allowed, is_terminal, assert_transition}
use effect_broker.StateMachine.Graph.{allowed_not_terminal}
use effect_broker.Store.Rows.{updated_record, object}
use effect_broker.Store.Memory.{get_member}
use effect_broker.Store.Sql.{
  first_where, first_where-append, first_where-none, first_where-eq-some, count_where,
  count_where-eq-zero, All-count_where, count_where-append, count_where-update_where, transaction,
  settle,
}
use effect_broker.Store.Postgres.Tables.{
  Driver, IntentRow, ReceiptRow, Database, of_intent, of_receipt, insert_receipt_row,
}
use effect_broker.Store.Postgres.Records.{row_to_record, read_row, select_by_effect_id, json_value}
use effect_broker.Store.Postgres.Methods.{
  transition, insert_receipt, record_receipt, record_for_expected_version, moved_row, of_version,
  transition_read, transition_write, external_id_of,
}
use effect_broker.Store.Postgres.Reads.{receipt, receipt_value}
use effect_broker.Store.Postgres.Fencing.{
  Unique, row_of, row_version, moved_row_reads, moved_tables, returned, select_moved,
}
use effect_broker.Store.Postgres.Events.{known, event_row, append_event_runs}

-- Ids are unique, every row reads back, and an effect whose status is not terminal has no receipt.
pub record IsValid (s : Database) : Type 0 where
  pub unique : Unique s
  pub readable :
      (j : Text) (row : IntentRow)
      → first_where (of_intent j) s.intents ≡ some row
      → (r : EffectRecord) × (row_to_record row ≡ ok r)
  pub unreceipted :
      (j : Text) (r : EffectRecord)
      → select_by_effect_id j s ≡ ok (some r)
      → is_terminal r.status ≡ false
      → count_where (of_receipt j) s.receipts ≡ 0

module _ (d : Driver) (p : Platform) (id : Text) (v : ℕ) (metadata : JsonObject) (now : Time)
    (hex : Text) (s : Database) (r : EffectRecord) (valid : IsValid s)
    (found : select_by_effect_id id s ≡ ok (some r)) (current : r.version ≡ v)
    (allowed : is_allowed r.status succeeded ≡ true) (es kept : JsonObject)
    (logged : json_value d (
        object (
          (text "from", str (status_value r.status))
          ∷ (text "to", str (status_value succeeded))
          ∷ (text "metadata", mapping metadata)
          ∷ []))
      ≡ ok es)
    (stored : json_value d metadata ≡ ok kept) (external : Option Text)
    (has_external : external_id_of (get_member (text "external_id") metadata) ≡ ok external)
    (fresh : count_where (λ (x : ReceiptRow). x.receipt_id == (text "rcpt_" ++ hex)) s.receipts
      ≡ 0) where
  abbrev pub new_receipt : ReceiptRow
  new_receipt = record {
    receipt_id = text "rcpt_" ++ hex;
    effect_id = r.effect_id;
    external_id = external;
    contract_name = r.contract.name;
    contract_version = r.contract.version;
    downstream_key = r.downstream_key;
    metadata_json = kept;
    created_at = now;
  }

  keyed : r.effect_id ≡ id
  keyed =
      let (row, first, read) = row_of id s r found in
      ground (
        arith,
        row_version row r read,
        first_where-eq-some (of_intent id) s.intents row first,
        text_eq.beq_iff row.effect_id id,
      )

  no_receipt : All (λ x. of_receipt id x ≡ false) s.receipts
  no_receipt =
      All-count_where (of_receipt id) s.receipts
        (valid.unreceipted id r found (allowed_not_terminal r.status succeeded allowed))

  no_clash :
      count_where
        (λ x. x.receipt_id == (text "rcpt_" ++ hex) || of_receipt r.effect_id x)
        s.receipts
      ≡ 0
  no_clash =
      count_where-eq-zero (λ x. x.receipt_id == (text "rcpt_" ++ hex) || of_receipt r.effect_id x)
        s.receipts
        (All-both (λ (x : ReceiptRow). (x.receipt_id == (text "rcpt_" ++ hex)) ≡ false)
          (λ x. of_receipt id x ≡ false)
          (λ x. (x.receipt_id == (text "rcpt_" ++ hex) || of_receipt r.effect_id x) ≡ false)
          s.receipts (λ x a b. rw (a, keyed, b))
          (All-count_where (λ (x : ReceiptRow). x.receipt_id == (text "rcpt_" ++ hex)) s.receipts
            fresh)
          no_receipt)

  abbrev pub done : EffectRecord
  done = updated_record r succeeded now

  abbrev moved : Database
  moved = moved_tables id v succeeded now s

  abbrev with_event : Database
  with_event = record moved {
    events = s.events ++ event_row id (text "transition") (r.version + 1) es now moved ∷ [];
  }

  abbrev pub succeeded_tables : Database
  succeeded_tables = record with_event { receipts = s.receipts ++ new_receipt ∷ [] }

  at_id : select_by_effect_id id moved ≡ ok (some done)
  at_id =
      ground (arith, select_moved id v succeeded now s r valid.unique found current id, ==_refl id)

  receipt_runs :
      record_receipt d succeeded done metadata now hex with_event ≡ (ok tt, succeeded_tables)
  unfolding record_receipt insert_receipt insert_receipt_row updated_record status_beq
  receipt_runs =
      let (row, first, _) = row_of id moved done at_id in
      ground (arith, stored, has_external, no_clash, keyed, known id with_event row first)

  transition_succeeds : transition d id v succeeded metadata now hex s ≡ (ok done, succeeded_tables)
  unfolding transition transition_read transition_write transaction settle
      record_for_expected_version assert_transition
  transition_succeeds =
      let (row, first, read) = row_of id s r found in
      let (row', first', _) = row_of id moved done at_id in
      ground (
        arith,
        found,
        current,
        allowed,
        returned id v succeeded now s r valid.unique found row first read,
        moved_row_reads succeeded now row r read,
        version_of row read,
        append_event_runs d id (text "transition") (r.version + 1)
            (object (
              (text "from", str (status_value r.status))
              ∷ (text "to", str (status_value succeeded))
              ∷ (text "metadata", mapping metadata)
              ∷ []))
            es now moved row' first' logged,
        receipt_runs,
      )
    where
      version_of :
          (row : IntentRow)
          → row_to_record row ≡ ok r
          → (moved_row succeeded now row).version ≡ r.version + 1
      version_of row read = unfold moved_row in ground (arith, row_version row r read)

  receipt_found : receipt p r.tenant_id id succeeded_tables ≡ some (receipt_value p id new_receipt)
  unfolding receipt or_else
  receipt_found =
      let (row, first, read) = row_of id moved done at_id in
      let (_, _, tenant) = row_version row done read in
      ground (
        arith,
        first,
        owner tenant,
        ==_refl r.tenant_id,
        keyed,
        ==_refl id,
        first_where-append (of_receipt id) s.receipts new_receipt,
        first_where-none (of_receipt id) s.receipts no_receipt,
      )
    where
      owner : {t : Text} → done.tenant_id ≡ t → t ≡ r.tenant_id
      owner e = unfold updated_record in sym e

  after_at :
      (j : Text)
      → select_by_effect_id j succeeded_tables
        ≡ (if id == j then ok (some done) else select_by_effect_id j s)
  unfolding select_by_effect_id
  after_at j = select_moved id v succeeded now s r valid.unique found current j

  after_readable :
      (j : Text) (row : IntentRow)
      → first_where (of_intent j) succeeded_tables.intents ≡ some row
      → (x : EffectRecord) × (row_to_record row ≡ ok x)
  unfolding select_by_effect_id read_row
  after_readable j row first = elim (Bool-cases (id == j)) [
    | inl same ↦ (done, ground (arith, after_at j, same, first))
    | inr other ↦ elim (Option-cases (first_where (of_intent j) s.intents)) [
      | inl absent ↦ absurd (ground (arith, after_at j, other, first, absent))
      | inr (old, present) ↦
          let (x, read) = valid.readable j old present in
          (x, ground (arith, after_at j, other, first, present, read))
    ]
  ]

  after_unreceipted :
      (j : Text) (x : EffectRecord)
      → select_by_effect_id j succeeded_tables ≡ ok (some x)
      → is_terminal x.status ≡ false
      → count_where (of_receipt j) succeeded_tables.receipts ≡ 0
  after_unreceipted j x h open_status = elim (Bool-cases (id == j)) [
    | inl same ↦ absurd (success_ends x (ground (arith, after_at j, same, h)) open_status)
    | inr other ↦ ground (
      arith,
      valid.unreceipted j x (ground (arith, after_at j, other, h)) open_status,
      count_where-append (of_receipt j) s.receipts new_receipt,
      keyed,
      text_eq.beq_iff id j,
      text_eq.beq_iff r.effect_id j,
      other,
    )
  ]
    where
      success_ends : (x : EffectRecord) → x ≡ done → is_terminal x.status ≡ false → ⊥
      success_ends x e h = unfold updated_record is_terminal in ground (arith, e, h)

  -- A transition to `SUCCEEDED` that is allowed at the current version returns the moved effect,
  -- and in the same transaction stores its receipt: `receipt` then answers the effect's tenant with
  -- the contract and downstream key of the effect and the metadata of the transition. The receipt
  -- of an effect is never there before, so the insert does not clash. This needs what the row can
  -- hold: metadata that can be stored, an external id that is a text or absent, and a drawn receipt
  -- id that is not taken.
  pub success_has_receipt :
      (transition d id v succeeded metadata now hex s ≡ (ok done, succeeded_tables))
      × (receipt p r.tenant_id id succeeded_tables ≡ some (receipt_value p id new_receipt))
      × ((j : Text)
          → select_by_effect_id j succeeded_tables
            ≡ (if id == j then ok (some done) else select_by_effect_id j s))
      × IsValid succeeded_tables
  success_has_receipt = (
    transition_succeeds,
    receipt_found,
    after_at,
    record {
      unique = λ j.
          rw
            (count_where-update_where (of_intent j) (of_version id v) (moved_row succeeded now)
              s.intents (λ x. unfold moved_row in refl))
            (valid.unique j);
      readable = after_readable;
      unreceipted = after_unreceipted;
    },
  )
