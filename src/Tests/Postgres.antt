-- ===== src/Tests/Postgres.antt =====
-- The Postgres store with one effect.
use effect_broker.Prelude.{
  ℕ, ◌+◌, ◌/◌, zero, suc, Text, text, text_eq, list_beq, ◌==◌, ◌≡◌, refl, none, some, [], ◌∷◌, ◌++◌,
  true, if◌then◌else◌, arith, ==_refl,
}
use effect_broker.Prelude.Int.{ℤ, pos, negsuc, pos_part, neg_part}
use effect_broker.Json.{end, str, mapping}
use effect_broker.Models.{
  status_beq, EffectRecord, status_value, idempotent, dispatching, succeeded, prepared,
  safety_value, Duration,
}
use effect_broker.Errors.{ok}
use effect_broker.Store.Rows.{updated_record, object}
use effect_broker.Store.Memory.{get_member}
use effect_broker.Store.Memory.Evolves.{same}
use effect_broker.StateMachine.{assert_transition, is_allowed}
use effect_broker.Canonical.{
  canonical_json, validate, dumps, dump_entries, members, sort_pairs, quote, join,
}
use effect_broker.Store.Values.{
  safety_named, status_named, effect_status, safety_class, effect_status-status_value,
  safety_class-safety_value,
}
use effect_broker.Store.Sql.{count_where, first_where, update_where}
use effect_broker.Store.Postgres.Tables.{
  insert_receipt_row, insert_event, max_sequence, Driver, IntentRow, ReceiptRow, Database,
}
use effect_broker.Store.Postgres.Records.{
  seconds_to_duration, of_seconds, row_to_record, record_values, json_value, select_by_effect_id,
  read_row,
}
use effect_broker.Store.Postgres.Methods.{
  transition, transition_read, transition_write, external_id_of, record_for_expected_version,
  update_intent, moved_row, append_event, record_receipt, insert_receipt,
}
use effect_broker.Store.Postgres.Reads.{receipt, receipt_value}
use effect_broker.Store.Postgres.Durations.{
  NearlyOption, Truncates, kept_contract, row_to_record-record_values,
}
use effect_broker.Store.Postgres.Fencing.{Unique, no_lost_update}
use effect_broker.Store.Postgres.Receipts.{
  IsValid, success_has_receipt, succeeded_tables, new_receipt,
}
use effect_broker.Store.Sqlite.RoundTrip.{IsExactOption}
use effect_broker.Tests.Data.{platform, tenant, request, contract_of}

-- Division by a million, towards 0.
minus : ℕ → ℤ
minus zero = pos 0
minus (suc n) = negsuc n

minus_parts : (n : ℕ) → (pos_part (minus n) ≡ 0) × (neg_part (minus n) ≡ n)
unfolding minus
minus_parts zero = (refl, refl)
minus_parts (suc n) = (refl, omega arith)

seconds : Duration → ℤ
seconds (pos n) = pos (n / 1000000)
seconds (negsuc n) = minus ((n + 1) / 1000000)

seconds_parts :
    (a : Duration)
    → (pos_part (seconds a) ≡ pos_part a / 1000000) × (neg_part (seconds a) ≡ neg_part a / 1000000)
unfolding seconds
seconds_parts (pos n) = (refl, omega arith)
seconds_parts (negsuc n) = ground (arith, minus_parts ((n + 1) / 1000000))

abbrev driver : Driver
driver = record { loads = λ t. ok end; jsonb = λ es. ok es; int_seconds = seconds }

driver-Truncates : Truncates driver
driver-Truncates = record { truncated = λ a _. seconds_parts a }

abbrev effect : EffectRecord
effect = record {
  effect_id = text "eff_01";
  tenant_id = tenant;
  request = request;
  request_hash = text "digest";
  downstream_key = text "key";
  contract = contract_of idempotent;
  status = prepared;
  version = 0;
  created_at = pos 0;
  updated_at = pos 0;
}

written : (row : IntentRow) × (record_values driver effect ≡ ok row)
unfolding record_values json_value canonical_json validate dumps dump_entries members sort_pairs
    quote join
written = (_, refl)

retention_is_short : IsExactOption effect.contract.key_retention
retention_is_short = omega arith

bound_is_short : IsExactOption effect.contract.settlement_bound
bound_is_short = omega arith

row_to_record-record_values_example :
    (json_value driver effect.request.arguments ≡ ok written.0.arguments_json)
    × (row_to_record written.0
        ≡ ok (record effect {
          request = record effect.request { arguments = written.0.arguments_json };
          contract = kept_contract driver effect.contract;
        }))
    × NearlyOption
        (kept_contract driver effect.contract).key_retention
        effect.contract.key_retention
    × NearlyOption
        (kept_contract driver effect.contract).settlement_bound
        effect.contract.settlement_bound
row_to_record-record_values_example =
    row_to_record-record_values driver driver-Truncates effect written.0 retention_is_short
      bound_is_short written.1

-- A dispatched effect, as its row and as it is read.
abbrev row : IntentRow
row = record {
  effect_id = text "eff_01";
  tenant_id = tenant;
  operation_key = request.operation_key;
  tool = request.tool;
  arguments_json = end;
  requested_by = request.requested_by;
  trace_id = none;
  request_hash = text "digest";
  downstream_key = text "key";
  contract_name = text "charge";
  contract_version = text "v1";
  safety_class = safety_value idempotent;
  retry_limit = pos 0;
  key_retention_seconds = some (pos 100);
  settlement_bound_seconds = none;
  status = status_value dispatching;
  version = 2;
  created_at = pos 0;
  updated_at = pos 2;
  worker_id = none;
  lease_until = none;
}

abbrev dispatched : EffectRecord
dispatched = record {
  effect_id = text "eff_01";
  tenant_id = tenant;
  request = record {
    operation_key = request.operation_key;
    tool = request.tool;
    arguments = end;
    requested_by = request.requested_by;
    trace_id = none;
  };
  request_hash = text "digest";
  downstream_key = text "key";
  contract = record {
    name = text "charge";
    version = text "v1";
    safety = idempotent;
    retry_limit = pos 0;
    key_retention = some (pos 100000000);
    settlement_bound = none;
  };
  status = dispatching;
  version = 2;
  created_at = pos 0;
  updated_at = pos 2;
}

row_reads : row_to_record row ≡ ok dispatched
unfolding row_to_record seconds_to_duration of_seconds
row_reads =
    ground (arith, safety_class-safety_value idempotent, effect_status-status_value dispatching)

abbrev id : Text
id = text "eff_01"

abbrev tables : Database
tables = record {
  tenants = tenant ∷ [];
  intents = row ∷ [];
  attempts = [];
  receipts = [];
  events = [];
}

tables-Unique : Unique tables
unfolding count_where
tables-Unique j = ground arith

tables_have : select_by_effect_id id tables ≡ ok (some dispatched)
unfolding select_by_effect_id read_row first_where
tables_have = ground (arith, row_reads, ==_refl id)

tables-IsValid : IsValid tables
unfolding first_where count_where
tables-IsValid = record {
  unique = tables-Unique;
  readable = λ j x first. (dispatched, ground (arith, first, row_reads));
  unreceipted = λ j r found open_status. refl;
}

logged :
    json_value driver (
      object (
        (text "from", str (status_value dispatching))
        ∷ (text "to", str (status_value succeeded))
        ∷ (text "metadata", mapping end)
        ∷ []))
    ≡ ok end
unfolding json_value object canonical_json validate dumps dump_entries members sort_pairs quote join
logged = refl

no_metadata : json_value driver end ≡ ok end
unfolding json_value canonical_json validate dumps dump_entries members sort_pairs join
no_metadata = refl

abbrev hex : Text
hex = text "0a"

edge : is_allowed dispatching succeeded ≡ true
unfolding is_allowed
edge = refl

no_external_id : external_id_of (get_member (text "external_id") end) ≡ ok none
unfolding external_id_of get_member
no_external_id = refl

fresh_id :
    count_where (λ (x : ReceiptRow). x.receipt_id == (text "rcpt_" ++ hex)) tables.receipts ≡ 0
unfolding count_where
fresh_id = refl

abbrev receipted : Database
receipted =
    succeeded_tables driver platform id 2 end (pos 3) hex tables dispatched tables-IsValid
      tables_have refl edge end end logged no_metadata none no_external_id fresh_id

success_has_receipt_example :
    (transition driver id 2 succeeded end (pos 3) hex tables
      ≡ (ok (updated_record dispatched succeeded (pos 3)), receipted))
    × (receipt platform tenant id receipted
        ≡ some (
            receipt_value platform id (
              new_receipt driver platform id 2 end
                (pos 3)
                hex
                tables
                dispatched
                tables-IsValid
                tables_have
                refl
                edge
                end
                end
                logged
                no_metadata
                none
                no_external_id
                fresh_id)))
    × ((j : Text)
        → select_by_effect_id j receipted ≡ (
            if id == j
            then ok (some (updated_record dispatched succeeded (pos 3)))
            else select_by_effect_id j tables))
    × IsValid receipted
success_has_receipt_example =
    success_has_receipt driver platform id 2 end (pos 3) hex tables dispatched tables-IsValid
      tables_have refl edge end end logged no_metadata none no_external_id fresh_id

-- The tables once another transaction has committed.
abbrev later : Database
later = record tables { tenants = tenant ∷ text "globex" ∷ [] }

was_read : transition_read id 2 succeeded tables ≡ (ok dispatched, tables)
unfolding transition_read record_for_expected_version assert_transition
was_read = ground (arith, tables_have, edge)

later_has : select_by_effect_id id later ≡ ok (some dispatched)
unfolding select_by_effect_id
later_has = tables_have

ran :
    (x : EffectRecord) × (s' : Database) × (transition_write driver id 2 succeeded end
        (pos 3)
        hex
        dispatched
        later
      ≡ (ok x, s'))
unfolding transition_write update_intent moved_row append_event record_receipt insert_receipt
    insert_receipt_row insert_event json_value object row_to_record external_id_of get_member
    seconds_to_duration of_seconds count_where first_where update_where max_sequence status_beq
    canonical_json validate dumps dump_entries members sort_pairs quote join text list_beq
    effect_status safety_class status_value safety_value safety_named status_named
ran = (_, _, refl)

later-Unique : Unique later
unfolding count_where
later-Unique j = ground arith

no_lost_update_example :
    (dispatched ≡ dispatched)
    × (is_allowed dispatching succeeded ≡ true)
    × (ran.0 ≡ updated_record dispatched succeeded (pos 3))
    × ((j : Text)
        → select_by_effect_id j ran.1
          ≡ (if id == j then ok (some ran.0) else select_by_effect_id j later))
no_lost_update_example =
    no_lost_update driver id 2 succeeded end (pos 3) hex tables later dispatched dispatched was_read
      later-Unique later_has (same refl) ran.0 ran.1 ran.2
