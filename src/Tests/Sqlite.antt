-- ===== src/Tests/Sqlite.antt =====
-- The SQLite store after a reservation.
use effect_broker.Prelude.{
  Text, text, text_eq, ◌≡◌, refl, none, some, zero, suc, [], ◌∷◌, true, false, arith, List,
  if◌then◌else◌, ◌==◌, ==_refl,
}
use effect_broker.Prelude.Int.{ℤ, pos, negsuc}
use effect_broker.Prelude.Decimal.{str_nat, pad_zero}
use effect_broker.Prelude.Dict.{lookup, insert}
use effect_broker.Json.{Float, finite, end}
use effect_broker.Models.{EffectRecord, idempotent, dispatching, EffectContract}
use effect_broker.Errors.{Result, ok, err, other_exception}
use effect_broker.Platform.{Platform}
use effect_broker.Canonical.{
  request_hash, request_value, canonical_json, validate, dumps, dump_entries, members, sort_pairs,
  quote, join,
}
use effect_broker.Store.Sqlite.Tables.{
  Decoders, EffectRow, Database, empty_database, fits_int64, is_known,
}
use effect_broker.Store.Sqlite.RoundTrip.{
  Faithful, Reloads, IsExactOption, row_to_record-record_params,
}
use effect_broker.StateMachine.{is_terminal}
use effect_broker.Store.Memory
use effect_broker.Store.Memory.{MemoryStore, empty_store, or_empty}
use effect_broker.Canonical.Validation.{ReproducibleEntries}
use effect_broker.Store.Memory.Invariant
use effect_broker.Store.Memory.Reservation.{fresh_store, fresh-IsValid}
use effect_broker.Store.Sqlite.Reads
use effect_broker.Store.Sqlite.Agrees.{Agree, stores_answer_alike}
use effect_broker.Store.Memory.Evolves.{Evolves}
use effect_broker.Store.Sqlite.Transition.{Decided, transition_decides}
use effect_broker.Store.Sqlite.Claim.{claim_due}
use effect_broker.Store.Sqlite.Claims.{Batch, sqlite_claim_due_claims}
use effect_broker.Store.Sqlite.Steady.{
  stop, more, claim_step, transition_step, sqlite_runs_are_safe,
}
use effect_broker.Store.Sqlite.Reserve.{drawn, Reserves, reserve_decides}
use effect_broker.Store.Sqlite.Reservations.{reserve_outcome}
use effect_broker.Store.Sqlite.Records.{
  record_params, row_to_record, select_by_identity, read_row, select_by_effect_id,
}
use effect_broker.Store.Sqlite.Methods.{effect_id_of, start_attempt, transition, new_record}
use effect_broker.Store.Sql.{first_where, count_where}
use effect_broker.Store.Sqlite.Invariant.{IsValid, empty-IsValid}
use effect_broker.Tests.Data.{platform, tenant_key, tenant, request, contract_of}

-- A number as a text of two characters, and what is read back from it.
encode : ℤ → Text
encode (pos n) = 0 ∷ n ∷ []
encode (negsuc n) = 1 ∷ n ∷ []

decode : Text → Result ℤ
decode (zero ∷ n ∷ []) = ok (pos n)
decode (suc _ ∷ n ∷ []) = ok (negsuc n)
decode _ = err (other_exception (text "ValueError"))

decode-encode : (n : ℤ) → decode (encode n) ≡ ok n
unfolding decode encode
decode-encode (pos n) = refl
decode-encode (negsuc n) = refl

decode_float : Float → Result ℤ
decode_float (finite t) = decode t
decode_float _ = err (other_exception (text "ValueError"))

abbrev sql_platform : Platform
sql_platform = record platform { isoformat = encode }

abbrev decoders : Decoders
decoders = record {
  loads = λ t. ok request.arguments;
  fromisoformat = decode;
  total_seconds = λ n. finite (encode n);
  timedelta_seconds = decode_float;
  commit = λ s. ok tt;
}

faithful : Faithful sql_platform decoders
unfolding decode_float
faithful = record {
  time_back = decode-encode;
  seconds_back = λ n h. decode-encode n;
  commits = λ s. refl;
}

reload : Reloads decoders request.arguments
reload t h = refl

abbrev contract : EffectContract
contract = contract_of idempotent

digest :
    (t : Text) × (request_hash sql_platform request.tool request.arguments contract.name
        contract.version
      ≡ ok t)
unfolding request_hash request_value canonical_json validate dumps dump_entries members sort_pairs
    quote join
digest = (_, refl)

fits_retry : fits_int64 contract.retry_limit ≡ true
unfolding fits_int64
fits_retry = refl

abbrev hex : Text
hex = text "000001"

abbrev effect : EffectRecord
effect =
    drawn sql_platform decoders tenant_key tenant request contract (pos 0) hex digest.0
      empty_database digest.1 fits_retry

reserve_decides_example :
    (s' : Database) × Reserves sql_platform decoders tenant_key tenant request contract
      (pos 0)
      hex
      digest.0
      empty_database
      digest.1
      fits_retry
      faithful
      reload
      (omega arith)
      (omega arith)
      (empty-IsValid decoders)
      none
      (is_known (effect_id_of hex) empty_database)
      s'
unfolding empty_database select_by_identity read_row first_where
reserve_decides_example =
    reserve_decides sql_platform decoders tenant_key tenant request contract (pos 0) hex digest.0
      empty_database digest.1 fits_retry faithful reload (omega arith) (omega arith)
      (empty-IsValid decoders) none refl

-- The tables with the effect.
reserved_tables :
    (s' : Database) × Reserves sql_platform decoders tenant_key tenant request contract
      (pos 0)
      hex
      digest.0
      empty_database
      digest.1
      fits_retry
      faithful
      reload
      (omega arith)
      (omega arith)
      (empty-IsValid decoders)
      none
      false
      s'
unfolding empty_database select_by_identity read_row first_where count_where
reserved_tables =
    reserve_decides sql_platform decoders tenant_key tenant request contract (pos 0) hex digest.0
      empty_database digest.1 fits_retry faithful reload (omega arith) (omega arith)
      (empty-IsValid decoders) none refl

abbrev tables : Database
tables = reserved_tables.0

tables-IsValid : IsValid decoders tables
tables-IsValid = reserved_tables.1.still_valid

abbrev id : Text
id = effect_id_of hex

tables_at :
    (j : Text)
    → select_by_effect_id decoders j tables ≡ (if id == j then ok (some effect) else ok none)
unfolding reserve_outcome empty_database select_by_effect_id read_row first_where
tables_at j = reserved_tables.1.stores j

tables_have : select_by_effect_id decoders id tables ≡ ok (some effect)
tables_have = ground (arith, tables_at id, ==_refl id)

transition_decides_example :
    (s' : Database) × Decided sql_platform decoders faithful id 0 dispatching end
      (pos 2)
      tables
      tables-IsValid
      (some effect)
      s'
transition_decides_example =
    transition_decides sql_platform decoders faithful id 0 dispatching end (pos 2) tables
      tables-IsValid (some effect) tables_have

sqlite_claim_due_claims_example :
    (s' : Database) × (batch : List EffectRecord) × Batch sql_platform decoders faithful
      (text "w1")
      (pos 1)
      (pos 30)
      (pos 10)
      tables
      s'
      batch
sqlite_claim_due_claims_example =
    sqlite_claim_due_claims sql_platform decoders faithful (text "w1") (pos 1) (pos 30) (pos 10)
      tables tables-IsValid

abbrev claimed_tables : Database
claimed_tables = (claim_due sql_platform decoders (text "w1") (pos 1) (pos 30) (pos 10) tables).1

abbrev moved_tables : Database
moved_tables = (transition sql_platform decoders id 1 dispatching end (pos 2) claimed_tables).1

sqlite_runs_are_safe_example :
    IsValid decoders moved_tables
    × ((r : EffectRecord) × (select_by_effect_id decoders id moved_tables ≡ ok (some r))
        × Evolves effect r
        × (is_terminal effect.status ≡ true → r ≡ effect))
sqlite_runs_are_safe_example =
    sqlite_runs_are_safe sql_platform decoders faithful tenant_key tables moved_tables id effect
      tables-IsValid
      (more (more stop (claim_step (text "w1") (pos 1) (pos 30) (pos 10)))
        (transition_step id 1 dispatching end (pos 2)))
      tables_have

written : (row : EffectRow) × (record_params decoders sql_platform effect ≡ ok row)
unfolding record_params new_record canonical_json validate dumps dump_entries members sort_pairs
    quote join
written = (_, refl)

reload_effect : Reloads decoders effect.request.arguments
unfolding new_record
reload_effect = reload

exact_retention : IsExactOption effect.contract.key_retention
unfolding new_record
exact_retention = omega arith

exact_bound : IsExactOption effect.contract.settlement_bound
unfolding new_record
exact_bound = omega arith

row_to_record-record_params_example : row_to_record decoders written.0 ≡ ok effect
row_to_record-record_params_example =
    row_to_record-record_params sql_platform decoders faithful effect written.0 reload_effect
      exact_retention exact_bound written.1

-- The in-memory store with the same effect.
abbrev memory : MemoryStore
memory = fresh_store sql_platform tenant_key tenant request contract (pos 0) empty_store digest.0

memory-IsValid : Invariant.IsValid sql_platform tenant_key memory
unfolding empty_store lookup
memory-IsValid =
    fresh-IsValid sql_platform tenant_key tenant request contract (pos 0) empty_store digest.0
      (Invariant.empty-IsValid sql_platform tenant_key) refl

memory_at : (j : Text) → lookup j memory.records ≡ (if id == j then some effect else none)
unfolding empty_store lookup insert effect_id_of new_record Memory.new_record Memory.effect_id_of
    pad_zero str_nat text
memory_at j = refl

none_yet : (j : Text) → Reads.attempt_count j tables ≡ 0
unfolding empty_database Reads.attempt_count count_where
none_yet j = reserved_tables.1.attempts_kept j

none_in_memory : (j : Text) → Memory.attempt_count j memory ≡ 0
unfolding Memory.attempt_count empty_store lookup insert or_empty effect_id_of Memory.effect_id_of
none_in_memory j = ground arith

agree : Agree decoders memory tables
agree = record {
  effects = λ j. rw (memory_at j) (ground (arith, tables_at j));
  attempts = λ j. rw (none_yet j, none_in_memory j);
}

stores_answer_alike_example :
    (Reads.get decoders tenant id tables ≡ ok (Memory.get tenant id memory))
    × (((start_attempt sql_platform decoders id 0 (text "w1") (pos 2) tables).0
          ≡ (Memory.start_attempt id 0 (text "w1") (pos 2) memory).0)
        × Agree decoders
            (Memory.start_attempt id 0 (text "w1") (pos 2) memory).1
            (start_attempt sql_platform decoders id 0 (text "w1") (pos 2) tables).1)
    × (((transition sql_platform decoders id 0 dispatching end (pos 2) tables).0
          ≡ (Memory.transition id 0 dispatching end (pos 2) memory).0)
        × Agree decoders
            (Memory.transition id 0 dispatching end (pos 2) memory).1
            (transition sql_platform decoders id 0 dispatching end (pos 2) tables).1)
unfolding ReproducibleEntries
stores_answer_alike_example =
    stores_answer_alike sql_platform decoders faithful tenant_key memory tables memory-IsValid
      tables-IsValid agree tenant id 0 (text "w1") dispatching end (pos 2) tt
