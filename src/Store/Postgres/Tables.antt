-- ===== src/Store/Postgres/Tables.antt =====
-- The tables of src/effect_broker/store/postgres.py and the INSERT statements with their
-- constraints. Times are kept as they are, durations as whole seconds, JSON as JSONB.
use effect_broker.Prelude.{
  ℕ, ◌-◌, ◌^◌, Text, text, text_eq, ◌==◌, Bool, ◌&&◌, ◌||◌, not, Option, none, some, List, [], ◌∷◌,
  ◌++◌, if◌then◌else◌, nat_beq, leb,
}
use effect_broker.Prelude.Int.{ℤ, pos, negsuc, leb_ℤ}
use effect_broker.Json.{JsonObject}
use effect_broker.Models.{Time, Duration}
use effect_broker.Errors.{Error, Result, ok, err, other_exception}
use effect_broker.Exec.{Exec, ◌>>◌, lift, modify, pure}
use effect_broker.Store.Sql.{count_where}

-- What the store takes from Python's library and from the driver.
pub record Driver : Type 0 where
  -- json.loads of the text of a JSON object
  pub loads : Text → Result JsonObject
  -- what a JSONB column gives back for an object that it takes; it refuses some, such as those with
  -- a text that has a NUL
  pub jsonb : JsonObject → Result JsonObject
  -- int(….total_seconds()), through a float
  pub int_seconds : Duration → ℤ

pub record IntentRow : Type 0 where
  pub effect_id : Text
  pub tenant_id : Text
  pub operation_key : Text
  pub tool : Text
  pub arguments_json : JsonObject
  pub requested_by : Text
  pub trace_id : Option Text
  pub request_hash : Text
  pub downstream_key : Text
  pub contract_name : Text
  pub contract_version : Text
  pub safety_class : Text
  pub retry_limit : ℤ
  pub key_retention_seconds : Option ℤ
  pub settlement_bound_seconds : Option ℤ
  pub status : Text
  pub version : ℕ
  pub created_at : Time
  pub updated_at : Time
  pub worker_id : Option Text
  pub lease_until : Option Time

pub record AttemptRow : Type 0 where
  pub attempt_id : Text
  pub effect_id : Text
  pub ordinal : ℕ
  pub worker_id : Text
  pub version : ℕ
  pub started_at : Time

pub record ReceiptRow : Type 0 where
  pub receipt_id : Text
  pub effect_id : Text
  pub external_id : Option Text
  pub contract_name : Text
  pub contract_version : Text
  pub downstream_key : Text
  pub metadata_json : JsonObject
  pub created_at : Time

pub record EventRow : Type 0 where
  pub effect_id : Text
  pub sequence : ℕ
  pub event_type : Text
  pub version : ℕ
  pub at : Time
  pub data_json : JsonObject

-- `tenants` by its primary key; its other columns are not read.
pub record Database : Type 0 where
  pub tenants : List Text
  pub intents : List IntentRow
  pub attempts : List AttemptRow
  pub receipts : List ReceiptRow
  pub events : List EventRow

unfoldable pub empty_database : Database
empty_database = record { tenants = []; intents = []; attempts = []; receipts = []; events = [] }

unfoldable pub integrity_error : Error
integrity_error = other_exception (text "IntegrityError")

-- `Integer` is a signed integer of 32 bits.
unfoldable pub fits_int32 : ℤ → Bool
fits_int32 n = leb_ℤ (negsuc (2 ^ 31 - 1)) n && leb_ℤ n (pos (2 ^ 31 - 1))

abbrev pub of_intent : Text → IntentRow → Bool
of_intent effect_id row = row.effect_id == effect_id

abbrev pub of_identity : Text → Text → IntentRow → Bool
of_identity tenant_id operation_key row =
    row.tenant_id == tenant_id && row.operation_key == operation_key

abbrev pub of_attempt : Text → AttemptRow → Bool
of_attempt effect_id row = row.effect_id == effect_id

abbrev pub of_receipt : Text → ReceiptRow → Bool
of_receipt effect_id row = row.effect_id == effect_id

abbrev pub of_event : Text → EventRow → Bool
of_event effect_id row = row.effect_id == effect_id

abbrev pub is_known : Text → Database → Bool
is_known effect_id s = not (nat_beq (count_where (of_intent effect_id) s.intents) 0)

abbrev pub constraint : Bool → Exec Database (Unit {0})
constraint holds = lift (if holds then ok tt else err integrity_error)

-- `INSERT INTO tenants … ON CONFLICT (tenant_id) DO NOTHING`
unfoldable pub insert_tenant : Text → Exec Database (Unit {0})
insert_tenant tenant_id = modify λ s.
    if nat_beq (count_where (λ t. t == tenant_id) s.tenants) 0
    then record s { tenants = s.tenants ++ tenant_id ∷ [] }
    else s

-- `INSERT INTO effect_intents … ON CONFLICT (tenant_id, operation_key) DO NOTHING RETURNING *`. The
-- primary key is not part of the conflict target.
unfoldable pub insert_intent : IntentRow → Exec Database (Option IntentRow)
unfolding fits_int32
insert_intent row s =
    if fits_int32 row.retry_limit
    then (if nat_beq (count_where (of_identity row.tenant_id row.operation_key) s.intents) 0
        then (constraint (not (is_known row.effect_id s))
              >> modify (λ t. record t { intents = t.intents ++ row ∷ [] })
              >> pure (some row))
            s
        else (ok none, s))
    else (err (other_exception (text "DataError")), s)

-- `INSERT INTO effect_attempts`
unfoldable pub insert_attempt : AttemptRow → Exec Database (Unit {0})
insert_attempt row s =
    (constraint (
          nat_beq
            (count_where
              (λ x.
                x.attempt_id == row.attempt_id
                || (of_attempt row.effect_id x && nat_beq x.ordinal row.ordinal))
              s.attempts)
            0
          && is_known row.effect_id s)
        >> modify λ t. record t { attempts = t.attempts ++ row ∷ [] })
      s

-- `INSERT INTO effect_receipts`: a receipt's id and its effect are unique.
unfoldable pub insert_receipt_row : ReceiptRow → Exec Database (Unit {0})
insert_receipt_row row s =
    (constraint (
          nat_beq
            (count_where (λ x. x.receipt_id == row.receipt_id || of_receipt row.effect_id x)
              s.receipts)
            0
          && is_known row.effect_id s)
        >> modify λ t. record t { receipts = t.receipts ++ row ∷ [] })
      s

-- `INSERT INTO effect_events`
unfoldable pub insert_event : EventRow → Exec Database (Unit {0})
insert_event row s =
    (constraint (
          nat_beq
            (count_where (λ x. of_event row.effect_id x && nat_beq x.sequence row.sequence)
              s.events)
            0
          && is_known row.effect_id s)
        >> modify λ t. record t { events = t.events ++ row ∷ [] })
      s

-- `SELECT coalesce(max(sequence), 0) FROM effect_events WHERE …`
unfoldable pub max_sequence : Text → List EventRow → ℕ
max_sequence effect_id [] = 0
max_sequence effect_id (e ∷ es) =
    let rest = max_sequence effect_id es in
    if of_event effect_id e then (if leb rest e.sequence then e.sequence else rest) else rest
