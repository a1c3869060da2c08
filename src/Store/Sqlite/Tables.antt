-- ===== src/Store/Sqlite/Tables.antt =====
-- The tables of `_create_schema` (src/effect_broker/store/sqlite.py), the INSERT statements with
-- their constraints, and `_transaction`. SQLite keeps statuses, times and JSON as text, durations as REAL.
use effect_broker.Prelude.{
  ℕ, ◌-◌, ◌^◌, Text, text, text_eq, ◌==◌, Bool, false, ◌&&◌, ◌||◌, not, Option, List, [], ◌∷◌, ◌++◌,
  if◌then◌else◌, nat_beq,
}
use effect_broker.Prelude.Int.{ℤ, pos, negsuc, leb_ℤ}
use effect_broker.Json.{Float, JsonObject}
use effect_broker.Models.{Time, Duration}
use effect_broker.Errors.{Error, Result, ok, err, other_exception}
use effect_broker.Exec.{Exec, ◌>>◌, lift, modify}
use effect_broker.Store.Sql.{count_where}

pub record EffectRow : Type 0 where
  pub effect_id : Text
  pub tenant_id : Text
  pub operation_key : Text
  pub tool : Text
  pub arguments_json : Text
  pub requested_by : Text
  pub trace_id : Option Text
  pub request_hash : Text
  pub downstream_key : Text
  pub contract_name : Text
  pub contract_version : Text
  pub safety_class : Text
  pub retry_limit : ℤ
  pub key_retention_seconds : Option Float
  pub settlement_bound_seconds : Option Float
  pub status : Text
  pub version : ℕ
  pub created_at : Text
  pub updated_at : Text
  pub worker_id : Option Text
  pub lease_worker_id : Option Text
  pub lease_until : Option Text

pub record AttemptRow : Type 0 where
  pub attempt_id : Text
  pub effect_id : Text
  pub ordinal : ℕ
  pub worker_id : Text
  pub version : ℕ
  pub started_at : Text

pub record EventRow : Type 0 where
  pub effect_id : Text
  pub sequence : ℕ
  pub event_type : Text
  pub version : ℕ
  pub at : Text
  pub data_json : Text

pub record Database : Type 0 where
  pub effects : List EffectRow
  pub attempts : List AttemptRow
  pub events : List EventRow

-- What the store takes from Python's library and from SQLite.
pub record Decoders : Type 0 where
  -- json.loads of the text of a JSON object
  pub loads : Text → Result JsonObject
  -- datetime.fromisoformat
  pub fromisoformat : Text → Result Time
  -- timedelta.total_seconds
  pub total_seconds : Duration → Float
  -- timedelta(seconds=…)
  pub timedelta_seconds : Float → Result Duration
  -- execute("COMMIT") on the tables as the transaction leaves them
  pub commit : Database → Result (Unit {0})

-- `_create_schema` on a new file
unfoldable pub empty_database : Database
empty_database = record { effects = []; attempts = []; events = [] }

-- sqlite3.IntegrityError
unfoldable pub integrity_error : Error
integrity_error = other_exception (text "IntegrityError")

unfoldable pub is_integrity_error : Error → Bool
is_integrity_error (other_exception name) = name == text "IntegrityError"
is_integrity_error _ = false

-- A bound parameter is a signed integer of 64 bits.
unfoldable pub fits_int64 : ℤ → Bool
fits_int64 n = leb_ℤ (negsuc (2 ^ 63 - 1)) n && leb_ℤ n (pos (2 ^ 63 - 1))

-- `WHERE effect_id = ?`
abbrev pub of_effect : Text → EffectRow → Bool
of_effect effect_id row = row.effect_id == effect_id

abbrev pub of_attempt : Text → AttemptRow → Bool
of_attempt effect_id row = row.effect_id == effect_id

abbrev pub of_event : Text → EventRow → Bool
of_event effect_id row = row.effect_id == effect_id

-- `WHERE tenant_id = ? AND operation_key = ?`
abbrev pub of_identity : Text → Text → EffectRow → Bool
of_identity tenant_id operation_key row =
    row.tenant_id == tenant_id && row.operation_key == operation_key

-- PRIMARY KEY (effect_id) and UNIQUE (tenant_id, operation_key)
abbrev pub effects_clash : EffectRow → EffectRow → Bool
effects_clash new row =
    of_effect new.effect_id row || of_identity new.tenant_id new.operation_key row

-- PRIMARY KEY (attempt_id) and UNIQUE (effect_id, ordinal)
abbrev pub attempts_clash : AttemptRow → AttemptRow → Bool
attempts_clash new row =
    row.attempt_id == new.attempt_id
    || (of_attempt new.effect_id row && nat_beq row.ordinal new.ordinal)

-- PRIMARY KEY (effect_id, sequence)
abbrev pub events_clash : EventRow → EventRow → Bool
events_clash new row = of_event new.effect_id row && nat_beq row.sequence new.sequence

-- REFERENCES effects(effect_id)
abbrev pub is_known : Text → Database → Bool
is_known effect_id s = not (nat_beq (count_where (of_effect effect_id) s.effects) 0)

abbrev pub constraint : Bool → Exec Database (Unit {0})
constraint holds = lift (if holds then ok tt else err integrity_error)

-- `INSERT INTO effects`
unfoldable pub insert_effect : EffectRow → Exec Database (Unit {0})
unfolding fits_int64
insert_effect row s =
    if fits_int64 row.retry_limit
    then (constraint (nat_beq (count_where (effects_clash row) s.effects) 0)
          >> modify λ s. record s { effects = s.effects ++ row ∷ [] })
        s
    else (err (other_exception (text "OverflowError")), s)

-- `INSERT INTO attempts`
unfoldable pub insert_attempt : AttemptRow → Exec Database (Unit {0})
insert_attempt row s =
    (constraint
          (nat_beq (count_where (attempts_clash row) s.attempts) 0 && is_known row.effect_id s)
        >> modify λ s. record s { attempts = s.attempts ++ row ∷ [] })
      s

-- `INSERT INTO events`
unfoldable pub insert_event : EventRow → Exec Database (Unit {0})
insert_event row s =
    (constraint (nat_beq (count_where (events_clash row) s.events) 0 && is_known row.effect_id s)
        >> modify λ s. record s { events = s.events ++ row ∷ [] })
      s

-- How `_transaction` ends: with ROLLBACK where its body raised, with COMMIT otherwise. Where the
-- COMMIT raises, no ROLLBACK follows, so the connection still shows what the body wrote.
unfoldable pub finish :
    {A : Type 0} → Decoders → Database → Result A × Database → Result A × Database
finish d before (ok a, after) = elim (d.commit after) [
  | ok _ ↦ (ok a, after)
  | err e ↦ (err e, after)
]
finish d before (err e, after) = (err e, before)

unfoldable pub in_transaction : {A : Type 0} → Decoders → Exec Database A → Exec Database A
unfolding finish
in_transaction d body s = finish d s (body s)
