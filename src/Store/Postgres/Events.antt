-- ===== src/Store/Postgres/Events.antt =====
-- `_append_event` of src/effect_broker/store/postgres.py.
use effect_broker.Prelude.{
  ℕ, ◌+◌, ◌≤◌, Text, text_eq, ◌≡◌, true, false, ◌&&◌, some, List, [], ◌∷◌, ◌++◌, All, All-map,
  nat_beq, arith,
}
use effect_broker.Json.{JsonObject}
use effect_broker.Models.{status_eq, Time}
use effect_broker.Errors.{ok}
use effect_broker.Store.Sql.{
  first_where, first_where-eq-some, count_where-eq-zero, count_where-ne-zero,
}
use effect_broker.Store.Postgres.Tables.{
  Driver, IntentRow, EventRow, Database, of_intent, of_event, is_known, insert_event, max_sequence,
}
use effect_broker.Store.Postgres.Records.{json_value}
use effect_broker.Store.Postgres.Methods.{append_event}

-- The number after the largest is not taken.
max_sequence_free :
    (id : Text) (es : List EventRow)
    → All (λ e. (of_event id e && nat_beq e.sequence (max_sequence id es + 1)) ≡ false) es
max_sequence_free id es =
    All-map (λ e. of_event id e ≡ true → e.sequence ≤ max_sequence id es)
      (λ e. (of_event id e && nat_beq e.sequence (max_sequence id es + 1)) ≡ false) es
      (λ e low. ground (arith, low)) (below es)
  where
    below :
        (es : List EventRow) → All (λ e. of_event id e ≡ true → e.sequence ≤ max_sequence id es) es
    below [] = tt
    below (e ∷ es) = (
      λ mine. unfold max_sequence in ground (arith, mine),
      All-map (λ x. of_event id x ≡ true → x.sequence ≤ max_sequence id es)
          (λ x. of_event id x ≡ true → x.sequence ≤ max_sequence id (e ∷ es)) es
          (λ x low mine. unfold max_sequence in ground (arith, low mine)) (below es),
    )

-- An id that is found is known.
pub known :
    (id : Text) (s : Database) (row : IntentRow)
    → first_where (of_intent id) s.intents ≡ some row
    → is_known id s ≡ true
known id s row h = ground (
  arith,
  count_where-ne-zero (of_intent id) (of_intent id) s.intents row h
      (first_where-eq-some (of_intent id) s.intents row h),
)

-- The row that `_append_event` inserts.
abbrev pub event_row : Text → Text → ℕ → JsonObject → Time → Database → EventRow
event_row id type version es now s = record {
  effect_id = id;
  sequence = max_sequence id s.events + 1;
  event_type = type;
  version = version;
  at = now;
  data_json = es;
}

module _ (d : Driver) (id type : Text) (version : ℕ) (payload es : JsonObject) (now : Time)
    (s : Database) (row : IntentRow) (first : first_where (of_intent id) s.intents ≡ some row)
    (stored : json_value d payload ≡ ok es) where
  -- The sequence never clashes, so an event whose payload can be stored is appended.
  pub append_event_runs :
      append_event d id type version payload now s
      ≡ (ok tt, record s { events = s.events ++ event_row id type version es now s ∷ [] })
  unfolding append_event insert_event
  append_event_runs = ground (
    arith,
    stored,
    known id s row first,
    count_where-eq-zero (λ x. of_event id x && nat_beq x.sequence (max_sequence id s.events + 1))
        s.events (max_sequence_free id s.events),
  )
