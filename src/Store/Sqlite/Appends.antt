-- ===== src/Store/Sqlite/Appends.antt =====
-- The inserts of src/effect_broker/store/sqlite.py into `events` and `attempts`: the numbers that
-- the methods count never clash, so neither raises.
use effect_broker.Prelude.{
  ℕ, ◌+◌, Text, text, text_eq, ◌==◌, ◌≡◌, refl, sym, ap, ◌∙◌, true, false, ◌&&◌, some, [], ◌∷◌,
  ◌++◌, All-append, All-both, Bool-cases, inl, inr, ==_eq, nat_beq, arith,
}
use mathlib.Core.List.{append_cancel_right}
use effect_broker.Json.{JsonObject, mapping}
use effect_broker.Prelude.Decimal.{str_nat}
use effect_broker.Models.{Time}
use effect_broker.Errors.{ok}
use effect_broker.Platform.{Platform}
use effect_broker.Canonical.{canonical_json}
use effect_broker.Store.Rows.{attempt_id_of}
use effect_broker.Store.Sql.{
  first_where, first_where-eq-some, count_where, count_where-eq-zero, count_where-ne-zero,
}
use effect_broker.Store.Sqlite.Tables.{
  Decoders, EffectRow, AttemptRow, EventRow, Database, of_effect, of_attempt, of_event,
  insert_event, insert_attempt, events_clash, attempts_clash, is_known,
}
use effect_broker.Store.Sqlite.Methods.{append_event}
use effect_broker.Store.Sqlite.Invariant.{IsValid, NamedAttempt}
use effect_broker.Store.Numbered.{Numbered-append, next_is_free}
use effect_broker.Worker.Ordinal.{attempt_ordinal, attempt_ordinal-attempt_id_of}

pub known :
    (id : Text) (s : Database) (row : EffectRow)
    → first_where (of_effect id) s.effects ≡ some row
    → is_known id s ≡ true
known id s row h = ground (
  arith,
  count_where-ne-zero (of_effect id) (of_effect id) s.effects row h
      (first_where-eq-some (of_effect id) s.effects row h),
)

module _ (p : Platform) (d : Decoders) where
  -- The row that `_append_event` inserts.
  abbrev pub event_row : Text → Text → ℕ → Time → Text → Database → EventRow
  event_row id event_type version at data_json s = record {
    effect_id = id;
    sequence = count_where (of_event id) s.events + 1;
    event_type = event_type;
    version = version;
    at = p.isoformat at;
    data_json = data_json;
  }

  abbrev pub logged : Text → Text → ℕ → Time → Text → Database → Database
  logged id event_type version at data_json s = record s {
    events = s.events ++ event_row id event_type version at data_json s ∷ [];
  }

  module _ (id event_type : Text) (version : ℕ) (at : Time) (payload : JsonObject) (t : Text)
      (s : Database) (row : EffectRow) (encoded : canonical_json (mapping payload) ≡ ok t)
      (found : first_where (of_effect id) s.effects ≡ some row) (valid : IsValid d s) where
    pub append_event_runs :
        append_event p id event_type version payload at s
        ≡ (ok tt, logged id event_type version at t s)
    unfolding append_event insert_event
    append_event_runs = rw encoded (
        ground (
          arith,
          known id s row found,
          count_where-eq-zero (events_clash (event_row id event_type version at t s)) s.events
              (next_is_free (λ e. e.effect_id) (λ e. e.sequence) id s.events valid.events_numbered),
        ))

    pub append_event-IsValid : IsValid d (logged id event_type version at t s)
    append_event-IsValid = record {
      readable = valid.readable;
      apart = valid.apart;
      named = valid.named;
      attempts_numbered = valid.attempts_numbered;
      events_numbered =
          Numbered-append (λ e. e.effect_id) (λ e. e.sequence) s.events
            (event_row id event_type version at t s) valid.events_numbered (omega arith);
    }

  -- Ids of attempts are apart: an id tells its ordinal, and so its effect.
  attempt_id_of-injective :
      (i j : Text) (m n : ℕ) → attempt_id_of i m ≡ attempt_id_of j n → (i ≡ j) × (m ≡ n)
  unfolding attempt_id_of
  attempt_id_of-injective i j m n h =
      let same : m ≡ n =
        sym (attempt_ordinal-attempt_id_of i m)
        ∙ ap attempt_ordinal h
        ∙ attempt_ordinal-attempt_id_of j n in
      (
        append_cancel_right i j (text "-attempt-" ++ str_nat m)
            (h ∙ ap (attempt_id_of j) (sym same)),
        same,
      )

  -- The row that `start_attempt` inserts.
  abbrev pub attempt_row : Text → ℕ → Text → Time → Database → AttemptRow
  attempt_row id v worker now s = record {
    attempt_id = attempt_id_of id (count_where (of_attempt id) s.attempts + 1);
    effect_id = id;
    ordinal = count_where (of_attempt id) s.attempts + 1;
    worker_id = worker;
    version = v;
    started_at = p.isoformat now;
  }

  abbrev pub attempted : Text → ℕ → Text → Time → Database → Database
  attempted id v worker now s = record s {
    attempts = s.attempts ++ attempt_row id v worker now s ∷ [];
  }

  module _ (id : Text) (v : ℕ) (worker : Text) (now : Time) (s : Database) (row : EffectRow)
      (found : first_where (of_effect id) s.effects ≡ some row) (valid : IsValid d s) where
    no_clash :
        (a : AttemptRow)
        → NamedAttempt a
        → (a.effect_id == id && nat_beq a.ordinal (count_where (of_attempt id) s.attempts + 1))
          ≡ false
        → attempts_clash (attempt_row id v worker now s) a ≡ false
    no_clash a named free =
        elim (Bool-cases
          (a.attempt_id == attempt_id_of id (count_where (of_attempt id) s.attempts + 1))) [
            | inl same ↦
                let (owner, ordinal) =
                  attempt_id_of-injective a.effect_id id a.ordinal
                    (count_where (of_attempt id) s.attempts + 1)
                    (sym named
                      ∙ ==_eq a.attempt_id
                          (attempt_id_of id (count_where (of_attempt id) s.attempts + 1)) same) in
                ground (arith, text_eq.beq_iff a.effect_id id)
            | inr other ↦ rw (other, free)
          ]

    pub insert_attempt_runs :
        insert_attempt (attempt_row id v worker now s) s ≡ (ok tt, attempted id v worker now s)
    unfolding insert_attempt
    insert_attempt_runs = ground (
      arith,
      known id s row found,
      count_where-eq-zero (attempts_clash (attempt_row id v worker now s)) s.attempts (
          All-both NamedAttempt
            (λ a.
              (a.effect_id == id && nat_beq a.ordinal (count_where (of_attempt id) s.attempts + 1))
              ≡ false)
            (λ a. attempts_clash (attempt_row id v worker now s) a ≡ false) s.attempts no_clash
            valid.named
            (next_is_free (λ a. a.effect_id) (λ a. a.ordinal) id s.attempts
              valid.attempts_numbered)),
    )

    pub insert_attempt-IsValid : IsValid d (attempted id v worker now s)
    insert_attempt-IsValid = record {
      readable = valid.readable;
      apart = valid.apart;
      named =
          All-append NamedAttempt s.attempts (attempt_row id v worker now s ∷ []) valid.named
            (refl, tt);
      attempts_numbered =
          Numbered-append (λ e. e.effect_id) (λ e. e.ordinal) s.attempts
            (attempt_row id v worker now s) valid.attempts_numbered (omega arith);
      events_numbered = valid.events_numbered;
    }
