-- ===== src/Store/Sqlite/Attempt.antt =====
-- `start_attempt` of src/effect_broker/store/sqlite.py on every branch.
use effect_broker.Prelude.{
  ℕ, ◌+◌, Text, text, text_eq, ◌==◌, ◌≡◌, ◌≢◌, refl, Option, none, some, [], ◌∷◌, ◌++◌,
  if◌then◌else◌, nat_beq, nat_beq_iff, arith, Bool-cases, inl, inr,
}
use effect_broker.Prelude.Int.{pos}
use effect_broker.Json.{str, int, mapping, JsonObject}
use effect_broker.Models.{EffectRecord, Time}
use effect_broker.Errors.{Error, Result, ok, err, unknown_effect, version_conflict}
use effect_broker.Platform.{Platform}
use effect_broker.Canonical.{canonical_json}
use effect_broker.Canonical.Validation.{Reproducible, canonical_json_total}
use effect_broker.Store.Rows.{object, attempt_id_of}
use effect_broker.Store.Sql.{count_where, count_where-append}
use effect_broker.Store.Sqlite.Tables.{in_transaction, finish, Decoders, Database, of_attempt}
use effect_broker.Store.Sqlite.Records.{select_by_effect_id}
use effect_broker.Store.Sqlite.Methods.{
  start_attempt, start_attempt_body, record_for_expected_version,
}
use effect_broker.Store.Sqlite.Reads.{attempt_count}
use effect_broker.Store.Sqlite.Invariant.{IsValid}
use effect_broker.Store.Sqlite.Appends.{
  logged, append_event_runs, append_event-IsValid, attempted, attempt_row, insert_attempt_runs,
  insert_attempt-IsValid,
}
use effect_broker.Store.Sqlite.Steps.{row_of}

abbrev pub attempt_payload : Text → ℕ → Text → JsonObject
attempt_payload id ordinal worker = object (
    (text "attempt_id", str (attempt_id_of id ordinal))
    ∷ (text "ordinal", int (pos ordinal))
    ∷ (text "worker_id", str worker)
    ∷ [])

attempt_payload-encodes :
    (id : Text) (ordinal : ℕ) (worker : Text)
    → (t : Text) × (canonical_json (mapping (attempt_payload id ordinal worker)) ≡ ok t)
unfolding object Reproducible
attempt_payload-encodes id ordinal worker =
    (canonical_json_total (mapping (attempt_payload id ordinal worker))).1
      ((tt, tt, (tt, tt, (tt, tt, tt))))

-- The start of the attempt numbered `ordinal` as a decision on the stored effect.
unfoldable pub attempt_outcome : Text → ℕ → ℕ → Option EffectRecord → Result Text
attempt_outcome id v ordinal none = err (unknown_effect id)
attempt_outcome id v ordinal (some r) =
    if nat_beq r.version v
    then ok (attempt_id_of id ordinal)
    else err (version_conflict id v r.version)

abbrev pub counted_after : Text → Text → Result Text → ℕ → ℕ
counted_after id j (ok _) before = if id == j then before + 1 else before
counted_after id j (err _) before = before

module _ (p : Platform) (d : Decoders) (id : Text) (v : ℕ) (worker : Text) (now : Time)
    (s : Database) where
  start_attempt_missing :
      select_by_effect_id d id s ≡ ok none
      → start_attempt p d id v worker now s ≡ (err (unknown_effect id), s)
  unfolding start_attempt start_attempt_body in_transaction finish record_for_expected_version
  start_attempt_missing h = ground (arith, h)

  start_attempt_stale :
      (r : EffectRecord)
      → select_by_effect_id d id s ≡ ok (some r)
      → r.version ≢ v
      → start_attempt p d id v worker now s ≡ (err (version_conflict id v r.version), s)
  unfolding start_attempt start_attempt_body in_transaction finish record_for_expected_version
  start_attempt_stale r h ne = ground (arith, h)

  abbrev started : EffectRecord → Text → Database
  started r t =
      logged p d id (text "attempt_started") r.version now t (attempted p d id v worker now s)

  start_attempt_runs :
      (r : EffectRecord)
      → select_by_effect_id d id s ≡ ok (some r)
      → r.version ≡ v
      → IsValid d s
      → ((t : Database) → d.commit t ≡ ok tt)
      → (t : Text) × (start_attempt p d id v worker now s
          ≡ (ok (attempt_id_of id (attempt_count id s + 1)), started r t))
        × IsValid d (started r t)
  unfolding start_attempt start_attempt_body in_transaction finish record_for_expected_version
      attempt_count
  start_attempt_runs r found current valid commits =
      let (row, first, _) = row_of d id s r found in
      let (t, encoded) =
        attempt_payload-encodes id (count_where (of_attempt id) s.attempts + 1) worker in
      let kept = insert_attempt-IsValid p d id v worker now s row first valid in
      let payload = attempt_payload id (count_where (of_attempt id) s.attempts + 1) worker in
      let after = attempted p d id v worker now s in
      (
        t,
        ground (
          arith,
          found,
          insert_attempt_runs p d id v worker now s row first valid,
          append_event_runs p d id (text "attempt_started") r.version now payload t after row
              encoded first kept,
          commits (started r t),
        ),
        append_event-IsValid p d id (text "attempt_started") r.version now payload t after row
            encoded first kept,
      )

  module _ (commits : (t : Database) → d.commit t ≡ ok tt) (valid : IsValid d s) where
    -- What the start of an attempt comes to when `o` is stored under the id.
    pub record Started (o : Option EffectRecord) (s' : Database) : Type 0 where
      pub returns :
          start_attempt p d id v worker now s
          ≡ (attempt_outcome id v (attempt_count id s + 1) o, s')
      pub still_valid : IsValid d s'
      pub effects_kept : s'.effects ≡ s.effects
      pub counts :
          (j : Text)
          → attempt_count j s'
            ≡ counted_after id j
                (attempt_outcome id v (attempt_count id s + 1) o)
                (attempt_count j s)

    refused :
        (o : Option EffectRecord) (e : Error)
        → attempt_outcome id v (attempt_count id s + 1) o ≡ err e
        → start_attempt p d id v worker now s ≡ (err e, s)
        → Started o s
    refused o e outcome h = record {
      returns = rw outcome h;
      still_valid = valid;
      effects_kept = refl;
      counts = λ j. rw outcome;
    }

    -- The start of an attempt needs the current version: it then returns the id with the effect's
    -- next ordinal and stores one more attempt of this effect and of no other. For an unknown id or
    -- another version it raises and changes nothing. No id of an attempt is ever taken, and the
    -- tables stay valid.
    pub start_attempt_decides :
        (o : Option EffectRecord)
        → select_by_effect_id d id s ≡ ok o
        → (s' : Database) × Started o s'
    unfolding attempt_outcome attempt_count count_where
    start_attempt_decides none h =
        (s, refused none (unknown_effect id) refl (start_attempt_missing h))
    start_attempt_decides (some r) h = elim (Bool-cases (nat_beq r.version v)) [
      | inl same ↦
          let (t, ran, kept) =
            start_attempt_runs r h ((nat_beq_iff r.version v).0 same) valid commits in
          (
            started r t,
            record {
              returns = rw same ran;
              still_valid = kept;
              effects_kept = refl;
              counts = λ j. rw same (counts_one j);
            },
          )
      | inr other ↦ (
        s,
        refused (some r) (version_conflict id v r.version) (rw other)
            (start_attempt_stale r h (ground arith)),
      )
    ]
      where
        counts_one :
            (j : Text)
            → count_where (of_attempt j) (s.attempts ++ attempt_row p d id v worker now s ∷ []) ≡ (
                if id == j
                then count_where (of_attempt j) s.attempts + 1
                else count_where (of_attempt j) s.attempts)
        counts_one j = ground (
          arith,
          count_where-append (of_attempt j) s.attempts (attempt_row p d id v worker now s),
        )
