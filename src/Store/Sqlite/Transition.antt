-- ===== src/Store/Sqlite/Transition.antt =====
-- `transition` of src/effect_broker/store/sqlite.py as a compare-and-swap, with its rollbacks.
use effect_broker.Prelude.{
  ℕ, ◌+◌, Text, text, text_eq, ◌==◌, ◌≡◌, ◌≢◌, refl, true, Option, none, some, [], ◌∷◌, ◌++◌,
  if◌then◌else◌, nat_beq, nat_beq_iff, arith, Bool-cases, inl, inr,
}
use effect_broker.Json.{str, mapping, JsonObject}
use effect_broker.Models.{EffectRecord, EffectStatus, status_value, Time}
use effect_broker.Errors.{
  Result-cases, Error, Result, ok, err, unknown_effect, version_conflict, invalid_transition, ◌>>=◌,
  ◌>>◌,
}
use effect_broker.Platform.{Platform}
use effect_broker.Canonical.{canonical_json}
use effect_broker.StateMachine.{is_allowed, assert_transition}
use effect_broker.Store.Rows.{object, updated_record}
use effect_broker.Store.Sql.{first_where}
use effect_broker.Store.Sqlite.Tables.{
  in_transaction, finish, Decoders, EffectRow, EventRow, Database, of_effect,
}
use effect_broker.Store.Sqlite.Records.{select_by_effect_id}
use effect_broker.Store.Sqlite.Methods.{
  transition, transition_body, append_event, record_for_expected_version, moved_row, of_version,
}
use effect_broker.Store.Sqlite.Reads.{attempt_count}
use effect_broker.Store.Sqlite.RoundTrip.{Faithful}
use effect_broker.Store.Sqlite.Invariant.{IsValid, RowReads, ApartRows-update_where}
use effect_broker.Store.Numbered.{All-update_where}
use effect_broker.Store.Sqlite.Appends.{logged, append_event_runs, append_event-IsValid}
use effect_broker.Store.Sqlite.Steps.{
  row_of, moved, update_runs, moved_row_reads, one_row, select_moved, first_moved,
  transition_missing, transition_stale, transition_forbidden,
}

-- The payload of the event that a transition appends.
abbrev pub transition_payload : EffectRecord → EffectStatus → JsonObject → JsonObject
transition_payload r target metadata = object (
    (text "from", str (status_value r.status))
    ∷ (text "to", str (status_value target))
    ∷ (text "metadata", mapping metadata)
    ∷ [])

-- A transition as a decision on the effect that is stored under the id.
unfoldable pub transition_outcome :
    Text → ℕ → EffectStatus → JsonObject → Time → Option EffectRecord → Result EffectRecord
transition_outcome id v target metadata now none = err (unknown_effect id)
transition_outcome id v target metadata now (some r) =
    let moves = (do
      assert_transition r.status target
      data_json ← canonical_json (mapping (transition_payload r target metadata))
      ok (updated_record r target now)) in
    if nat_beq r.version v then moves else err (version_conflict id v r.version)

-- What is stored under `j` after a method that returned an effect or raised.
abbrev pub stored_after :
    Text → Text → Result EffectRecord → Result (Option EffectRecord) → Result (Option EffectRecord)
stored_after id j (ok effect) before = if id == j then ok (some effect) else before
stored_after id j (err e) before = before

module _ (p : Platform) (d : Decoders) (faithful : Faithful p d) where
  module _ (id : Text) (v : ℕ) (target : EffectStatus) (now : Time) (s : Database)
      (r : EffectRecord) (found : select_by_effect_id d id s ≡ ok (some r))
      (current : r.version ≡ v) (valid : IsValid d s) where
    moved_row-RowReads :
        (row : EffectRow) → RowReads d row → RowReads d (moved_row p target now row)
    unfolding moved_row
    moved_row-RowReads row ((x, h), _) =
        ((updated_record x target now, moved_row_reads p d faithful target now row x h), tt)

    moved-IsValid : IsValid d (moved p d id v target now s)
    moved-IsValid = record {
      readable =
          All-update_where (RowReads d) (of_version id v) (moved_row p target now) s.effects
            moved_row-RowReads valid.readable;
      apart =
          ApartRows-update_where (of_version id v) (moved_row p target now)
            (λ x. unfold moved_row in refl) (λ x. unfold moved_row in refl)
            (λ x. unfold moved_row in refl) s.effects valid.apart;
      named = valid.named;
      attempts_numbered = valid.attempts_numbered;
      events_numbered = valid.events_numbered;
    }

    module _ (metadata : JsonObject) (allowed : is_allowed r.status target ≡ true) where
      transition_unencoded :
          (e : Error)
          → canonical_json (mapping (transition_payload r target metadata)) ≡ err e
          → transition p d id v target metadata now s ≡ (err e, s)
      unfolding transition transition_body in_transaction finish record_for_expected_version
          assert_transition append_event
      transition_unencoded e refused = ground (
        arith,
        found,
        refused,
        update_runs p d id v target now s,
        one_row p d faithful id v target now s r found current,
        select_moved p d faithful id v target now s r found current id,
        text_eq.beq_iff id id,
      )

      abbrev transitioned : Text → Database
      transitioned t =
          logged p d id (text "transition") (r.version + 1) now t (moved p d id v target now s)

      transition_runs :
          (t : Text)
          → canonical_json (mapping (transition_payload r target metadata)) ≡ ok t
          → (transition p d id v target metadata now s
              ≡ (ok (updated_record r target now), transitioned t))
            × IsValid d (transitioned t)
      unfolding transition transition_body in_transaction finish record_for_expected_version
          assert_transition updated_record
      transition_runs t encoded =
          let at : select_by_effect_id d id (moved p d id v target now s)
              ≡ ok (some (updated_record r target now)) =
            ground (
              arith,
              select_moved p d faithful id v target now s r found current id,
              text_eq.beq_iff id id,
            ) in
          let (row, first, _) =
            row_of d id (moved p d id v target now s) (updated_record r target now) at in
          (
            ground (
              arith,
              found,
              at,
              update_runs p d id v target now s,
              one_row p d faithful id v target now s r found current,
              append_event_runs p d id (text "transition") (r.version + 1) now
                  (transition_payload r target metadata) t (moved p d id v target now s) row encoded
                  first moved-IsValid,
              faithful.commits (transitioned t),
            ),
            append_event-IsValid p d id (text "transition") (r.version + 1) now
                (transition_payload r target metadata) t (moved p d id v target now s) row encoded
                first moved-IsValid,
          )

module _ (p : Platform) (d : Decoders) (faithful : Faithful p d) (id : Text) (v : ℕ)
    (target : EffectStatus) (metadata : JsonObject) (now : Time) (s : Database)
    (valid : IsValid d s) where
  -- What a transition comes to when `o` is stored under the id.
  pub record Decided (o : Option EffectRecord) (s' : Database) : Type 0 where
    pub returns :
        transition p d id v target metadata now s
        ≡ (transition_outcome id v target metadata now o, s')
    pub still_valid : IsValid d s'
    pub stores :
        (j : Text)
        → select_by_effect_id d j s'
          ≡ stored_after id j
              (transition_outcome id v target metadata now o)
              (select_by_effect_id d j s)
    pub attempts_kept : (j : Text) → attempt_count j s' ≡ attempt_count j s
    pub other_rows :
        (j : Text)
        → id ≢ j
        → first_where (of_effect j) s'.effects ≡ first_where (of_effect j) s.effects
    pub refusal_changes_nothing :
        (e : Error) → transition_outcome id v target metadata now o ≡ err e → s' ≡ s
    pub other_tables :
        (r : EffectRecord)
        → transition_outcome id v target metadata now o ≡ ok r
        → (s'.attempts ≡ s.attempts)
          × ((x : EventRow) × (x.effect_id ≡ id)
              × (x.version ≡ r.version)
              × (s'.events ≡ s.events ++ x ∷ []))

  refused :
      (o : Option EffectRecord) (e : Error)
      → transition_outcome id v target metadata now o ≡ err e
      → transition p d id v target metadata now s ≡ (err e, s)
      → Decided o s
  refused o e outcome h = record {
    returns = rw outcome h;
    still_valid = valid;
    stores = λ j. rw outcome;
    attempts_kept = λ j. refl;
    other_rows = λ j other. refl;
    refusal_changes_nothing = λ _ _. refl;
    other_tables = λ r h. cc (outcome, h);
  }

  module _ (r : EffectRecord) (found : select_by_effect_id d id s ≡ ok (some r)) where
    current_answered :
        r.version ≡ v → is_allowed r.status target ≡ true → (s' : Database) × Decided (some r) s'
    unfolding transition_outcome assert_transition attempt_count select_by_effect_id updated_record
    current_answered current allowed =
        elim (Result-cases (canonical_json (mapping (transition_payload r target metadata)))) [
          | inl (t, encoded) ↦
              let (ran, kept) =
                transition_runs p d faithful id v target now s r found current valid metadata
                  allowed t encoded in
              let outcome : transition_outcome id v target metadata now (some r)
                  ≡ ok (updated_record r target now) =
                ground (arith, encoded) in
              (
                transitioned p d faithful id v target now s r found current valid metadata allowed
                    t,
                record {
                  returns = rw outcome ran;
                  still_valid = kept;
                  stores = λ j.
                      rw outcome (select_moved p d faithful id v target now s r found current j);
                  attempts_kept = λ j. refl;
                  other_rows =
                      λ j other. first_moved p d faithful id v target now s r found current j other;
                  refusal_changes_nothing = λ e h. cc (outcome, h);
                  other_tables = λ r' h. (refl, (_, refl, ground (arith, outcome, h), refl));
                },
              )
          | inr (e, stopped) ↦ (
            s,
            refused (some r) e (ground (arith, stopped)) (
                transition_unencoded p d faithful id v target now s r found current valid metadata
                  allowed e stopped),
          )
        ]

    found_answered : (s' : Database) × Decided (some r) s'
    unfolding transition_outcome assert_transition
    found_answered = elim (Bool-cases (nat_beq r.version v)) [
      | inl same ↦ elim (Bool-cases (is_allowed r.status target)) [
        | inl allowed ↦ current_answered ((nat_beq_iff r.version v).0 same) allowed
        | inr no_edge ↦ (
          s,
          refused (some r) (invalid_transition r.status target) (ground (arith, same, no_edge)) (
              transition_forbidden p d id v target metadata now s r found
                ((nat_beq_iff r.version v).0 same) no_edge),
        )
      ]
      | inr other ↦ (
        s,
        refused (some r) (version_conflict id v r.version) (ground (arith, other))
            (transition_stale p d id v target metadata now s r found (ground arith)),
      )
    ]

  -- A transition is a compare-and-swap on the effect under its id: it answers what
  -- `transition_outcome` decides from the stored effect, stores the moved effect when it returns
  -- one, with one event more and the rows of all other effects as they were, and changes nothing
  -- in any table when it raises, be it for an unknown id, a stale version, a forbidden edge or
  -- metadata that has no canonical form. The tables stay valid. Times are read back as they were
  -- written, and every COMMIT succeeds (Faithful).
  pub transition_decides :
      (o : Option EffectRecord) → select_by_effect_id d id s ≡ ok o → (s' : Database) × Decided o s'
  unfolding transition_outcome
  transition_decides none h = (
    s,
    refused none (unknown_effect id) refl (transition_missing p d id v target metadata now s h),
  )
  transition_decides (some r) h = found_answered r h
