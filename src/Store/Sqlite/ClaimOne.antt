-- ===== src/Store/Sqlite/ClaimOne.antt =====
-- One claim of `claim_due` (src/effect_broker/store/sqlite.py).
use effect_broker.Prelude.{
  ◌+◌, Text, text, text_eq, ◌==◌, ◌≡◌, ◌≢◌, refl, subst, sym, ◌∙◌, true, none, some, List, [], ◌∷◌,
  ◌++◌, if◌then◌else◌, arith, Bool-cases, inl, inr, Option-cases, ==_eq, ==_refl,
}
use effect_broker.Prelude.Int.{◌+ℤ◌}
use effect_broker.Json.{str, mapping, JsonObject}
use effect_broker.Models.{
  EffectRecord, EffectStatus, prepared, retryable, status_value, Time, Duration,
}
use effect_broker.Errors.{ok}
use effect_broker.Platform.{Platform}
use effect_broker.Canonical.{canonical_json}
use effect_broker.Canonical.Validation.{Reproducible, canonical_json_total}
use effect_broker.Store.Laws.{Claimable}
use effect_broker.Store.Rows.{object, claimed_record}
use effect_broker.Store.Sql.{
  first_where, first_where-eq-some, first_where-update_where, update_where,
}
use effect_broker.Store.Sqlite.Tables.{Decoders, EffectRow, Database, of_effect}
use effect_broker.Store.Sqlite.Records.{row_to_record, read_row, select_by_effect_id}
use effect_broker.Store.Values.{effect_status, effect_status-status_value}
use effect_broker.Store.Sqlite.Claim.{claim_one, lease_effect, leased_row, is_waiting}
use effect_broker.Store.Sqlite.RoundTrip.{Faithful}
use effect_broker.Store.Sqlite.Invariant.{IsValid, RowReads, ApartRows-update_where}
use effect_broker.Store.Numbered.{All-update_where}
use effect_broker.Store.Sqlite.Appends.{logged, append_event_runs, append_event-IsValid}
use effect_broker.Store.Sqlite.Steps.{row_of, row_columns}

abbrev claim_payload : Platform → Text → Time → Duration → JsonObject
claim_payload p worker now lease_for = object (
    (text "worker_id", str worker)
    ∷ (text "lease_expires_at", str (p.isoformat (now +ℤ lease_for)))
    ∷ [])

claim_payload-encodes :
    (p : Platform) (worker : Text) (now : Time) (lease_for : Duration)
    → (t : Text) × (canonical_json (mapping (claim_payload p worker now lease_for)) ≡ ok t)
unfolding object Reproducible
claim_payload-encodes p worker now lease_for =
    (canonical_json_total (mapping (claim_payload p worker now lease_for))).1 (tt, tt, (tt, tt, tt))

-- A row that waits reads as an effect that can be claimed.
pub waiting-Claimable :
    (d : Decoders) (row : EffectRow) (r : EffectRecord)
    → is_waiting row ≡ true
    → row_to_record d row ≡ ok r
    → Claimable r.status
waiting-Claimable d row r waits read = elim (Bool-cases (row.status == status_value prepared)) [
  | inl same ↦ inl (named prepared (==_eq row.status (status_value prepared) same))
  | inr other ↦ inr (named retryable (==_eq row.status (status_value retryable) (ground arith)))
]
  where
    status_read : effect_status row.status ≡ ok r.status
    status_read = unfold row_to_record in ground (arith, read)

    named : (x : EffectStatus) → row.status ≡ status_value x → r.status ≡ x
    named x e = ground (arith, status_read, e, effect_status-status_value x)

module _ (p : Platform) (d : Decoders) (faithful : Faithful p d) (worker : Text) (now : Time)
    (lease_for : Duration) where
  leased_row_reads :
      (row : EffectRow) (r : EffectRecord)
      → row_to_record d row ≡ ok r
      → row_to_record d (leased_row p d worker now lease_for row) ≡ ok (claimed_record r now)
  unfolding row_to_record leased_row claimed_record
  leased_row_reads row r h = ground (arith, h, faithful.time_back now)

  leased_row-RowReads :
      (row : EffectRow) → RowReads d row → RowReads d (leased_row p d worker now lease_for row)
  unfolding leased_row
  leased_row-RowReads row ((x, h), _) = (
    (claimed_record x now, leased_row_reads row x h),
    (now +ℤ lease_for, faithful.time_back (now +ℤ lease_for)),
  )

  module _ (id : Text) (s : Database) (r : EffectRecord)
      (found : select_by_effect_id d id s ≡ ok (some r)) (valid : IsValid d s) where
    abbrev leased : Database
    leased = record s {
      effects = update_where (of_effect id) (leased_row p d worker now lease_for) s.effects;
    }

    same_id :
        (j : Text) (x : EffectRow)
        → of_effect j (leased_row p d worker now lease_for x) ≡ of_effect j x
    unfolding leased_row
    same_id j x = refl

    -- What a query for one row sees after the UPDATE.
    first_leased :
        (j : Text) (row : EffectRow)
        → first_where (of_effect j) s.effects ≡ some row
        → first_where (of_effect j) leased.effects
          ≡ some (if id == j then leased_row p d worker now lease_for row else row)
    first_leased j row present =
        rw
          (
            first_where-update_where (of_effect j) (of_effect id)
                (leased_row p d worker now lease_for) s.effects (same_id j),
            present,
          )
          (ground (
            arith,
            first_where-eq-some (of_effect j) s.effects row present,
            text_eq.beq_iff row.effect_id j,
            text_eq.beq_iff row.effect_id id,
            text_eq.beq_iff id j,
          ))

    first_absent :
        (j : Text)
        → first_where (of_effect j) s.effects ≡ none
        → first_where (of_effect j) leased.effects ≡ none
    first_absent j absent = rw (
      first_where-update_where (of_effect j) (of_effect id) (leased_row p d worker now lease_for)
          s.effects (same_id j),
      absent,
    )

    select_leased :
        (j : Text)
        → select_by_effect_id d j leased
          ≡ (if id == j then ok (some (claimed_record r now)) else select_by_effect_id d j s)
    unfolding select_by_effect_id read_row
    select_leased j = elim (Option-cases (first_where (of_effect j) s.effects)) [
      | inl absent ↦
          let (row, first, _) = row_of d id s r found in
          ground (arith, first_absent j absent, absent, first, text_eq.beq_iff id j)
      | inr (row, present) ↦ elim (Bool-cases (id == j)) [
        | inl same ↦
            let at_j =
              subst (λ i. select_by_effect_id d i s ≡ ok (some r)) (==_eq id j same) found in
            let (row', first, read) = row_of d j s r at_j in
            let this : row_to_record d row ≡ ok r = ground (arith, first, present, read) in
            ground (arith, first_leased j row present, leased_row_reads row r this, same)
        | inr other ↦ ground (arith, first_leased j row present, present, other)
      ]
    ]

    leased-IsValid : IsValid d leased
    leased-IsValid = record {
      readable =
          All-update_where (RowReads d) (of_effect id) (leased_row p d worker now lease_for)
            s.effects leased_row-RowReads valid.readable;
      apart =
          ApartRows-update_where (of_effect id) (leased_row p d worker now lease_for)
            (λ x. unfold leased_row in refl) (λ x. unfold leased_row in refl)
            (λ x. unfold leased_row in refl) s.effects valid.apart;
      named = valid.named;
      attempts_numbered = valid.attempts_numbered;
      events_numbered = valid.events_numbered;
    }

    pub claimed : Database
    claimed =
        logged p d id (text "claimed") (r.version + 1) now
          (claim_payload-encodes p worker now lease_for).0 leased

    at_id : select_by_effect_id d id leased ≡ ok (some (claimed_record r now))
    at_id = ground (arith, select_leased id, ==_refl id)

    keyed : r.effect_id ≡ id
    keyed =
        let (row, first, read) = row_of d id s r found in
        ground (
          arith,
          row_columns d row r read,
          first_where-eq-some (of_effect id) s.effects row first,
          text_eq.beq_iff row.effect_id id,
        )

    pub claim_one_runs :
        (batch : List EffectRecord)
        → claim_one p d worker now lease_for id batch s
          ≡ (ok (batch ++ claimed_record r now ∷ []), claimed)
    unfolding claim_one lease_effect claimed claimed_record
    claim_one_runs batch =
        let (row, first, _) = row_of d id leased (claimed_record r now) at_id in
        ground (
          arith,
          at_id,
          keyed,
          append_event_runs p d id (text "claimed") (r.version + 1) now
              (claim_payload p worker now lease_for)
              (claim_payload-encodes p worker now lease_for).0 leased row
              (claim_payload-encodes p worker now lease_for).1 first leased-IsValid,
        )

    pub claimed-IsValid : IsValid d claimed
    unfolding claimed
    claimed-IsValid =
        let (row, first, _) = row_of d id leased (claimed_record r now) at_id in
        append_event-IsValid p d id (text "claimed") (r.version + 1) now
          (claim_payload p worker now lease_for) (claim_payload-encodes p worker now lease_for).0
          leased row (claim_payload-encodes p worker now lease_for).1 first leased-IsValid

    pub select_claimed :
        (j : Text)
        → select_by_effect_id d j claimed
          ≡ (if id == j then ok (some (claimed_record r now)) else select_by_effect_id d j s)
    unfolding claimed select_by_effect_id
    select_claimed j = select_leased j

    pub first_claimed :
        (j : Text)
        → id ≢ j
        → first_where (of_effect j) claimed.effects ≡ first_where (of_effect j) s.effects
    unfolding claimed
    first_claimed j other = elim (Option-cases (first_where (of_effect j) s.effects)) [
      | inl absent ↦ first_absent j absent ∙ sym absent
      | inr (row, present) ↦
          ground (arith, first_leased j row present, present, text_eq.beq_iff id j)
    ]

    pub claimed_attempts : claimed.attempts ≡ s.attempts
    unfolding claimed
    claimed_attempts = refl
