-- ===== src/Store/Sqlite/Claims.antt =====
-- `claim_due` of src/effect_broker/store/sqlite.py: what a batch is.
use effect_broker.Prelude.{
  ◌≤◌, ◌<◌, Text, text_eq, ◌≡◌, ◌≢◌, ◌⊎◌, refl, ap, sym, ◌∙◌, true, false, some, List, [], ◌∷◌,
  ◌++◌, All, All-both, keep_if, length, arith, Bool-cases, inl, inr,
}
use mathlib.Core.List.{Memᴰ}
use effect_broker.Prelude.Int.{ℤ, pos, pos_part, leb_ℤ}
use effect_broker.Models.{EffectRecord, Time, Duration}
use effect_broker.Errors.{ok}
use effect_broker.Platform.{Platform}
use effect_broker.Store.Laws.{Claimable, Apart}
use effect_broker.Store.Rows.{claimed_record}
use effect_broker.Store.Sql.{first_where}
use effect_broker.Store.Sqlite.Tables.{
  in_transaction, finish, Decoders, EffectRow, Database, of_effect,
}
use effect_broker.Store.Sqlite.Records.{row_to_record, select_by_effect_id}
use effect_broker.Store.Sqlite.Claim.{
  claim_due, claim_loop, lease_over, is_full, is_waiting, order_rows,
}
use effect_broker.Store.Sqlite.Reads.{attempt_count}
use effect_broker.Store.Sqlite.RoundTrip.{Faithful}
use effect_broker.Store.Sqlite.Invariant.{IsValid, RowReads}
use effect_broker.Store.Numbered.{first_where-All}
use effect_broker.Store.Sqlite.Steps.{row_columns}
use effect_broker.Store.Sqlite.ClaimOne.{claimed, claimed-IsValid, first_claimed, waiting-Claimable}
use effect_broker.Store.Sqlite.ClaimLoop.{
  ApartIds, Waits, Takes, IfOver, Claims, stop-Claims, skip-Claims, claim-Claims,
}
use effect_broker.Store.Sqlite.DueRows.{
  All-order_rows, ApartIds-order_rows, All-keep_if, ApartIds-keep_if, order_rows-All, keep_if-All,
  stands, lease-reads, selects,
}

module _ (p : Platform) (d : Decoders) (faithful : Faithful p d) (worker : Text) (now : Time)
    (lease_for : Duration) (limit : ℤ) where
  -- A row whose lease is over is claimed, and the rest of the loop follows.
  claim_first :
      (row : EffectRow) (rows : List EffectRow) (batch : List EffectRecord) (s : Database)
      (valid : IsValid d s)
      → All (Waits s) (row ∷ rows)
      → ApartIds (row ∷ rows)
      → is_full limit batch ≡ false
      → (r : EffectRecord) → row_to_record d row ≡ ok r
      → lease_over p d worker now lease_for row.lease_until ≡ ok true
      → ((b : List EffectRecord) (t : Database)
          → IsValid d t
          → All (Waits t) rows
          → (s' : Database) × (more : List EffectRecord) × Claims p d faithful worker now lease_for
              limit rows b t s' more)
      → (s' : Database) × (more : List EffectRecord) × Claims p d faithful worker now lease_for
          limit
          (row ∷ rows)
          batch
          s
          s'
          more
  claim_first row rows batch s valid waits apart room r read over rest =
      let (_, keyed, _) = row_columns d row r read in
      let found = selects d s row r waits.0.0 read in
      let s1 = claimed p d faithful worker now lease_for row.effect_id s r found valid in
      let (s', more, c) =
        rest (batch ++ claimed_record r now ∷ []) s1
          (claimed-IsValid p d faithful worker now lease_for row.effect_id s r found valid)
          (All-both (λ y. y.effect_id ≢ row.effect_id) (Waits s) (Waits s1) rows
            (λ y other w. (
              first_claimed p d faithful worker now lease_for row.effect_id s r found valid
                    y.effect_id (λ e. other (sym e))
                  ∙ w.0,
              w.1,
            ))
            apart.0 waits.1) in
      (
        s',
        claimed_record r now ∷ more,
        claim-Claims p d faithful worker now lease_for limit row rows batch s room r over found
            (waiting-Claimable d row r waits.0.1 read) keyed apart.0 valid waits.0.0 s' more c,
      )

  loop_takes :
      (rows : List EffectRow) (batch : List EffectRecord) (s : Database)
      → IsValid d s
      → All (Waits s) rows
      → ApartIds rows
      → (s' : Database) × (more : List EffectRecord) × Claims p d faithful worker now lease_for
          limit rows batch s s' more
  loop_takes [] batch s valid waits apart = (
    s,
    [],
    stop-Claims p d faithful worker now lease_for limit [] batch s valid (λ _. tt)
        (unfold claim_loop in refl),
  )
  loop_takes (row ∷ rows) batch s valid waits apart = elim (Bool-cases (is_full limit batch)) [
    | inl full ↦ (
      s,
      [],
      stop-Claims p d faithful worker now lease_for limit (row ∷ rows) batch s valid
          (λ room. cc (full, room)) (unfold claim_loop in rw full),
    )
    | inr room ↦
        let ((r, read), lease) =
          first_where-All (RowReads d) (of_effect row.effect_id) s.effects row valid.readable
            waits.0.0 in
        let (over, told) = lease-reads p d worker now lease_for row.lease_until lease in
        elim (Bool-cases over) [
          | inl ended ↦
              claim_first row rows batch s valid waits apart room r read (told ∙ ap ok ended)
                (λ b t v w. loop_takes rows b t v w apart.1)
          | inr held ↦
              let (s', more, c) = loop_takes rows batch s valid waits.1 apart.1 in
              (
                s',
                more,
                skip-Claims p d faithful worker now lease_for limit row rows batch s room s' more
                    (told ∙ ap ok held) c,
              )
        ]
  ]

  -- What `claim_due` returns and stores.
  pub record Batch (s s' : Database) (batch : List EffectRecord) : Type 0 where
    pub returns : claim_due p d worker now lease_for limit s ≡ (ok batch, s')
    pub still_valid : IsValid d s'
    pub visited :
        (j : Text) (r : EffectRecord)
        → select_by_effect_id d j s ≡ ok (some r)
        → (select_by_effect_id d j s' ≡ ok (some r))
          ⊎ ((select_by_effect_id d j s' ≡ ok (some (claimed_record r now)))
              × Claimable r.status
              × Memᴰ (claimed_record r now) batch)
    pub untouched :
        (j : Text)
        → All (λ x. x.effect_id ≢ j) batch
        → first_where (of_effect j) s'.effects ≡ first_where (of_effect j) s.effects
    pub attempts_kept : (j : Text) → attempt_count j s' ≡ attempt_count j s
    pub bounded : length batch ≤ pos_part limit
    pub all_due :
        length batch < pos_part limit
        → All
            (λ row. is_waiting row ≡ true → IfOver p d faithful worker now lease_for limit s s' row)
            s.effects
    pub taken : All (Takes p d faithful worker now lease_for limit s s') batch
    pub apart : Apart batch

  assemble :
      (s s' : Database) (batch : List EffectRecord)
      → IsValid d s
      → leb_ℤ limit (pos 0) ≡ false
      → Claims p d faithful worker now lease_for limit
          (order_rows (keep_if is_waiting s.effects))
          []
          s
          s'
          batch
      → Batch s s' batch
  assemble s s' batch valid some_room c = record {
    returns =
        unfold claim_due in_transaction finish in
        ground (arith, some_room, c.returns, faithful.commits s');
    still_valid = c.valid;
    visited = c.visited;
    untouched = c.untouched;
    attempts_kept = λ j. unfold attempt_count in rw c.same_attempts;
    bounded = c.bounded (omega arith);
    all_due = λ left.
        keep_if-All (IfOver p d faithful worker now lease_for limit s s') is_waiting s.effects (
          order_rows-All (IfOver p d faithful worker now lease_for limit s s')
            (keep_if is_waiting s.effects) (c.all_due (unfold is_full in ground arith)));
    taken = c.taken;
    apart = c.apart;
  }

  pub sqlite_claim_due_claims :
      (s : Database)
      → IsValid d s
      → (s' : Database) × (batch : List EffectRecord) × Batch s s' batch
  sqlite_claim_due_claims s valid = elim (Bool-cases (leb_ℤ limit (pos 0))) [
    | inl nothing ↦ (
      s,
      [],
      record {
        returns = unfold claim_due in ground (arith, nothing);
        still_valid = valid;
        visited = λ j r h. inl h;
        untouched = λ j none_here. refl;
        attempts_kept = λ j. refl;
        bounded = omega arith;
        all_due = λ left. absurd (ground (arith, nothing, left));
        taken = tt;
        apart = tt;
      },
    )
    | inr some_room ↦
        let query = keep_if is_waiting s.effects in
        let (s', batch, c) =
          loop_takes (order_rows query) [] s valid
            (All-order_rows (Waits s) query (
              All-keep_if (λ row. first_where (of_effect row.effect_id) s.effects ≡ some row)
                is_waiting s.effects (stands s.effects valid.apart)))
            (ApartIds-order_rows query (ApartIds-keep_if is_waiting s.effects valid.apart)) in
        (s', batch, assemble s s' batch valid some_room c)
  ]
