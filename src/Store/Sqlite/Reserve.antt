-- ===== src/Store/Sqlite/Reserve.antt =====
-- `reserve` of src/effect_broker/store/sqlite.py on every branch.
use effect_broker.Prelude.{
  Text, text, text_eq, ◌==◌, list_beq, ◌≡◌, ◌≢◌, ◌⊎◌, refl, subst, sym, Bool, true, false, Option,
  none, some, [], ◌∷◌, ◌++◌, All, All-append, All-both, if◌then◌else◌, arith, Bool-cases, inl, inr,
  Option-cases, ==_refl, ==_eq,
}
use mathlib.Core.Option.{or_else}
use effect_broker.Json.{str}
use effect_broker.Models.{
  EffectRequest, EffectContract, EffectRecord, Reservation, prepared, status_value, Time,
}
use effect_broker.Errors.{ok, err}
use effect_broker.Platform.{Platform}
use effect_broker.Canonical.{request_hash}
use effect_broker.Store.Rows.{object}
use effect_broker.Store.Sql.{
  first_where, first_where-append, count_where, count_where-eq-zero, count_where-ne-zero,
  first_where-eq-some, All-count_where, first_where-eq-none, first_where-none,
}
use effect_broker.Store.Sqlite.Tables.{
  in_transaction, finish, Decoders, EffectRow, EventRow, Database, of_effect, of_identity,
  effects_clash, is_known, fits_int64, insert_effect, integrity_error, is_integrity_error,
}
use effect_broker.Store.Sqlite.Records.{
  select_by_effect_id, select_by_identity, read_row, record_params, printed_row, row_to_record,
}
use effect_broker.Store.Sqlite.Methods.{
  reserve, reserve_body, reserve_after, reserve_known, new_record, tried, caught, effect_id_of,
}
use effect_broker.Store.Sqlite.Reads.{attempt_count}
use effect_broker.Store.Sqlite.RoundTrip.{
  Faithful, Reloads, IsExactOption, row_to_record-record_params,
}
use effect_broker.Store.Sqlite.Invariant.{IsValid, RowReads, ApartRow, ApartRows-append}
use effect_broker.Store.Sqlite.Appends.{logged, append_event_runs, append_event-IsValid}
use effect_broker.Store.Sqlite.Reservations.{
  arguments_encode, status_encodes, reserve_outcome, created_after, row_of_identity, row_of_known,
}

module _ (p : Platform) (d : Decoders) (tenant_key : Text → Text) (tenant : Text)
    (request : EffectRequest) (contract : EffectContract) (now : Time) (hex digest : Text)
    (s : Database)
    (hashed : request_hash p request.tool request.arguments contract.name contract.version
      ≡ ok digest)
    (fits : fits_int64 contract.retry_limit ≡ true) where
  abbrev pub drawn : EffectRecord
  drawn = new_record p tenant_key tenant request contract digest now (effect_id_of hex)

  abbrev drawn_row : EffectRow
  drawn_row = printed_row d p drawn (arguments_encode p request contract digest hashed).0

  insert_fails :
      count_where (effects_clash drawn_row) s.effects ≢ 0
      → insert_effect drawn_row s ≡ (err integrity_error, s)
  unfolding insert_effect printed_row new_record
  insert_fails h = ground (arith, fits)

  clash_of :
      (test : EffectRow → Bool) (row : EffectRow)
      → first_where test s.effects ≡ some row
      → effects_clash drawn_row row ≡ true
      → insert_effect drawn_row s ≡ (err integrity_error, s)
  clash_of test row found clash =
      insert_fails (count_where-ne-zero test (effects_clash drawn_row) s.effects row found clash)

  -- What the handler answers.
  reserve_handled :
      (o : Option EffectRecord)
      → d.commit s ≡ ok tt
      → insert_effect drawn_row s ≡ (err integrity_error, s)
      → select_by_identity d tenant request.operation_key s ≡ ok o
      → reserve p d tenant_key tenant request contract now hex s
        ≡ (reserve_known request digest o, s)
  unfolding reserve reserve_body reserve_after in_transaction finish tried caught record_params
      integrity_error is_integrity_error text list_beq
  reserve_handled o commits fails known =
      let (t, encoded) = arguments_encode p request contract digest hashed in
      ground (
        arith,
        hashed,
        (arguments_encode p request contract digest hashed).1,
        fails,
        known,
        commits,
      )

  inserted : Database
  inserted = record s { effects = s.effects ++ drawn_row ∷ [] }

  id_clash :
      (row : EffectRow)
      → first_where (of_effect (effect_id_of hex)) s.effects ≡ some row
      → effects_clash drawn_row row ≡ true
  unfolding printed_row new_record
  id_clash row present =
      ground (arith, first_where-eq-some (of_effect (effect_id_of hex)) s.effects row present)

  identity_clash :
      (row : EffectRow)
      → first_where (of_identity tenant request.operation_key) s.effects ≡ some row
      → effects_clash drawn_row row ≡ true
  unfolding printed_row new_record
  identity_clash row present =
      ground (
        arith,
        first_where-eq-some (of_identity tenant request.operation_key) s.effects row present,
      )

  module _ (faithful : Faithful p d) (reload : Reloads d request.arguments)
      (retention : IsExactOption contract.key_retention)
      (bound : IsExactOption contract.settlement_bound) (valid : IsValid d s) where
    module _ (unknown : select_by_identity d tenant request.operation_key s ≡ ok none)
        (free : is_known (effect_id_of hex) s ≡ false) where
      no_identity : All (λ x. of_identity tenant request.operation_key x ≡ false) s.effects
      unfolding select_by_identity read_row
      no_identity =
          elim (Option-cases (first_where (of_identity tenant request.operation_key) s.effects)) [
            | inl absent ↦
                first_where-eq-none (of_identity tenant request.operation_key) s.effects absent
            | inr (row, present) ↦ ground (arith, unknown, present)
          ]

      no_id : All (λ x. of_effect (effect_id_of hex) x ≡ false) s.effects
      no_id = All-count_where (of_effect (effect_id_of hex)) s.effects (ground (arith, free))

      drawn_reads : row_to_record d drawn_row ≡ ok drawn
      unfolding record_params new_record
      drawn_reads =
          row_to_record-record_params p d faithful drawn drawn_row reload retention bound
            (rw (arguments_encode p request contract digest hashed).1)

      no_clash : count_where (effects_clash drawn_row) s.effects ≡ 0
      unfolding printed_row new_record
      no_clash = count_where-eq-zero (effects_clash drawn_row) s.effects (
          All-both (λ x. of_effect (effect_id_of hex) x ≡ false)
            (λ x. of_identity tenant request.operation_key x ≡ false)
            (λ x. effects_clash drawn_row x ≡ false) s.effects (λ x a b. rw (a, b)) no_id
            no_identity)

      drawn-ApartRow :
          (x : EffectRow)
          → of_effect (effect_id_of hex) x ≡ false
          → of_identity tenant request.operation_key x ≡ false
          → ApartRow x drawn_row
      unfolding printed_row new_record
      drawn-ApartRow x a b = ground (
        arith,
        a,
        b,
        text_eq.beq_iff x.effect_id (effect_id_of hex),
        text_eq.beq_iff x.tenant_id tenant,
        text_eq.beq_iff x.operation_key request.operation_key,
      )

      inserted-IsValid : IsValid d inserted
      unfolding inserted printed_row new_record
      inserted-IsValid = record {
        readable =
            All-append (RowReads d) s.effects (drawn_row ∷ []) valid.readable
              (((drawn, drawn_reads), tt), tt);
        apart = ApartRows-append s.effects drawn_row valid.apart (
            All-both (λ x. of_effect (effect_id_of hex) x ≡ false)
              (λ x. of_identity tenant request.operation_key x ≡ false) (λ x. ApartRow x drawn_row)
              s.effects drawn-ApartRow no_id no_identity);
        named = valid.named;
        attempts_numbered = valid.attempts_numbered;
        events_numbered = valid.events_numbered;
      }

      insert_runs : insert_effect drawn_row s ≡ (ok tt, inserted)
      unfolding insert_effect inserted printed_row new_record
      insert_runs = ground (arith, fits, no_clash)

      first_inserted :
          (test : EffectRow → Bool)
          → All (λ x. test x ≡ false) s.effects
          → test drawn_row ≡ true
          → first_where test inserted.effects ≡ some drawn_row
      unfolding inserted or_else
      first_inserted test none_before this = ground (
        arith,
        first_where-append test s.effects drawn_row,
        first_where-none test s.effects none_before,
        this,
      )

      id_here : of_effect (effect_id_of hex) drawn_row ≡ true
      unfolding printed_row new_record
      id_here = ==_refl (effect_id_of hex)

      identity_here : of_identity tenant request.operation_key drawn_row ≡ true
      unfolding printed_row new_record
      identity_here = ground (arith, ==_refl tenant, ==_refl request.operation_key)

      status_text : Text
      status_text = status_encodes.0

      reserved : Database
      reserved = logged p d (effect_id_of hex) (text "reserved") 0 now status_text inserted

      first_is_new : first_where (of_effect (effect_id_of hex)) inserted.effects ≡ some drawn_row
      first_is_new = first_inserted (of_effect (effect_id_of hex)) no_id id_here

      reserve_creates :
          reserve p d tenant_key tenant request contract now hex s
          ≡ (ok (record { effect = drawn; created = true; replayed = false }), reserved)
      unfolding reserve reserve_body reserve_after in_transaction finish tried caught record_params
          reserved status_text new_record
      reserve_creates = ground (
        arith,
        hashed,
        (arguments_encode p request contract digest hashed).1,
        insert_runs,
        append_event_runs p d (effect_id_of hex) (text "reserved") 0 now
            (object ((text "status", str (status_value prepared)) ∷ [])) status_encodes.0 inserted
            drawn_row status_encodes.1 first_is_new inserted-IsValid,
        faithful.commits reserved,
      )

      reserved-IsValid : IsValid d reserved
      unfolding reserved status_text
      reserved-IsValid =
          append_event-IsValid p d (effect_id_of hex) (text "reserved") 0 now
            (object ((text "status", str (status_value prepared)) ∷ [])) status_encodes.0 inserted
            drawn_row status_encodes.1 first_is_new inserted-IsValid

      select_reserved :
          (j : Text)
          → select_by_effect_id d j reserved
            ≡ (if effect_id_of hex == j then ok (some drawn) else select_by_effect_id d j s)
      unfolding reserved select_by_effect_id read_row
      select_reserved j = elim (Bool-cases (effect_id_of hex == j)) [
        | inl same ↦
            rw (← ==_eq (effect_id_of hex) j same)
              (ground (arith, ==_refl (effect_id_of hex), first_is_new, drawn_reads))
        | inr other ↦ rw other (
            unfold inserted or_else printed_row new_record in
            ground (arith, other, first_where-append (of_effect j) s.effects drawn_row))
      ]

      identity_reserved :
          select_by_identity d tenant request.operation_key reserved ≡ ok (some drawn)
      unfolding reserved select_by_identity read_row
      identity_reserved = ground (
        arith,
        first_inserted (of_identity tenant request.operation_key) no_identity identity_here,
        drawn_reads,
      )

    absent :
        select_by_identity d tenant request.operation_key s ≡ ok none
        → is_known (effect_id_of hex) s ≡ false
        → select_by_effect_id d (effect_id_of hex) s ≡ ok none
    unfolding select_by_effect_id read_row
    absent h free = rw (first_where-none (of_effect (effect_id_of hex)) s.effects (no_id h free))

    keeps_stored :
        (h : select_by_identity d tenant request.operation_key s ≡ ok none)
        (free : is_known (effect_id_of hex) s ≡ false) (j : Text) (r : EffectRecord)
        → select_by_effect_id d j s ≡ ok (some r)
        → select_by_effect_id d j (reserved h free) ≡ ok (some r)
    keeps_stored h free j r at = elim (Bool-cases (effect_id_of hex == j)) [
      | inl same ↦
          let at_id =
            subst (λ i. select_by_effect_id d i s ≡ ok (some r))
              (sym (==_eq (effect_id_of hex) j same)) at in
          absurd (cc (at_id, absent h free))
      | inr other ↦ ground (arith, select_reserved h free j, other, at)
    ]

    -- What a reservation comes to when `o` is stored under its identity and its drawn id is
    -- `taken`.
    pub record Reserves (o : Option EffectRecord) (taken : Bool) (s' : Database) : Type 0 where
      pub returns :
          reserve p d tenant_key tenant request contract now hex s
          ≡ (reserve_outcome request digest drawn o taken, s')
      pub still_valid : IsValid d s'
      pub stores :
          (j : Text)
          → select_by_effect_id d j s'
            ≡ created_after
                (effect_id_of hex)
                j
                (reserve_outcome request digest drawn o taken)
                (select_by_effect_id d j s)
      pub keeps :
          (j : Text) (r : EffectRecord)
          → select_by_effect_id d j s ≡ ok (some r)
          → select_by_effect_id d j s' ≡ ok (some r)
      pub attempts_kept : (j : Text) → attempt_count j s' ≡ attempt_count j s
      pub identified :
          (res : Reservation)
          → reserve_outcome request digest drawn o taken ≡ ok res
          → select_by_identity d tenant request.operation_key s' ≡ ok (some res.effect)
      -- Unless it creates the effect, no table changes; otherwise its row and one event are added.
      pub tables :
          ((s' ≡ s)
            × ((res : Reservation)
                → reserve_outcome request digest drawn o taken ≡ ok res
                → res.created ≡ false))
          ⊎ ((reserve_outcome request digest drawn o taken
                ≡ ok (record { effect = drawn; created = true; replayed = false }))
              × ((x : EffectRow) × (s'.effects ≡ s.effects ++ x ∷ []))
              × ((x : EventRow) × (x.effect_id ≡ drawn.effect_id)
                  × (s'.events ≡ s.events ++ x ∷ []))
              × (s'.attempts ≡ s.attempts))

    known_decided :
        (r : EffectRecord)
        → select_by_identity d tenant request.operation_key s ≡ ok (some r)
        → Reserves (some r) (is_known (effect_id_of hex) s) s
    unfolding reserve_outcome reserve_known
    known_decided r h =
        let (row, present) = row_of_identity d tenant request.operation_key s r h in
        record {
          returns =
              reserve_handled (some r) (faithful.commits s)
                (clash_of (of_identity tenant request.operation_key) row present
                  (identity_clash row present))
                h;
          still_valid = valid;
          stores = λ j. ground arith;
          keeps = λ j r h. h;
          attempts_kept = λ j. refl;
          identified = λ res e. ground (arith, h, e);
          tables = inl (refl, λ res e. ground (arith, e));
        }

    taken_decided :
        select_by_identity d tenant request.operation_key s ≡ ok none
        → is_known (effect_id_of hex) s ≡ true
        → Reserves none true s
    unfolding reserve_outcome reserve_known
    taken_decided h taken =
        let (row, present) = row_of_known (effect_id_of hex) s taken in
        record {
          returns =
              reserve_handled none (faithful.commits s)
                (clash_of (of_effect (effect_id_of hex)) row present (id_clash row present)) h;
          still_valid = valid;
          stores = λ j. refl;
          keeps = λ j r h. h;
          attempts_kept = λ j. refl;
          identified = λ res e. cc;
          tables = inl (refl, λ res e. cc);
        }

    created_decided :
        (h : select_by_identity d tenant request.operation_key s ≡ ok none)
        (free : is_known (effect_id_of hex) s ≡ false)
        → Reserves none false (reserved h free)
    unfolding reserve_outcome reserved attempt_count inserted new_record
    created_decided h free = record {
      returns = reserve_creates h free;
      still_valid = reserved-IsValid h free;
      stores = select_reserved h free;
      keeps = keeps_stored h free;
      attempts_kept = λ j. refl;
      identified = λ res e. ground (arith, e, identity_reserved h free);
      tables = inr (refl, (_, refl), (_, refl, refl), refl);
    }

    pub reserve_decides :
        (o : Option EffectRecord)
        → select_by_identity d tenant request.operation_key s ≡ ok o
        → (s' : Database) × Reserves o (is_known (effect_id_of hex) s) s'
    reserve_decides (some r) h = (s, known_decided r h)
    reserve_decides none h = elim (Bool-cases (is_known (effect_id_of hex) s)) [
      | inl taken ↦ (s, rw taken (taken_decided h taken))
      | inr free ↦ (reserved h free, rw free (created_decided h free))
    ]
