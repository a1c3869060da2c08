-- ===== src/Store/Sqlite/Steady.antt =====
-- Any sequence of calls on the tables of src/effect_broker/store/sqlite.py, by any callers.
use effect_broker.Prelude.{
  ℕ, Text, text_eq, ◌==◌, ◌≡◌, refl, Bool, true, Option, none, some, arith, Bool-cases,
  Option-cases, inl, inr, ==_eq,
}
use effect_broker.Prelude.Int.{ℤ}
use effect_broker.Json.{JsonObject}
use effect_broker.Models.{EffectRecord, EffectRequest, EffectContract, EffectStatus, Time, Duration}
use effect_broker.Errors.{ok, err, Result-cases}
use effect_broker.Platform.{Platform}
use effect_broker.Canonical.{request_hash}
use effect_broker.StateMachine.{is_allowed, is_terminal, assert_transition}
use effect_broker.Store.Rows.{updated_record, claimed_record}
use effect_broker.Store.Memory.Evolves.{
  Evolves, same, updated-Evolves, claimable-Evolves, Evolves-trans, terminal_same,
}
use effect_broker.Store.Sqlite.Tables.{
  EffectRow, of_effect, of_identity, Decoders, Database, fits_int64,
}
use effect_broker.Store.Sqlite.Records.{select_by_effect_id, select_by_identity, read_row}
use effect_broker.Store.Sqlite.Methods.{reserve, start_attempt, transition}
use effect_broker.Store.Sqlite.Claim.{claim_due}
use effect_broker.Store.Sqlite.RoundTrip.{Faithful, Reloads, IsExactOption}
use effect_broker.Store.Sqlite.Invariant.{IsValid, RowReads}
use effect_broker.Store.Numbered.{first_where-All}
use effect_broker.Store.Sql.{first_where}
use effect_broker.Store.Sqlite.Transition.{Decided, transition_decides, transition_outcome}
use effect_broker.Store.Sqlite.Attempt.{start_attempt_decides}
use effect_broker.Store.Sqlite.Reserve.{reserve_decides}
use effect_broker.Store.Sqlite.Claims.{sqlite_claim_due_claims}

-- What a method needs of a request for its effect to read back.
pub record Storable (d : Decoders) (request : EffectRequest) (contract : EffectContract)
    : Type 0 where
  pub fits : fits_int64 contract.retry_limit ≡ true
  pub reload : Reloads d request.arguments
  pub retention : IsExactOption contract.key_retention
  pub bound : IsExactOption contract.settlement_bound

-- One call on the tables, whether it returned or raised.
pub data Step (p : Platform) (d : Decoders) (tenant_key : Text → Text) (s : Database)
    : Database → Type 0 where
  reserve_step :
      (tenant : Text) (request : EffectRequest) (contract : EffectContract) (now : Time)
      (hex : Text)
      → Storable d request contract
      → Step p d tenant_key s (reserve p d tenant_key tenant request contract now hex s).1
  claim_step :
      (worker : Text) (now : Time) (lease_for : Duration) (limit : ℤ)
      → Step p d tenant_key s (claim_due p d worker now lease_for limit s).1
  attempt_step :
      (id : Text) (v : ℕ) (worker : Text) (now : Time)
      → Step p d tenant_key s (start_attempt p d id v worker now s).1
  transition_step :
      (id : Text) (v : ℕ) (target : EffectStatus) (metadata : JsonObject) (now : Time)
      → Step p d tenant_key s (transition p d id v target metadata now s).1

pub data Steps (p : Platform) (d : Decoders) (tenant_key : Text → Text) (s : Database)
    : Database → Type 0 where
  stop : Steps p d tenant_key s s
  more :
      {s' s'' : Database}
      → Steps p d tenant_key s s'
      → Step p d tenant_key s' s''
      → Steps p d tenant_key s s''

-- A transition that returns moves the stored effect along an allowed edge.
outcome_moves :
    (id : Text) (v : ℕ) (target : EffectStatus) (metadata : JsonObject) (now : Time)
    (o : Option EffectRecord) (x : EffectRecord)
    → transition_outcome id v target metadata now o ≡ ok x
    → (r : EffectRecord) × (o ≡ some r)
      × (r.version ≡ v)
      × (is_allowed r.status target ≡ true)
      × (x ≡ updated_record r target now)
unfolding transition_outcome assert_transition
outcome_moves id v target metadata now none x h = cc
outcome_moves id v target metadata now (some r) x h =
    (r, refl, ground (arith, h), ground (arith, h), ground (arith, h))

module _ (p : Platform) (d : Decoders) (faithful : Faithful p d) (tenant_key : Text → Text) where
  -- A call keeps the tables valid, and every effect that is stored evolves.
  pub record Keeps (s s' : Database) : Type 0 where
    pub still_valid : IsValid d s'
    pub evolves :
        (j : Text) (r : EffectRecord)
        → select_by_effect_id d j s ≡ ok (some r)
        → (r' : EffectRecord) × (select_by_effect_id d j s' ≡ ok (some r')) × Evolves r r'

  module _ (s : Database) (valid : IsValid d s) where
    claim-Keeps :
        (worker : Text) (now : Time) (lease_for : Duration) (limit : ℤ)
        → Keeps s (claim_due p d worker now lease_for limit s).1
    claim-Keeps worker now lease_for limit =
        let (s', batch, b) =
          sqlite_claim_due_claims p d faithful worker now lease_for limit s valid in
        rw b.returns (record {
          still_valid = b.still_valid;
          evolves = λ j r h. elim (b.visited j r h) [
            | inl kept ↦ (r, kept, same refl)
            | inr moved ↦ (claimed_record r now, moved.0, claimable-Evolves r now moved.1)
          ];
        })

    read_total :
        (test : EffectRow → Bool)
        → (o : Option EffectRecord) × (read_row d (first_where test s.effects) ≡ ok o)
    unfolding read_row
    read_total test = elim (Option-cases (first_where test s.effects)) [
      | inl absent ↦ (none, rw absent)
      | inr (row, present) ↦
          let ((r, read), _) =
            first_where-All (RowReads d) test s.effects row valid.readable present in
          (some r, rw (present, read))
    ]

    select_total : (id : Text) → (o : Option EffectRecord) × (select_by_effect_id d id s ≡ ok o)
    unfolding select_by_effect_id
    select_total id = read_total (of_effect id)

    identity_total :
        (tenant key : Text) → (o : Option EffectRecord) × (select_by_identity d tenant key s ≡ ok o)
    unfolding select_by_identity
    identity_total tenant key = read_total (of_identity tenant key)

    attempt-Keeps :
        (id : Text) (v : ℕ) (worker : Text) (now : Time)
        → Keeps s (start_attempt p d id v worker now s).1
    unfolding select_by_effect_id
    attempt-Keeps id v worker now =
        let (o, h) = select_total id in
        let (s', b) = start_attempt_decides p d id v worker now s faithful.commits valid o h in
        rw b.returns (record {
          still_valid = b.still_valid;
          evolves = λ j r h. (r, rw b.effects_kept h, same refl);
        })

    transition-Keeps :
        (id : Text) (v : ℕ) (target : EffectStatus) (metadata : JsonObject) (now : Time)
        → Keeps s (transition p d id v target metadata now s).1
    transition-Keeps id v target metadata now =
        let (o, h) = select_total id in
        let (s', b) = transition_decides p d faithful id v target metadata now s valid o h in
        rw b.returns (record {
          still_valid = b.still_valid;
          evolves = moved_at id v target metadata now o h s' b;
        })
      where
        moved_at :
            (id : Text) (v : ℕ) (target : EffectStatus) (metadata : JsonObject) (now : Time)
            (o : Option EffectRecord)
            → select_by_effect_id d id s ≡ ok o
            → (s' : Database) → Decided p d faithful id v target metadata now s valid o s'
            → (j : Text) (r : EffectRecord) → select_by_effect_id d j s ≡ ok (some r)
            → (r' : EffectRecord) × (select_by_effect_id d j s' ≡ ok (some r')) × Evolves r r'
        moved_at id v target metadata now o at_id s' b j r h =
            elim (Result-cases (transition_outcome id v target metadata now o)) [
              | inr (e, raised) ↦ (r, ground (arith, b.stores j, raised, h), same refl)
              | inl (x, moves) ↦ elim (Bool-cases (id == j)) [
                | inr other ↦ (r, ground (arith, b.stores j, moves, h, other), same refl)
                | inl there ↦
                    let (q, is_q, _, edge, e) = outcome_moves id v target metadata now o x moves in
                    let this : r ≡ q = ground (arith, ==_eq id j there, at_id, is_q, h) in
                    (
                      x,
                      ground (arith, b.stores j, moves, there),
                      rw (this, e) (updated-Evolves q target now edge),
                    )
              ]
            ]

    reserve-Keeps :
        (tenant : Text) (request : EffectRequest) (contract : EffectContract) (now : Time)
        (hex : Text)
        → Storable d request contract
        → Keeps s (reserve p d tenant_key tenant request contract now hex s).1
    reserve-Keeps tenant request contract now hex st =
        elim (Result-cases
          (request_hash p request.tool request.arguments contract.name contract.version)) [
            | inr (e, raised) ↦
                let stopped : reserve p d tenant_key tenant request contract now hex s
                    ≡ (err e, s) =
                  unfold reserve in ground (arith, raised) in
                rw stopped (record { still_valid = valid; evolves = λ j r h. (r, h, same refl) })
            | inl (digest, hashed) ↦
                let (o, h) = identity_total tenant request.operation_key in
                let (s', b) =
                  reserve_decides p d tenant_key tenant request contract now hex digest s hashed
                    st.fits faithful st.reload st.retention st.bound valid o h in
                rw b.returns (record {
                  still_valid = b.still_valid;
                  evolves = λ j r at. (r, b.keeps j r at, same refl);
                })
          ]

    step-Keeps : {s' : Database} → Step p d tenant_key s s' → Keeps s s'
    step-Keeps (reserve_step tenant request contract now hex st) =
        reserve-Keeps tenant request contract now hex st
    step-Keeps (claim_step worker now lease_for limit) = claim-Keeps worker now lease_for limit
    step-Keeps (attempt_step id v worker now) = attempt-Keeps id v worker now
    step-Keeps (transition_step id v target metadata now) =
        transition-Keeps id v target metadata now

  long_run : {s s' : Database} → IsValid d s → Steps p d tenant_key s s' → Keeps s s'
  long_run {s} valid stop = record { still_valid = valid; evolves = λ j r h. (r, h, same refl) }
  long_run {s} {s'} valid (more {s' = t} before last) =
      let k = long_run valid before in
      let l = step-Keeps t k.still_valid last in
      record {
        still_valid = l.still_valid;
        evolves = λ j r h.
            let (q, at, first) = k.evolves j r h in
            let (x, stored, second) = l.evolves j q at in (x, stored, Evolves-trans first second);
      }

  -- Whatever calls run on valid tables that hold an effect, by whichever workers and in whichever
  -- order, and whether they return or raise: the tables stay valid, so no id and no identity is there
  -- twice and every row reads back, and that effect keeps its tenant, request, fingerprint, key and
  -- contract, moves along allowed edges only, and is not changed once its status is terminal. Times
  -- are read back as they were written, and every COMMIT succeeds (Faithful).
  pub sqlite_runs_are_safe :
      (s s' : Database) (j : Text) (r : EffectRecord)
      → IsValid d s
      → Steps p d tenant_key s s'
      → select_by_effect_id d j s ≡ ok (some r)
      → IsValid d s'
        × ((r' : EffectRecord) × (select_by_effect_id d j s' ≡ ok (some r'))
            × Evolves r r'
            × (is_terminal r.status ≡ true → r' ≡ r))
  sqlite_runs_are_safe s s' j r valid steps h =
      let k = long_run valid steps in
      let (r', stored, ev) = k.evolves j r h in
      (k.still_valid, (r', stored, ev, λ t. terminal_same ev t))
