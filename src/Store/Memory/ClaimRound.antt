-- ===== src/Store/Memory/ClaimRound.antt =====
-- One round of the loop of `claim_due` (src/effect_broker/store/memory.py): what the rest of the
-- loop does, and this round before it.
use effect_broker.Prelude.{
  ◌+◌, ◌≤◌, Text, text_eq, ◌≡◌, ◌≢◌, refl, sym, ap, subst, ◌∙◌, ◌==◌, ==_eq, Bool-cases, inl, inr,
  none, some, List, [], ◌∷◌, ◌++◌, length-append, All-map, ◌⊎◌, true, false, length, All, ==_refl,
  arith,
}
use mathlib.Core.Path.{subst₂}
use mathlib.Core.List.{append_assoc, Memᴰ}
use effect_broker.Prelude.Int.{ℤ, pos_part}
use effect_broker.Prelude.Dict.{Dict, lookup, lookup-insert}
use effect_broker.Models.{EffectRecord, Time, Duration}
use effect_broker.Errors.{ok}
use effect_broker.Platform.{Platform}
use effect_broker.Store.Laws.{Apart}
use effect_broker.Store.Rows.{claimed_record}
use effect_broker.Store.Memory.State.{MemoryStore, MemoryEvent}
use effect_broker.Store.Memory.Claim.{is_due, is_full, claim_step, claim_loop}
use effect_broker.Store.Memory.Invariant.{IsValid}
use effect_broker.Store.Memory.ClaimOne.{new_lease, claimed_store, claim_one_runs, Taken}

module _ (p : Platform) (worker_id : Text) (now : Time) (lease_for : Duration) where
  module _ (tenant_key : Text → Text) (limit : ℤ) where
    -- What the loop over `items` does from `s`, with `batch` claimed before.
    pub record Claims (items : Dict Text EffectRecord) (batch : List EffectRecord)
        (s s' : MemoryStore) (more : List EffectRecord) : Type 0 where
      pub returns :
          claim_loop p worker_id now lease_for limit items batch s ≡ (ok (batch ++ more), s')
      pub valid : IsValid p tenant_key s'
      pub frame :
          (j : Text)
          → lookup j items ≡ none
          → (lookup j s'.records ≡ lookup j s.records) × (lookup j s'.leases ≡ lookup j s.leases)
      pub visited :
          (j : Text) (r : EffectRecord)
          → lookup j items ≡ some r
          → ((lookup j s'.records ≡ some r) × (lookup j s'.leases ≡ lookup j s.leases))
            ⊎ ((lookup j s'.records ≡ some (claimed_record r now))
                × (is_due now r.status (lookup j s.leases) ≡ true)
                × Memᴰ (claimed_record r now) more)
      pub all_due :
          (j : Text) (r : EffectRecord)
          → lookup j items ≡ some r
          → is_due now r.status (lookup j s.leases) ≡ true
          → is_full limit (batch ++ more) ≡ false
          → lookup j s'.records ≡ some (claimed_record r now)
      pub same_attempts : s'.attempts ≡ s.attempts
      pub bounded : length batch ≤ pos_part limit → length (batch ++ more) ≤ pos_part limit
      pub taken : All (Taken p worker_id now lease_for items s s') more
      pub apart : Apart more

    full_mono :
        (batch more : List EffectRecord)
        → is_full limit batch ≡ true
        → is_full limit (batch ++ more) ≡ true
    unfolding is_full
    full_mono batch more h = ground (arith, length-append batch more)

    module _ (id : Text) (r : EffectRecord) (items : Dict Text EffectRecord)
        (later : lookup id items ≡ none) where
      module _ (batch : List EffectRecord) (s s' : MemoryStore) (more : List EffectRecord)
          (skip : (is_full limit batch ≡ true)
            ⊎ ((is_full limit batch ≡ false) × (is_due now r.status (lookup id s.leases) ≡ false)))
          (ahead : lookup id s.records ≡ some r) (c : Claims items batch s s' more) where
        skip-returns :
            claim_loop p worker_id now lease_for limit ((id, r) ∷ items) batch s
            ≡ (ok (batch ++ more), s')
        unfolding claim_loop claim_step
        skip-returns = ground (arith, c.returns)

        skip-frame :
            (j : Text)
            → lookup j ((id, r) ∷ items) ≡ none
            → (lookup j s'.records ≡ lookup j s.records) × (lookup j s'.leases ≡ lookup j s.leases)
        unfolding lookup
        skip-frame j h = ground (arith, c.frame j)

        skip-visited :
            (j : Text) (x : EffectRecord)
            → lookup j ((id, r) ∷ items) ≡ some x
            → ((lookup j s'.records ≡ some x) × (lookup j s'.leases ≡ lookup j s.leases))
              ⊎ ((lookup j s'.records ≡ some (claimed_record x now))
                  × (is_due now x.status (lookup j s.leases) ≡ true)
                  × Memᴰ (claimed_record x now) more)
        unfolding lookup
        skip-visited j x h = ground (arith, c.visited j x, c.frame id later, text_eq.beq_iff id j)

        skip-all_due :
            (j : Text) (x : EffectRecord)
            → lookup j ((id, r) ∷ items) ≡ some x
            → is_due now x.status (lookup j s.leases) ≡ true
            → is_full limit (batch ++ more) ≡ false
            → lookup j s'.records ≡ some (claimed_record x now)
        unfolding lookup
        skip-all_due j x h due room =
            ground (arith, c.all_due j x, text_eq.beq_iff id j, full_mono batch more)

        skip-Taken :
            (x : EffectRecord)
            → Taken p worker_id now lease_for items s s' x
            → Taken p worker_id now lease_for ((id, r) ∷ items) s s' x
        unfolding lookup
        skip-Taken x (j, y, found, due, e, stored, leased) =
            (j, y, ground (arith, text_eq.beq_iff id j), due, e, stored, leased)

        pub skip-Claims : Claims ((id, r) ∷ items) batch s s' more
        skip-Claims = record {
          returns = skip-returns;
          valid = c.valid;
          frame = skip-frame;
          visited = skip-visited;
          all_due = skip-all_due;
          same_attempts = c.same_attempts;
          bounded = c.bounded;
          taken =
              All-map (Taken p worker_id now lease_for items s s')
                (Taken p worker_id now lease_for ((id, r) ∷ items) s s') more skip-Taken c.taken;
          apart = c.apart;
        }

      module _ (batch : List EffectRecord) (s : MemoryStore) (log : List MemoryEvent)
          (s' : MemoryStore) (more : List EffectRecord) (room : is_full limit batch ≡ false)
          (due : is_due now r.status (lookup id s.leases) ≡ true)
          (has_log : lookup id s.events ≡ some log)
          (c : Claims items
            (batch ++ claimed_record r now ∷ [])
            (claimed_store p worker_id now lease_for s id r log)
            s'
            more) where
        take-returns :
            claim_loop p worker_id now lease_for limit ((id, r) ∷ items) batch s
            ≡ (ok (batch ++ claimed_record r now ∷ more), s')
        unfolding claim_loop claim_step
        take-returns = ground (
          arith,
          c.returns,
          claim_one_runs p worker_id now lease_for s id r log batch has_log,
          append_assoc batch (claimed_record r now ∷ []) more,
        )

        take-frame :
            (j : Text)
            → lookup j ((id, r) ∷ items) ≡ none
            → (lookup j s'.records ≡ lookup j s.records) × (lookup j s'.leases ≡ lookup j s.leases)
        unfolding lookup
        take-frame j h = ground (
          arith,
          c.frame j,
          lookup-insert id j (claimed_record r now) s.records,
          lookup-insert id j (new_lease p worker_id now lease_for) s.leases,
        )

        head-stored : lookup id s'.records ≡ some (claimed_record r now)
        head-stored = (c.frame id later).0 ∙ rw (lookup-insert, ==_refl id)

        take-visited :
            (j : Text) (x : EffectRecord)
            → lookup j ((id, r) ∷ items) ≡ some x
            → ((lookup j s'.records ≡ some x) × (lookup j s'.leases ≡ lookup j s.leases))
              ⊎ ((lookup j s'.records ≡ some (claimed_record x now))
                  × (is_due now x.status (lookup j s.leases) ≡ true)
                  × Memᴰ (claimed_record x now) (claimed_record r now ∷ more))
        unfolding lookup
        take-visited j x h = elim (Bool-cases (id == j)) [
          | inl same ↦
              let here : id ≡ j = ==_eq id j same in
              let this : r ≡ x = ground (arith, h, same) in
              inr (
                subst₂ (λ i (y : EffectRecord). lookup i s'.records ≡ some (claimed_record y now))
                    here this head-stored,
                subst₂ (λ i (y : EffectRecord). is_due now y.status (lookup i s.leases) ≡ true) here
                    this due,
                Memᴰ.head (ap (λ (y : EffectRecord). claimed_record y now) (sym this)),
              )
          | inr other ↦
              let leases : lookup j (claimed_store p worker_id now lease_for s id r log).leases
                  ≡ lookup j s.leases =
                ground (
                  arith,
                  other,
                  lookup-insert id j (new_lease p worker_id now lease_for) s.leases,
                ) in
              elim (c.visited j x (ground (arith, h, other))) [
                | inl kept ↦ inl (kept.0, kept.1 ∙ leases)
                | inr moved ↦ inr (
                  moved.0,
                  subst (λ o. is_due now x.status o ≡ true) leases moved.1,
                  Memᴰ.tail moved.2,
                )
              ]
        ]

        take-all_due :
            (j : Text) (x : EffectRecord)
            → lookup j ((id, r) ∷ items) ≡ some x
            → is_due now x.status (lookup j s.leases) ≡ true
            → is_full limit (batch ++ claimed_record r now ∷ more) ≡ false
            → lookup j s'.records ≡ some (claimed_record x now)
        unfolding lookup
        take-all_due j x h was_due still_room = ground (
          arith,
          c.all_due j x,
          c.frame id later,
          text_eq.beq_iff id j,
          append_assoc batch (claimed_record r now ∷ []) more,
          lookup-insert id j (claimed_record r now) s.records,
          lookup-insert id j (new_lease p worker_id now lease_for) s.leases,
        )

        take-bounded :
            length batch ≤ pos_part limit
            → length (batch ++ claimed_record r now ∷ more) ≤ pos_part limit
        unfolding is_full
        take-bounded h = rw append_assoc at (
            c.bounded
              (rw length-append (let e : length batch + 1 ≤ pos_part limit = ground arith in e)))

        take-Taken :
            (x : EffectRecord)
            → Taken p worker_id now lease_for items
                (claimed_store p worker_id now lease_for s id r log)
                s'
                x
            → Taken p worker_id now lease_for ((id, r) ∷ items) s s' x
        unfolding lookup
        take-Taken x (j, y, found, was_due, e, stored, leased) = (
          j,
          y,
          ground (arith, text_eq.beq_iff id j),
          ground (
            arith,
            text_eq.beq_iff id j,
            lookup-insert id j (new_lease p worker_id now lease_for) s.leases,
          ),
          e,
          stored,
          leased,
        )

        take-head : Taken p worker_id now lease_for ((id, r) ∷ items) s s' (claimed_record r now)
        unfolding lookup
        take-head = (
          id,
          r,
          rw ==_refl,
          due,
          refl,
          head-stored,
          (c.frame id later).1 ∙ rw (lookup-insert, ==_refl id),
        )

        -- The effect that is taken is none of those that are taken later.
        take-apart : All (λ y. (claimed_record r now).effect_id ≢ y.effect_id) more
        take-apart =
            All-map
              (Taken p worker_id now lease_for items
                (claimed_store p worker_id now lease_for s id r log) s')
              (λ y. (claimed_record r now).effect_id ≢ y.effect_id) more
              (λ y (j, x, found, _, _, stored, _) same.
                let at_j = (c.valid.matches j y stored).keyed in
                let at_id = (c.valid.matches id (claimed_record r now) head-stored).keyed in
                ground (arith, at_j, at_id, same, found, later))
              c.taken

        pub take-Claims : Claims ((id, r) ∷ items) batch s s' (claimed_record r now ∷ more)
        take-Claims = record {
          returns = take-returns;
          valid = c.valid;
          frame = take-frame;
          visited = take-visited;
          all_due = take-all_due;
          same_attempts = c.same_attempts;
          bounded = take-bounded;
          taken = (
            take-head,
            All-map
                (Taken p worker_id now lease_for items
                  (claimed_store p worker_id now lease_for s id r log) s')
                (Taken p worker_id now lease_for ((id, r) ∷ items) s s') more take-Taken c.taken,
          );
          apart = (take-apart, c.apart);
        }
