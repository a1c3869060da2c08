-- ===== src/Store/Sqlite/ClaimLoop.antt =====
-- The loop of `claim_due` (src/effect_broker/store/sqlite.py) over the rows of its query.
use effect_broker.Prelude.{
  ◌≤◌, Text, text_eq, ◌==◌, ◌≡◌, ◌≢◌, ◌⊎◌, refl, subst, ap, sym, ◌∙◌, true, false, some, List, [],
  ◌∷◌, ◌++◌, All, All-map, All-both, length, length-append, if◌then◌else◌, arith, Bool-cases, inl,
  inr, ==_eq, ==_refl, ==_ne,
}
use mathlib.Core.List.{append_assoc, append-nil, Memᴰ}
use effect_broker.Prelude.Int.{ℤ, pos_part}
use effect_broker.Models.{EffectRecord, Time, Duration}
use effect_broker.Errors.{ok}
use effect_broker.Platform.{Platform}
use effect_broker.Store.Laws.{Claimable, Apart}
use effect_broker.Store.Rows.{claimed_record}
use effect_broker.Store.Sql.{first_where}
use effect_broker.Store.Sqlite.Tables.{Decoders, EffectRow, Database, of_effect}
use effect_broker.Store.Sqlite.Records.{select_by_effect_id}
use effect_broker.Store.Sqlite.Claim.{claim_row, claim_loop, lease_over, is_full, is_waiting}
use effect_broker.Store.Sqlite.RoundTrip.{Faithful}
use effect_broker.Store.Sqlite.Invariant.{IsValid}
use effect_broker.Store.Sqlite.ClaimOne.{
  claimed, claim_one_runs, select_claimed, first_claimed, claimed_attempts,
}

-- No row has this id.
abbrev pub Without : Text → List EffectRow → Type 0
Without id rows = All (λ row. row.effect_id ≢ id) rows

abbrev pub ApartIds : List EffectRow → Type 0
ApartIds [] = Unit
ApartIds (row ∷ rows) = Without row.effect_id rows × ApartIds rows

-- A row of the query as it still stands in the table.
abbrev pub Waits : Database → EffectRow → Type 0
Waits s row = (first_where (of_effect row.effect_id) s.effects ≡ some row) × (is_waiting row ≡ true)

module _ (p : Platform) (d : Decoders) (faithful : Faithful p d) (worker : Text) (now : Time)
    (lease_for : Duration) (limit : ℤ) where
  abbrev pub Takes : Database → Database → EffectRecord → Type 0
  Takes s s' x =
      (r : EffectRecord) × (select_by_effect_id d x.effect_id s ≡ ok (some r))
      × Claimable r.status
      × (x ≡ claimed_record r now)
      × (select_by_effect_id d x.effect_id s' ≡ ok (some x))
      × ((row : EffectRow) × (first_where (of_effect x.effect_id) s.effects ≡ some row)
          × (lease_over p d worker now lease_for row.lease_until ≡ ok true))

  -- The row is claimed when its lease is over.
  abbrev pub IfOver : Database → Database → EffectRow → Type 0
  IfOver s s' row =
      lease_over p d worker now lease_for row.lease_until ≡ ok true
      → (r : EffectRecord) × (select_by_effect_id d row.effect_id s ≡ ok (some r))
        × (select_by_effect_id d row.effect_id s' ≡ ok (some (claimed_record r now)))

  -- What the loop over `rows` does from `s`, with `batch` claimed before.
  pub record Claims (rows : List EffectRow) (batch : List EffectRecord) (s s' : Database)
      (more : List EffectRecord) : Type 0 where
    pub returns : claim_loop p d worker now lease_for limit rows batch s ≡ (ok (batch ++ more), s')
    pub valid : IsValid d s'
    pub frame : (j : Text) → Without j rows → select_by_effect_id d j s' ≡ select_by_effect_id d j s
    pub visited :
        (j : Text) (r : EffectRecord)
        → select_by_effect_id d j s ≡ ok (some r)
        → (select_by_effect_id d j s' ≡ ok (some r))
          ⊎ ((select_by_effect_id d j s' ≡ ok (some (claimed_record r now)))
              × Claimable r.status
              × Memᴰ (claimed_record r now) more)
    pub untouched :
        (j : Text)
        → All (λ x. x.effect_id ≢ j) more
        → first_where (of_effect j) s'.effects ≡ first_where (of_effect j) s.effects
    pub same_attempts : s'.attempts ≡ s.attempts
    pub bounded : length batch ≤ pos_part limit → length (batch ++ more) ≤ pos_part limit
    pub all_due : is_full limit (batch ++ more) ≡ false → All (IfOver s s') rows
    pub taken : All (Takes s s') more
    pub listed : All (λ x. ¬ Without x.effect_id rows) more
    pub apart : Apart more

  pub stop-Claims :
      (rows : List EffectRow) (batch : List EffectRecord) (s : Database)
      → IsValid d s
      → (is_full limit batch ≡ false → All (IfOver s s) rows)
      → claim_loop p d worker now lease_for limit rows batch s ≡ (ok batch, s)
      → Claims rows batch s s []
  stop-Claims rows batch s valid due h = record {
    returns = rw append-nil h;
    valid = valid;
    frame = λ j w. refl;
    visited = λ j r found. inl found;
    untouched = λ j none_here. refl;
    same_attempts = refl;
    bounded = λ b. rw append-nil b;
    all_due = λ room. due (rw append-nil at room);
    taken = tt;
    listed = tt;
    apart = tt;
  }

  module _ (row : EffectRow) (rows : List EffectRow) (batch : List EffectRecord) (s : Database)
      (room : is_full limit batch ≡ false) where
    pub skip-Claims :
        (s' : Database) (more : List EffectRecord)
        → lease_over p d worker now lease_for row.lease_until ≡ ok false
        → Claims rows batch s s' more
        → Claims (row ∷ rows) batch s s' more
    skip-Claims s' more held c = record {
      returns = unfold claim_loop claim_row in ground (arith, room, held, c.returns);
      valid = c.valid;
      frame = λ j w. c.frame j w.1;
      visited = c.visited;
      untouched = c.untouched;
      same_attempts = c.same_attempts;
      bounded = c.bounded;
      all_due = λ left. (λ over. cc (held, over), c.all_due left);
      taken = c.taken;
      listed =
          All-map (λ x. ¬ Without x.effect_id rows) (λ x. ¬ Without x.effect_id (row ∷ rows)) more
            (λ x inside w. inside w.1) c.listed;
      apart = c.apart;
    }

    module _ (r : EffectRecord)
        (over : lease_over p d worker now lease_for row.lease_until ≡ ok true)
        (found : select_by_effect_id d row.effect_id s ≡ ok (some r))
        (claimable : Claimable r.status) (keyed : r.effect_id ≡ row.effect_id)
        (others : Without row.effect_id rows) (valid : IsValid d s)
        (present : first_where (of_effect row.effect_id) s.effects ≡ some row) where
      abbrev next : Database
      next = claimed p d faithful worker now lease_for row.effect_id s r found valid

      abbrev one : EffectRecord
      one = claimed_record r now

      one_id : one.effect_id ≡ row.effect_id
      unfolding claimed_record
      one_id = keyed

      at_next :
          (j : Text)
          → select_by_effect_id d j next
            ≡ (if row.effect_id == j then ok (some one) else select_by_effect_id d j s)
      at_next j = select_claimed p d faithful worker now lease_for row.effect_id s r found valid j

      module _ (s' : Database) (more : List EffectRecord)
          (c : Claims rows (batch ++ one ∷ []) next s' more) where
        claim_returns :
            claim_loop p d worker now lease_for limit (row ∷ rows) batch s
            ≡ (ok (batch ++ one ∷ more), s')
        unfolding claim_loop claim_row
        claim_returns = ground (
          arith,
          room,
          over,
          claim_one_runs p d faithful worker now lease_for row.effect_id s r found valid batch,
          c.returns,
          append_assoc batch (one ∷ []) more,
        )

        stored : select_by_effect_id d row.effect_id s' ≡ ok (some one)
        stored =
            c.frame row.effect_id others
            ∙ ground (arith, at_next row.effect_id, ==_refl row.effect_id)

        claim_visited :
            (j : Text) (x : EffectRecord)
            → select_by_effect_id d j s ≡ ok (some x)
            → (select_by_effect_id d j s' ≡ ok (some x))
              ⊎ ((select_by_effect_id d j s' ≡ ok (some (claimed_record x now)))
                  × Claimable x.status
                  × Memᴰ (claimed_record x now) (one ∷ more))
        claim_visited j x h = elim (Bool-cases (row.effect_id == j)) [
          | inl same ↦
              let there = ==_eq row.effect_id j same in
              let this : r ≡ x = ground (arith, there, found, h) in
              inr (
                subst (λ i. select_by_effect_id d i s' ≡ ok (some (claimed_record x now))) there
                    (stored ∙ ap (λ (y : EffectRecord). ok (some (claimed_record y now))) this),
                subst (λ (y : EffectRecord). Claimable y.status) this claimable,
                Memᴰ.head (ap (λ (y : EffectRecord). claimed_record y now) (sym this)),
              )
          | inr other ↦ elim (c.visited j x (rw (at_next j, other) h)) [
            | inl kept ↦ inl kept
            | inr moved ↦ inr (moved.0, moved.1, Memᴰ.tail moved.2)
          ]
        ]

        claim_bounded :
            length batch ≤ pos_part limit → length (batch ++ one ∷ more) ≤ pos_part limit
        unfolding is_full
        claim_bounded low = ground (
          arith,
          room,
          c.bounded,
          length-append batch (one ∷ []),
          append_assoc batch (one ∷ []) more,
        )

        one-Takes : Takes s s' one
        one-Takes =
            subst
              (λ i.
                (q : EffectRecord) × (select_by_effect_id d i s ≡ ok (some q))
                × Claimable q.status
                × (one ≡ claimed_record q now)
                × (select_by_effect_id d i s' ≡ ok (some one))
                × ((row' : EffectRow) × (first_where (of_effect i) s.effects ≡ some row')
                    × (lease_over p d worker now lease_for row'.lease_until ≡ ok true)))
              (sym one_id) (r, found, claimable, refl, stored, (row, present, over))

        later_apart : (x : EffectRecord) → ¬ Without x.effect_id rows → row.effect_id ≢ x.effect_id
        later_apart x inside e = inside (subst (λ i. Without i rows) e others)

        later-Takes :
            (x : EffectRecord) → Takes next s' x → ¬ Without x.effect_id rows → Takes s s' x
        later-Takes x (q, at, claimable', e, kept, (row', first, over')) inside =
            let other = ==_ne row.effect_id x.effect_id (later_apart x inside) in
            (
              q,
              rw (at_next x.effect_id, other) at at,
              claimable',
              e,
              kept,
              (
                row',
                sym (
                      first_claimed p d faithful worker now lease_for row.effect_id s r found valid
                        x.effect_id (later_apart x inside))
                    ∙ first,
                over',
              ),
            )

        later-IfOver :
            (row' : EffectRow)
            → row'.effect_id ≢ row.effect_id
            → IfOver next s' row'
            → IfOver s s' row'
        later-IfOver row' other h over' =
            let (q, at, moved) = h over' in
            let apart = ==_ne row.effect_id row'.effect_id (λ e. other (sym e)) in
            (q, rw (at_next row'.effect_id, apart) at at, moved)

        pub claim-Claims : Claims (row ∷ rows) batch s s' (one ∷ more)
        claim-Claims = record {
          returns = claim_returns;
          valid = c.valid;
          frame = λ j w.
              c.frame j w.1 ∙ ground (arith, at_next j, text_eq.beq_iff row.effect_id j, w.0);
          visited = claim_visited;
          untouched = λ j none_here.
              c.untouched j none_here.1
              ∙ first_claimed p d faithful worker now lease_for row.effect_id s r found valid j
                  (λ e. none_here.0 (one_id ∙ e));
          same_attempts =
              c.same_attempts
              ∙ claimed_attempts p d faithful worker now lease_for row.effect_id s r found valid;
          bounded = claim_bounded;
          all_due = λ left. (
            λ _. (r, found, stored),
            All-both (λ row'. row'.effect_id ≢ row.effect_id) (IfOver next s') (IfOver s s') rows
                later-IfOver others (c.all_due (rw (append_assoc batch (one ∷ []) more) left)),
          );
          taken = (
            one-Takes,
            All-both (Takes next s') (λ x. ¬ Without x.effect_id rows) (Takes s s') more later-Takes
                c.taken c.listed,
          );
          listed = (
            λ w. w.0 (sym one_id),
            All-map (λ x. ¬ Without x.effect_id rows) (λ x. ¬ Without x.effect_id (row ∷ rows)) more
                (λ x inside w. inside w.1) c.listed,
          );
          apart = (
            All-map (λ x. ¬ Without x.effect_id rows) (λ x. one.effect_id ≢ x.effect_id) more
                (λ x inside e. later_apart x inside (sym one_id ∙ e)) c.listed,
            c.apart,
          );
        }
