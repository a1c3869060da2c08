-- ===== src/CrashMatrix/Commits.antt =====
-- One call of `DurableTarget.commit` (examples/crash_matrix/target.py).
use effect_broker.Prelude.{
  ℕ, ◌+◌, ◌≤◌, Text, text_eq, ◌≡◌, ◌≢◌, refl, Bool-cases, inl, inr, true, none, some, Option-cases,
  [], ◌∷◌, ◌++◌, ◌==◌, ==_eq, ==_ne, arith,
}
use effect_broker.Json.{Value}
use effect_broker.Models.{Time}
use effect_broker.Errors.{Error, ok, err, Result-cases}
use effect_broker.Platform.{Platform}
use effect_broker.Canonical.{canonical_json}
use effect_broker.Store.Sql.{
  count_where, settle, transaction, first_where-eq-none, count_where-append, count_where-eq-zero,
}
use effect_broker.Adapters.Simulated.{charge_id_of}
use effect_broker.Adapters.Simulated.Charges.{charge_id_of_injective}
use effect_broker.CrashMatrix.{
  TargetCommit, CommitCall, DurableTarget, create_schema, of_key, of_id, next_id, insert_call,
  insert_target_effect, count, select_by_key, commit_row, commit_body, target_commit,
}

-- A key has one row at most, and the ids from the next one on are unused.
pub record IsValid (t : DurableTarget) : Type 0 where
  pub one : (key : Text) → count key t ≤ 1
  pub unused : (n : ℕ) → next_id t ≤ n → count_where (of_id (charge_id_of n)) t.target_effects ≡ 0

pub create-IsValid : (now : Time) → IsValid (create_schema now)
unfolding create_schema count count_where
create-IsValid now = record { one = λ key. omega arith; unused = λ n h. refl }

module _ (p : Platform) (key json : Text) where
  abbrev pub call_row : DurableTarget → CommitCall
  call_row t = record {
    call_id = count_where (λ _. true) t.commit_calls + 1;
    downstream_key = key;
    payload_json = json;
    called_at = p.isoformat t.now;
  }

  -- The call is written down.
  abbrev pub called : DurableTarget → DurableTarget
  called t = record t { commit_calls = t.commit_calls ++ call_row t ∷ [] }

  abbrev pub new_row : DurableTarget → TargetCommit
  new_row t = record {
    external_id = charge_id_of (next_id t);
    downstream_key = key;
    payload_json = json;
    committed_at = p.isoformat t.now;
  }

  -- The call is written down, and its effect too.
  abbrev pub added : DurableTarget → DurableTarget
  added t = record (called t) { target_effects = t.target_effects ++ new_row t ∷ [] }

  pub absent : (t : DurableTarget) → select_by_key key t ≡ none → count key t ≡ 0
  unfolding select_by_key count
  absent t h =
      count_where-eq-zero (of_key key) t.target_effects
        (first_where-eq-none (of_key key) t.target_effects h)

  pub called-IsValid : (t : DurableTarget) → IsValid t → IsValid (called t)
  unfolding count next_id
  called-IsValid t v = record { one = v.one; unused = v.unused }

  pub added-IsValid :
      (t : DurableTarget) → IsValid t → select_by_key key t ≡ none → IsValid (added t)
  unfolding count next_id
  added-IsValid t v missing = record { one = one; unused = unused }
    where
      one : (k : Text) → count_where (of_key k) (t.target_effects ++ new_row t ∷ []) ≤ 1
      one k = elim (Bool-cases (key == k)) [
        | inl same ↦
            let e = ==_eq key k same in
            ground (
              arith,
              same,
              e,
              absent t missing,
              count_where-append (of_key k) t.target_effects (new_row t),
            )
        | inr other ↦
            ground
              (arith, other, v.one k, count_where-append (of_key k) t.target_effects (new_row t))
      ]

      unused :
          (n : ℕ)
          → count_where (λ _. true) (t.target_effects ++ new_row t ∷ []) + 1 ≤ n
          → count_where (of_id (charge_id_of n)) (t.target_effects ++ new_row t ∷ []) ≡ 0
      unused n low =
          let one_more = count_where-append (λ _. true) t.target_effects (new_row t) in
          let apart : charge_id_of (next_id t) ≢ charge_id_of n =
            λ e. let same = charge_id_of_injective (next_id t) n e in ground arith in
          ground (
            arith,
            one_more,
            ==_ne (charge_id_of (next_id t)) (charge_id_of n) apart,
            v.unused n,
            count_where-append (of_id (charge_id_of n)) t.target_effects (new_row t),
          )

  found :
      (t : DurableTarget) (row : TargetCommit)
      → select_by_key key t ≡ some row
      → settle t (commit_body key json (p.isoformat t.now) t) ≡ (ok row.external_id, called t)
  unfolding settle commit_body insert_call commit_row select_by_key
  found t row there = rw there refl

  made :
      (t : DurableTarget)
      → IsValid t
      → select_by_key key t ≡ none
      → settle t (commit_body key json (p.isoformat t.now) t)
        ≡ (ok (charge_id_of (next_id t)), added t)
  unfolding settle commit_body insert_call commit_row select_by_key insert_target_effect next_id
      count
  made t v missing = ground (arith, missing, absent t missing, v.unused (next_id t))

module _ (p : Platform) (key : Text) (payload : Value) where
  -- What `commit` does: it refuses a payload with no canonical form, finds the commit of the key, or
  -- makes it.
  pub data Outcome (t : DurableTarget) : Type 0 where
    refuses :
        (e : Error)
        → canonical_json payload ≡ err e
        → target_commit p key payload t ≡ (err e, t)
        → Outcome t
    finds :
        (json : Text) (row : TargetCommit)
        → canonical_json payload ≡ ok json
        → select_by_key key t ≡ some row
        → target_commit p key payload t ≡ (ok row.external_id, called p key json t)
        → Outcome t
    adds :
        (json : Text)
        → canonical_json payload ≡ ok json
        → select_by_key key t ≡ none
        → target_commit p key payload t ≡ (ok (charge_id_of (next_id t)), added p key json t)
        → Outcome t

  pub outcome : (t : DurableTarget) → IsValid t → Outcome t
  unfolding target_commit transaction
  outcome t v = elim (Result-cases (canonical_json payload)) [
    | inr (e, bad) ↦ refuses e bad (rw bad refl)
    | inl (json, good) ↦ elim (Option-cases (select_by_key key t)) [
      | inr (row, there) ↦ finds json row good there (rw good (found p key json t row there))
      | inl missing ↦ adds json good missing (rw good (made p key json t v missing))
    ]
  ]
