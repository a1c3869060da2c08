-- ===== src/CrashMatrix/Runs.antt =====
-- Runs of `DurableTarget.commit` (examples/crash_matrix/target.py).
use effect_broker.Prelude.{
  ℕ, ◌+◌, Text, text_eq, ◌≡◌, refl, ◌∙◌, ap, Bool-cases, inl, inr, Bool, true, false, none, some,
  List, [], ◌∷◌, ◌&&◌, ◌==◌, ==_refl, ==_eq, nat_beq, arith, if◌then◌else◌,
}
use mathlib.Core.Option.{or_else}
use effect_broker.Json.{Value}
use effect_broker.Models.{safety_eq, Time}
use effect_broker.Errors.{ok, err}
use effect_broker.Platform.{Platform}
use effect_broker.Canonical.{canonical_json}
use effect_broker.Store.Sql.{
  count_where, first_where-append, count_where-append, count_where-ne-zero, first_where-eq-some,
}
use effect_broker.CrashMatrix.{
  TargetCommit, DurableTarget, create_schema, of_key, of_call, next_id, count, commit_call_count,
  select_by_key, target_commit,
}
use effect_broker.CrashMatrix.Commits.{
  IsValid, create-IsValid, call_row, absent, called, new_row, added, called-IsValid, added-IsValid,
  outcome, refuses, finds, adds,
}

-- A call of `commit`: when, for which key and with which payload.
pub record CommitArgs : Type 0 where
  pub now : Time
  pub key : Text
  pub payload : Value

-- Whether the payload has a canonical form.
abbrev pub prints : Value → Bool
prints payload = elim (canonical_json payload) [ ok json ↦ true | err e ↦ false ]

-- How many calls for a key have a payload that is committed.
abbrev pub accepted : Text → List CommitArgs → ℕ
accepted key [] = 0
accepted key (call ∷ calls) =
    let rest = accepted key calls in
    if call.key == key && prints call.payload then rest + 1 else rest

-- One row when the key was called for, and none otherwise.
abbrev pub OneRowEach : DurableTarget → Type 0
OneRowEach t = (key : Text) → count key t ≡ (if nat_beq (commit_call_count key t) 0 then 0 else 1)

-- The rows that there are stay.
abbrev pub KeepsRows : DurableTarget → DurableTarget → Type 0
KeepsRows t t' =
    (key : Text) (row : TargetCommit)
    → select_by_key key t ≡ some row
    → select_by_key key t' ≡ some row

-- What calls leave behind: `calls key` of them were for the key and have a payload that is committed.
pub record Aftermath (t : DurableTarget) (calls : Text → ℕ) (t' : DurableTarget) : Type 0 where
  pub valid : IsValid t'
  pub tally : OneRowEach t'
  pub stays : KeepsRows t t'
  pub called_for : (key : Text) → commit_call_count key t' ≡ commit_call_count key t + calls key

module _ (p : Platform) where
  abbrev pub commit_at : CommitArgs → DurableTarget → DurableTarget
  commit_at call t = (target_commit p call.key call.payload (record t { now = call.now })).1

  abbrev pub commit_all : List CommitArgs → DurableTarget → DurableTarget
  commit_all [] t = t
  commit_all (call ∷ calls) t = commit_all calls (commit_at call t)

  clocked-IsValid : (now : Time) (t : DurableTarget) → IsValid t → IsValid (record t { now = now })
  unfolding count next_id
  clocked-IsValid now t v = record { one = v.one; unused = v.unused }

  -- Another call, for a key that has its row.
  pub called_tallies :
      (key json : Text) (t : DurableTarget) (row : TargetCommit)
      → select_by_key key t ≡ some row
      → OneRowEach t
      → OneRowEach (called p key json t)
  unfolding count commit_call_count select_by_key
  called_tallies key json t row there h k =
      let one_more = count_where-append (of_call k) t.commit_calls (call_row p key json t) in
      elim (Bool-cases (key == k)) [
        | inl same ↦
            let at_k : of_key k row ≡ true = ground (
              arith,
              first_where-eq-some (of_key key) t.target_effects row there,
              ==_eq key k same,
            ) in
            let counted =
              count_where-ne-zero (of_key key) (of_key k) t.target_effects row there at_k in
            ground (arith, same, one_more, h k)
        | inr other ↦ ground (arith, other, one_more, h k)
      ]

  -- The first call for a key.
  pub added_tallies :
      (key json : Text) (t : DurableTarget)
      → select_by_key key t ≡ none
      → OneRowEach t
      → OneRowEach (added p key json t)
  unfolding count commit_call_count
  added_tallies key json t missing h k =
      let one_call = count_where-append (of_call k) t.commit_calls (call_row p key json t) in
      let one_row = count_where-append (of_key k) t.target_effects (new_row p key json t) in
      elim (Bool-cases (key == k)) [
        | inl same ↦
            let e = ==_eq key k same in
            ground (arith, same, e, one_call, one_row, h k, absent p key json t missing)
        | inr other ↦ ground (arith, other, one_call, one_row, h k)
      ]

  -- A new row is not in front of another.
  added_stays : (key json : Text) (t : DurableTarget) → KeepsRows t (added p key json t)
  unfolding select_by_key or_else
  added_stays key json t k row there =
      rw (first_where-append (of_key k) t.target_effects (new_row p key json t), there) refl

  pub row_added :
      (key json : Text) (t : DurableTarget)
      → select_by_key key t ≡ none
      → select_by_key key (added p key json t) ≡ some (new_row p key json t)
  unfolding select_by_key or_else
  row_added key json t missing =
      rw
        (
          first_where-append (of_key key) t.target_effects (new_row p key json t),
          missing,
          ==_refl key,
        )
        refl

  pub call_counts :
      (k key json : Text) (t : DurableTarget)
      → commit_call_count k (called p key json t)
        ≡ commit_call_count k t + (if key == k then 1 else 0)
  unfolding commit_call_count
  call_counts k key json t = count_where-append (of_call k) t.commit_calls (call_row p key json t)

  -- One call.
  commit_step :
      (call : CommitArgs) (t : DurableTarget)
      → IsValid t
      → OneRowEach t
      → Aftermath t (λ k. if call.key == k && prints call.payload then 1 else 0) (commit_at call t)
  unfolding select_by_key count commit_call_count
  commit_step call t v h =
      let t0 : DurableTarget = record t { now = call.now } in
      let v0 = clocked-IsValid call.now t v in
      elim (outcome p call.key call.payload t0 v0) [
        | refuses e bad done ↦
            rw (commit_at, done)
              (record {
                valid = v0;
                tally = h;
                stays = λ k row there. there;
                called_for = λ k. ground (arith, bad);
              })
        | finds json row good there done ↦
            rw (commit_at, done)
              (record {
                valid = called-IsValid p call.key json t0 v0;
                tally = called_tallies call.key json t0 row there h;
                stays = λ k x found. found;
                called_for = λ k. ground (arith, good, call_counts k call.key json t0);
              })
        | adds json good missing done ↦
            rw (commit_at, done)
              (record {
                valid = added-IsValid p call.key json t0 v0 missing;
                tally = added_tallies call.key json t0 missing h;
                stays = added_stays call.key json t0;
                called_for = λ k. ground (arith, good, call_counts k call.key json t0);
              })
      ]

  pub commit_run :
      (calls : List CommitArgs) (t : DurableTarget)
      → IsValid t
      → OneRowEach t
      → Aftermath t (λ k. accepted k calls) (commit_all calls t)
  commit_run [] t v h = record {
    valid = v;
    tally = h;
    stays = λ k row there. there;
    called_for = λ k. omega arith;
  }
  commit_run (call ∷ calls) t v h =
      let first = commit_step call t v h in
      let rest = commit_run calls (commit_at call t) first.valid first.tally in
      record {
        valid = rest.valid;
        tally = rest.tally;
        stays = λ k row there. rest.stays k row (first.stays k row there);
        called_for = λ k. ground (arith, first.called_for k, rest.called_for k);
      }

  pub created :
      (now : Time) (k : Text)
      → OneRowEach (create_schema now) × (commit_call_count k (create_schema now) ≡ 0)
  unfolding create_schema count commit_call_count count_where
  created now k = (λ key. refl, refl)

  -- From an empty database, whatever `commit` is called for: a key has one row when one of its calls
  -- had a payload with a canonical form, and none otherwise; and the calls that had one are counted.
  pub target_commits_once :
      (calls : List CommitArgs) (now : Time) (key : Text)
      → (count key (commit_all calls (create_schema now))
          ≡ (if nat_beq (accepted key calls) 0 then 0 else 1))
        × (commit_call_count key (commit_all calls (create_schema now)) ≡ accepted key calls)
  target_commits_once calls now key =
      let (empty, no_calls) = created now key in
      let run = commit_run calls (create_schema now) (create-IsValid now) empty in
      let counted : commit_call_count key (commit_all calls (create_schema now))
          ≡ accepted key calls =
        ground (arith, run.called_for key, no_calls) in
      (run.tally key ∙ ap (λ n. if nat_beq n 0 then 0 else 1) counted, counted)
