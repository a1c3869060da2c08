-- ===== src/CrashMatrix/Redispatch.antt =====
-- A dispatch of `DurableTargetAdapter` that is made again, as a worker does after a crash
-- (examples/crash_matrix/target.py).
use effect_broker.Prelude.{
  Text, text, text_eq, ◌≡◌, ◌≢◌, refl, ap, true, some, List, [], ◌∷◌, ==_ne, arith,
}
use effect_broker.Json.{Value, str}
use effect_broker.Models.{
  EffectRecord, DispatchResult, ProbeResult, committed, unsafe, safety_eq, Time,
}
use effect_broker.Errors.{Error, Result, ok, err}
use effect_broker.Exec.{◌>>=◌, pure}
use effect_broker.Platform.{Platform}
use effect_broker.Canonical.{canonical_json}
use effect_broker.Store.Rows.{object}
use effect_broker.Adapters.Simulated.{charge_id_of}
use effect_broker.CrashMatrix.{
  TargetCommit, DurableTarget, create_schema, next_id, select_by_key, target_probe, narrowed,
  adapter_probe, payload_of, target_commit, target_dispatch,
}
use effect_broker.CrashMatrix.Commits.{
  IsValid, create-IsValid, called, new_row, added, called-IsValid, added-IsValid, outcome, refuses,
  finds, adds,
}
use effect_broker.CrashMatrix.Runs.{
  CommitArgs, OneRowEach, called_tallies, added_tallies, row_added, commit_all, commit_run, created,
}

-- What a dispatch returns.
abbrev pub result_of : Text → DispatchResult
result_of id = record {
  external_id = some id;
  output = object ((text "external_id", str id) ∷ []);
  committed = true;
}

module _ (p : Platform) where
  -- A key with a row is committed again: the id of the row comes back, and no row is made.
  pub recommit_finds :
      (key : Text) (payload : Value) (json : Text) (row : TargetCommit) (t : DurableTarget)
      → IsValid t
      → canonical_json payload ≡ ok json
      → select_by_key key t ≡ some row
      → target_commit p key payload t ≡ (ok row.external_id, called p key json t)
  recommit_finds key payload json row t v good there = elim (outcome p key payload t v) [
    | refuses e bad done ↦ ground (arith, good, bad)
    | finds j x fine found done ↦ ground (arith, good, fine, there, found, done)
    | adds j fine missing done ↦ ground (arith, there, missing)
  ]

  answered : DurableTarget → Result Text × DurableTarget → Result DispatchResult × DurableTarget
  answered t m = ((λ (_ : DurableTarget). m) >>= λ id. pure (result_of id)) t

  pub dispatched :
      (effect : EffectRecord) (attempt_id : Text) (id : Text) (t t' : DurableTarget)
      → target_commit p effect.downstream_key (payload_of effect) t ≡ (ok id, t')
      → target_dispatch p effect attempt_id t ≡ (ok (result_of id), t')
  unfolding target_dispatch answered
  dispatched effect attempt_id id t t' done = ap (answered t) done

  refused :
      (effect : EffectRecord) (attempt_id : Text) (r : DispatchResult) (e : Error)
      (t : DurableTarget)
      → target_commit p effect.downstream_key (payload_of effect) t ≡ (err e, t)
      → (target_dispatch p effect attempt_id t).0 ≢ ok r
  unfolding target_dispatch answered
  refused effect attempt_id r e t done =
      let raised : target_dispatch p effect attempt_id t ≡ (err e, t) = ap (answered t) done in
      λ returned. ground (arith, raised, returned)

  -- A dispatch that returned left the row of its key with the id that it returned.
  dispatch_leaves_row :
      (effect : EffectRecord) (attempt_id : Text) (r : DispatchResult) (t : DurableTarget)
      → IsValid t
      → OneRowEach t
      → (target_dispatch p effect attempt_id t).0 ≡ ok r
      → (json : Text) × (row : TargetCommit) × (canonical_json (payload_of effect) ≡ ok json)
        × (select_by_key effect.downstream_key (target_dispatch p effect attempt_id t).1 ≡ some row)
        × (r ≡ result_of row.external_id)
        × IsValid (target_dispatch p effect attempt_id t).1
        × OneRowEach (target_dispatch p effect attempt_id t).1
  unfolding select_by_key
  dispatch_leaves_row effect attempt_id r t v h returned =
      elim (outcome p effect.downstream_key (payload_of effect) t v) [
        | refuses e bad done ↦ absurd (refused effect attempt_id r e t done returned)
        | finds json row good there done ↦
            let e =
              dispatched effect attempt_id row.external_id t (called p effect.downstream_key json t)
                done in
            rw e (
              json,
              row,
              good,
              there,
              ground (arith, returned, e),
              called-IsValid p effect.downstream_key json t v,
              called_tallies p effect.downstream_key json t row there h,
            )
        | adds json good missing done ↦
            let id = charge_id_of (next_id t) in
            let e = dispatched effect attempt_id id t (added p effect.downstream_key json t) done in
            let there = row_added p effect.downstream_key json t missing in
            rw e (
              json,
              new_row p effect.downstream_key json t,
              good,
              there,
              ground (arith, returned, e),
              added-IsValid p effect.downstream_key json t v missing,
              added_tallies p effect.downstream_key json t missing h,
            )
      ]

  finds_row :
      (effect : EffectRecord) (row : TargetCommit) (t : DurableTarget)
      → select_by_key effect.downstream_key t ≡ some row
      → target_probe effect.downstream_key t ≡ record {
        status = committed;
        external_id = some row.external_id;
        output = some (object ((text "external_id", str row.external_id) ∷ []));
        evidence = object ((text "downstream_key", str effect.downstream_key) ∷ []);
      }
  unfolding target_probe
  finds_row effect row t there = rw (target_probe, there) refl

  -- A row shows in the probe of every effect that is not unsafe.
  pub probe_shows :
      (effect : EffectRecord) (row : TargetCommit) (t : DurableTarget)
      → select_by_key effect.downstream_key t ≡ some row
      → effect.contract.safety ≢ unsafe
      → ((adapter_probe effect t).status ≡ committed)
        × ((adapter_probe effect t).external_id ≡ some row.external_id)
  unfolding adapter_probe narrowed
  probe_shows effect row t there probes =
      rw (==_ne effect.contract.safety unsafe probes, narrowed, finds_row effect row t there)
        (let e = finds_row effect row t there in
          (
            ap (λ (found : ProbeResult). found.status) e,
            ap (λ (found : ProbeResult). found.external_id) e,
          ))

  -- An effect is dispatched to a target that has been called before in any way, and the dispatch
  -- returns. Whatever the target is called for after that, dispatching the effect again, under
  -- another attempt and whatever status it then has, returns the same result and makes no row; and
  -- unless the effect is unsafe, a probe shows the commit, with the id of the result.
  pub redispatch_same_result :
      (before between : List CommitArgs) (start : Time) (effect again : EffectRecord)
      (attempt_id other_attempt_id : Text) (r : DispatchResult)
      → again.downstream_key ≡ effect.downstream_key
      → payload_of again ≡ payload_of effect
      → (target_dispatch p effect attempt_id (commit_all p before (create_schema start))).0 ≡ ok r
      → (t : DurableTarget) × (u : DurableTarget) × (commit_all p between
            (target_dispatch p effect attempt_id (commit_all p before (create_schema start))).1
          ≡ t)
        × (target_dispatch p again other_attempt_id t ≡ (ok r, u))
        × (u.target_effects ≡ t.target_effects)
        × (again.contract.safety ≢ unsafe
            → ((adapter_probe again t).status ≡ committed)
              × ((adapter_probe again t).external_id ≡ r.external_id))
  redispatch_same_result before between start effect again attempt_id other_attempt_id r same_key
        same_payload returned =
      let (empty, _) = created p start (text "") in
      let s = commit_all p before (create_schema start) in
      let first = commit_run p before (create_schema start) (create-IsValid start) empty in
      let (json, row, good, there, result, valid, each) =
        dispatch_leaves_row effect attempt_id r s first.valid first.tally returned in
      let s' = (target_dispatch p effect attempt_id s).1 in
      let rest = commit_run p between s' valid each in
      let t = commit_all p between s' in
      let found = rest.stays effect.downstream_key row there in
      let found_again : select_by_key again.downstream_key t ≡ some row = rw same_key found in
      let good_again : canonical_json (payload_of again) ≡ ok json = rw same_payload good in
      let done =
        recommit_finds again.downstream_key (payload_of again) json row t rest.valid good_again
          found_again in
      let u = called p again.downstream_key json t in
      let e = dispatched again other_attempt_id row.external_id t u done in
      (
        t,
        u,
        refl,
        rw result e,
        refl,
        λ probes. rw result (probe_shows again row t found_again probes),
      )
