-- ===== src/Adapters/Simulated/Once.antt =====
-- Redispatch against the simulated target (src/effect_broker/adapters/simulated.py).
use effect_broker.Prelude.{
  ◌≤◌, Text, text, text_eq, ◌≡◌, ◌≢◌, refl, ◌∙◌, inl, inr, Bool-cases, Bool, true, none, some, List,
  [], ◌∷◌, length, ==_ne, arith, All,
}
use effect_broker.Prelude.Dict.{lookup, lookup-insert}
use effect_broker.Models.{EffectRecord, safety_eq, Time}
use effect_broker.Errors.{Result, ok, err, adapter_error}
use effect_broker.Exec.{◌>>=◌}
use effect_broker.Adapters.Simulated.{
  SimulatedCharge, SimulatedTarget, empty_target, first_by_downstream_key, charges_for_key, commit,
  dedupes, dispatch, lose_next_response, set_now,
}
use effect_broker.Adapters.Simulated.Target.{
  charge_id_of, charges_of_ids, ids_for_key, first_charge, answer,
}
use effect_broker.Adapters.Simulated.Charges.{
  Deduped, empty-Deduped, found_first, kept_apart, counted, counted-Deduped, after, after-Deduped,
  charges_first, finds_charge, refuses_drift, commits,
}

-- What happens to a target: a dispatch for an effect and under an attempt's id, the answer after
-- the next commit being lost, a change of the clock.
pub data TargetCall : Type 0 where
  dispatches : EffectRecord → Text → TargetCall
  loses_next_response : TargetCall
  sets_now : Time → TargetCall

abbrev pub run_call : TargetCall → SimulatedTarget → SimulatedTarget
run_call (dispatches effect attempt_id) t = (dispatch effect attempt_id t).1
run_call loses_next_response t = lose_next_response t
run_call (sets_now now) t = set_now now t

abbrev pub run_calls : List TargetCall → SimulatedTarget → SimulatedTarget
run_calls [] t = t
run_calls (call ∷ calls) t = run_calls calls (run_call call t)

-- What is dispatched is of a class whose target honours the stable key.
abbrev pub IsDeduping : TargetCall → Type 0
IsDeduping (dispatches effect attempt_id) = dedupes effect.contract.safety ≡ true
IsDeduping loses_next_response = Unit
IsDeduping (sets_now now) = Unit

abbrev pub Deduping : List TargetCall → Type 0
Deduping calls = All IsDeduping calls

-- The charge of a key, where it has one.
abbrev pub HasCharge : Text → SimulatedCharge → SimulatedTarget → Type 0
HasCharge key c t = first_by_downstream_key key t ≡ ok (some c)

charges_at_most_one :
    (t : SimulatedTarget) (key : Text)
    → Deduped t
    → (cs : List SimulatedCharge) × (charges_for_key key t ≡ ok cs) × (length cs ≤ 1)
unfolding charges_for_key charges_of_ids ids_for_key
charges_at_most_one t key d = elim (found_first t key d) [
  | inl (missing, _) ↦ ([], rw missing, omega arith)
  | inr (ids, there, c, _) ↦ (c.charge ∷ [], ground (arith, there, c.only, c.stored), omega arith)
]

-- The answer to a call touches no charge.
answer_step :
    (c : SimulatedCharge) (t : SimulatedTarget)
    → Deduped t
    → Deduped (answer c t).1
      × ((key : Text) → first_by_downstream_key key (answer c t).1 ≡ first_by_downstream_key key t)
unfolding answer first_by_downstream_key
answer_step c t d = elim (Bool-cases t.lose_next_response_after_commit) [
  | inl lost ↦ simp lost (
    record {
      one = λ key ids h.
          let x = d.one key ids h in
          record { charge = x.charge; only = x.only; stored = x.stored; keyed = x.keyed };
      indexed = d.indexed;
      unused = d.unused;
    },
    λ key. refl,
  )
  | inr kept ↦ simp kept (d, λ key. refl)
]

module _ (effect : EffectRecord) where
  -- A new charge for a key that has none leaves the charges of the others.
  kept_first :
      (t : SimulatedTarget) (key : Text) (c : SimulatedCharge)
      → Deduped t
      → lookup effect.downstream_key t.by_downstream_key ≡ none
      → HasCharge key c t
      → HasCharge key c (after effect t)
  unfolding first_by_downstream_key ids_for_key first_charge
  kept_first t key c d missing h = elim (found_first t key d) [
    | inl (_, none_found) ↦ ground (arith, h, none_found)
    | inr (ids, there, x, found) ↦
        let kept = kept_apart effect t key ids d x in
        let other : effect.downstream_key ≢ key = λ e. ground (arith, e, missing, there) in
        ground (
          arith,
          lookup-insert effect.downstream_key key (charge_id_of t.next_charge_id ∷ [])
              t.by_downstream_key,
          ==_ne effect.downstream_key key other,
          there,
          x.only,
          kept,
          found,
          h,
        )
  ]

  same_first :
      (t : SimulatedTarget) (key : Text) (c : SimulatedCharge)
      → HasCharge key c t
      → HasCharge key c (counted effect t)
  unfolding first_by_downstream_key
  same_first t key c h = h

  -- One call of `commit` keeps the charges deduplicated, and the charges that there are.
  commit_step :
      (t : SimulatedTarget)
      → Deduped t
      → Deduped (commit effect true t).1
        × ((key : Text) (c : SimulatedCharge)
            → HasCharge key c t
            → HasCharge key c (commit effect true t).1)
  commit_step t d = elim (commits effect t d) [
    | charges_first missing e ↦
        let d' = counted-Deduped effect t d in
        rw e (
          after-Deduped effect (counted effect t) d' missing,
          λ key c h. kept_first (counted effect t) key c d' missing (same_first t key c h),
        )
    | finds_charge c found same e ↦
        rw e (counted-Deduped effect t d, λ key c h. same_first t key c h)
    | refuses_drift c found other e ↦
        rw e (counted-Deduped effect t d, λ key c h. same_first t key c h)
  ]

  after_commit :
      (x : Result SimulatedCharge × SimulatedTarget)
      → Deduped x.1
      → Deduped (((λ (_ : SimulatedTarget). x) >>= answer) x.1).1
        × ((key : Text)
            → first_by_downstream_key key (((λ (_ : SimulatedTarget). x) >>= answer) x.1).1
              ≡ first_by_downstream_key key x.1)
  after_commit (ok c, t) d = answer_step c t d
  after_commit (err e, t) d = (d, λ key. refl)

  -- One dispatch keeps them too.
  dispatch_step :
      (attempt_id : Text) (t : SimulatedTarget)
      → dedupes effect.contract.safety ≡ true
      → Deduped t
      → Deduped (dispatch effect attempt_id t).1
        × ((key : Text) (c : SimulatedCharge)
            → HasCharge key c t
            → HasCharge key c (dispatch effect attempt_id t).1)
  unfolding dispatch
  dispatch_step attempt_id t honours d =
      let (d1, keeps1) = commit_step t d in
      let (d2, same2) = after_commit (commit effect true t) d1 in
      rw honours (d2, λ key c h. same2 key ∙ keeps1 key c h)

not_missing :
    (t : SimulatedTarget) (key : Text) (c : SimulatedCharge)
    → lookup key t.by_downstream_key ≡ none
    → HasCharge key c t
    → ⊥
unfolding first_by_downstream_key ids_for_key first_charge
not_missing t key c missing h = ground (arith, missing, h)

-- The same charges under other switches.
switched_step :
    (lose : Bool) (now : Time) (t : SimulatedTarget)
    → Deduped t
    → Deduped (record t { lose_next_response_after_commit = lose; now = now })
switched_step lose now t d = record {
  one = λ key ids h.
      let x = d.one key ids h in
      record { charge = x.charge; only = x.only; stored = x.stored; keyed = x.keyed };
  indexed = d.indexed;
  unused = d.unused;
}

call_step :
    (call : TargetCall) (t : SimulatedTarget)
    → IsDeduping call
    → Deduped t
    → Deduped (run_call call t)
      × ((key : Text) (c : SimulatedCharge) → HasCharge key c t → HasCharge key c (run_call call t))
unfolding lose_next_response set_now first_by_downstream_key
call_step (dispatches effect attempt_id) t honours d = dispatch_step effect attempt_id t honours d
call_step loses_next_response t _ d = (switched_step true t.now t d, λ key c h. h)
call_step (sets_now now) t _ d =
    (switched_step t.lose_next_response_after_commit now t d, λ key c h. h)

-- Dispatches keep both, in any number and order, and with any answers lost on the way.
run_calls_step :
    (calls : List TargetCall) (t : SimulatedTarget)
    → Deduping calls
    → Deduped t
    → Deduped (run_calls calls t)
      × ((key : Text) (c : SimulatedCharge)
          → HasCharge key c t
          → HasCharge key c (run_calls calls t))
run_calls_step [] t honours d = (d, λ key c h. h)
run_calls_step (call ∷ calls) t honours d =
    let (d1, keeps1) = call_step call t honours.0 d in
    let (d2, keeps2) = run_calls_step calls (run_call call t) honours.1 d1 in
    (d2, λ key c h. keeps2 key c (keeps1 key c h))

-- Two charges for one key are the same charge.
same_charge :
    (t : SimulatedTarget) (i j : Text) (a b : SimulatedCharge)
    → Deduped t
    → lookup i t.charges ≡ some a
    → lookup j t.charges ≡ some b
    → a.downstream_key ≡ b.downstream_key
    → i ≡ j
same_charge t i j a b d at_i at_j same =
    let first = d.indexed i a at_i in let second = d.indexed j b at_j in cc (first, second, same)

-- However often effects of the deduplicating classes are dispatched to a target that started empty,
-- with its clock set and the answer to the next commit lost at any points in between, no two of its
-- charges have one key, and `charges_for_key` tells the at most one charge of a key.
pub redispatch_charges_once :
    (calls : List TargetCall) (now : Time)
    → Deduping calls
    → ((i j : Text) (a b : SimulatedCharge)
        → lookup i (run_calls calls (empty_target now)).charges ≡ some a
        → lookup j (run_calls calls (empty_target now)).charges ≡ some b
        → a.downstream_key ≡ b.downstream_key
        → i ≡ j)
      × ((key : Text)
          → (cs : List SimulatedCharge) × (charges_for_key key (run_calls calls (empty_target now))
              ≡ ok cs)
            × (length cs ≤ 1))
redispatch_charges_once calls now honours =
    let t = run_calls calls (empty_target now) in
    let d = (run_calls_step calls (empty_target now) honours (empty-Deduped now)).0 in
    (λ i j a b. same_charge t i j a b d, λ key. charges_at_most_one t key d)

-- Once an effect of such a class is charged, a later `commit` for it returns that same charge and
-- makes none, whatever was dispatched in between; with another payload it is refused.
pub redispatch_finds_first_charge :
    (calls : List TargetCall) (t : SimulatedTarget) (effect : EffectRecord) (c : SimulatedCharge)
    → Deduping calls
    → Deduped t
    → HasCharge effect.downstream_key c t
    → (c.request_hash ≡ effect.request_hash
        → commit effect true (run_calls calls t) ≡ (ok c, counted effect (run_calls calls t)))
      × (c.request_hash ≢ effect.request_hash
          → (m : Text) × (commit effect true (run_calls calls t)
              ≡ (err (adapter_error m), counted effect (run_calls calls t))))
redispatch_finds_first_charge calls t effect c honours d h =
    let (d', keeps) = run_calls_step calls t honours d in
    let there = keeps effect.downstream_key c h in
    elim (commits effect (run_calls calls t) d') [
      | charges_first missing _ ↦
          absurd (not_missing (run_calls calls t) effect.downstream_key c missing there)
      | finds_charge x found same e ↦
          (λ _. ground (arith, found, there, e), λ other. ground (arith, found, there, same, other))
      | refuses_drift x found other e ↦ (
        λ same. ground (arith, found, there, same, other),
        λ _. (text "target rejected payload drift for reused key", e),
      )
    ]
