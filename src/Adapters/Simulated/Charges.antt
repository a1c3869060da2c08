-- ===== src/Adapters/Simulated/Charges.antt =====
-- How often the simulated target charges (src/effect_broker/adapters/simulated.py), for the safety
-- classes whose target honours the stable key.
use effect_broker.Prelude.{
  ℕ, ◌+◌, ◌≤◌, Text, text, text_eq, ◌≡◌, ◌≢◌, refl, ap, ◌∙◌, ◌⊎◌, inl, inr, Bool-cases, true, none,
  some, Option-cases, List, [], ◌∷◌, ◌++◌, drop, ◌==◌, ==_refl, ==_eq, ==_ne, arith,
}
use effect_broker.Prelude.Dict.{lookup, insert, lookup-insert}
use effect_broker.Prelude.Decimal.{parse_digits, parse-pad_zero}
use effect_broker.Models.{EffectRecord, Time}
use effect_broker.Errors.{ok, err, adapter_error}
use effect_broker.Store.Memory.{get_member}
use effect_broker.Adapters.Simulated.Target.{
  SimulatedCharge, SimulatedTarget, empty_target, charge_id_of, first_by_downstream_key,
  ids_for_key, first_charge, new_charge, commit_with, commit,
}

drop-charge : (s : Text) → drop 7 (text "charge_" ++ s) ≡ s
unfolding text
drop-charge s = refl

number_of_charge : (n : ℕ) → parse_digits 0 (drop 7 (charge_id_of n)) ≡ some n
unfolding charge_id_of
number_of_charge n = rw drop-charge (parse-pad_zero 6 n)

pub charge_id_of_injective : (m n : ℕ) → charge_id_of m ≡ charge_id_of n → m ≡ n
charge_id_of_injective m n h =
    cc (number_of_charge m, number_of_charge n, ap (λ (t : Text). parse_digits 0 (drop 7 t)) h)

-- The one charge of a key.
pub record Charged (t : SimulatedTarget) (key : Text) (ids : List Text) : Type 0 where
  pub charge : SimulatedCharge
  pub only : ids ≡ charge.external_id ∷ []
  pub stored : lookup charge.external_id t.charges ≡ some charge
  pub keyed : charge.downstream_key ≡ key

-- The index tells for each key its one charge and knows every charge, and the next id is unused.
pub record Deduped (t : SimulatedTarget) : Type 0 where
  pub one :
      (key : Text) (ids : List Text) → lookup key t.by_downstream_key ≡ some ids → Charged t key ids
  pub indexed :
      (id : Text) (c : SimulatedCharge)
      → lookup id t.charges ≡ some c
      → lookup c.downstream_key t.by_downstream_key ≡ some (id ∷ [])
  pub unused : (n : ℕ) → t.next_charge_id ≤ n → lookup (charge_id_of n) t.charges ≡ none

pub empty-Deduped : (now : Time) → Deduped (empty_target now)
unfolding empty_target lookup
empty-Deduped now = record { one = λ key ids h. cc; indexed = λ id c h. cc; unused = λ n h. refl }

-- What a key's charge is found to be.
pub found_first :
    (t : SimulatedTarget) (key : Text)
    → Deduped t
    → ((lookup key t.by_downstream_key ≡ none) × (first_by_downstream_key key t ≡ ok none))
      ⊎ ((ids : List Text) × (lookup key t.by_downstream_key ≡ some ids)
          × (c : Charged t key ids) × (first_by_downstream_key key t ≡ ok (some c.charge)))
unfolding first_by_downstream_key ids_for_key first_charge
found_first t key d = elim (Option-cases (lookup key t.by_downstream_key)) [
  | inl missing ↦ inl (missing, rw missing)
  | inr (ids, there) ↦
      let c = d.one key ids there in inr (ids, there, c, ground (arith, there, c.only, c.stored))
]

module _ (effect : EffectRecord) where
  abbrev pub counted : SimulatedTarget → SimulatedTarget
  counted t = record t { dispatch_count = t.dispatch_count + 1 }

  pub counted-Deduped : (t : SimulatedTarget) → Deduped t → Deduped (counted t)
  counted-Deduped t d = record {
    one = λ key ids h.
        let c = d.one key ids h in
        record { charge = c.charge; only = c.only; stored = c.stored; keyed = c.keyed };
    indexed = d.indexed;
    unused = d.unused;
  }

  -- The charge that is made, and the target with it.
  abbrev pub made : SimulatedTarget → SimulatedCharge
  made t = record {
    external_id = charge_id_of t.next_charge_id;
    downstream_key = effect.downstream_key;
    request_hash = effect.request_hash;
    amount = get_member (text "amount") effect.request.arguments;
    committed_at = t.now;
  }

  abbrev pub after : SimulatedTarget → SimulatedTarget
  after t = record t {
    next_charge_id = t.next_charge_id + 1;
    charges = insert (charge_id_of t.next_charge_id) (made t) t.charges;
    by_downstream_key =
        insert effect.downstream_key (charge_id_of t.next_charge_id ∷ []) t.by_downstream_key;
  }

  made_first :
      (t : SimulatedTarget)
      → lookup effect.downstream_key t.by_downstream_key ≡ none
      → new_charge effect t ≡ (ok (made t), after t)
  unfolding new_charge ids_for_key
  made_first t missing = rw missing

  pub kept_apart :
      (t : SimulatedTarget) (key : Text) (ids : List Text)
      → Deduped t
      → (c : Charged t key ids) → lookup c.charge.external_id (after t).charges ≡ some c.charge
  kept_apart t key ids d c =
      let other : charge_id_of t.next_charge_id ≢ c.charge.external_id =
        λ h. ground (arith, d.unused t.next_charge_id (omega arith), c.stored, h) in
      lookup-insert (charge_id_of t.next_charge_id) c.charge.external_id (made t) t.charges
      ∙ rw (==_ne _ _ other) c.stored

  stored_first :
      (t : SimulatedTarget)
      → lookup (charge_id_of t.next_charge_id) (after t).charges ≡ some (made t)
  stored_first t =
      lookup-insert (charge_id_of t.next_charge_id) (charge_id_of t.next_charge_id) (made t)
        t.charges
      ∙ rw (==_refl (charge_id_of t.next_charge_id))

  after_one :
      (t : SimulatedTarget) (key : Text) (ids : List Text)
      → Deduped t
      → lookup key (after t).by_downstream_key ≡ some ids
      → Charged (after t) key ids
  after_one t key ids d h =
      let at_key =
        lookup-insert effect.downstream_key key (charge_id_of t.next_charge_id ∷ [])
          t.by_downstream_key in
      elim (Bool-cases (effect.downstream_key == key)) [
        | inl same ↦ record {
          charge = made t;
          only = ground (arith, at_key, h, same);
          stored = stored_first t;
          keyed = ==_eq effect.downstream_key key same;
        }
        | inr other ↦
            let c = d.one key ids (ground (arith, at_key, h, other)) in
            record {
              charge = c.charge;
              only = c.only;
              stored = kept_apart t key ids d c;
              keyed = c.keyed;
            }
      ]

  after_indexed :
      (t : SimulatedTarget) (id : Text) (c : SimulatedCharge)
      → Deduped t
      → lookup effect.downstream_key t.by_downstream_key ≡ none
      → lookup id (after t).charges ≡ some c
      → lookup c.downstream_key (after t).by_downstream_key ≡ some (id ∷ [])
  after_indexed t id c d missing h =
      let at_id = lookup-insert (charge_id_of t.next_charge_id) id (made t) t.charges in
      let at_key =
        lookup-insert effect.downstream_key c.downstream_key (charge_id_of t.next_charge_id ∷ [])
          t.by_downstream_key in
      elim (Bool-cases (charge_id_of t.next_charge_id == id)) [
        | inl same ↦
            let this : made t ≡ c = ground (arith, at_id, h, same) in
            let key : effect.downstream_key ≡ c.downstream_key =
              ap (λ (x : SimulatedCharge). x.downstream_key) this in
            ground (
              arith,
              at_key,
              key,
              ==_refl effect.downstream_key,
              ==_eq (charge_id_of t.next_charge_id) id same,
            )
        | inr new ↦
            let before = d.indexed id c (ground (arith, at_id, h, new)) in
            let other : effect.downstream_key ≢ c.downstream_key =
              λ e. ground (arith, e, missing, before) in
            at_key ∙ rw (==_ne effect.downstream_key c.downstream_key other) before
      ]

  pub after-Deduped :
      (t : SimulatedTarget)
      → Deduped t
      → lookup effect.downstream_key t.by_downstream_key ≡ none
      → Deduped (after t)
  after-Deduped t d missing = record {
    one = λ key ids h. after_one t key ids d h;
    indexed = λ id c h. after_indexed t id c d missing h;
    unused = λ n above.
        lookup-insert (charge_id_of t.next_charge_id) (charge_id_of n) (made t) t.charges
        ∙ rw
            (==_ne (charge_id_of t.next_charge_id) (charge_id_of n)
              (λ h. ground (arith, charge_id_of_injective t.next_charge_id n h, above)))
            (d.unused n (omega arith));
  }

  pub first_after :
      (t : SimulatedTarget)
      → first_by_downstream_key effect.downstream_key (after t) ≡ ok (some (made t))
  unfolding first_by_downstream_key ids_for_key first_charge
  first_after t = ground (
    arith,
    lookup-insert effect.downstream_key effect.downstream_key (charge_id_of t.next_charge_id ∷ [])
        t.by_downstream_key,
    ==_refl effect.downstream_key,
    stored_first t,
  )

  -- What `commit` does with the stable key honoured: the first call charges, and every later one
  -- finds that charge and returns it, or is refused where the payload is another.
  pub data Commits (t : SimulatedTarget) : Type 0 where
    charges_first :
        lookup effect.downstream_key t.by_downstream_key ≡ none
        → commit effect true t ≡ (ok (made (counted t)), after (counted t))
        → Commits t
    finds_charge :
        (c : SimulatedCharge)
        → first_by_downstream_key effect.downstream_key t ≡ ok (some c)
        → c.request_hash ≡ effect.request_hash
        → commit effect true t ≡ (ok c, counted t)
        → Commits t
    refuses_drift :
        (c : SimulatedCharge)
        → first_by_downstream_key effect.downstream_key t ≡ ok (some c)
        → c.request_hash ≢ effect.request_hash
        → commit effect true t
          ≡ (err (adapter_error (text "target rejected payload drift for reused key")), counted t)
        → Commits t

  pub commits : (t : SimulatedTarget) → Deduped t → Commits t
  unfolding commit commit_with first_by_downstream_key
  commits t d = elim (found_first (counted t) effect.downstream_key (counted-Deduped t d)) [
    | inl (missing, none_found) ↦
        charges_first missing (ground (arith, none_found, made_first (counted t) missing))
    | inr (ids, there, c, found) ↦
        elim (Bool-cases (c.charge.request_hash == effect.request_hash)) [
          | inl same ↦
              finds_charge c.charge found (==_eq c.charge.request_hash effect.request_hash same)
                (ground (arith, found, same))
          | inr other ↦
              refuses_drift c.charge found
                (λ h. ground (arith, h, other, ==_refl effect.request_hash))
                (ground (arith, found, other))
        ]
  ]
