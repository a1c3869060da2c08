-- ===== src/Store/Sqlite/Agrees.antt =====
-- `SqliteStore` against `InMemoryStore` (src/effect_broker/store/sqlite.py and memory.py): from
-- states that store the same effects and count the same attempts, the two answer alike.
use effect_broker.Prelude.{
  ℕ, ◌+◌, Text, text_eq, ◌==◌, ◌≡◌, refl, sym, ap, ◌∙◌, Option, none, some, if◌then◌else◌, nat_beq,
  nat_beq_iff, arith, Bool-cases, inl, inr, ==_eq,
}
use effect_broker.Prelude.Dict.{lookup}
use effect_broker.Json.{mapping, JsonObject}
use effect_broker.Models.{EffectRecord, EffectStatus, Time}
use effect_broker.Errors.{ok}
use effect_broker.Platform.{Platform}
use effect_broker.Canonical.{canonical_json}
use effect_broker.Canonical.Validation.{Reproducible, ReproducibleEntries, canonical_json_total}
use effect_broker.StateMachine.{is_allowed, assert_transition}
use effect_broker.Store.Rows.{object}
use effect_broker.Store.Memory
use effect_broker.Store.Memory.{MemoryStore}
use effect_broker.Store.Memory.Invariant
use effect_broker.Store.Memory.Steps.{
  start_attempt_missing, start_attempt_stale, transition_missing, transition_stale,
  transition_forbidden,
}
use effect_broker.Store.Memory.Conforms.{memory_store, memory-StoreLaws}
use effect_broker.Store.Sqlite.Tables.{Decoders, Database}
use effect_broker.Store.Sqlite.Records.{select_by_effect_id}
use effect_broker.Store.Sqlite.Methods
use effect_broker.Store.Sqlite.Reads
use effect_broker.Store.Sqlite.RoundTrip.{Faithful}
use effect_broker.Store.Sqlite.Invariant.{IsValid}
use effect_broker.Store.Sqlite.Transition.{
  transition_decides, transition_outcome, transition_payload, stored_after,
}
use effect_broker.Store.Sqlite.Visible.{get-visible_to}
use effect_broker.Store.Sqlite.Attempt.{start_attempt_decides, attempt_outcome, counted_after}

-- The two hold the same effects and as many attempts of each.
pub record Agree (d : Decoders) (m : MemoryStore) (s : Database) : Type 0 where
  pub effects : (j : Text) → select_by_effect_id d j s ≡ ok (lookup j m.records)
  pub attempts : (j : Text) → Reads.attempt_count j s ≡ Memory.attempt_count j m

payload_encodes :
    (r : EffectRecord) (target : EffectStatus) (metadata : JsonObject)
    → ReproducibleEntries metadata
    → (t : Text) × (canonical_json (mapping (transition_payload r target metadata)) ≡ ok t)
unfolding object Reproducible
payload_encodes r target metadata plain =
    (canonical_json_total (mapping (transition_payload r target metadata))).1
      (tt, tt, (tt, tt, (tt, plain, tt)))

one_more :
    (f : Text → ℕ) (id j : Text)
    → (if id == j then f id + 1 else f j) ≡ (if id == j then f j + 1 else f j)
one_more f id j = elim (Bool-cases (id == j)) [
  | inl same ↦ rw same (ap (λ i. f i + 1) (==_eq id j same))
  | inr other ↦ rw other
]

module _ (p : Platform) (tenant_key : Text → Text) (m : MemoryStore)
    (memory_valid : Invariant.IsValid p tenant_key m) where
  -- The start of an attempt in memory is the same decision.
  memory_starts :
      (id : Text) (v : ℕ) (worker : Text) (now : Time) (o : Option EffectRecord)
      → lookup id m.records ≡ o
      → (m' : MemoryStore) × (Memory.start_attempt id v worker now m
          ≡ (attempt_outcome id v (Memory.attempt_count id m + 1) o, m'))
        × ((j : Text) → lookup j m'.records ≡ lookup j m.records)
        × ((j : Text)
            → Memory.attempt_count j m'
              ≡ counted_after id j
                  (attempt_outcome id v (Memory.attempt_count id m + 1) o)
                  (Memory.attempt_count j m))
  unfolding attempt_outcome memory_store
  memory_starts id v worker now none h =
      (m, start_attempt_missing id v worker now m h, λ j. refl, λ j. refl)
  memory_starts id v worker now (some r) h = elim (Bool-cases (nat_beq r.version v)) [
    | inl same ↦
        let (m', ran, _, effects, counts) =
          (memory-StoreLaws p tenant_key).start_allowed id v worker now m r memory_valid h
            ((nat_beq_iff r.version v).0 same) in
        (
          m',
          rw same ran,
          effects,
          rw same (λ j. counts j ∙ one_more (λ i. Memory.attempt_count i m) id j),
        )
    | inr other ↦ (
      m,
      rw other (start_attempt_stale id v worker now m r h (ground arith)),
      λ j. refl,
      λ j. rw other,
    )
  ]

  -- A transition in memory is the same decision, when the metadata has a canonical form.
  memory_moves :
      (id : Text) (v : ℕ) (target : EffectStatus) (metadata : JsonObject) (now : Time)
      (o : Option EffectRecord)
      → ReproducibleEntries metadata
      → lookup id m.records ≡ o
      → (m' : MemoryStore) × (Memory.transition id v target metadata now m
          ≡ (transition_outcome id v target metadata now o, m'))
        × ((j : Text)
            → ok (lookup j m'.records)
              ≡ stored_after id j
                  (transition_outcome id v target metadata now o)
                  (ok (lookup j m.records)))
        × ((j : Text) → Memory.attempt_count j m' ≡ Memory.attempt_count j m)
  unfolding transition_outcome assert_transition memory_store
  memory_moves id v target metadata now none plain h =
      (m, transition_missing id v target metadata now m h, λ j. refl, λ j. refl)
  memory_moves id v target metadata now (some r) plain h =
      let (t, encoded) = payload_encodes r target metadata plain in
      elim (Bool-cases (nat_beq r.version v)) [
        | inr other ↦ (
          m,
          rw other (transition_stale id v target metadata now m r h (ground arith)),
          λ j. rw other,
          λ j. refl,
        )
        | inl same ↦ elim (Bool-cases (is_allowed r.status target)) [
          | inr no_edge ↦ (
            m,
            rw (same, no_edge)
                (transition_forbidden id v target metadata now m r h
                  ((nat_beq_iff r.version v).0 same) no_edge),
            λ j. rw (same, no_edge),
            λ j. refl,
          )
          | inl edge ↦
              let (m', ran, _, effects, counts) =
                (memory-StoreLaws p tenant_key).transition_allowed id v target metadata now m r
                  memory_valid h ((nat_beq_iff r.version v).0 same) edge in
              (
                m',
                rw (same, edge, encoded) ran,
                λ j. rw (same, edge, encoded) (ground (arith, effects j)),
                counts,
              )
        ]
      ]

module _ (p : Platform) (d : Decoders) (faithful : Faithful p d) (tenant_key : Text → Text)
    (m : MemoryStore) (s : Database) (memory_valid : Invariant.IsValid p tenant_key m)
    (valid : IsValid d s) (agree : Agree d m s) where
  gets_alike : (tenant id : Text) → Reads.get d tenant id s ≡ ok (Memory.get tenant id m)
  gets_alike tenant id =
      unfold Memory.get in
      get-visible_to d tenant id s (lookup id m.records) valid (agree.effects id)

  starts_alike :
      (id : Text) (v : ℕ) (worker : Text) (now : Time)
      → ((Methods.start_attempt p d id v worker now s).0
          ≡ (Memory.start_attempt id v worker now m).0)
        × Agree d
            (Memory.start_attempt id v worker now m).1
            (Methods.start_attempt p d id v worker now s).1
  starts_alike id v worker now =
      let o = lookup id m.records in
      let (s', b) =
        start_attempt_decides p d id v worker now s faithful.commits valid o (agree.effects id) in
      let (m', ran, effects, counts) =
        memory_starts p tenant_key m memory_valid id v worker now o refl in
      rw (b.returns, ran)
        (
          rw (agree.attempts id),
          record {
            effects =
                λ j. unfold select_by_effect_id in rw (b.effects_kept, effects j) (agree.effects j);
            attempts = λ j. b.counts j ∙ rw (agree.attempts id, agree.attempts j) (sym (counts j));
          },
        )

  moves_alike :
      (id : Text) (v : ℕ) (target : EffectStatus) (metadata : JsonObject) (now : Time)
      → ReproducibleEntries metadata
      → ((Methods.transition p d id v target metadata now s).0
          ≡ (Memory.transition id v target metadata now m).0)
        × Agree d
            (Memory.transition id v target metadata now m).1
            (Methods.transition p d id v target metadata now s).1
  moves_alike id v target metadata now plain =
      let o = lookup id m.records in
      let (s', b) =
        transition_decides p d faithful id v target metadata now s valid o (agree.effects id) in
      let (m', ran, effects, counts) =
        memory_moves p tenant_key m memory_valid id v target metadata now o plain refl in
      rw (b.returns, ran)
        (
          refl,
          record {
            effects = λ j. b.stores j ∙ rw (agree.effects j) (sym (effects j));
            attempts = λ j. b.attempts_kept j ∙ agree.attempts j ∙ sym (counts j);
          },
        )

  -- From states that hold the same effects and as many attempts of each, the SQLite store and the
  -- in-memory store answer every `get`, every start of an attempt and every transition alike, with
  -- the same value or the same error, and hold the same afterwards. For a transition the metadata
  -- has to have a canonical form: the in-memory store does not ask for one.
  -- Times are read back as they were written, and every COMMIT succeeds (Faithful).
  pub stores_answer_alike :
      (tenant id : Text) (v : ℕ) (worker : Text) (target : EffectStatus) (metadata : JsonObject)
      (now : Time)
      → ReproducibleEntries metadata
      → (Reads.get d tenant id s ≡ ok (Memory.get tenant id m))
        × (((Methods.start_attempt p d id v worker now s).0
              ≡ (Memory.start_attempt id v worker now m).0)
            × Agree d
                (Memory.start_attempt id v worker now m).1
                (Methods.start_attempt p d id v worker now s).1)
        × (((Methods.transition p d id v target metadata now s).0
              ≡ (Memory.transition id v target metadata now m).0)
            × Agree d
                (Memory.transition id v target metadata now m).1
                (Methods.transition p d id v target metadata now s).1)
  stores_answer_alike tenant id v worker target metadata now plain = (
    gets_alike tenant id,
    starts_alike id v worker now,
    moves_alike id v target metadata now plain,
  )
