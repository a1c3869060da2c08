-- ===== src/CrashMatrix.antt =====
-- `DurableTarget` and `DurableTargetAdapter` of examples/crash_matrix/target.py: the target of the
-- crash matrix, which keeps its commits in a SQLite database of its own.
use effect_broker.Prelude.{
  ℕ, ◌+◌, Text, text, text_eq, ◌==◌, Bool, true, ◌&&◌, Option, none, some, List, [], ◌∷◌, ◌++◌,
  if◌then◌else◌, nat_beq,
}
use effect_broker.Json.{Value, str, mapping}
use effect_broker.Models.{
  EffectRecord, SafetyClass, idempotent, unsafe, safety_eq, safety_beq, DispatchResult, ProbeResult,
  committed, not_committed, unknown, Time,
}
use effect_broker.Errors.{ok, err}
use effect_broker.Exec.{Exec, modify, ◌>>=◌, ◌>>◌, pure, lift, gets}
use effect_broker.Platform.{Platform}
use effect_broker.Canonical.{canonical_json}
use effect_broker.Store.Rows.{object}
use effect_broker.Store.Sql.{first_where, count_where, transaction}
use effect_broker.Store.Sqlite.Tables.{integrity_error}
use effect_broker.Adapters.{EffectAdapter}
use effect_broker.Adapters.Simulated.{charge_id_of}
pub mod Held
pub mod Recovery
pub mod Commits
pub mod Redispatch
pub mod Runs

-- A row of `target_effects`, which is also what `TargetCommit` holds.
pub record TargetCommit : Type 0 where
  pub external_id : Text
  pub downstream_key : Text
  pub payload_json : Text
  pub committed_at : Text

pub record CommitCall : Type 0 where
  pub call_id : ℕ
  pub downstream_key : Text
  pub payload_json : Text
  pub called_at : Text

-- The two tables, and the clock.
pub record DurableTarget : Type 0 where
  pub target_effects : List TargetCommit
  pub commit_calls : List CommitCall
  pub now : Time

-- `_create_schema` in a new file
unfoldable pub create_schema : Time → DurableTarget
create_schema now = record { target_effects = []; commit_calls = []; now = now }

-- `WHERE downstream_key = ?`
abbrev pub of_key : Text → TargetCommit → Bool
of_key key row = row.downstream_key == key

abbrev pub of_call : Text → CommitCall → Bool
of_call key row = row.downstream_key == key

abbrev pub of_id : Text → TargetCommit → Bool
of_id external_id row = row.external_id == external_id

-- `_next_id`
unfoldable pub next_id : DurableTarget → ℕ
next_id t = count_where (λ _. true) t.target_effects + 1

-- `call_id INTEGER PRIMARY KEY AUTOINCREMENT`; no row is ever deleted.
unfoldable pub insert_call : Text → Text → Text → Exec DurableTarget (Unit {0})
insert_call key payload_json called_at = modify λ t. record t {
  commit_calls =
      t.commit_calls
      ++ record {
        call_id = count_where (λ _. true) t.commit_calls + 1;
        downstream_key = key;
        payload_json = payload_json;
        called_at = called_at;
      }
        ∷ [];
}

-- `external_id TEXT PRIMARY KEY`, `downstream_key TEXT NOT NULL UNIQUE`
unfoldable pub insert_target_effect : TargetCommit → Exec DurableTarget (Unit {0})
insert_target_effect row t =
    if nat_beq (count_where (of_id row.external_id) t.target_effects) 0
      && nat_beq (count_where (of_key row.downstream_key) t.target_effects) 0
    then (ok tt, record t { target_effects = t.target_effects ++ row ∷ [] })
    else (err integrity_error, t)

-- `count`
unfoldable pub count : Text → DurableTarget → ℕ
count downstream_key t = count_where (of_key downstream_key) t.target_effects

unfoldable pub commit_call_count : Text → DurableTarget → ℕ
commit_call_count downstream_key t = count_where (of_call downstream_key) t.commit_calls

-- What the SELECT of `commit` and of `probe` finds.
unfoldable pub select_by_key : Text → DurableTarget → Option TargetCommit
select_by_key downstream_key t = first_where (of_key downstream_key) t.target_effects

-- The rest of `commit` after its SELECT.
unfoldable pub commit_row : Text → Text → Text → Option TargetCommit → Exec DurableTarget Text
commit_row downstream_key payload_json now (some row) = pure row.external_id
commit_row downstream_key payload_json now none = do
  number ← gets next_id
  insert_target_effect (record {
    external_id = charge_id_of number;
    downstream_key = downstream_key;
    payload_json = payload_json;
    committed_at = now;
  })
  pure (charge_id_of number)

-- What `commit` does between BEGIN and COMMIT.
unfoldable pub commit_body : Text → Text → Text → Exec DurableTarget Text
commit_body downstream_key payload_json now = do
  insert_call downstream_key payload_json now
  row ← gets (select_by_key downstream_key)
  commit_row downstream_key payload_json now row

unfoldable pub target_probe : Text → DurableTarget → ProbeResult
target_probe downstream_key t = elim (select_by_key downstream_key t) [
  | none ↦ record {
    status = not_committed;
    external_id = none;
    output = none;
    evidence = object ((text "downstream_key", str downstream_key) ∷ []);
  }
  | some row ↦ record {
    status = committed;
    external_id = some row.external_id;
    output = some (object ((text "external_id", str row.external_id) ∷ []));
    evidence = object ((text "downstream_key", str downstream_key) ∷ []);
  }
]

-- An answer that leaves the verdict open.
abbrev pub open_verdict : Text → ProbeResult
open_verdict reason = record {
  status = unknown;
  external_id = none;
  output = none;
  evidence = object ((text "reason", str reason) ∷ []);
}

-- An idempotent effect without a commit is dispatched again, so its probe proves nothing.
unfoldable pub narrowed : SafetyClass → ProbeResult → ProbeResult
unfolding safety_beq
narrowed safety found = elim found.status [
  | not_committed ↦
      if safety == idempotent
      then open_verdict (text "idempotent recovery redispatches by key")
      else found
  | committed ↦ found
  | unknown ↦ found
]

-- `DurableTargetAdapter.probe`
unfoldable pub adapter_probe : EffectRecord → DurableTarget → ProbeResult
unfolding safety_beq narrowed
adapter_probe effect t =
    if effect.contract.safety == unsafe
    then open_verdict (text "unsafe target has no authoritative lookup")
    else narrowed effect.contract.safety (target_probe effect.downstream_key t)

-- The payload that `DurableTargetAdapter.dispatch` commits.
unfoldable pub payload_of : EffectRecord → Value
payload_of effect = mapping (
    object (
      (text "request_hash", str effect.request_hash)
      ∷ (text "arguments", mapping effect.request.arguments)
      ∷ []))

module _ (p : Platform) where
  unfoldable pub target_commit : Text → Value → Exec DurableTarget Text
  target_commit downstream_key payload = do
    now ← gets λ t. p.isoformat t.now
    payload_json ← lift (canonical_json payload)
    transaction (commit_body downstream_key payload_json now)

  unfoldable pub target_dispatch : EffectRecord → Text → Exec DurableTarget DispatchResult
  target_dispatch effect attempt_id = do
    external_id ← target_commit effect.downstream_key (payload_of effect)
    pure (record {
      external_id = some external_id;
      output = object ((text "external_id", str external_id) ∷ []);
      committed = true;
    })

  unfoldable pub durable_adapter : EffectAdapter DurableTarget
  durable_adapter = record {
    dispatch = target_dispatch;
    probe = λ effect t. (ok (adapter_probe effect t), t);
  }
