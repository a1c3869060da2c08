-- ===== src/Store/Postgres/Claim.antt =====
-- `claim_due` of src/effect_broker/store/postgres.py. The rows that other transactions have locked
-- at the moment of the query are an argument: `FOR UPDATE SKIP LOCKED` passes over them.
use effect_broker.Prelude.{
  ◌+◌, Text, text, text_eq, text_ltb, ◌==◌, Bool, true, false, ◌&&◌, ◌||◌, not, Option, none, some,
  List, [], ◌∷◌, ◌++◌, if◌then◌else◌, keep_if, take,
}
use effect_broker.Prelude.Int.{ℤ, pos, pos_part, ◌+ℤ◌, leb_ℤ, ltb_ℤ}
use effect_broker.Json.{str}
use effect_broker.Models.{prepared, retryable, status_value, EffectRecord, Time, Duration}
use effect_broker.Errors.{ok, other_exception}
use effect_broker.Exec.{Exec, ◌>>=◌, ◌>>◌, pure, lift, gets, or_raise, modify}
use effect_broker.Platform.{Platform}
use effect_broker.Store.Rows.{object}
use effect_broker.Store.Sql.{first_where, update_where, transaction}
use effect_broker.Store.Postgres.Tables.{Driver, IntentRow, Database, of_intent}
use effect_broker.Store.Postgres.Records.{row_to_record}
use effect_broker.Store.Postgres.Methods.{append_event}

-- `ORDER BY created_at, effect_id`
unfoldable pub row_before : IntentRow → IntentRow → Bool
row_before a b =
    if ltb_ℤ a.created_at b.created_at
    then true
    else if ltb_ℤ b.created_at a.created_at
    then false
    else text_ltb a.effect_id b.effect_id

unfoldable pub insert_row : IntentRow → List IntentRow → List IntentRow
unfolding row_before
insert_row row [] = row ∷ []
insert_row row (x ∷ xs) =
    let rest = insert_row row xs in if row_before x row then x ∷ rest else row ∷ x ∷ xs

unfoldable pub order_rows : List IntentRow → List IntentRow
unfolding insert_row
order_rows [] = []
order_rows (row ∷ rows) = insert_row row (order_rows rows)

-- `lease_until IS NULL OR lease_until < now`
unfoldable pub lease_over : Time → Option Time → Bool
lease_over now none = true
lease_over now (some until) = ltb_ℤ until now

-- The WHERE clause.
unfoldable pub is_due : Time → IntentRow → Bool
unfolding lease_over
is_due now row =
    (row.status == status_value prepared || row.status == status_value retryable)
    && lease_over now row.lease_until

-- The rows that the query returns and locks.
unfoldable pub due_rows : Time → ℤ → (Text → Bool) → Database → List IntentRow
unfolding is_due order_rows
due_rows now limit locked s =
    take (pos_part limit)
      (order_rows (keep_if (λ row. is_due now row && not (locked row.effect_id)) s.intents))

module _ (d : Driver) (p : Platform) (worker_id : Text) (now : Time) (lease_for : Duration) where
  -- The columns that the UPDATE sets.
  unfoldable pub leased_row : IntentRow → IntentRow
  leased_row row = record row {
    worker_id = some worker_id;
    lease_until = some (now +ℤ lease_for);
    version = row.version + 1;
    updated_at = now;
  }

  -- The UPDATE with its RETURNING; `one()` raises when there is no row.
  unfoldable pub lease_intent : Text → Exec Database IntentRow
  unfolding leased_row
  lease_intent effect_id = do
    found ← gets (λ s. first_where (of_intent effect_id) s.intents)
    row ← or_raise found (other_exception (text "NoResultFound"))
    modify λ s. record s { intents = update_where (of_intent effect_id) leased_row s.intents }
    pure (leased_row row)

  -- One round of the loop.
  unfoldable pub claim_one : Text → List EffectRecord → Exec Database (List EffectRecord)
  unfolding lease_intent append_event object
  claim_one effect_id batch = do
    updated ← lease_intent effect_id
    append_event d updated.effect_id (text "claimed") updated.version
        (object (
          (text "worker_id", str worker_id)
          ∷ (text "lease_expires_at", str (p.isoformat (now +ℤ lease_for)))
          ∷ []))
        now
    effect ← lift (row_to_record updated)
    pure (batch ++ effect ∷ [])

  unfoldable pub claim_loop : List IntentRow → List EffectRecord → Exec Database (List EffectRecord)
  claim_loop [] batch s = (ok batch, s)
  claim_loop (row ∷ rows) batch s =
      (claim_one row.effect_id batch >>= λ batch'. claim_loop rows batch') s

  unfoldable pub claim_due : ℤ → (Text → Bool) → Exec Database (List EffectRecord)
  unfolding due_rows
  claim_due limit locked s =
      if leb_ℤ limit (pos 0)
      then (ok [], s)
      else transaction (λ t. claim_loop (due_rows now limit locked t) [] t) s
