-- ===== src/Store/Sqlite/Claim.antt =====
-- `claim_due` of src/effect_broker/store/sqlite.py.
use effect_broker.Prelude.{
  ◌+◌, Text, text, text_eq, text_ltb, ◌==◌, Bool, true, false, ◌||◌, Option, none, some, List, [],
  ◌∷◌, ◌++◌, if◌then◌else◌, keep_if, length,
}
use effect_broker.Prelude.Int.{ℤ, pos, ◌+ℤ◌, leb_ℤ}
use effect_broker.Json.{str}
use effect_broker.Models.{prepared, retryable, status_value, EffectRecord, Time, Duration}
use effect_broker.Errors.{Result, ok, err, unknown_effect}
use effect_broker.Exec.{Exec, ◌>>=◌, ◌>>◌, pure, lift, or_raise, modify}
use effect_broker.Platform.{Platform}
use effect_broker.Store.Rows.{object}
use effect_broker.Store.Sql.{update_where}
use effect_broker.Store.Sqlite.Tables.{in_transaction, Decoders, EffectRow, Database, of_effect}
use effect_broker.Store.Sqlite.Records.{select_by_effect_id}
use effect_broker.Store.Sqlite.Methods.{append_event, reads}

-- `ORDER BY created_at, effect_id`, on texts
unfoldable pub row_before : EffectRow → EffectRow → Bool
row_before a b =
    if text_ltb a.created_at b.created_at
    then true
    else if text_ltb b.created_at a.created_at
    then false
    else text_ltb a.effect_id b.effect_id

unfoldable pub insert_row : EffectRow → List EffectRow → List EffectRow
unfolding row_before
insert_row row [] = row ∷ []
insert_row row (x ∷ xs) =
    let rest = insert_row row xs in if row_before x row then x ∷ rest else row ∷ x ∷ xs

unfoldable pub order_rows : List EffectRow → List EffectRow
order_rows [] = []
order_rows (row ∷ rows) = insert_row row (order_rows rows)

-- `WHERE status IN (?, ?)`
abbrev pub is_waiting : EffectRow → Bool
is_waiting row = row.status == status_value prepared || row.status == status_value retryable

-- `len(claimed) >= limit`
unfoldable pub is_full : ℤ → List EffectRecord → Bool
is_full limit batch = leb_ℤ limit (pos (length batch))

module _ (p : Platform) (d : Decoders) (worker_id : Text) (now : Time) (lease_for : Duration) where
  -- No lease is held on the row at `now`.
  unfoldable pub lease_over : Option Text → Result Bool
  lease_over none = ok true
  lease_over (some lease_text) = elim (d.fromisoformat lease_text) [
    | ok until ↦ ok (leb_ℤ until now)
    | err e ↦ err e
  ]

  -- The columns that the UPDATE sets.
  unfoldable pub leased_row : EffectRow → EffectRow
  leased_row row = record row {
    worker_id = some worker_id;
    lease_worker_id = some worker_id;
    lease_until = some (p.isoformat (now +ℤ lease_for));
    version = row.version + 1;
    updated_at = p.isoformat now;
  }

  unfoldable pub lease_effect : Text → Exec Database (Unit {0})
  unfolding leased_row
  lease_effect effect_id =
      modify λ s. record s { effects = update_where (of_effect effect_id) leased_row s.effects }

  -- One round of the loop, after the tests that skip a row.
  unfoldable pub claim_one : Text → List EffectRecord → Exec Database (List EffectRecord)
  unfolding lease_effect append_event object
  claim_one effect_id batch = do
    lease_effect effect_id
    found ← reads (select_by_effect_id d effect_id)
    updated ← or_raise found (unknown_effect effect_id)
    append_event p updated.effect_id (text "claimed") updated.version
        (object (
          (text "worker_id", str worker_id)
          ∷ (text "lease_expires_at", str (p.isoformat (now +ℤ lease_for)))
          ∷ []))
        now
    pure (batch ++ updated ∷ [])

  -- Whether the lease that the row was read with is over.
  unfoldable pub claim_row : Text → List EffectRecord → Bool → Exec Database (List EffectRecord)
  claim_row effect_id batch true = claim_one effect_id batch
  claim_row effect_id batch false = pure batch

  unfoldable pub claim_loop :
      ℤ → List EffectRow → List EffectRecord → Exec Database (List EffectRecord)
  unfolding claim_row lease_over
  claim_loop limit [] batch s = (ok batch, s)
  claim_loop limit (row ∷ rows) batch s =
      let round =
        (do
          over ← lift (lease_over row.lease_until)
          batch' ← claim_row row.effect_id batch over
          claim_loop limit rows batch')
          s in
      if is_full limit batch then (ok batch, s) else round

  unfoldable pub claim_due : ℤ → Exec Database (List EffectRecord)
  unfolding order_rows
  claim_due limit s =
      if leb_ℤ limit (pos 0)
      then (ok [], s)
      else in_transaction d (λ t. claim_loop limit (order_rows (keep_if is_waiting t.effects)) [] t)
          s
