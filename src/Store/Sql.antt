-- ===== src/Store/Sql.antt =====
-- The SQL statements of src/effect_broker/store/sqlite.py and postgres.py over the rows of one table:
-- a query for one row, a count, and an update, each with its WHERE clause as a test; and
-- transactions.
use effect_broker.Prelude.{
  ℕ, suc, ◌+◌, ◌≤◌, ◌&&◌, All-map, Bool-cases, inl, inr, ◌≡◌, ◌≢◌, refl, Bool, true, false, Option,
  none, some, List, [], ◌∷◌, ◌++◌, if◌then◌else◌, arith, All,
}
use mathlib.Core.Option
use mathlib.Core.Option.{or_else}
use effect_broker.Errors.{Result, ok, err}
use effect_broker.Exec.{Exec}

-- What an exception leaves behind in a transaction is rolled back.
unfoldable pub settle : {S A : Type 0} → S → Result A × S → Result A × S
settle before (ok a, after) = (ok a, after)
settle before (err e, after) = (err e, before)

-- A transaction whose COMMIT succeeds, and whose body is rolled back where it raises: those of
-- postgres.py and of examples/crash_matrix/target.py.
unfoldable pub transaction : {S A : Type 0} → Exec S A → Exec S A
unfolding settle
transaction body s = settle s (body s)

module _ {ℓ} {R : Type ℓ} where
  -- `SELECT * FROM … WHERE …` and `fetchone`
  unfoldable pub first_where : (R → Bool) → List R → Option R
  first_where test [] = none
  first_where test (x ∷ xs) = if test x then some x else first_where test xs

  -- `SELECT COUNT(*) FROM … WHERE …`
  unfoldable pub count_where : (R → Bool) → List R → ℕ
  count_where test [] = 0
  count_where test (x ∷ xs) = let rest = count_where test xs in if test x then suc rest else rest

  -- `UPDATE … SET … WHERE …`
  unfoldable pub update_where : (R → Bool) → (R → R) → List R → List R
  update_where test set [] = []
  update_where test set (x ∷ xs) = (if test x then set x else x) ∷ update_where test set xs

  pub first_where-eq-some :
      (test : R → Bool) (xs : List R) (x : R) → first_where test xs ≡ some x → test x ≡ true
  unfolding first_where
  first_where-eq-some test [] x h = cc
  first_where-eq-some test (y ∷ xs) x h = ground (arith, first_where-eq-some test xs x)

  pub first_where-append :
      (test : R → Bool) (xs : List R) (x : R)
      → first_where test (xs ++ x ∷ [])
        ≡ or_else (first_where test xs) (if test x then some x else none)
  unfolding first_where or_else
  first_where-append test [] x = refl
  first_where-append test (y ∷ xs) x = ground (arith, first_where-append test xs x)

  -- An update that does not touch the columns of a query's test is seen by the query row by row.
  pub first_where-update_where :
      (test where_test : R → Bool) (set : R → R) (xs : List R)
      → ((x : R) → test (set x) ≡ test x)
      → first_where test (update_where where_test set xs)
        ≡ Option.map (λ x. if where_test x then set x else x) (first_where test xs)
  unfolding first_where update_where
  first_where-update_where test where_test set [] same = refl
  first_where-update_where test where_test set (x ∷ xs) same =
      ground (arith, first_where-update_where test where_test set xs same, same x)

  pub count_where-append :
      (test : R → Bool) (xs : List R) (x : R)
      → count_where test (xs ++ x ∷ []) ≡ count_where test xs + (if test x then 1 else 0)
  unfolding count_where
  count_where-append test [] x = ground arith
  count_where-append test (y ∷ xs) x = ground (arith, count_where-append test xs x)

  -- No row passes.
  pub count_where-eq-zero :
      (test : R → Bool) (xs : List R) → All (λ x. test x ≡ false) xs → count_where test xs ≡ 0
  unfolding count_where
  count_where-eq-zero test [] h = refl
  count_where-eq-zero test (x ∷ xs) h = rw (count_where-eq-zero test xs h.1, h.0)

  pub All-count_where :
      (test : R → Bool) (xs : List R) → count_where test xs ≡ 0 → All (λ x. test x ≡ false) xs
  unfolding count_where
  All-count_where test [] h = tt
  All-count_where test (x ∷ xs) h = ground (arith, All-count_where test xs)

  -- A row that a query finds counts.
  pub count_where-ne-zero :
      (test where_test : R → Bool) (xs : List R) (x : R)
      → first_where test xs ≡ some x
      → where_test x ≡ true
      → count_where where_test xs ≢ 0
  unfolding first_where count_where
  count_where-ne-zero test where_test [] x h t = cc
  count_where-ne-zero test where_test (y ∷ xs) x h t =
      ground (arith, count_where-ne-zero test where_test xs x)

  pub first_where-eq-none :
      (test : R → Bool) (xs : List R) → first_where test xs ≡ none → All (λ x. test x ≡ false) xs
  unfolding first_where
  first_where-eq-none test [] h = tt
  first_where-eq-none test (x ∷ xs) h = ground (arith, first_where-eq-none test xs)

  pub first_where-none :
      (test : R → Bool) (xs : List R) → All (λ x. test x ≡ false) xs → first_where test xs ≡ none
  unfolding first_where
  first_where-none test [] h = refl
  first_where-none test (x ∷ xs) h = rw h.0 (first_where-none test xs h.1)

  -- Where at most one row passes the first test, a query for both tests looks at this row alone.
  pub first_where-both :
      (test other : R → Bool) (xs : List R) (x : R)
      → count_where test xs ≤ 1
      → first_where test xs ≡ some x
      → first_where (λ y. test y && other y) xs ≡ (if other x then some x else none)
  unfolding first_where count_where
  first_where-both test other [] x one h = cc
  first_where-both test other (y ∷ xs) x one h = elim (Bool-cases (test y)) [
    | inl passes ↦
        let none_left : count_where test xs ≡ 0 = ground (arith, one, passes) in
        let this : y ≡ x = ground (arith, h, passes) in
        ground (
          arith,
          passes,
          this,
          first_where-none (λ z. test z && other z) xs
              (All-map (λ z. test z ≡ false) (λ z. (test z && other z) ≡ false) xs
                (λ z fails. rw fails) (All-count_where test xs none_left)),
        )
    | inr fails ↦ ground (arith, fails, first_where-both test other xs x)
  ]

  pub count_where-update_where :
      (test where_test : R → Bool) (set : R → R) (xs : List R)
      → ((x : R) → test (set x) ≡ test x)
      → count_where test (update_where where_test set xs) ≡ count_where test xs
  unfolding count_where update_where
  count_where-update_where test where_test set [] same = refl
  count_where-update_where test where_test set (x ∷ xs) same =
      ground (arith, count_where-update_where test where_test set xs same, same x)
