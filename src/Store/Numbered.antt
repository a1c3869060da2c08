-- ===== src/Store/Numbered.antt =====
-- Tables as lists of rows (src/effect_broker/store/sqlite.py, postgres.py): what updates keep, and
-- rows that are numbered for each owner, as the attempts and events of an effect are.
use effect_broker.Prelude.{
  ℕ, ◌+◌, ◌≤◌, Text, text_eq, ◌==◌, ◌≡◌, subst, Bool, false, ◌&&◌, some, List, [], ◌∷◌, ◌++◌, All,
  All-map, All-append, nat_beq, arith, Bool-cases, inl, inr, ==_eq,
}
use effect_broker.Store.Sql.{first_where, count_where, update_where, count_where-append}

module _ {R : Type 0} where
  pub All-update_where :
      (P : R → Type 0) (where_test : R → Bool) (set : R → R) (xs : List R)
      → ((x : R) → P x → P (set x))
      → All P xs
      → All P (update_where where_test set xs)
  unfolding update_where
  All-update_where P where_test set [] keeps h = tt
  All-update_where P where_test set (x ∷ xs) keeps h =
      (ground (arith, keeps x h.0), All-update_where P where_test set xs keeps h.1)

  pub first_where-All :
      (P : R → Type 0) (test : R → Bool) (xs : List R) (x : R)
      → All P xs
      → first_where test xs ≡ some x
      → P x
  unfolding first_where
  first_where-All P test [] x all h = cc
  first_where-All P test (y ∷ xs) x all h = ground (arith, first_where-All P test xs x all.1)

  -- The rows of each owner are numbered from 1, in the order of their insertion.
  module _ (owner : R → Text) (number : R → ℕ) where
    abbrev pub Numbered : List R → Type 0
    Numbered xs = All (λ x. number x ≤ count_where (λ y. owner y == owner x) xs) xs

    pub Numbered-append :
        (xs : List R) (x : R)
        → Numbered xs
        → number x ≤ count_where (λ y. owner y == owner x) xs + 1
        → Numbered (xs ++ x ∷ [])
    Numbered-append xs x h next =
        All-append (λ y. number y ≤ count_where (λ z. owner z == owner y) (xs ++ x ∷ [])) xs
          (x ∷ [])
          (All-map (λ y. number y ≤ count_where (λ z. owner z == owner y) xs)
            (λ y. number y ≤ count_where (λ z. owner z == owner y) (xs ++ x ∷ [])) xs
            (λ y low. ground (arith, count_where-append (λ z. owner z == owner y) xs x)) h)
          (
            ground (
              arith,
              count_where-append (λ z. owner z == owner x) xs x,
              text_eq.beq_iff (owner x) (owner x),
            ),
            tt,
          )

    -- The number after the last is not taken.
    pub next_is_free :
        (id : Text) (xs : List R)
        → Numbered xs
        → All
            (λ x.
              (owner x == id && nat_beq (number x) (count_where (λ y. owner y == id) xs + 1))
              ≡ false)
            xs
    next_is_free id xs h =
        All-map (λ x. number x ≤ count_where (λ y. owner y == owner x) xs)
          (λ x.
            (owner x == id && nat_beq (number x) (count_where (λ y. owner y == id) xs + 1)) ≡ false)
          xs (λ x low. free x low) h
      where
        free :
            (x : R)
            → number x ≤ count_where (λ y. owner y == owner x) xs
            → (owner x == id && nat_beq (number x) (count_where (λ y. owner y == id) xs + 1))
              ≡ false
        free x low = elim (Bool-cases (owner x == id)) [
          | inl same ↦
              let at_id : number x ≤ count_where (λ y. owner y == id) xs =
                subst (λ o. number x ≤ count_where (λ y. owner y == o) xs) (==_eq (owner x) id same)
                  low in
              ground arith
          | inr other ↦ rw other
        ]
