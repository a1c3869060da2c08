-- ===== src/Worker/Ordinal.antt =====
-- `_attempt_ordinal` of src/effect_broker/worker.py: the number at the end of an attempt id.
use effect_broker.Prelude.{
  ℕ, Text, text, ◌≡◌, refl, sym, ap, ◌∙◌, Option, none, some, [], ◌∷◌, ◌++◌, All, if◌then◌else◌,
  nat_beq, arith,
}
use mathlib.Core.List.{append_assoc}
use effect_broker.Prelude.Decimal.{str_nat, int_text, int_text-str_nat, str_nat-All, IsDigit}
use effect_broker.Store.Rows.{attempt_id_of}

-- `s.rsplit("-", maxsplit=1)[1]`, where `none` is an IndexError
unfoldable pub after_last_dash : Text → Option Text
after_last_dash [] = none
after_last_dash (c ∷ s) = elim (after_last_dash s) [
  | some t ↦ some t
  | none ↦ if nat_beq c b'-' then some s else none
]

-- What `int` reads, or 1 for its ValueError.
unfoldable pub or_one : Option ℕ → ℕ
or_one none = 1
or_one (some n) = n

ordinal_of : Option Text → ℕ
unfolding or_one
ordinal_of none = 1
ordinal_of (some t) = or_one (int_text t)

unfoldable pub attempt_ordinal : Text → ℕ
unfolding ordinal_of
attempt_ordinal attempt_id = ordinal_of (after_last_dash attempt_id)

no_dash : (t : Text) → All IsDigit t → after_last_dash t ≡ none
unfolding after_last_dash
no_dash [] h = refl
no_dash (c ∷ t) h = rw (no_dash t h.1) (ground arith)

last_dash : (s t : Text) → All IsDigit t → after_last_dash (s ++ b'-' ∷ t) ≡ some t
unfolding after_last_dash
last_dash [] t h = rw (no_dash t h)
last_dash (c ∷ s) t h = rw (last_dash s t h)

-- The ordinal of the id that a store gives to its n-th attempt is n.
pub attempt_ordinal-attempt_id_of : (id : Text) (n : ℕ) → attempt_ordinal (attempt_id_of id n) ≡ n
unfolding attempt_ordinal attempt_id_of text
attempt_ordinal-attempt_id_of id n =
    ap (λ (t : Text). ordinal_of (after_last_dash t))
      (sym (append_assoc id (text "-attempt") (45 ∷ str_nat n)))
    ∙ ap ordinal_of (last_dash (id ++ text "-attempt") (str_nat n) (str_nat-All n))
    ∙ ap or_one (int_text-str_nat n)
