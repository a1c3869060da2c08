-- ===== src/Store/Memory/Ids.antt =====
-- The ids that src/effect_broker/store/memory.py makes are distinct.
use effect_broker.Prelude.{ℕ, Text, text, ◌≡◌, refl, ap, ◌++◌, drop, some}
use effect_broker.Prelude.Decimal.{parse_digits, parse-pad_zero}
use effect_broker.Store.Memory.State.{effect_id_of}

drop-eff : (s : Text) → drop 4 (text "eff_" ++ s) ≡ s
unfolding text
drop-eff s = refl

number_of_id : (n : ℕ) → parse_digits 0 (drop 4 (effect_id_of n)) ≡ some n
unfolding effect_id_of
number_of_id n = rw drop-eff (parse-pad_zero 6 n)

pub effect_id_of_injective : (m n : ℕ) → effect_id_of m ≡ effect_id_of n → m ≡ n
effect_id_of_injective m n h =
    cc (number_of_id m, number_of_id n, ap (λ (t : Text). parse_digits 0 (drop 4 t)) h)
