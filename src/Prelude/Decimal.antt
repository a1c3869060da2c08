-- ===== src/Prelude/Decimal.antt =====
-- Decimal numerals: `str(n)`, a format `{n:06d}`, and `int(s)` on plain digits.
use Prim.Native.Nat.{ℕ, zero, suc, ◌+◌, ◌-◌, ◌*◌, ◌/◌, ◌%◌, ◌<◌, ◌≤◌}
use mathlib.Core.Path.{◌≡◌, refl, sym, ap, ◌∙◌}
use mathlib.Core.Logic.{◌≢◌}
use mathlib.Core.Bool.{Bool, true, ◌&&◌}
use mathlib.Core.Option.{Option, none, some}
use mathlib.Core.List.{[], ◌∷◌, ◌++◌, append_assoc, append-nil}
use native.Mathlib.Omega.{arith}
use effect_broker.Prelude.Tests.{leb, ltb, if◌then◌else◌, Bool-cases}
use effect_broker.Prelude.Lists.{length, All, All-append}
use effect_broker.Prelude.Texts.{Text}
use mathlib.Core.Logic.{inl, inr}

-- The digits of `n`, with more fuel than digits.
unfoldable pub digits : ℕ → ℕ → Text
digits zero n = []
digits (suc f) n =
    let more = digits f (n / 10) in if ltb n 10 then (48 + n) ∷ [] else more ++ (48 + n % 10) ∷ []

-- str(n)
unfoldable pub str_nat : ℕ → Text
unfolding digits
str_nat n = digits (suc n) n

unfoldable pub is_digit : ℕ → Bool
is_digit c = leb 48 c && leb c 57

unfoldable pub parse_digits : ℕ → Text → Option ℕ
unfolding is_digit
parse_digits acc [] = some acc
parse_digits acc (c ∷ s) =
    let rest = parse_digits (acc * 10 + (c - 48)) s in if is_digit c then rest else none

-- int(s), where `none` is a ValueError
unfoldable pub int_text : Text → Option ℕ
unfolding parse_digits
int_text [] = none
int_text (c ∷ s) = parse_digits 0 (c ∷ s)

module _ (d : ℕ) (small : d < 10) where
  digit_is_digit : is_digit (48 + d) ≡ true
  unfolding is_digit
  digit_is_digit = ground arith

  parse-digits_step :
      (acc : ℕ) (rest : Text)
      → parse_digits acc ((48 + d) ∷ rest) ≡ parse_digits (acc * 10 + d) rest
  unfolding parse_digits
  parse-digits_step acc rest =
      let e : acc * 10 + (48 + d - 48) ≡ acc * 10 + d = omega arith in rw (digit_is_digit, e)

parse-digits_append :
    (f n : ℕ) (rest : Text) → n < f → parse_digits 0 (digits f n ++ rest) ≡ parse_digits n rest
unfolding digits
parse-digits_append zero n rest h = absurd (omega arith)
parse-digits_append (suc f) n rest h = elim (Bool-cases (ltb n 10)) [
  | inl small ↦
      rw small
        (parse-digits_step n (ground arith) 0 rest ∙ ap (λ k. parse_digits k rest) (omega arith))
  | inr large ↦
      rw (large, append_assoc)
        (parse-digits_append f (n / 10) ((48 + n % 10) ∷ rest) (ground arith)
          ∙ parse-digits_step (n % 10) (omega arith) (n / 10) rest
          ∙ ap (λ k. parse_digits k rest) (omega arith))
]

-- A digit of a numeral.
abbrev pub IsDigit : ℕ → Type 0
IsDigit c = (48 ≤ c) × (c ≤ 57)

digits-All : (f n : ℕ) → All IsDigit (digits f n)
unfolding digits
digits-All zero n = tt
digits-All (suc f) n = elim (Bool-cases (ltb n 10)) [
  | inl small ↦ rw small ((omega arith, ground arith), tt)
  | inr large ↦ rw large (
      All-append IsDigit (digits f (n / 10)) _ (digits-All f (n / 10))
        ((omega arith, omega arith), tt))
]

pub str_nat-All : (n : ℕ) → All IsDigit (str_nat n)
unfolding str_nat
str_nat-All n = digits-All (suc n) n

pub parse-str_nat : (n : ℕ) (rest : Text) → parse_digits 0 (str_nat n ++ rest) ≡ parse_digits n rest
unfolding str_nat
parse-str_nat n rest = parse-digits_append (suc n) n rest (omega arith)

append_one-ne-nil : (s : Text) (c : ℕ) → s ++ c ∷ [] ≢ []
append_one-ne-nil [] c h = cc
append_one-ne-nil (x ∷ s) c h = cc

pub str_nat-ne-nil : (n : ℕ) → str_nat n ≢ []
unfolding str_nat
str_nat-ne-nil n h = ground (arith, append_one-ne-nil (digits n (n / 10)) (48 + n % 10))

int_text-digits : (t : Text) → t ≢ [] → int_text t ≡ parse_digits 0 t
unfolding int_text
int_text-digits [] h = absurd (h refl)
int_text-digits (c ∷ s) h = refl

-- int(str(n)) == n
pub int_text-str_nat : (n : ℕ) → int_text (str_nat n) ≡ some n
int_text-str_nat n =
    int_text-digits (str_nat n) (str_nat-ne-nil n)
    ∙ ap (parse_digits 0) (sym (append-nil (str_nat n)))
    ∙ parse-str_nat n []
    ∙ (unfold parse_digits in refl)

-- `"0" * (width - len(s)) + s`, the padding of `{n:06d}`
unfoldable pub zeros : ℕ → Text
zeros zero = []
zeros (suc n) = 48 ∷ zeros n

unfoldable pub pad_zero : ℕ → Text → Text
unfolding zeros
pad_zero width s = zeros (width - length s) ++ s

parse-zeros : (k : ℕ) (s : Text) → parse_digits 0 (zeros k ++ s) ≡ parse_digits 0 s
unfolding zeros parse_digits
parse-zeros zero s = refl
parse-zeros (suc k) s = parse-zeros k s

-- Padding keeps the number that a numeral stands for.
pub parse-pad_zero : (width n : ℕ) → parse_digits 0 (pad_zero width (str_nat n)) ≡ some n
unfolding pad_zero
parse-pad_zero width n =
    parse-zeros (width - length (str_nat n)) (str_nat n)
    ∙ ap (parse_digits 0) (sym (append-nil (str_nat n)))
    ∙ parse-str_nat n []
    ∙ (unfold parse_digits in refl)
