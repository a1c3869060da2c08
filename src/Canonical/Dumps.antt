-- ===== src/Canonical/Dumps.antt =====
-- `json.dumps(value, sort_keys=True, separators=(",", ":"), ensure_ascii=False, allow_nan=False)`
-- of the standard library, as src/effect_broker/canonical.py calls it.
use effect_broker.Prelude.{
  ℕ, ◌+◌, ◌/◌, ◌%◌, Text, text, text_ltb, true, false, List, [], ◌∷◌, ◌++◌, ltb, nat_beq,
  if◌then◌else◌,
}
use effect_broker.Prelude.Int.{ℤ, pos, negsuc}
use effect_broker.Prelude.Decimal.{str_nat}
use effect_broker.Json.{
  Float, finite, nan, inf, neg_inf, text_key, other_key, Value, null, bool, str, int, huge_int,
  float, mapping, proxy, bytes, sequence, lazy_sequence, other, Items, nil, cons, Entries, end,
  entry,
}
use effect_broker.Errors.{Result, ok, err, ◌>>=◌, other_exception}

hex_digit : ℕ → ℕ
hex_digit d = if ltb d 10 then 48 + d else 87 + d

-- One character inside a string literal.
escape : ℕ → Text
unfolding hex_digit
escape c =
    if nat_beq c 34
    then text "\\\""
    else if nat_beq c 92
    then text "\\\\"
    else if nat_beq c 10
    then text "\\n"
    else if nat_beq c 13
    then text "\\r"
    else if nat_beq c 9
    then text "\\t"
    else if nat_beq c 12
    then text "\\f"
    else if nat_beq c 8
    then text "\\b"
    else if ltb c 32
    then text "\\u00" ++ hex_digit (c / 16) ∷ hex_digit (c % 16) ∷ []
    else c ∷ []

escape_all : Text → Text
escape_all [] = []
escape_all (c ∷ s) = escape c ++ escape_all s

unfoldable pub quote : Text → Text
unfolding escape escape_all
quote s = 34 ∷ (escape_all s ++ 34 ∷ [])

-- `sorted(dct.items())` on pairs of a key and the encoding of its value; the keys are distinct.
unfoldable pub insert_sorted : Text × Text → List (Text × Text) → List (Text × Text)
insert_sorted p [] = p ∷ []
insert_sorted p (q ∷ qs) =
    let rest = insert_sorted p qs in if text_ltb p.0 q.0 then p ∷ q ∷ qs else q ∷ rest

unfoldable pub sort_pairs : List (Text × Text) → List (Text × Text)
sort_pairs [] = []
sort_pairs (p ∷ ps) = insert_sorted p (sort_pairs ps)

unfoldable pub member : Text × Text → Text
member (k, v) = quote k ++ b':' ∷ v

unfoldable pub members : List (Text × Text) → List Text
members [] = []
members (p ∷ ps) = member p ∷ members ps

-- `",".join(parts)`
unfoldable pub join : List Text → Text
join [] = []
join (s ∷ []) = s
join (s ∷ t ∷ ts) = s ++ b',' ∷ join (t ∷ ts)

int_repr : ℤ → Text
int_repr (pos n) = str_nat n
int_repr (negsuc n) = b'-' ∷ str_nat (n + 1)

float_repr : Float → Result Text
float_repr (finite s) = ok s
float_repr nan = err (other_exception (text "ValueError"))
float_repr inf = err (other_exception (text "ValueError"))
float_repr neg_inf = err (other_exception (text "ValueError"))

unfoldable mutual
  unfolding int_repr float_repr

  pub dumps : Value → Result Text
  dumps null = ok (text "null")
  dumps (bool true) = ok (text "true")
  dumps (bool false) = ok (text "false")
  dumps (str s) = ok (quote s)
  dumps (int n) = ok (int_repr n)
  dumps (huge_int _) = err (other_exception (text "ValueError"))
  dumps (float x) = float_repr x
  dumps (mapping es) = do
    ps ← dump_entries es
    ok (b'{' ∷ (join (members (sort_pairs ps)) ++ b'}' ∷ []))
  dumps (proxy _) = err (other_exception (text "TypeError"))
  dumps (bytes _) = err (other_exception (text "TypeError"))
  dumps (sequence xs) = do parts ← dump_items xs; ok (b'[' ∷ (join parts ++ b']' ∷ []))
  dumps (lazy_sequence _) = err (other_exception (text "TypeError"))
  dumps (other _) = err (other_exception (text "TypeError"))

  pub dump_items : Items → Result (List Text)
  dump_items nil = ok []
  dump_items (cons x xs) = do s ← dumps x; rest ← dump_items xs; ok (s ∷ rest)

  -- Keys that are no strings do not get here: `_validate` runs first and refuses them.
  pub dump_entries : Entries → Result (List (Text × Text))
  dump_entries end = ok []
  dump_entries (entry (text_key k) v es) = do
    s ← dumps v
    rest ← dump_entries es
    ok ((k, s) ∷ rest)
  dump_entries (entry (other_key k) v es) = err (other_exception (text "TypeError"))
