-- ===== src/Canonical/Validation.antt =====
-- Which values src/effect_broker/canonical.py accepts: those that are reproducible, and each of
-- these is encoded.
use effect_broker.Prelude.{
  ℕ, ◌+◌, Text, text, List, true, false, ◌≡◌, refl, ◌↔◌, [], ◌∷◌, ◌++◌, arith, inl, inr,
}
use effect_broker.Json.{
  Float, finite, nan, inf, neg_inf, Key, text_key, other_key, Value, null, bool, str, int, huge_int,
  float, mapping, proxy, bytes, sequence, lazy_sequence, other, Items, nil, cons, Entries, end,
  entry,
}
use effect_broker.Errors.{Result-cases, ok}
use effect_broker.Canonical.{
  validate, validate_items, validate_entries, dumps, dump_items, dump_entries, canonical_json, join,
  members, sort_pairs, member_path, index_path,
}

abbrev IsFinite : Float → Type 0
IsFinite (finite _) = Unit
IsFinite nan = ⊥
IsFinite inf = ⊥
IsFinite neg_inf = ⊥

abbrev IsText : Key → Type 0
IsText (text_key _) = Unit
IsText (other_key _) = ⊥

-- A JSON value that every process prints alike: dicts with string keys, lists and tuples, finite
-- floats and ints of at most 4300 digits, at every depth.
unfoldable mutual
  pub Reproducible : Value → Type 0
  Reproducible null = Unit
  Reproducible (bool _) = Unit
  Reproducible (str _) = Unit
  Reproducible (int _) = Unit
  Reproducible (huge_int _) = ⊥
  Reproducible (float x) = IsFinite x
  Reproducible (mapping es) = ReproducibleEntries es
  Reproducible (proxy _) = ⊥
  Reproducible (bytes _) = ⊥
  Reproducible (sequence xs) = ReproducibleItems xs
  Reproducible (lazy_sequence _) = ⊥
  Reproducible (other _) = ⊥

  pub ReproducibleItems : Items → Type 0
  ReproducibleItems nil = Unit
  ReproducibleItems (cons x xs) = Reproducible x × ReproducibleItems xs

  pub ReproducibleEntries : Entries → Type 0
  ReproducibleEntries end = Unit
  ReproducibleEntries (entry k v es) = IsText k × Reproducible v × ReproducibleEntries es

-- What the validation accepts and the encoder encodes.
mutual
  unfolding validate dumps Reproducible

  encoded_sound :
      (v : Value) (path : Text) {s : Text}
      → validate v path ≡ ok tt
      → dumps v ≡ ok s
      → Reproducible v
  encoded_sound null path h e = tt
  encoded_sound (bool _) path h e = tt
  encoded_sound (str _) path h e = tt
  encoded_sound (int _) path h e = tt
  encoded_sound (huge_int _) path h e = cc
  encoded_sound (float (finite _)) path h e = tt
  encoded_sound (float nan) path h e = cc
  encoded_sound (float inf) path h e = cc
  encoded_sound (float neg_inf) path h e = cc
  encoded_sound (mapping es) path h e = elim (Result-cases (dump_entries es)) [
    | inl (ps, printed) ↦ entries_sound es path h printed
    | inr (x, refused) ↦ ground (arith, refused, e)
  ]
  encoded_sound (proxy _) path h e = cc
  encoded_sound (bytes _) path h e = cc
  encoded_sound (sequence xs) path h e = elim (Result-cases (dump_items xs)) [
    | inl (ss, printed) ↦ items_sound xs path 0 h printed
    | inr (x, refused) ↦ ground (arith, refused, e)
  ]
  encoded_sound (lazy_sequence _) path h e = cc
  encoded_sound (other _) path h e = cc

  items_sound :
      (xs : Items) (path : Text) (i : ℕ) {ss : List Text}
      → validate_items xs path i ≡ ok tt
      → dump_items xs ≡ ok ss
      → ReproducibleItems xs
  items_sound nil path i h e = tt
  items_sound (cons x xs) path i h e = elim (Result-cases (dumps x)) [
    | inl (s, printed) ↦ elim (Result-cases (dump_items xs)) [
      | inl (ss, rest) ↦ (
        encoded_sound x (index_path path i) (ground arith) printed,
        items_sound xs path (i + 1) (ground arith) rest,
      )
      | inr (y, refused) ↦ ground (arith, printed, refused, e)
    ]
    | inr (y, refused) ↦ ground (arith, refused, e)
  ]

  entries_sound :
      (es : Entries) (path : Text) {ps : List (Text × Text)}
      → validate_entries es path ≡ ok tt
      → dump_entries es ≡ ok ps
      → ReproducibleEntries es
  entries_sound end path h e = tt
  entries_sound (entry (text_key k) v es) path h e = elim (Result-cases (dumps v)) [
    | inl (s, printed) ↦ elim (Result-cases (dump_entries es)) [
      | inl (ps, rest) ↦ (
        tt,
        encoded_sound v (member_path path k) (ground arith) printed,
        entries_sound es path (ground arith) rest,
      )
      | inr (y, refused) ↦ ground (arith, printed, refused, e)
    ]
    | inr (y, refused) ↦ ground (arith, refused, e)
  ]
  entries_sound (entry (other_key k) v es) path h e = cc

mutual
  unfolding validate Reproducible

  validate_complete : (v : Value) (path : Text) → Reproducible v → validate v path ≡ ok tt
  validate_complete null path h = refl
  validate_complete (bool _) path h = refl
  validate_complete (str _) path h = refl
  validate_complete (int _) path h = refl
  validate_complete (huge_int _) path h = absurd h
  validate_complete (float (finite _)) path h = refl
  validate_complete (float nan) path h = absurd h
  validate_complete (float inf) path h = absurd h
  validate_complete (float neg_inf) path h = absurd h
  validate_complete (mapping es) path h = entries_complete es path h
  validate_complete (proxy _) path h = absurd h
  validate_complete (bytes _) path h = absurd h
  validate_complete (sequence xs) path h = items_complete xs path 0 h
  validate_complete (lazy_sequence _) path h = absurd h
  validate_complete (other _) path h = absurd h

  items_complete :
      (xs : Items) (path : Text) (i : ℕ) → ReproducibleItems xs → validate_items xs path i ≡ ok tt
  items_complete nil path i h = refl
  items_complete (cons x xs) path i h =
      rw (validate_complete x (index_path path i) h.0) (items_complete xs path (i + 1) h.1)

  entries_complete :
      (es : Entries) (path : Text) → ReproducibleEntries es → validate_entries es path ≡ ok tt
  entries_complete end path h = refl
  entries_complete (entry (text_key k) v es) path h =
      rw (validate_complete v (member_path path k) h.1) (entries_complete es path h.2)
  entries_complete (entry (other_key k) v es) path h = absurd h.0

mutual
  unfolding dumps Reproducible

  dumps_total : (v : Value) → Reproducible v → (s : Text) × (dumps v ≡ ok s)
  dumps_total null h = (_, refl)
  dumps_total (bool true) h = (_, refl)
  dumps_total (bool false) h = (_, refl)
  dumps_total (str _) h = (_, refl)
  dumps_total (int _) h = (_, refl)
  dumps_total (huge_int _) h = absurd h
  dumps_total (float (finite _)) h = (_, refl)
  dumps_total (float nan) h = absurd h
  dumps_total (float inf) h = absurd h
  dumps_total (float neg_inf) h = absurd h
  dumps_total (mapping es) h =
      let (ps, e) = entries_total es h in
      (b'{' ∷ (join (members (sort_pairs ps)) ++ b'}' ∷ []), rw e)
  dumps_total (proxy _) h = absurd h
  dumps_total (bytes _) h = absurd h
  dumps_total (sequence xs) h =
      let (ss, e) = items_total xs h in (b'[' ∷ (join ss ++ b']' ∷ []), rw e)
  dumps_total (lazy_sequence _) h = absurd h
  dumps_total (other _) h = absurd h

  items_total : (xs : Items) → ReproducibleItems xs → (ss : List Text) × (dump_items xs ≡ ok ss)
  items_total nil h = (_, refl)
  items_total (cons x xs) h =
      let (s, e) = dumps_total x h.0 in let (ss, es) = items_total xs h.1 in (s ∷ ss, rw (e, es))

  entries_total :
      (es : Entries)
      → ReproducibleEntries es
      → (ps : List (Text × Text)) × (dump_entries es ≡ ok ps)
  entries_total end h = (_, refl)
  entries_total (entry (text_key k) v es) h =
      let (s, e) = dumps_total v h.1 in
      let (ps, es') = entries_total es h.2 in ((k, s) ∷ ps, rw (e, es'))
  entries_total (entry (other_key k) v es) h = absurd h.0

printed_text :
    (v : Value) {s : Text}
    → canonical_json v ≡ ok s
    → (validate v (text "$") ≡ ok tt) × (dumps v ≡ ok s)
unfolding canonical_json
printed_text v h = ground arith

pub canonical_json_total : (v : Value) → ((s : Text) × (canonical_json v ≡ ok s)) ↔ Reproducible v
canonical_json_total v = (
  λ (s, h). let (fine, printed) = printed_text v h in encoded_sound v (text "$") fine printed,
  λ h. encoded v h,
)
  where
    encoded : (v : Value) → Reproducible v → (s : Text) × (canonical_json v ≡ ok s)
    encoded v h =
        let (s, e) = dumps_total v h in
        (s, unfold canonical_json in rw (validate_complete v (text "$") h, e))
