-- ===== src/Json.antt =====
-- The Python values that arguments, metadata and evidence are made of (`JsonObject` of
-- src/effect_broker/models.py), told apart by what `_validate` and `json.dumps` do with them.
use effect_broker.Prelude.{Bool, Text}
use effect_broker.Prelude.Int.{ℤ}

-- A finite float is carried by its `repr`.
pub data Float : Type 0 where
  finite : Text → Float
  nan inf neg_inf : Float

-- A key of a mapping: a string, or another hashable value by its `repr`.
pub data Key : Type 0 where
  text_key : Text → Key
  other_key : Text → Key

mutual
  pub data Value : Type 0 where
    null : Value
    bool : Bool → Value
    str : Text → Value
    -- an int of at most 4300 digits, and one that Python does not print by default
    int : ℤ → Value
    huge_int : ℤ → Value
    float : Float → Value
    -- a dict, and a Mapping that is no dict
    mapping : Entries → Value
    proxy : Entries → Value
    bytes : Text → Value
    -- a list or a tuple, and a Sequence that is neither
    sequence : Items → Value
    lazy_sequence : Items → Value
    -- a value of any other type, by the type's name
    other : Text → Value

  pub data Items : Type 0 where
    nil : Items
    cons : Value → Items → Items

  pub data Entries : Type 0 where
    end : Entries
    entry : Key → Value → Entries → Entries

-- A JSON object as it is handed over: a dict.
abbrev pub JsonObject : Type 0
JsonObject = Entries
