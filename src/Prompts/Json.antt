-- ===== src/Prompts/Json.antt =====
-- The values that `_clean` and `_dump` read, `_clean`, and `json.dumps(value, indent=2,
-- default=str)`. A `scalar` is a number, a Boolean or `None`, as the text that `json` writes for
-- it; an `opaque` value is one of another class, as the text that `str` makes of it.
use soc_analyst.Prelude.{
  ℕ, zero, suc, ◌+◌, ◌-◌, ◌/◌, ◌%◌, ◌&&◌, none, [], ◌∷◌, ◌++◌, ltb, leb, ◌==◌, if◌then◌else◌,
}
use soc_analyst.Pystr.{Pystr}
use soc_analyst.Prompts.{neutralise}

mutual
  pub data Json : Type 0 where
    text : Pystr → Json
    scalar : Pystr → Json
    opaque : Pystr → Json
    list : Items → Json
    object : Fields → Json

  pub data Items : Type 0 where
    no_items : Items
    item : Json → Items → Items

  pub data Fields : Type 0 where
    no_fields : Fields
    field : Pystr → Json → Fields → Fields

module _ (field_limit : ℕ) where
  unfoldable mutual
    pub clean : Json → Json
    clean (text s) = text (neutralise field_limit s none)
    clean (scalar s) = scalar s
    clean (opaque s) = opaque s
    clean (list items) = list (clean_items items)
    clean (object fields) = object (clean_fields fields)

    pub clean_items : Items → Items
    clean_items no_items = no_items
    clean_items (item v rest) = item (clean v) (clean_items rest)

    pub clean_fields : Fields → Fields
    clean_fields no_fields = no_fields
    clean_fields (field k v rest) = field k (clean v) (clean_fields rest)

-- a hexadecimal digit, for the last four bits of a number
unfoldable pub hex_digit : ℕ → ℕ
hex_digit n = if ltb (n % 16) 10 then 48 + n % 16 else 87 + n % 16

-- `\uXXXX`
unfoldable pub hex_escape : ℕ → Pystr → Pystr
hex_escape n rest =
    92 ∷ 117 ∷ hex_digit (n / 4096) ∷ hex_digit (n / 256) ∷ hex_digit (n / 16) ∷ hex_digit n ∷ rest

unfoldable pub surrogates : ℕ → Pystr → Pystr
surrogates v rest = hex_escape (55296 + v / 1024) (hex_escape (56320 + v % 1024) rest)

-- one code point of a string, in front of what `json` writes for the others
unfoldable pub escape : ℕ → Pystr → Pystr
unfolding hex_escape surrogates
escape c rest =
    if c == 34
    then 92 ∷ 34 ∷ rest
    else if c == 92
    then 92 ∷ 92 ∷ rest
    else if c == 10
    then 92 ∷ 110 ∷ rest
    else if c == 13
    then 92 ∷ 114 ∷ rest
    else if c == 9
    then 92 ∷ 116 ∷ rest
    else if c == 12
    then 92 ∷ 102 ∷ rest
    else if c == 8
    then 92 ∷ 98 ∷ rest
    else if leb 32 c && leb c 126
    then c ∷ rest
    else if ltb c 65536
    then hex_escape c rest
    else surrogates (c - 65536) rest

unfoldable pub escape_all : Pystr → Pystr
escape_all [] = []
escape_all (c ∷ cs) = escape c (escape_all cs)

unfoldable pub quoted : Pystr → Pystr
unfolding escape_all
quoted s = 34 ∷ escape_all s ++ 34 ∷ []

unfoldable pub spaces : ℕ → Pystr → Pystr
spaces zero rest = rest
spaces (suc n) rest = 32 ∷ 32 ∷ spaces n rest

-- a line break and two spaces for each level of nesting
abbrev pub new_line : ℕ → Pystr → Pystr
new_line depth rest = 10 ∷ spaces depth rest

unfoldable mutual
  pub dumps : ℕ → Json → Pystr
  dumps depth (text s) = quoted s
  dumps depth (scalar s) = s
  dumps depth (opaque s) = quoted s
  dumps depth (list no_items) = 91 ∷ 93 ∷ []
  dumps depth (list (item v rest)) =
      91 ∷ new_line (suc depth) (dumps (suc depth) v ++ dump_items depth rest)
  dumps depth (object no_fields) = 123 ∷ 125 ∷ []
  dumps depth (object (field k v rest)) =
      123
      ∷ new_line (suc depth) (quoted k ++ 58 ∷ 32 ∷ (dumps (suc depth) v ++ dump_fields depth rest))

  pub dump_items : ℕ → Items → Pystr
  dump_items depth no_items = new_line depth (93 ∷ [])
  dump_items depth (item v rest) =
      44 ∷ new_line (suc depth) (dumps (suc depth) v ++ dump_items depth rest)

  pub dump_fields : ℕ → Fields → Pystr
  dump_fields depth no_fields = new_line depth (125 ∷ [])
  dump_fields depth (field k v rest) =
      44
      ∷ new_line (suc depth) (quoted k ++ 58 ∷ 32 ∷ (dumps (suc depth) v ++ dump_fields depth rest))

-- `_dump`
unfoldable pub dump : ℕ → Json → Pystr
unfolding clean dumps
dump field_limit value = dumps 0 (clean field_limit value)
