-- ===== src/Messages/Json.antt =====
-- nora_fleet/message/parsers/structure/json_structure_parser.py: the structure in a text. `loads` is
-- the one of the package json_repair, where `none` is a JSONDecodeError.
pub mod Blocks
use Prim.Native.Char.{Char, code}
use Prim.Native.String as Text
use nora_fleet.Common.{
  ℕ, String, Bool, true, false, ◌&&◌, ◌||◌, Option, none, some, List, [], ◌∷◌, if◌then◌else◌, ◌==◌,
  nat_eq, leb, Value, Fields, null, str, num, bool, arr, obj, ◌>>=◌,
}
use nora_fleet.Messages.Processors.{StructureParser}

-- what `str.strip` takes for whitespace
unfoldable pub is_space : ℕ → Bool
is_space c =
    (leb 9 c && leb c 13)
    || (leb 28 c && leb c 32)
    || nat_eq c 133
    || nat_eq c 160
    || nat_eq c 5760
    || (leb 8192 c && leb c 8202)
    || nat_eq c 8232
    || nat_eq c 8233
    || nat_eq c 8239
    || nat_eq c 8287
    || nat_eq c 12288

unfoldable pub lstrip : String → String
unfolding is_space
lstrip Text.[] = Text.[]
lstrip (Text.◌∷◌ c s) = let rest = lstrip s in if is_space (code c) then rest else Text.◌∷◌ c s

unfoldable pub rstrip : String → String
unfolding is_space
rstrip Text.[] = Text.[]
rstrip (Text.◌∷◌ c s) =
    let rest = rstrip s in if rest == "" && is_space (code c) then Text.[] else Text.◌∷◌ c rest

unfoldable pub strip_text : String → String
unfolding lstrip rstrip
strip_text s = rstrip (lstrip s)

-- what follows a delimiter that a text begins with
unfoldable pub after_prefix : String → String → Option String
after_prefix Text.[] s = some s
after_prefix (Text.◌∷◌ p ps) Text.[] = none
after_prefix (Text.◌∷◌ p ps) (Text.◌∷◌ c s) =
    let rest = after_prefix ps s in if nat_eq (code p) (code c) then rest else none

abbrev before_first : Char → Option String → Option (String × String) → Option (String × String)
before_first c (some rest) later = some (Text.[], rest)
before_first c none none = none
before_first c none (some (before, rest)) = some (Text.◌∷◌ c before, rest)

abbrev before_last : Char → Option String → Option (String × String) → Option (String × String)
before_last c here (some (before, rest)) = some (Text.◌∷◌ c before, rest)
before_last c (some rest) none = some (Text.[], rest)
before_last c none none = none

-- a text around the first, and around the last, occurrence of a delimiter
unfoldable pub split_first : String → String → Option (String × String)
unfolding after_prefix
split_first start Text.[] = none
split_first start (Text.◌∷◌ c s) =
    before_first c (after_prefix start (Text.◌∷◌ c s)) (split_first start s)

unfoldable pub split_last : String → String → Option (String × String)
unfolding after_prefix
split_last end_mark Text.[] = none
split_last end_mark (Text.◌∷◌ c s) =
    before_last c (after_prefix end_mark (Text.◌∷◌ c s)) (split_last end_mark s)

-- The match of `start(.*)end`: from the first start to the last end behind it.
pub record Match : Type 0 where
  pub before : String
  pub inside : String
  pub after : String

unfoldable pub search_block : String → String → String → Option Match
unfolding split_first split_last
search_block start end_mark text = do
  outer ← split_first start text
  inner ← split_last end_mark outer.1
  some (record { before = outer.0; inside = inner.0; after = inner.1 })

-- the pairs of delimiters, in the order in which they are tried
unfoldable pub delimiters : List (String × String)
delimiters = ("```json", "```") ∷ ("```", "```") ∷ ("`{", "}`") ∷ ("{", "}") ∷ []

-- the main block with its delimiters, and the remainder
abbrev pub block_of : String → String → Match → String × String
block_of start end_mark m = (
  strip_text (Text.◌++◌ start (Text.◌++◌ m.inside end_mark)),
  strip_text (Text.◌++◌ m.before m.after),
)

unfoldable pub extract_delimited_block : String → List (String × String) → Option (String × String)
unfolding search_block strip_text
extract_delimited_block text [] = none
extract_delimited_block text ((start, end_mark) ∷ rest) =
    let others = extract_delimited_block text rest in
    elim (search_block start end_mark text) [
      | some m ↦ some (block_of start end_mark m)
      | none ↦ others
    ]

-- a structure that is no dictionary is none
unfoldable pub dictionary_of : Option Value → String → Option (Fields × String)
dictionary_of (some (obj fields)) remainder = some (fields, remainder)
dictionary_of _ remainder = none

module _ (loads : String → Option Value) where
  unfoldable pub load_block : Option (String × String) → Option (Fields × String)
  unfolding dictionary_of
  load_block none = none
  load_block (some (meat, remainder)) = dictionary_of (loads meat) remainder

  -- `parse_structure`; a content that is no text raises in the search
  unfoldable pub parse_json : StructureParser
  unfolding load_block extract_delimited_block delimiters
  parse_json (str text) = some (load_block (extract_delimited_block text delimiters))
  parse_json _ = none
