-- ===== src/Messages/Json/Blocks.antt =====
-- What the parser takes from a text, and what it leaves.
use Prim.Native.Char.{Char, code}
use Prim.Native.String as Text
use text.Mathlib.TextLemmas.{nil-append, cons-append}
use text.Mathlib.TextEquality.{Char-path}
use nora_fleet.Common.{
  ℕ, String, ◌≡◌, refl, sym, ap, ◌∙◌, ◌⊎◌, inl, inr, true, Bool-cases, Option-cases, Option, none,
  some, List, [], ◌∷◌, nat_eq, Value, Fields, null, str, num, bool, arr, obj, some_inj, >>=-eq-some,
  arith,
}
use nora_fleet.Messages.Json.{
  after_prefix, before_first, before_last, split_first, split_last, Match, search_block, delimiters,
  block_of, extract_delimited_block, dictionary_of, load_block, parse_json,
}

nat_eq-eq : (a b : ℕ) → nat_eq a b ≡ true → a ≡ b
nat_eq-eq a b e = ground arith

after_prefix-append : (p s rest : String) → after_prefix p s ≡ some rest → Text.◌++◌ p rest ≡ s
unfolding after_prefix
after_prefix-append Text.[] s rest e = nil-append rest ∙ sym (some_inj e)
after_prefix-append (Text.◌∷◌ p ps) Text.[] rest e = cc
after_prefix-append (Text.◌∷◌ p ps) (Text.◌∷◌ c s) rest e =
    elim (Bool-cases (nat_eq (code p) (code c))) [
      | inr other ↦ absurd (cc (rw other at e))
      | inl same ↦ rw (Char-path p c (nat_eq-eq (code p) (code c) same)) (
          cons-append c ps rest
          ∙ ap (λ t. Text.◌∷◌ c t) (after_prefix-append ps s rest (rw same at e)))
    ]

-- A delimiter found in a text stands between its two parts.
abbrev pub Joins : String → String → String × String → Type 0
Joins mark text parts = Text.◌++◌ parts.0 (Text.◌++◌ mark parts.1) ≡ text

before_first-Joins :
    (mark : String) (c : Char) (s : String) (here : Option String)
    (later : Option (String × String)) (parts : String × String)
    → ((rest : String) → here ≡ some rest → Text.◌++◌ mark rest ≡ Text.◌∷◌ c s)
    → ((found : String × String) → later ≡ some found → Joins mark s found)
    → before_first c here later ≡ some parts
    → Joins mark (Text.◌∷◌ c s) parts
before_first-Joins mark c s (some rest) later parts h k e =
    rw (← some_inj e, nil-append) (h rest refl)
before_first-Joins mark c s none none parts h k e = cc
before_first-Joins mark c s none (some found) parts h k e =
    rw (← some_inj e, cons-append) (ap (λ t. Text.◌∷◌ c t) (k found refl))

before_last-Joins :
    (mark : String) (c : Char) (s : String) (here : Option String)
    (later : Option (String × String)) (parts : String × String)
    → ((rest : String) → here ≡ some rest → Text.◌++◌ mark rest ≡ Text.◌∷◌ c s)
    → ((found : String × String) → later ≡ some found → Joins mark s found)
    → before_last c here later ≡ some parts
    → Joins mark (Text.◌∷◌ c s) parts
before_last-Joins mark c s here (some found) parts h k e =
    rw (← some_inj e, cons-append) (ap (λ t. Text.◌∷◌ c t) (k found refl))
before_last-Joins mark c s (some rest) none parts h k e =
    rw (← some_inj e, nil-append) (h rest refl)
before_last-Joins mark c s none none parts h k e = cc

split_first-Joins :
    (mark text : String) (parts : String × String)
    → split_first mark text ≡ some parts
    → Joins mark text parts
unfolding split_first
split_first-Joins mark Text.[] parts e = cc
split_first-Joins mark (Text.◌∷◌ c s) parts e =
    before_first-Joins mark c s (after_prefix mark (Text.◌∷◌ c s)) (split_first mark s) parts
      (after_prefix-append mark (Text.◌∷◌ c s)) (split_first-Joins mark s) e

split_last-Joins :
    (mark text : String) (parts : String × String)
    → split_last mark text ≡ some parts
    → Joins mark text parts
unfolding split_last
split_last-Joins mark Text.[] parts e = cc
split_last-Joins mark (Text.◌∷◌ c s) parts e =
    before_last-Joins mark c s (after_prefix mark (Text.◌∷◌ c s)) (split_last mark s) parts
      (after_prefix-append mark (Text.◌∷◌ c s)) (split_last-Joins mark s) e

-- The parts of a match, put together with the delimiters.
abbrev pub whole : String → String → Match → String
whole start end_mark m =
    Text.◌++◌ m.before (Text.◌++◌ start (Text.◌++◌ m.inside (Text.◌++◌ end_mark m.after)))

search_block-whole :
    (start end_mark text : String) (m : Match)
    → search_block start end_mark text ≡ some m
    → whole start end_mark m ≡ text
unfolding search_block
search_block-whole start end_mark text m e =
    let (outer, p, e') = >>=-eq-some (split_first start text) _ e in
    let (inner, q, e'') = >>=-eq-some (split_last end_mark outer.1) _ e' in
    let inside = split_last-Joins end_mark outer.1 inner q in
    rw (← some_inj e'', inside) (split_first-Joins start text outer p)

abbrev pub Among : String × String → List (String × String) → Type 0
Among pair [] = ⊥
Among pair (x ∷ xs) = (pair ≡ x) ⊎ Among pair xs

extract-block :
    (text : String) (pairs : List (String × String)) (block : String × String)
    → extract_delimited_block text pairs ≡ some block
    → (start : String) × (end_mark : String) × (m : Match) × Among (start, end_mark) pairs
      × (whole start end_mark m ≡ text)
      × (block ≡ block_of start end_mark m)
unfolding extract_delimited_block
extract-block text [] block e = cc
extract-block text ((start, end_mark) ∷ rest) block e =
    elim (Option-cases (search_block start end_mark text)) [
      | inr (m, p) ↦ (
        start,
        end_mark,
        m,
        inl refl,
        search_block-whole start end_mark text m p,
        sym (some_inj (rw (p, extract_delimited_block) at e)),
      )
      | inl p ↦
          let (s, t, m, among, joined, same) =
            extract-block text rest block (rw (p, extract_delimited_block) at e) in
          (s, t, m, inr among, joined, same)
    ]

dictionary_of-loaded :
    (o : Option Value) (remainder : String) (found : Fields × String)
    → dictionary_of o remainder ≡ some found
    → (o ≡ some (obj found.0)) × (remainder ≡ found.1)
unfolding dictionary_of
dictionary_of-loaded (some (obj fields)) remainder found e =
    let same = some_inj e in (ap (λ p. some (obj p.0)) same, ap (λ p. p.1) same)
dictionary_of-loaded none remainder found e = cc
dictionary_of-loaded (some null) remainder found e = cc
dictionary_of-loaded (some (str s)) remainder found e = cc
dictionary_of-loaded (some (num n)) remainder found e = cc
dictionary_of-loaded (some (bool b)) remainder found e = cc
dictionary_of-loaded (some (arr vs)) remainder found e = cc

-- Where a structure is found in a text, the text is a beginning, a block between a pair of
-- delimiters, and an end: the structure is what the JSON parser reads in the block, without the
-- whitespace around it, and the remainder is the beginning and the end, without the whitespace around
-- both.
pub parse_json_lem :
    (loads : String → Option Value) (text : String) (found : Fields × String)
    → parse_json loads (str text) ≡ some (some found)
    → (start : String) × (end_mark : String) × (m : Match) × Among (start, end_mark) delimiters
      × (whole start end_mark m ≡ text)
      × (loads (block_of start end_mark m).0 ≡ some (obj found.0))
      × (found.1 ≡ (block_of start end_mark m).1)
unfolding parse_json load_block
parse_json_lem loads text found e = elim (Option-cases (extract_delimited_block text delimiters)) [
  | inl p ↦ absurd (cc (some_inj (rw (p, load_block) at e)))
  | inr (block, p) ↦
      let (loaded, rest) =
        dictionary_of-loaded (loads block.0) block.1 found (some_inj (rw (p, load_block) at e)) in
      let (start, end_mark, m, among, joined, same) = extract-block text delimiters block p in
      (start, end_mark, m, among, joined, rw same at loaded, sym rest ∙ ap (λ b. b.1) same)
]
