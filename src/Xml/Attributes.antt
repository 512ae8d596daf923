-- ===== src/Xml/Attributes.antt =====
-- _parse_tag and _parse_attrs of common/xml_parser.py.
use sam_ken_x_dnssec_keytool.Prelude.{
  ℕ, zero, suc, ◌+◌, Bool, ◌&&◌, Option, none, some, [], ◌∷◌, length, is_empty, drop, if◌then◌else◌,
}
use sam_ken_x_dnssec_keytool.Prelude.Equal.{nat_eq, list_eq, ◌==◌}
use sam_ken_x_dnssec_keytool.Prelude.Dict.{Dict, set}
use sam_ken_x_dnssec_keytool.Outcome.{Result, ok, raise, value_error}
use sam_ken_x_dnssec_keytool.Texts.{Text, CharacterTable, skip_spaces}
use sam_ken_x_dnssec_keytool.Duration.{until_newline}
use sam_ken_x_dnssec_keytool.Hsm.Settings.{word, strip}

-- a character in front of the text that a match gives
abbrev pub before : ℕ → Option (Text × Text) → Option (Text × Text)
before c none = none
before c (some (s, rest)) = some (c ∷ s, rest)

-- `.+?"`: the text up to the quote, and what follows the quote; no newline is in it
abbrev pub until_quote : Text → Option (Text × Text)
until_quote [] = none
until_quote (c ∷ s) =
    let later = before c (until_quote s) in
    if c == b'"' then some ([], s) else if c == 10 then none else later

-- `.+?` takes a character, even a quote, before it looks for one.
abbrev pub quoted : Text → Option (Text × Text)
quoted [] = none
quoted (c ∷ s) = if c == 10 then none else before c (until_quote s)

-- `="`
abbrev pub skip_assign : Text → Option Text
skip_assign (e ∷ q ∷ s) = if e == b'=' && q == b'"' then some s else none
skip_assign (e ∷ []) = none
skip_assign [] = none

-- `(/*)>`, how many slashes
abbrev pub slashes_end : Text → Option ℕ
slashes_end [] = none
slashes_end (c ∷ s) =
    let later : Option ℕ = elim (slashes_end s) [ none ↦ none | some n ↦ some (suc n) ] in
    if c == b'>' then some 0 else if c == b'/' then later else none

-- `(.*?)(/*)>`: the shortest text without a newline, and how many slashes follow it
abbrev pub until_end : Text → Option (Text × ℕ)
until_end [] = none
until_end (c ∷ s) =
    let later : Option (Text × ℕ) = elim (until_end s) [
      | none ↦ none
      | some (t, n) ↦ some (c ∷ t, n)
    ] in
    elim (slashes_end (c ∷ s)) [ some n ↦ some ([], n) | none ↦ if c == 10 then none else later ]

-- `(.+?)(/*)>`
abbrev pub attributes_end : Text → Option (Text × ℕ)
attributes_end [] = none
attributes_end (c ∷ s) =
    if c == 10 then none else elim (until_end s) [ none ↦ none | some (t, n) ↦ some (c ∷ t, n) ]

module _ (characters : CharacterTable) (is_word : ℕ → Bool) where
  open characters use {is_space}

  -- `^(\w+)="(.+?)"\s*(.*)`: the name, the value and the rest
  abbrev pub match_value : Text → Option Text → Option (Text × Text × Text)
  match_value name none = none
  match_value name (some s) = elim (quoted s) [
    | none ↦ none
    | some (val, rest) ↦ some (name, val, until_newline (skip_spaces characters rest))
  ]

  abbrev pub match_attribute : Text → Option (Text × Text × Text)
  match_attribute attrs =
      let name = word characters is_word attrs in
      if is_empty name then none else match_value name (skip_assign (drop (length name) attrs))

  -- `while attrs:`; where nothing matches the text does not change and the loop goes on for ever,
  -- which is `none` here
  unfoldable pub parse_attrs : ℕ → Dict Text Text → Text → Option (Dict Text Text)
  unfolding set
  parse_attrs fuel res [] = some res
  parse_attrs zero res (c ∷ s) = none
  parse_attrs (suc fuel) res (c ∷ s) = elim (match_attribute (strip characters is_word (c ∷ s))) [
    | some (name, val, attrs) ↦ parse_attrs fuel (set res name val) attrs
    | none ↦ parse_attrs fuel res (strip characters is_word (c ∷ s))
  ]

  -- `(\s+?)(.+?)(/*)>`: the fewest spaces with which the rest matches; their number, the attributes
  -- and the number of slashes
  abbrev pub spaces_then : Text → Option (ℕ × Text × ℕ)
  spaces_then [] = none
  spaces_then (c ∷ s) =
      let more : Option (ℕ × Text × ℕ) = elim (spaces_then s) [
        | none ↦ none
        | some (ws, s', n) ↦ some (suc ws, s', n)
      ] in
      if is_space c
      then elim (attributes_end s) [ some (s', n) ↦ some (1, s', n) | none ↦ more ]
      else none

  -- What _parse_tag returns: the name, the attributes and the index of what follows. `none` is a call
  -- that does not return.
  abbrev pub with_attributes :
      Text → ℕ × Text × ℕ → Option (Result (Text × Option (Dict Text Text) × ℕ))
  unfolding parse_attrs
  with_attributes name (ws, attrs, slashes) = elim (parse_attrs (suc (length attrs)) [] attrs) [
    | none ↦ none
    | some res ↦ some (ok (name, some res, length name + ws + length attrs + slashes + 2))
  ]

  -- `<(\w+)>`
  abbrev pub without_attributes : Text → Text → Option (Result (Text × Option (Dict Text Text) × ℕ))
  without_attributes name [] = some (raise value_error)
  without_attributes name (c ∷ s) =
      if c == b'>' then some (ok (name, none, length name + 2)) else some (raise value_error)

  -- the tag after its `<`, of which the name is not empty
  abbrev pub parse_named : Text → Text → Option (Result (Text × Option (Dict Text Text) × ℕ))
  unfolding parse_attrs
  parse_named [] rest = some (raise value_error)
  parse_named (c ∷ s) rest = elim (spaces_then rest) [
    | some found ↦ with_attributes (c ∷ s) found
    | none ↦ without_attributes (c ∷ s) rest
  ]

  unfoldable pub parse_tag : Text → Option (Result (Text × Option (Dict Text Text) × ℕ))
  unfolding parse_attrs
  parse_tag [] = some (raise value_error)
  parse_tag (c ∷ s) =
      let name = word characters is_word s in
      if c == b'<' then parse_named name (drop (length name) s) else some (raise value_error)
