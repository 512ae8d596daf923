-- ===== src/Xml/Parser.antt =====
-- parse_ksr, _parse_recursively, _store_element, parse_first_element and _find_end_of_element of
-- common/xml_parser.py. `none` is a call that does not return, of which _parse_attrs is the cause.
use sam_ken_x_dnssec_keytool.Prelude.{
  ℕ, zero, suc, ◌+◌, ◌-◌, Bool, not, Option, none, some, [], ◌∷◌, ◌++◌, length, is_empty, drop,
  take, ltb, if◌then◌else◌,
}
use sam_ken_x_dnssec_keytool.Prelude.Equal.{nat_eq, list_eq, ◌==◌}
use sam_ken_x_dnssec_keytool.Prelude.Dict.{Dict}
use sam_ken_x_dnssec_keytool.Outcome.{Result, ok, raise, value_error, index_error}
use sam_ken_x_dnssec_keytool.Texts.{Text, CharacterTable}
use sam_ken_x_dnssec_keytool.Hsm.Settings.{has_prefix, strip}
use sam_ken_x_dnssec_keytool.Xml.{
  Value, text, nested, with_attrs, several, Values, no_values, value, Elements, no_elements,
  element, XmlElement,
}
use sam_ken_x_dnssec_keytool.Xml.Attributes.{parse_tag}

-- `text.index(sub)`, with `none` for ValueError
unfoldable pub index : Text → Text → Option ℕ
index sub [] = if is_empty sub then some 0 else none
index sub (c ∷ s) =
    let later : Option ℕ = elim (index sub s) [ none ↦ none | some n ↦ some (suc n) ] in
    if has_prefix sub (c ∷ s) then some 0 else later

-- `text.index(sub, start)`
abbrev pub index_from : Text → Text → ℕ → Option ℕ
unfolding index
index_from sub xml start = elim (index sub (drop start xml)) [
  | none ↦ none
  | some n ↦ some (start + n)
]

-- `</name>`, `<name>`, `<name `
abbrev pub end_tag : Text → Text
end_tag name = b'<' ∷ b'/' ∷ name ++ b'>' ∷ []

abbrev pub start_tag : Text → ℕ → Text
start_tag name last = b'<' ∷ name ++ last ∷ []

abbrev pub or_same : ℕ → Option ℕ → ℕ
or_same end_idx none = end_idx
or_same end_idx (some later) = later

-- one tag of the loop: an element of the same name inside moves the end to the next one
abbrev pub skip_nested : Text → Text → Text → ℕ → ℕ
unfolding index
skip_nested xml tag nested_tag end_idx = elim (index nested_tag xml) [
  | none ↦ end_idx
  | some zero ↦ end_idx
  | some (suc inner_idx) ↦
      if ltb (suc inner_idx) end_idx
      then or_same end_idx (index_from tag xml (end_idx + length tag))
      else end_idx
]

unfoldable pub find_end_of_element : Text → ℕ → Text → Result (ℕ × ℕ)
unfolding index
find_end_of_element xml start_idx name =
    let tag = end_tag name in
    elim (index_from tag xml start_idx) [
      | none ↦ raise value_error
      | some found ↦
          let outside = skip_nested xml tag (start_tag name b'>') found in
          let end_idx = skip_nested xml tag (start_tag name b' ') outside in
          ok (end_idx, end_idx + length tag)
    ]

-- `res[element.name]`, where the name is in the dictionary already
abbrev pub append_value : Values → Value → Values
append_value no_values v = value v no_values
append_value (value w vs) v = value w (append_value vs v)

abbrev pub add_value : Value → Value → Value
add_value (several vs) v = several (append_value vs v)
add_value (text s) v = several (value (text s) (value v no_values))
add_value (nested es) v = several (value (nested es) (value v no_values))
add_value (with_attrs attrs w) v = several (value (with_attrs attrs w) (value v no_values))

unfoldable pub store : Text → Value → Elements → Elements
store name v no_elements = element name v no_elements
store name v (element key w res) =
    if key == name then element key (add_value w v) res else element key w (store name v res)

-- the value with the attributes, if the element has any
abbrev pub attributed : Option (Dict Text Text) → Value → Value
attributed none v = v
attributed (some attrs) v = with_attrs attrs v

abbrev pub store_element : Text → Option (Dict Text Text) → Value → Elements → Elements
unfolding store
store_element name attrs v res = store name (attributed attrs v) res

module _ (characters : CharacterTable) (is_word : ℕ → Bool) where
  -- after the tag, with the end of the element found
  abbrev pub element_at :
      Text → Text → Option (Dict Text Text) → ℕ → Result (ℕ × ℕ) → Result (XmlElement × ℕ)
  element_at xml name attrs value_start (raise e) = raise e
  element_at xml name attrs value_start (ok (value_end, element_end_idx)) =
      let content = take (value_end - value_start) (drop value_start xml) in
      ok (
        record { name = name; attrs = attrs; value = strip characters is_word content },
        element_end_idx,
      )

  -- `xml[tag_end - 2 : tag_end] == "/>"`
  abbrev pub is_closed : Text → ℕ → Bool
  is_closed xml tag_end = take 2 (drop (tag_end - 2) xml) == (b'/' ∷ b'>' ∷ [])

  unfoldable pub parse_first_element : Text → Option (Result (XmlElement × ℕ))
  unfolding parse_tag find_end_of_element
  parse_first_element xml = elim (parse_tag characters is_word xml) [
    | none ↦ none
    | some (raise e) ↦ some (raise e)
    | some (ok (name, attrs, tag_end)) ↦
        if is_closed xml tag_end
        then some (ok (record { name = name; attrs = attrs; value = [] }, tag_end))
        else some (element_at xml name attrs tag_end (find_end_of_element xml tag_end name))
  ]

  -- The value of an element is parsed again where it starts with `<`; `recurse` parses it.
  abbrev pub element_value : (Text → Option (Result Elements)) → Text → Option (Result Value)
  element_value recurse [] = some (ok (text []))
  element_value recurse (c ∷ s) =
      if c == b'<'
      then elim (recurse (c ∷ s)) [
        | none ↦ none
        | some (raise e) ↦ some (raise e)
        | some (ok res) ↦ some (ok (nested res))
      ]
      else some (ok (text (c ∷ s)))

  -- the body of `while xml:`: the dictionary and what is left of the text
  abbrev pub parse_round :
      (Text → Option (Result Elements)) → Text → Elements → Option (Result (Elements × Text))
  unfolding parse_first_element store
  parse_round recurse [] res = some (raise index_error)
  parse_round recurse (c ∷ s) res =
      if not (c == b'<') then some (raise value_error) else elim (parse_first_element (c ∷ s)) [
        | none ↦ none
        | some (raise e) ↦ some (raise e)
        | some (ok (found, end_idx)) ↦ elim (element_value recurse found.value) [
          | none ↦ none
          | some (raise e) ↦ some (raise e)
          | some (ok v) ↦
              some (ok (store_element found.name found.attrs v res, drop end_idx (c ∷ s)))
        ]
      ]

  unfoldable pub parse_elements :
      (Text → Option (Result Elements)) → ℕ → Text → Elements → Option (Result Elements)
  unfolding parse_first_element store
  parse_elements recurse fuel [] res = some (ok res)
  parse_elements recurse zero (c ∷ s) res = none
  parse_elements recurse (suc fuel) (c ∷ s) res =
      elim (parse_round recurse (strip characters is_word (c ∷ s)) res) [
        | none ↦ none
        | some (raise e) ↦ some (raise e)
        | some (ok (res', xml)) ↦ parse_elements recurse fuel xml res'
      ]

  -- _parse_recursively from an empty dictionary: a level of nesting takes one of `recurse`.
  unfoldable pub parse_recursively : ℕ → Text → Option (Result Elements)
  unfolding parse_elements
  parse_recursively zero xml =
      parse_elements (λ inner. some (raise value_error)) (length xml) xml no_elements
  parse_recursively (suc recurse) xml =
      parse_elements (λ inner. parse_recursively recurse inner) (length xml) xml no_elements

  -- "<KSR"
  abbrev pub ksr_tag : Text
  ksr_tag = b'<' ∷ b'K' ∷ b'S' ∷ b'R' ∷ []

  abbrev pub parse_ksr : Text → Option (Result Elements)
  unfolding parse_recursively index
  parse_ksr xml = elim (index ksr_tag xml) [
    | none ↦ some (raise value_error)
    | some idx ↦ parse_recursively 5 (drop idx xml)
  ]
