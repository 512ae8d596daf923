-- ===== src/Tests/Parsing.antt =====
-- Runs of the parser of common/xml_parser.py.
use sam_ken_x_dnssec_keytool.Prelude.{
  arith, ◌⊎◌, ℕ, ◌≡◌, refl, Bool, ◌||◌, ◌&&◌, leb, none, some, [], ◌∷◌,
}
use sam_ken_x_dnssec_keytool.Prelude.Equal.{nat_eq, ◌==◌}
use sam_ken_x_dnssec_keytool.Outcome.{Result, ok, raise, value_error}
use sam_ken_x_dnssec_keytool.Texts.{Text, CharacterTable, ascii_decimal, ascii_space}
use sam_ken_x_dnssec_keytool.Hsm.Settings.{parse_hsmconfig}
use sam_ken_x_dnssec_keytool.Hsm.Settings.Interpolated.{HasSettings, parse_hsmconfig-HasSettings}
use sam_ken_x_dnssec_keytool.Prelude.Int.{pos}
use sam_ken_x_dnssec_keytool.Xml.{
  Value, text, nested, with_attrs, several, no_values, value, no_elements, element,
}
use sam_ken_x_dnssec_keytool.Xml.Attributes.{parse_attrs}
use sam_ken_x_dnssec_keytool.Xml.Progress.{parse_attrs-returns}
use sam_ken_x_dnssec_keytool.Prelude.Dict.{Dict}
use sam_ken_x_dnssec_keytool.Xml.Parser.{parse_ksr, parse_recursively}

abbrev characters : CharacterTable
characters = record {
  decimal = ascii_decimal;
  is_space = ascii_space;
  decimal-ascii = λ c h. refl;
  is_space-ascii = λ c h. refl;
}

abbrev is_word : ℕ → Bool
is_word c =
    (leb b'0' c && leb c b'9')
    || (leb b'A' c && leb c b'Z')
    || (leb b'a' c && leb c b'z')
    || c == b'_'

-- <?x?><KSR id="k">\n<R><S a="b" /><S a="c"/><T>1</T></R></KSR>\n
abbrev document : Text
document =
    b'<' ∷ b'?' ∷ b'x' ∷ b'?' ∷ b'>' ∷ b'<' ∷ b'K' ∷ b'S' ∷ b'R' ∷ b' ' ∷ b'i' ∷ b'd' ∷ b'=' ∷ 34
    ∷ b'k' ∷ 34 ∷ b'>' ∷ 10 ∷ b'<' ∷ b'R' ∷ b'>' ∷ b'<' ∷ b'S' ∷ b' ' ∷ b'a' ∷ b'=' ∷ 34 ∷ b'b' ∷ 34
    ∷ b' ' ∷ b'/' ∷ b'>' ∷ b'<' ∷ b'S' ∷ b' ' ∷ b'a' ∷ b'=' ∷ 34 ∷ b'c' ∷ 34 ∷ b'/' ∷ b'>' ∷ b'<'
    ∷ b'T' ∷ b'>' ∷ b'1' ∷ b'<' ∷ b'/' ∷ b'T' ∷ b'>' ∷ b'<' ∷ b'/' ∷ b'R' ∷ b'>' ∷ b'<' ∷ b'/'
    ∷ b'K' ∷ b'S' ∷ b'R' ∷ b'>' ∷ 10 ∷ []

abbrev signer : ℕ → Value
signer c = with_attrs ((b'a' ∷ [], c ∷ []) ∷ []) (text [])

-- Elements of one name are a list, and closed ones have an empty value.
parse_document :
    parse_ksr characters is_word document
    ≡ some (
        ok (
          element
            (b'K' ∷ b'S' ∷ b'R' ∷ [])
            (with_attrs ((b'i' ∷ b'd' ∷ [], b'k' ∷ []) ∷ []) (
              nested (
                element
                  (b'R' ∷ [])
                  (nested (
                    element
                      (b'S' ∷ [])
                      (several (value (signer b'b') (value (signer b'c') no_values)))
                      (element (b'T' ∷ []) (text (b'1' ∷ [])) no_elements)))
                  no_elements)))
            no_elements))
unfolding parse_recursively
parse_document = refl

-- A level of nesting more than permitted is refused.
deep_document_is_refused :
    parse_recursively characters is_word 1 (
      b'<' ∷ b'a' ∷ b'>' ∷ b'<' ∷ b'b' ∷ b'>' ∷ b'<' ∷ b'c' ∷ b'>' ∷ b'1' ∷ b'<' ∷ b'/' ∷ b'c'
      ∷ b'>' ∷ b'<' ∷ b'/' ∷ b'b' ∷ b'>' ∷ b'<' ∷ b'/' ∷ b'a' ∷ b'>' ∷ [])
    ≡ some (raise value_error)
unfolding parse_recursively
deep_document_is_refused = refl

-- An attribute without quotes keeps the loop of _parse_attrs where it is.
attribute_without_quotes :
    parse_attrs characters is_word 50 [] (b'i' ∷ b'd' ∷ b'=' ∷ b'3' ∷ []) ≡ none
unfolding parse_attrs
attribute_without_quotes = refl

-- A variable is replaced by the value of an earlier line.
parse_settings :
    parse_hsmconfig characters is_word []
      (pos 100)
      []
      ((b'A' ∷ b'=' ∷ b'x' ∷ []) ∷ (b' ' ∷ b'B' ∷ b'=' ∷ b'/' ∷ b'$' ∷ b'A' ∷ b'/' ∷ []) ∷ [])
    ≡ some (ok ((b'A' ∷ [], b'x' ∷ []) ∷ (b'B' ∷ [], b'/' ∷ b'x' ∷ b'/' ∷ []) ∷ []))
unfolding parse_hsmconfig
parse_settings = refl

-- `a="b" c=d`
abbrev half_quoted : Text
half_quoted = b'a' ∷ b'=' ∷ 34 ∷ b'b' ∷ 34 ∷ b' ' ∷ b'c' ∷ b'=' ∷ b'd' ∷ []

parse_attrs-returns_example :
    ((found : Dict Text Text) × (parse_attrs characters is_word 10 [] half_quoted ≡ some found))
    ⊎ ((more : ℕ) → parse_attrs characters is_word more [] half_quoted ≡ none)
parse_attrs-returns_example = parse_attrs-returns characters is_word 10 [] half_quoted (omega arith)

parse_hsmconfig-HasSettings_example :
    (end : Result (Dict Text Text)) × (parse_hsmconfig characters is_word []
        (pos 100)
        []
        (half_quoted ∷ (b'B' ∷ b'=' ∷ b'$' ∷ b'a' ∷ []) ∷ [])
      ≡ some end)
    × HasSettings characters is_word end
parse_hsmconfig-HasSettings_example =
    parse_hsmconfig-HasSettings characters is_word [] (pos 100)
      (half_quoted ∷ (b'B' ∷ b'=' ∷ b'$' ∷ b'a' ∷ []) ∷ [])
