-- ===== src/Xml/Stuck.antt =====
-- Texts that the loop of _parse_attrs of common/xml_parser.py does not leave.
use sam_ken_x_dnssec_keytool.Prelude.{
  ℕ, zero, suc, ◌≡◌, refl, Bool, none, [], ◌∷◌, is_empty, false, arith,
}
use sam_ken_x_dnssec_keytool.Prelude.Equal.{nat_eq, list_eq}
use sam_ken_x_dnssec_keytool.Prelude.Dict.{Dict}
use sam_ken_x_dnssec_keytool.Texts.{Text, CharacterTable, skip_spaces}
use sam_ken_x_dnssec_keytool.Hsm.Settings.{drop_end, strip}
use sam_ken_x_dnssec_keytool.Xml.Attributes.{match_attribute, parse_attrs}

module _ (characters : CharacterTable) (is_word : ℕ → Bool) where
  drop_end-drop_end :
      (s : Text)
      → drop_end characters is_word (drop_end characters is_word s) ≡ drop_end characters is_word s
  drop_end-drop_end [] = refl
  drop_end-drop_end (c ∷ s) = ground (arith, drop_end-drop_end s)

  -- what is stripped starts with no space
  skip_spaces-strip :
      (s : Text) → skip_spaces characters (strip characters is_word s) ≡ strip characters is_word s
  skip_spaces-strip [] = refl
  skip_spaces-strip (c ∷ s) = ground (arith, skip_spaces-strip s)

  strip-strip :
      (s : Text)
      → strip characters is_word (strip characters is_word s) ≡ strip characters is_word s
  strip-strip s = rw (skip_spaces-strip s) (drop_end-drop_end (skip_spaces characters s))

  -- A text that is not empty once it is stripped, and that does not match, is never left: the loop does
  -- not end, whatever its fuel.
  pub parse_attrs-hangs :
      (fuel : ℕ) (res : Dict Text Text) (attrs : Text)
      → is_empty (strip characters is_word attrs) ≡ false
      → match_attribute characters is_word (strip characters is_word attrs) ≡ none
      → parse_attrs characters is_word fuel res attrs ≡ none
  unfolding parse_attrs
  parse_attrs-hangs fuel res [] something unmatched = absurd (cc)
  parse_attrs-hangs zero res (c ∷ s) something unmatched = refl
  parse_attrs-hangs (suc fuel) res (c ∷ s) something unmatched =
      let same = strip-strip (c ∷ s) in
      let later =
        parse_attrs-hangs fuel res (strip characters is_word (c ∷ s)) (rw same something)
          (rw same unmatched) in
      rw (parse_attrs, unmatched) later
