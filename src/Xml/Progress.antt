-- ===== src/Xml/Progress.antt =====
-- Rounds of _parse_attrs of common/xml_parser.py: what they take of the text.
use sam_ken_x_dnssec_keytool.Prelude.{
  ℕ, zero, suc, ◌≤◌, ◌<◌, ◌≡◌, ◌⊎◌, inl, inr, refl, Bool, true, none, some, [], ◌∷◌, length,
  is_empty, drop, arith, Bool-cases, Option-cases,
}
use sam_ken_x_dnssec_keytool.Prelude.Equal.{nat_eq, list_eq}
use sam_ken_x_dnssec_keytool.Prelude.Dict.{Dict, set}
use sam_ken_x_dnssec_keytool.Texts.{Text, CharacterTable, skip_spaces}
use sam_ken_x_dnssec_keytool.Duration.{until_newline}
use sam_ken_x_dnssec_keytool.Hsm.Settings.{word, drop_end, strip}
use sam_ken_x_dnssec_keytool.Xml.Stuck.{parse_attrs-hangs}
use sam_ken_x_dnssec_keytool.Xml.Attributes.{
  until_quote, quoted, skip_assign, match_value, match_attribute, parse_attrs,
}

until_newline-length : (s : Text) → length (until_newline s) ≤ length s
until_newline-length [] = omega arith
until_newline-length (c ∷ s) = ground (arith, until_newline-length s)

drop-length : (n : ℕ) (s : Text) → length (drop n s) ≤ length s
drop-length zero s = omega arith
drop-length (suc n) [] = omega arith
drop-length (suc n) (c ∷ s) = ground (arith, drop-length n s)

until_quote-takes : (s val rest : Text) → until_quote s ≡ some (val, rest) → length rest < length s
until_quote-takes [] val rest h = absurd (cc)
until_quote-takes (c ∷ s) val rest h = elim (Option-cases (until_quote s)) [
  | inl e ↦ ground arith
  | inr ((val', rest'), e) ↦ let shorter = until_quote-takes s val' rest' e in ground arith
]

quoted-takes : (s val rest : Text) → quoted s ≡ some (val, rest) → length rest < length s
quoted-takes [] val rest h = absurd (cc)
quoted-takes (c ∷ s) val rest h = elim (Option-cases (until_quote s)) [
  | inl e ↦ ground arith
  | inr ((val', rest'), e) ↦ let shorter = until_quote-takes s val' rest' e in ground arith
]

skip_assign-takes : (s rest : Text) → skip_assign s ≡ some rest → length rest < length s
skip_assign-takes [] rest h = absurd (cc)
skip_assign-takes (e ∷ []) rest h = absurd (cc)
skip_assign-takes (e ∷ q ∷ s) rest h = ground arith

module _ (characters : CharacterTable) (is_word : ℕ → Bool) where
  skip_spaces-length : (s : Text) → length (skip_spaces characters s) ≤ length s
  skip_spaces-length [] = omega arith
  skip_spaces-length (c ∷ s) = ground (arith, skip_spaces-length s)

  drop_end-length : (s : Text) → length (drop_end characters is_word s) ≤ length s
  drop_end-length [] = omega arith
  drop_end-length (c ∷ s) = ground (arith, drop_end-length s)

  strip-length : (s : Text) → length (strip characters is_word s) ≤ length s
  strip-length s = omega (arith, skip_spaces-length s, drop_end-length (skip_spaces characters s))

  match_value-takes :
      (name name' val s rest : Text)
      → match_value characters is_word name (some s) ≡ some (name', val, rest)
      → length rest < length s
  match_value-takes name name' val s rest h = elim (Option-cases (quoted s)) [
    | inl e ↦ ground arith
    | inr ((val', rest'), e) ↦
        let shorter = quoted-takes s val' rest' e in
        let spaces = skip_spaces-length rest' in
        let line = until_newline-length (skip_spaces characters rest') in ground arith
  ]

  match_attribute-takes :
      (name val s rest : Text)
      → match_attribute characters is_word s ≡ some (name, val, rest)
      → length rest < length s
  match_attribute-takes name val s rest h =
      let key = word characters is_word s in
      let after_key = drop-length (length key) s in
      elim (Bool-cases (is_empty key)) [
        | inl none_there ↦ ground arith
        | inr there ↦ elim (Option-cases (skip_assign (drop (length key) s))) [
          | inl e ↦ ground arith
          | inr (s', e) ↦
              let assigned = skip_assign-takes (drop (length key) s) s' e in
              let taken : match_value characters is_word key (some s') ≡ some (name, val, rest) =
                ground arith in
              let value_taken = match_value-takes key name val s' rest taken in omega arith
        ]
      ]

  empty_lem : (s : Text) → is_empty s ≡ true → s ≡ []
  empty_lem [] h = refl
  empty_lem (c ∷ s) h = absurd (cc)

  never_returns-step :
      (res : Dict Text Text) (c : ℕ) (name val s rest : Text)
      → match_attribute characters is_word (strip characters is_word (c ∷ s))
        ≡ some (name, val, rest)
      → ((fuel : ℕ) → parse_attrs characters is_word fuel (set res name val) rest ≡ none)
      → (fuel : ℕ) → parse_attrs characters is_word fuel res (c ∷ s) ≡ none
  unfolding parse_attrs
  never_returns-step res c name val s rest e never zero = refl
  never_returns-step res c name val s rest e never (suc fuel) = rw (parse_attrs, e) (never fuel)

  -- With more fuel than the text is long, `parse_attrs` returns, or no fuel is enough, and the loop goes
  -- on for ever.
  pub parse_attrs-returns :
      (fuel : ℕ) (res : Dict Text Text) (attrs : Text)
      → length attrs < fuel
      → ((found : Dict Text Text) × (parse_attrs characters is_word fuel res attrs ≡ some found))
        ⊎ ((more : ℕ) → parse_attrs characters is_word more res attrs ≡ none)
  unfolding parse_attrs
  parse_attrs-returns fuel res [] enough = inl (res, refl)
  parse_attrs-returns zero res (c ∷ s) enough = absurd (omega arith)
  parse_attrs-returns (suc fuel) res (c ∷ s) enough =
      let attrs = strip characters is_word (c ∷ s) in
      elim (Option-cases (match_attribute characters is_word attrs)) [
        | inr ((name, val, rest), e) ↦
            let taken = match_attribute-takes name val attrs rest e in
            let shorter = strip-length (c ∷ s) in
            elim (parse_attrs-returns fuel (set res name val) rest (omega arith)) [
              | inl (found, ends) ↦ inl (found, rw (parse_attrs, e) ends)
              | inr never ↦ inr (never_returns-step res c name val s rest e never)
            ]
        | inl e ↦ elim (Bool-cases (is_empty attrs)) [
          | inr something ↦
              inr (λ more. parse_attrs-hangs characters is_word more res (c ∷ s) something e)
          | inl nothing ↦
              let same : strip characters is_word (c ∷ s) ≡ [] = empty_lem attrs nothing in
              inl (res, rw (parse_attrs, e, same) refl)
        ]
      ]
