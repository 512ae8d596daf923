-- ===== src/Hsm/Settings/Interpolated.antt =====
-- parse_hsmconfig of misc/hsm.py: how it ends, and the variables in its settings.
use sam_ken_x_dnssec_keytool.Prelude.{
  ℕ, zero, suc, ◌≤◌, ◌≡◌, ◌⊎◌, inl, inr, refl, subst, Bool, ◌||◌, none, some, List, [], ◌∷◌, length,
  is_empty, arith, Bool-cases, Option-cases,
}
use sam_ken_x_dnssec_keytool.Prelude.Int.{ℤ, pos, ◌-ℤ◌}
use sam_ken_x_dnssec_keytool.Prelude.Equal.{nat_eq, int_eq, list_eq, ◌==◌}
use sam_ken_x_dnssec_keytool.Prelude.Dict.{Dict, set}
use sam_ken_x_dnssec_keytool.Outcome.{Exception, Result, ok, raise, value_error, runtime_error}
use sam_ken_x_dnssec_keytool.Texts.{Text, CharacterTable}
use sam_ken_x_dnssec_keytool.Hsm.Settings.Dollars.{
  dollars, dollars-length, usable-no_dollars, replace-removes, no_dollars-find_variable,
}
use sam_ken_x_dnssec_keytool.Hsm.Settings.{
  has_prefix, replace, split_line, find_variable, strip, variable, usable, interpolate, parse_line,
  parse_hsmconfig,
}

Result-cases :
    {A : Type 0} (r : Result A) → ((e : Exception) × (r ≡ raise e)) ⊎ ((a : A) × (r ≡ ok a))
Result-cases (raise e) = inl (e, refl)
Result-cases (ok a) = inr (a, refl)

module _ (characters : CharacterTable) (is_word : ℕ → Bool) where
  -- what is left has no variable
  abbrev pub IsInterpolated : Result Text → Type 0
  IsInterpolated (raise e) = Unit
  IsInterpolated (ok text) = find_variable characters is_word text ≡ none

  interpolate-ends :
      (fuel : ℕ) (res defaults : Dict Text Text) (rhs : Text)
      → dollars rhs ≤ fuel
      → (end : Result Text) × (interpolate characters is_word fuel res defaults rhs ≡ some end)
        × IsInterpolated end
  unfolding interpolate
  interpolate-ends zero res defaults rhs enough =
      let found = no_dollars-find_variable characters is_word rhs (omega arith) in
      (ok rhs, rw (interpolate, found) refl, found)
  interpolate-ends (suc fuel) res defaults rhs enough =
      elim (Option-cases (find_variable characters is_word rhs)) [
        | inl found ↦ (ok rhs, rw (interpolate, found) refl, found)
        | inr (key, found) ↦
            elim (Result-cases
              (usable characters is_word (variable characters is_word res defaults key))) [
                | inl (e, unusable) ↦ (raise e, rw (interpolate, found, unusable) refl, tt)
                | inr (val, used) ↦
                    let none_new =
                      usable-no_dollars (variable characters is_word res defaults key) val
                        characters is_word used in
                    let fewer = replace-removes characters is_word key val rhs found none_new in
                    let (end, ends, left) =
                      interpolate-ends fuel res defaults (replace zero (b'$' ∷ key) val rhs)
                        (omega arith) in
                    (end, rw (interpolate, found, used, ends) refl, left)
              ]
      ]

  -- no value of the settings has a variable left
  abbrev pub AreInterpolated : Dict Text Text → Type 0
  AreInterpolated [] = Unit
  AreInterpolated ((lhs, rhs) ∷ res) =
      (find_variable characters is_word rhs ≡ none) × AreInterpolated res

  abbrev pub HasSettings : Result (Dict Text Text) → Type 0
  HasSettings (raise e) = Unit
  HasSettings (ok res) = AreInterpolated res

  set-AreInterpolated :
      (res : Dict Text Text) (lhs rhs : Text)
      → AreInterpolated res
      → find_variable characters is_word rhs ≡ none
      → AreInterpolated (set res lhs rhs)
  unfolding set
  set-AreInterpolated [] lhs rhs all new = (new, tt)
  set-AreInterpolated ((j, w) ∷ res) lhs rhs (here, rest) new =
      ground (arith, here, rest, new, set-AreInterpolated res lhs rhs rest new)

  parse_line-ends :
      (defaults res : Dict Text Text) (line : Text)
      → AreInterpolated res
      → (end : Result (Dict Text Text)) × (parse_line characters is_word defaults res line
          ≡ some end)
        × HasSettings end
  unfolding parse_line
  parse_line-ends defaults res line all =
      elim (Bool-cases (is_empty line || has_prefix (b'#' ∷ []) line)) [
        | inl skipped ↦ (ok res, rw skipped refl, all)
        | inr read ↦ elim (Option-cases (split_line line)) [
          | inl bad ↦ (raise value_error, rw (read, bad) refl, tt)
          | inr ((lhs, rhs), found) ↦
              let (end, ends, left) =
                interpolate-ends (length rhs) res defaults rhs (dollars-length rhs) in
              elim (Result-cases end) [
                | inl (e, same) ↦ (raise e, rw (read, found, ends, same) refl, tt)
                | inr (val, same) ↦ (
                  ok (set res lhs val),
                  rw (read, found, ends, same) refl,
                  set-AreInterpolated res lhs val all (subst IsInterpolated same left),
                )
              ]
        ]
      ]

  parse_hsmconfig_from-HasSettings :
      (defaults : Dict Text Text) (max_lines : ℤ) (res : Dict Text Text) (config : List Text)
      → AreInterpolated res
      → (end : Result (Dict Text Text)) × (parse_hsmconfig characters is_word defaults max_lines res
            config
          ≡ some end)
        × HasSettings end
  unfolding parse_hsmconfig
  parse_hsmconfig_from-HasSettings defaults max_lines res [] all = (ok res, refl, all)
  parse_hsmconfig_from-HasSettings defaults max_lines res (line ∷ config) all =
      elim (Bool-cases (max_lines -ℤ pos 1 == pos 0)) [
        | inl long ↦ (raise runtime_error, rw long refl, tt)
        | inr short ↦
            let (end, ends, left) =
              parse_line-ends defaults res (strip characters is_word line) all in
            elim (Result-cases end) [
              | inl (e, same) ↦ (raise e, rw (short, ends, same) refl, tt)
              | inr (res', same) ↦
                  let (end', ends', left') =
                    parse_hsmconfig_from-HasSettings defaults (max_lines -ℤ pos 1) res' config
                      (subst HasSettings same left) in
                  (end', rw (short, ends, same, ends') refl, left')
            ]
      ]

  -- parse_hsmconfig ends on every source, whatever its variables refer to, with an exception or with
  -- settings of which none has a variable left.
  pub parse_hsmconfig-HasSettings :
      (defaults : Dict Text Text) (max_lines : ℤ) (config : List Text)
      → (end : Result (Dict Text Text)) × (parse_hsmconfig characters is_word defaults max_lines []
            config
          ≡ some end)
        × HasSettings end
  parse_hsmconfig-HasSettings defaults max_lines config =
      parse_hsmconfig_from-HasSettings defaults max_lines [] config tt
