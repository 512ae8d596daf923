-- ===== src/Hsm/Settings.antt =====
-- parse_hsmconfig of misc/hsm.py: the settings of an HSM's library, one to a line, with variables.
-- Texts are lists of code points; what `\w` matches is a parameter.
pub mod Dollars
pub mod Interpolated
use sam_ken_x_dnssec_keytool.Prelude.{
  ℕ, zero, suc, ◌-◌, Bool, true, false, ◌&&◌, ◌||◌, Option, none, some, List, [], ◌∷◌, ◌++◌, length,
  is_empty, if◌then◌else◌,
}
use sam_ken_x_dnssec_keytool.Prelude.Int.{ℤ, pos, ◌-ℤ◌}
use sam_ken_x_dnssec_keytool.Prelude.Equal.{nat_eq, int_eq, list_eq, contains, ◌==◌}
use sam_ken_x_dnssec_keytool.Prelude.Dict.{Dict, get, set}
use sam_ken_x_dnssec_keytool.Outcome.{Result, ok, raise, value_error, runtime_error}
use sam_ken_x_dnssec_keytool.Texts.{Text, CharacterTable, skip_spaces}

abbrev pub has_prefix : Text → Text → Bool
has_prefix [] s = true
has_prefix (p ∷ ps) [] = false
has_prefix (p ∷ ps) (c ∷ s) = p == c && has_prefix ps s

-- `text.replace(pattern, val)` of a pattern that is not empty; `skip` characters are part of a match
unfoldable pub replace : (skip : ℕ) (pattern val text : Text) → Text
replace skip pattern val [] = []
replace (suc skip) pattern val (c ∷ s) = replace skip pattern val s
replace zero pattern val (c ∷ s) = elim (has_prefix pattern (c ∷ s)) [
  | true ↦ val ++ replace (length pattern - 1) pattern val s
  | false ↦ c ∷ replace zero pattern val s
]

-- `line[:separator_idx]` and `line[separator_idx + 1:]`
abbrev pub split_line : Text → Option (Text × Text)
split_line [] = none
split_line (c ∷ s) =
    if c == b'='
    then some ([], s)
    else elim (split_line s) [ none ↦ none | some (lhs, rhs) ↦ some (c ∷ lhs, rhs) ]

module _ (characters : CharacterTable) (is_word : ℕ → Bool) where
  open characters use {is_space}

  abbrev pub word : Text → Text
  word [] = []
  word (c ∷ s) = if is_word c then c ∷ word s else []

  -- `re.search(r"\$(\w+)", text)`, its group
  unfoldable pub find_variable : Text → Option Text
  find_variable [] = none
  find_variable (c ∷ s) =
      let later = find_variable s in
      if c == b'$' then (if is_empty (word s) then later else some (word s)) else later

  abbrev pub drop_end : Text → Text
  drop_end [] = []
  drop_end (c ∷ s) = let rest = drop_end s in if is_space c && is_empty rest then [] else c ∷ rest

  -- `line.strip().strip("\n")`: a newline is a space too
  abbrev pub strip : Text → Text
  strip line = drop_end (skip_spaces characters line)

  -- `res.get(key, defaults.get(key))`
  abbrev pub variable : Dict Text Text → Dict Text Text → Text → Option Text
  variable res defaults key = elim (get res key) [ some val ↦ some val | none ↦ get defaults key ]

  -- the value of a variable, which is set, not empty, and has no variable itself
  abbrev pub usable : Option Text → Result Text
  usable none = raise runtime_error
  usable (some []) = raise runtime_error
  usable (some (c ∷ s)) = if contains (c ∷ s) b'$' then raise value_error else ok (c ∷ s)

  -- `while True:`, with `none` where the fuel is spent
  unfoldable pub interpolate : ℕ → Dict Text Text → Dict Text Text → Text → Option (Result Text)
  unfolding find_variable replace contains get
  interpolate zero res defaults rhs = elim (find_variable rhs) [
    | none ↦ some (ok rhs)
    | some key ↦ none
  ]
  interpolate (suc fuel) res defaults rhs = elim (find_variable rhs) [
    | none ↦ some (ok rhs)
    | some key ↦ elim (usable (variable res defaults key)) [
      | raise e ↦ some (raise e)
      | ok val ↦ interpolate fuel res defaults (replace 0 (b'$' ∷ key) val rhs)
    ]
  ]

  -- what the value of a line adds
  abbrev pub put : Dict Text Text → Text → Option (Result Text) → Option (Result (Dict Text Text))
  unfolding set
  put res lhs none = none
  put res lhs (some (raise e)) = some (raise e)
  put res lhs (some (ok val)) = some (ok (set res lhs val))

  abbrev pub put_split :
      Dict Text Text → Dict Text Text → Option (Text × Text) → Option (Result (Dict Text Text))
  unfolding interpolate set
  put_split defaults res none = some (raise value_error)
  put_split defaults res (some (lhs, rhs)) = put res lhs (interpolate (length rhs) res defaults rhs)

  -- the body of the loop, from the stripped line on; a comment or an empty line adds nothing
  unfoldable pub parse_line :
      Dict Text Text → Dict Text Text → Text → Option (Result (Dict Text Text))
  unfolding interpolate set
  parse_line defaults res line =
      if is_empty line || has_prefix (b'#' ∷ []) line
      then some (ok res)
      else put_split defaults res (split_line line)

  -- `for line in config:`, with the count of `max_lines`
  unfoldable pub parse_hsmconfig :
      Dict Text Text → ℤ → Dict Text Text → List Text → Option (Result (Dict Text Text))
  unfolding parse_line ◌-ℤ◌
  parse_hsmconfig defaults max_lines res [] = some (ok res)
  parse_hsmconfig defaults max_lines res (line ∷ config) =
      if max_lines -ℤ pos 1 == pos 0
      then some (raise runtime_error)
      else elim (parse_line defaults res (strip line)) [
        | none ↦ none
        | some (raise e) ↦ some (raise e)
        | some (ok res') ↦ parse_hsmconfig defaults (max_lines -ℤ pos 1) res' config
      ]
