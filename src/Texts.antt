-- ===== src/Texts.antt =====
-- Texts as lists of code points, and Python's `int(text)` and `str(number)` in base ten.
--
-- Which code points are decimal digits or white space is the Unicode database that the interpreter
-- carries: a table, of which only the ASCII part is known.
pub mod Decimal
use sam_ken_x_dnssec_keytool.Prelude.{
  ℕ, zero, suc, ◌+◌, ◌-◌, ◌*◌, ◌/◌, ◌%◌, ◌<◌, ◌≡◌, Bool, true, false, not, ◌&&◌, ◌||◌, Option, none,
  some, List, [], ◌∷◌, leb, if◌then◌else◌,
}
use sam_ken_x_dnssec_keytool.Prelude.Int.{ℤ, pos, negsuc}
use sam_ken_x_dnssec_keytool.Prelude.Equal.{nat_eq, ◌==◌}

abbrev pub Text : Type 0
Text = List ℕ

abbrev pub ascii_decimal : ℕ → Option ℕ
ascii_decimal c = if leb b'0' c && leb c b'9' then some (c - b'0') else none

abbrev pub ascii_space : ℕ → Bool
ascii_space c = c == 32 || (leb 9 c && leb c 13) || (leb 28 c && leb c 31)

-- The database: the value of a decimal digit (category Nd), and `str.isspace`.
pub record CharacterTable : Type 0 where
  pub decimal : ℕ → Option ℕ
  pub is_space : ℕ → Bool
  pub decimal-ascii : (c : ℕ) → c < 128 → decimal c ≡ ascii_decimal c
  pub is_space-ascii : (c : ℕ) → c < 128 → is_space c ≡ ascii_space c

abbrev pub negated : ℕ → ℤ
negated zero = pos 0
negated (suc n) = negsuc n

module _ (characters : CharacterTable) where
  open characters use {decimal, is_space}

  -- White space around a number: `int` does not count the separators 28 to 31 of ASCII.
  abbrev pub is_blank : ℕ → Bool
  is_blank c = is_space c && not (leb 28 c && leb c 31)

  abbrev pub all_spaces : Text → Bool
  all_spaces [] = true
  all_spaces (c ∷ s) = is_blank c && all_spaces s

  abbrev pub skip_blanks : Text → Text
  skip_blanks [] = []
  skip_blanks (c ∷ s) = if is_blank c then skip_blanks s else c ∷ s

  -- Digits with single underscores between them, up to white space. `needed` says that the next
  -- character must be a digit.
  unfoldable pub read_digits : Bool → ℕ → Text → Option ℕ
  read_digits needed n [] = if needed then none else some n
  read_digits needed n (c ∷ s) = elim (decimal c) [
    | some d ↦ read_digits false (n * 10 + d) s
    | none ↦ elim needed [
      | true ↦ none
      | false ↦ elim (c == b'_') [
        | true ↦ read_digits true n s
        | false ↦ if all_spaces (c ∷ s) then some n else none
      ]
    ]
  ]

  abbrev pub read_unsigned : Text → Option ℕ
  read_unsigned text = read_digits true 0 text

  abbrev pub read_signed : Text → Option ℤ
  read_signed [] = none
  read_signed (c ∷ s) =
      if c == b'-'
      then elim (read_unsigned s) [ some n ↦ some (negated n) | none ↦ none ]
      else if c == b'+'
      then elim (read_unsigned s) [ some n ↦ some (pos n) | none ↦ none ]
      else elim (read_unsigned (c ∷ s)) [ some n ↦ some (pos n) | none ↦ none ]

  abbrev pub skip_spaces : Text → Text
  skip_spaces [] = []
  skip_spaces (c ∷ s) = if is_space c then skip_spaces s else c ∷ s

  -- `int(text)`, where `none` is the ValueError
  unfoldable pub int : Text → Option ℤ
  unfolding read_digits
  int text = read_signed (skip_blanks text)

-- The digits of `n`, the most significant first, in front of `out`.
unfoldable pub decimal_digits : ℕ → ℕ → Text → Text
decimal_digits zero n out = out
decimal_digits (suc fuel) n out = elim (n == 0) [
  | true ↦ out
  | false ↦ decimal_digits fuel (n / 10) ((b'0' + n % 10) ∷ out)
]

-- `str(n)`: a number has at most as many digits as its value, so the fuel is enough.
unfoldable pub str : ℕ → Text
unfolding decimal_digits
str n = if n == 0 then b'0' ∷ [] else decimal_digits n n []
