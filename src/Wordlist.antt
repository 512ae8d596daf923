-- ===== src/Wordlist.antt =====
-- The PGP words of common/wordlist.py, by which the operators compare digests aloud.
pub mod Low
pub mod High
pub mod Unambiguous
use Low.{words_low}
use High.{words_high}
use sam_ken_x_dnssec_keytool.Prelude.{
  ℕ, zero, suc, ◌<◌, ◌≡◌, refl, Bool, true, false, not, Option, none, some, String, List, [], ◌∷◌,
  ◌++◌, map, arith, get_elem?, length, All, if◌then◌else◌,
}
use sam_ken_x_dnssec_keytool.Prelude.Equal.{Eq, string_eq, ◌==◌, ==_iff}
use sam_ken_x_dnssec_keytool.Outcome.{Result, ok, raise, ◌>>=◌, require, index_error}
use sam_ken_x_dnssec_keytool.Data.{Bytes}

unfoldable pub words : List (String × String)
unfolding words_low words_high
words = words_low ++ words_high

abbrev pub pick : Bool → String × String → String
pick odd (first, second) = if odd then second else first

-- `for byte in data:`, which starts with `odd = False`
unfoldable pub words_from : Bool → Bytes → Result (List String)
unfolding words
words_from odd [] = ok []
words_from odd (byte ∷ bytes) = do
  pair ← require (get_elem? words byte) index_error
  rest ← words_from (not odd) bytes
  ok (pick odd pair ∷ rest)

unfoldable pub pgp_wordlist : Bytes → Result (List String)
unfolding words_from
pgp_wordlist bytes = words_from false bytes

-- An independent reading of the words: the place of each word in its column.
abbrev pub index_of : List String → String → Option ℕ
index_of [] w = none
index_of (x ∷ xs) w = elim (w == x) [
  | true ↦ some 0
  | false ↦ elim (index_of xs w) [ none ↦ none | some i ↦ some (suc i) ]
]

abbrev pub column : Bool → List String
unfolding words
column odd = map (pick odd) words

unfoldable pub words_to_bytes : Bool → List String → Option Bytes
unfolding words
words_to_bytes odd [] = some []
words_to_bytes odd (w ∷ ws) = elim (index_of (column odd) w) [
  | none ↦ none
  | some byte ↦ elim (words_to_bytes (not odd) ws) [
    | none ↦ none
    | some bytes ↦ some (byte ∷ bytes)
  ]
]
