-- ===== src/Duration.antt =====
-- Durations: `duration_to_timedelta` of common/parse_utils.py and `timedelta_to_duration` of
-- skr/output.py. A timedelta is a number of microseconds; Python keeps it below 10⁹ days.
pub mod Rounds
pub mod Printed
pub mod RoundTrip
use sam_ken_x_dnssec_keytool.Prelude.{
  ℕ, zero, suc, ◌+◌, ◌-◌, ◌*◌, ◌/◌, ◌%◌, ◌≡◌, refl, Bool, true, false, ◌&&◌, ◌||◌, Option, none,
  some, List, [], ◌∷◌, ◌++◌, leb, ltb, length, if◌then◌else◌,
}
use sam_ken_x_dnssec_keytool.Prelude.Int.{ℤ, pos, negsuc, ◌+ℤ◌, leb_ℤ}
use sam_ken_x_dnssec_keytool.Prelude.Equal.{nat_eq, int_eq, ◌==◌}
use sam_ken_x_dnssec_keytool.Outcome.{
  Result, ok, raise, ◌>>=◌, value_error, not_implemented_error, overflow_error,
}
use sam_ken_x_dnssec_keytool.Data.{Timedelta}
use sam_ken_x_dnssec_keytool.Texts.{Text, CharacterTable, int, str, read_digits, decimal_digits}

abbrev pub second : ℕ
second = 1000000

abbrev pub minute : ℕ
minute = 60000000

abbrev pub hour : ℕ
hour = 3600000000

abbrev pub day : ℕ
day = 86400000000

-- 10⁹ days less a microsecond
abbrev pub timedelta_max : ℕ
timedelta_max = 86399999999999999999

abbrev pub fits_timedelta : ℤ → Bool
fits_timedelta (pos n) = leb n timedelta_max
fits_timedelta (negsuc n) = ltb n 86399999913600000000

-- A timedelta that is out of range raises OverflowError.
abbrev pub timedelta : ℤ → Result Timedelta
timedelta t = if fits_timedelta t then ok t else raise overflow_error

-- `timedelta(seconds=n)`
abbrev pub seconds_of : ℤ → ℤ
seconds_of (pos n) = pos (n * second)
seconds_of (negsuc n) = negsuc (n * second + 999999)

-- `res += t`
abbrev pub add_timedelta : Timedelta → ℤ → Result Timedelta
add_timedelta res t = timedelta t >>= λ t'. timedelta (res +ℤ t')

abbrev pub is_unit : ℕ → Bool
is_unit c = c == b'W' || c == b'D' || c == b'H' || c == b'M' || c == b'S'

-- The branches on `what`; the expression lets no other letter through.
abbrev pub add_unit : (time_section : Bool) (what num : ℕ) → Timedelta → Result Timedelta
add_unit time_section what num res =
    if what == b'W'
    then add_timedelta res (pos (7 * num * day))
    else if what == b'D'
    then add_timedelta res (pos (num * day))
    else if what == b'H'
    then add_timedelta res (pos (num * hour))
    else if what == b'M'
    then (if time_section
        then add_timedelta res (pos (num * minute))
        else raise not_implemented_error)
    else add_timedelta res (pos (num * second))

-- `.` matches no newline.
abbrev pub until_newline : Text → Text
until_newline [] = []
until_newline (c ∷ s) = if c == 10 then [] else c ∷ until_newline s

-- `if duration.startswith("T")`
abbrev pub is_time : Text → Bool
is_time [] = false
is_time (c ∷ s) = c == b'T'

abbrev pub skip_time : Text → Text
skip_time [] = []
skip_time (c ∷ s) = if c == b'T' then s else c ∷ s

-- What is left of the text may be a bare number, of seconds: `int(rest)` in the `try`.
abbrev pub add_rest : Timedelta → Text → Option ℤ → Result (Timedelta × Text)
add_rest res rest none = ok (res, rest)
add_rest res rest (some n) = do total ← add_timedelta res (seconds_of n); ok (total, [])

module _ (characters : CharacterTable) where
  open characters use {decimal}

  -- `^(\d+?)([WDHMS])(.*)`, with the value of the digits. `needed` says that a digit must come.
  unfoldable pub match_item : Bool → ℕ → Text → Option (ℕ × ℕ × Text)
  match_item needed n [] = none
  match_item needed n (c ∷ s) = elim (decimal c) [
    | some d ↦ match_item false (n * 10 + d) s
    | none ↦ elim needed [
      | true ↦ none
      | false ↦ if is_unit c then some (n, c, until_newline s) else none
    ]
  ]

  -- The loop's body, from the match on
  abbrev pub add_item : Bool → Timedelta → Option (ℕ × ℕ × Text) → Result (Bool × Timedelta × Text)
  unfolding int
  add_item section res none = raise value_error
  add_item section res (some (num, what, rest)) = do
    sum ← add_unit section what num res
    (total, left) ← add_rest sum rest (int characters rest)
    ok (section, total, left)

  unfoldable pub duration_round : Bool → Timedelta → Text → Result (Bool × Timedelta × Text)
  unfolding match_item int
  duration_round time_section res duration =
      add_item (time_section || is_time duration) res (match_item true 0 (skip_time duration))

  -- `while duration:`; `none` where the fuel is spent
  unfoldable pub duration_loop : ℕ → Bool → Timedelta → Text → Option (Result Timedelta)
  unfolding duration_round
  duration_loop fuel time_section res [] = some (ok res)
  duration_loop zero time_section res (c ∷ s) = none
  duration_loop (suc fuel) time_section res (c ∷ s) =
      elim (duration_round time_section res (c ∷ s)) [
        | raise e ↦ some (raise e)
        | ok (section, sum, rest) ↦ duration_loop fuel section sum rest
      ]

  abbrev pub after_p : Text → Option (Result Timedelta)
  unfolding duration_loop
  after_p [] = some (ok (pos 0))
  after_p (c ∷ s) =
      if c == b'P' then duration_loop (length s) false (pos 0) s else some (raise value_error)

  unfoldable pub duration_to_timedelta : Option Text → Option (Result Timedelta)
  unfolding duration_loop
  duration_to_timedelta none = some (ok (pos 0))
  duration_to_timedelta (some duration) = after_p duration

-- `td.days` and `td.seconds`: the quotient is rounded down
abbrev pub td_days : Timedelta → ℤ
td_days (pos t) = pos (t / day)
td_days (negsuc t) = negsuc (t / day)

abbrev pub td_seconds : Timedelta → ℕ
td_seconds (pos t) = t % day / second
td_seconds (negsuc t) = (day - 1 - t % day) / second

abbrev pub str_int : ℤ → Text
str_int (pos n) = str n
str_int (negsuc n) = b'-' ∷ str (suc n)

abbrev pub print_item : ℕ → ℕ → Text
print_item n unit = str n ++ unit ∷ []

-- `if _remainder:`, `if _remainder > 60:` and `if _remainder > 3600:`, each with what comes after
abbrev pub seconds_part : ℕ → Text
unfolding str
seconds_part remainder = if remainder == 0 then [] else print_item remainder b'S'

abbrev pub minutes_part : ℕ → Text
unfolding str
minutes_part remainder =
    if ltb 60 remainder
    then print_item (remainder / 60) b'M' ++ seconds_part (remainder % 60)
    else seconds_part remainder

abbrev pub hours_part : ℕ → Text
unfolding str
hours_part remainder =
    if ltb 3600 remainder
    then print_item (remainder / 3600) b'H' ++ minutes_part (remainder % 3600)
    else minutes_part remainder

-- `if td.seconds:`
unfoldable pub time_part : ℕ → Text
unfolding str
time_part seconds = if seconds == 0 then [] else b'T' ∷ hours_part seconds

unfoldable pub timedelta_to_duration : Timedelta → Text
unfolding time_part str
timedelta_to_duration td =
    if td == pos 0
    then b'P' ∷ b'T' ∷ b'0' ∷ b'S' ∷ []
    else let days = if td_days td == pos 0 then [] else str_int (td_days td) ++ b'D' ∷ [] in
      b'P' ∷ days ++ time_part (td_seconds td)
