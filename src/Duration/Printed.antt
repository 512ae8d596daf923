-- ===== src/Duration/Printed.antt =====
-- One round of `duration_to_timedelta` at what `timedelta_to_duration` prints: a number, its unit
-- and what follows.
use sam_ken_x_dnssec_keytool.Prelude.{
  ℕ, zero, suc, ◌+◌, ◌*◌, ◌/◌, ◌%◌, ◌≤◌, ◌<◌, ◌≡◌, refl, ◌∙◌, Bool, true, false, none, some, arith,
  [], ◌∷◌, length, ◌||◌,
}
use sam_ken_x_dnssec_keytool.Prelude.Int.{pos, ◌+ℤ◌}
use sam_ken_x_dnssec_keytool.Prelude.Equal.{nat_eq, ◌==◌}
use sam_ken_x_dnssec_keytool.Outcome.{ok}
use sam_ken_x_dnssec_keytool.Data.{Timedelta}
use sam_ken_x_dnssec_keytool.Texts.{Text, CharacterTable, decimal_digits, int}
use sam_ken_x_dnssec_keytool.Texts.Decimal.{
  StartsWithDigit, scan-decimal_digits, str-StartsWithDigit, decimal-digit, decimal-letter,
  int-number_letter, int-letter,
}
use sam_ken_x_dnssec_keytool.Duration.{
  add_unit, is_unit, until_newline, match_item, is_time, skip_time, add_item, duration_round,
  duration_loop,
}
use sam_ken_x_dnssec_keytool.Duration.Rounds.{loop_goes_on}

until_newline-decimal_digits :
    (fuel n : ℕ) (out : Text)
    → until_newline out ≡ out
    → until_newline (decimal_digits fuel n out) ≡ decimal_digits fuel n out
unfolding decimal_digits
until_newline-decimal_digits zero n out h = h
until_newline-decimal_digits (suc fuel) n out h =
    grind (arith, until_newline-decimal_digits fuel (n / 10) ((b'0' + n % 10) ∷ out))

no_time : (text : Text) → StartsWithDigit text → (is_time text ≡ false) × (skip_time text ≡ text)
no_time text (d, s, digit, same) =
    let differs : (b'0' + d == b'T') ≡ false = ground arith in rw (same, differs) (refl, refl)

or_false : (b : Bool) → (b || false) ≡ b
or_false true = refl
or_false false = refl

-- What comes after an item: it goes on with a letter or a number that has one, and has one line.
pub record Follows (characters : CharacterTable) (rest : Text) : Type 0 where
  pub no_seconds : int characters rest ≡ none
  pub one_line : until_newline rest ≡ rest

-- A positive number and its unit
abbrev pub item : ℕ → ℕ → Text → Text
item n unit rest = decimal_digits n n (unit ∷ rest)

abbrev pub IsUnit : ℕ → Type 0
IsUnit u = (b'A' ≤ u) × (u ≤ b'Z') × (is_unit u ≡ true)

module _ (characters : CharacterTable) where
  match_item-digit :
      (needed : Bool) (n d : ℕ) (s : Text)
      → d < 10
      → match_item characters needed n ((b'0' + d) ∷ s) ≡ match_item characters false (n * 10 + d) s
  unfolding match_item
  match_item-digit needed n d s h = rw (decimal-digit characters d h, match_item) refl

  match_item-unit :
      (n u : ℕ) (rest : Text)
      → IsUnit u
      → until_newline rest ≡ rest
      → match_item characters false n (u ∷ rest) ≡ some (n, u, rest)
  unfolding match_item
  match_item-unit n u rest (l, h, is) one_line =
      rw (decimal-letter characters u l (omega arith), match_item) (rw (is, one_line) refl)

  match_item-item :
      (n u : ℕ) (rest : Text)
      → 0 < n
      → IsUnit u
      → until_newline rest ≡ rest
      → match_item characters true 0 (item n u rest) ≡ some (n, u, rest)
  match_item-item n u rest h is one_line =
      scan-decimal_digits (match_item characters) match_item-digit n n true (u ∷ rest) h
        (omega arith)
      ∙ match_item-unit n u rest is one_line

  pub item-Follows :
      (n u : ℕ) (rest : Text)
      → 0 < n
      → IsUnit u
      → until_newline rest ≡ rest
      → Follows characters (item n u rest)
  item-Follows n u rest h (l, k, is) one_line = record {
    no_seconds = int-number_letter characters n u rest h l k;
    one_line = until_newline-decimal_digits n n (u ∷ rest) (ground (arith, one_line));
  }

  pub time-Follows : (rest : Text) → until_newline rest ≡ rest → Follows characters (b'T' ∷ rest)
  time-Follows rest one_line = record {
    no_seconds = int-letter characters b'T' rest (omega arith) (omega arith);
    one_line = ground (arith, one_line);
  }

  add_item-Follows :
      (section : Bool) (res sum : Timedelta) (n u : ℕ) (rest : Text)
      → Follows characters rest
      → add_unit section u n res ≡ ok sum
      → add_item characters section res (some (n, u, rest)) ≡ ok (section, sum, rest)
  unfolding int
  add_item-Follows section res sum n u rest f added = rw (added, f.no_seconds) refl

  -- The round at an item, and at an item after the `T`
  duration_round-item :
      (section : Bool) (res sum : Timedelta) (n u : ℕ) (rest : Text)
      → 0 < n
      → IsUnit u
      → Follows characters rest
      → add_unit section u n res ≡ ok sum
      → duration_round characters section res (item n u rest) ≡ ok (section, sum, rest)
  unfolding duration_round
  duration_round-item section res sum n u rest h is f added =
      let (no_t, whole) = no_time _ (str-StartsWithDigit n (u ∷ rest) h) in
      rw (no_t, whole, or_false section, match_item-item n u rest h is f.one_line)
        (add_item-Follows section res sum n u rest f added)

  duration_round-time :
      (res sum : Timedelta) (n u : ℕ) (rest : Text)
      → 0 < n
      → IsUnit u
      → Follows characters rest
      → add_unit true u n res ≡ ok sum
      → duration_round characters false res (b'T' ∷ item n u rest) ≡ ok (true, sum, rest)
  unfolding duration_round
  duration_round-time res sum n u rest h is f added =
      rw (match_item-item n u rest h is f.one_line) (add_item-Follows true res sum n u rest f added)

  item-length : (n u : ℕ) (rest : Text) → 0 < n → 0 < length (item n u rest)
  item-length n u rest h =
      let (d, s, digit, same) = str-StartsWithDigit n (u ∷ rest) h in rw same (omega arith)

  -- The loop goes through a text that one round takes to `rest`.
  abbrev pub LoopEnds : Bool → Timedelta → Text → Timedelta → Type 0
  unfolding duration_loop
  LoopEnds section res text sum =
      (fuel : ℕ)
      → length text ≤ fuel
      → duration_loop characters fuel section res text ≡ some (ok sum)

  LoopEnds-round :
      (section section' : Bool) (res sum total : Timedelta) (text rest : Text)
      → 0 < length text
      → duration_round characters section res text ≡ ok (section', sum, rest)
      → LoopEnds section' sum rest total
      → LoopEnds section res text total
  unfolding duration_loop
  LoopEnds-round section section' res sum total [] rest h round next = absurd (omega arith)
  LoopEnds-round section section' res sum total (c ∷ s) rest h round next =
      λ fuel enough. loop_goes_on characters section res c s fuel round enough next

  pub nothing-Follows : Follows characters []
  unfolding int
  nothing-Follows = record { no_seconds = refl; one_line = refl }

  zero_seconds :
      duration_round characters false (pos 0) (b'T' ∷ b'0' ∷ b'S' ∷ []) ≡ ok (true, pos 0, [])
  unfolding duration_round ◌+ℤ◌
  zero_seconds =
      rw
        (
          match_item-digit true 0 0 (b'S' ∷ []) (omega arith),
          match_item-unit 0 b'S' [] (omega arith, omega arith, refl) refl,
        )
        (add_item-Follows true (pos 0) (pos 0) 0 b'S' [] nothing-Follows refl)

  pub LoopEnds-no_time : LoopEnds false (pos 0) (b'T' ∷ b'0' ∷ b'S' ∷ []) (pos 0)
  unfolding duration_loop
  LoopEnds-no_time =
      LoopEnds-round false true (pos 0) (pos 0) (pos 0) (b'T' ∷ b'0' ∷ b'S' ∷ []) [] (omega arith)
        zero_seconds (λ fuel enough. refl)

  pub LoopEnds-item :
      (section : Bool) (res sum total : Timedelta) (n u : ℕ) (rest : Text)
      → 0 < n
      → IsUnit u
      → Follows characters rest
      → add_unit section u n res ≡ ok sum
      → LoopEnds section sum rest total
      → LoopEnds section res (item n u rest) total
  LoopEnds-item section res sum total n u rest h is f added next =
      LoopEnds-round section section res sum total (item n u rest) rest (item-length n u rest h)
        (duration_round-item section res sum n u rest h is f added) next

  pub LoopEnds-time :
      (res sum total : Timedelta) (n u : ℕ) (rest : Text)
      → 0 < n
      → IsUnit u
      → Follows characters rest
      → add_unit true u n res ≡ ok sum
      → LoopEnds true sum rest total
      → LoopEnds false res (b'T' ∷ item n u rest) total
  LoopEnds-time res sum total n u rest h is f added next =
      LoopEnds-round false true res sum total (b'T' ∷ item n u rest) rest (omega arith)
        (duration_round-time res sum n u rest h is f added) next
