-- ===== src/Duration/Rounds.antt =====
-- The rounds of the loop of `duration_to_timedelta` (common/parse_utils.py): each one shortens the
-- text, and what the loop ends with.
use sam_ken_x_dnssec_keytool.Prelude.{
  ℕ, zero, suc, ◌*◌, ◌+◌, ◌≤◌, ◌<◌, ◌≡◌, ◌⊎◌, inl, inr, refl, Bool, true, false, Option, none, some,
  arith, [], ◌∷◌, length, Bool-cases, if◌then◌else◌, subst,
}
use sam_ken_x_dnssec_keytool.Prelude.Int.{ℤ, pos, ◌+ℤ◌}
use sam_ken_x_dnssec_keytool.Prelude.Equal.{nat_eq, ◌==◌}
use sam_ken_x_dnssec_keytool.Outcome.{
  Exception, Result, ok, raise, ◌>>=◌, value_error, not_implemented_error, overflow_error,
}
use sam_ken_x_dnssec_keytool.Data.{Timedelta}
use sam_ken_x_dnssec_keytool.Texts.{Text, CharacterTable, int}
use sam_ken_x_dnssec_keytool.Duration.{
  fits_timedelta, timedelta, add_timedelta, add_unit, until_newline, match_item, skip_time,
  add_rest, add_item, duration_round, duration_loop, duration_to_timedelta, seconds_of, minute,
  hour, day, second,
}

until_newline-length : (s : Text) → length (until_newline s) ≤ length s
until_newline-length [] = omega arith
until_newline-length (c ∷ s) = ground (arith, until_newline-length s)

skip_time-length : (s : Text) → length (skip_time s) ≤ length s
skip_time-length [] = omega arith
skip_time-length (c ∷ s) = ground arith

-- ValueError, NotImplementedError or OverflowError
abbrev pub DurationError : Exception → Type 0
DurationError e = (e ≡ value_error) ⊎ (e ≡ not_implemented_error) ⊎ (e ≡ overflow_error)

-- A value with `P`, or one of the three exceptions
pub data Ends {A : Type 0} (P : A → Type 0) : Result A → Type 0 where
  ends : (a : A) → P a → Ends P (ok a)
  fails : (e : Exception) → DurationError e → Ends P (raise e)

>>=-Ends :
    {A B : Type 0} {P : A → Type 0} {Q : B → Type 0} {r : Result A} (f : A → Result B)
    → Ends P r
    → ((a : A) → P a → Ends Q (f a))
    → Ends Q (r >>= f)
>>=-Ends f (ends a p) h = h a p
>>=-Ends f (fails e d) h = fails e d

Ends-ok : {A : Type 0} {P : A → Type 0} (a : A) → Ends P (ok a) → P a
Ends-ok a (ends b p) = p

abbrev pub IsTimedelta : Timedelta → Type 0
IsTimedelta t = fits_timedelta t ≡ true

timedelta-Ends : (t : ℤ) → Ends IsTimedelta (timedelta t)
timedelta-Ends t = elim (Bool-cases (fits_timedelta t)) [
  | inl h ↦ rw h (ends t h)
  | inr h ↦ rw h (fails overflow_error (inr (inr refl)))
]

add_timedelta-Ends : (res : Timedelta) (t : ℤ) → Ends IsTimedelta (add_timedelta res t)
add_timedelta-Ends res t = >>=-Ends _ (timedelta-Ends t) (λ u _. timedelta-Ends (res +ℤ u))

if-Ends :
    (b : Bool) {r r' : Result Timedelta}
    → Ends IsTimedelta r
    → Ends IsTimedelta r'
    → Ends IsTimedelta (if b then r else r')
if-Ends true h h' = h
if-Ends false h h' = h'

add_unit-Ends :
    (section : Bool) (what num : ℕ) (res : Timedelta)
    → Ends IsTimedelta (add_unit section what num res)
add_unit-Ends section what num res =
    if-Ends (what == b'W') (add_timedelta-Ends res (pos (7 * num * day))) (
      if-Ends (what == b'D') (add_timedelta-Ends res (pos (num * day))) (
        if-Ends (what == b'H') (add_timedelta-Ends res (pos (num * hour))) (
          if-Ends (what == b'M')
            (if-Ends section (add_timedelta-Ends res (pos (num * minute)))
              (fails not_implemented_error (inr (inl refl))))
            (add_timedelta-Ends res (pos (num * second))))))

abbrev pub LeavesAtMost : ℕ → Timedelta × Text → Type 0
LeavesAtMost k (t, rest) = IsTimedelta t × (length rest ≤ k)

add_rest-Ends :
    (res : Timedelta) (rest : Text) (number : Option ℤ)
    → IsTimedelta res
    → Ends (LeavesAtMost (length rest)) (add_rest res rest number)
add_rest-Ends res rest none h = ends (res, rest) (h, omega arith)
add_rest-Ends res rest (some n) h =
    >>=-Ends _ (add_timedelta-Ends res (seconds_of n)) (λ t p. ends (t, []) (p, omega arith))

abbrev pub Shortens : ℕ → Bool × Timedelta × Text → Type 0
Shortens k (section, t, rest) = IsTimedelta t × (length rest < k)

module _ (characters : CharacterTable) where
  open characters use {decimal}

  match_item-length :
      (needed : Bool) (n : ℕ) (s : Text) (num what : ℕ) (rest : Text)
      → match_item characters needed n s ≡ some (num, what, rest)
      → length rest < length s
  unfolding match_item
  match_item-length needed n [] num what rest h = absurd (cc)
  match_item-length needed n (c ∷ s) num what rest h = grind (
    arith,
    until_newline-length s,
    λ (d : ℕ). match_item-length false (n * 10 + d) s num what rest,
  )

  add_item-Ends :
      (section : Bool) (res : Timedelta) (text : Text) (item : Option (ℕ × ℕ × Text))
      → match_item characters true 0 (skip_time text) ≡ item
      → Ends (Shortens (length text)) (add_item characters section res item)
  unfolding int
  add_item-Ends section res text none e = fails value_error (inl refl)
  add_item-Ends section res text (some (num, what, rest)) e =
      let shorter = match_item-length true 0 (skip_time text) num what rest e in
      >>=-Ends _ (add_unit-Ends section what num res) (λ sum p.
        >>=-Ends _ (add_rest-Ends sum rest (int characters rest) p) (λ (total, left) (q, l).
          ends (section, total, left) (q, omega (arith, l, shorter, skip_time-length text))))

  duration_round-Ends :
      (section : Bool) (res : Timedelta) (text : Text)
      → Ends (Shortens (length text)) (duration_round characters section res text)
  unfolding duration_round
  duration_round-Ends section res text = add_item-Ends _ res text _ refl

  pub duration_round-shortens :
      (section : Bool) (res : Timedelta) (text : Text) {section' : Bool} {sum : Timedelta}
      {rest : Text}
      → duration_round characters section res text ≡ ok (section', sum, rest)
      → length rest < length text
  duration_round-shortens section res text {section'} {sum} {rest} same =
      (Ends-ok (section', sum, rest)
        (subst (Ends (Shortens (length text))) same (duration_round-Ends section res text))).1

  -- With fuel for the length of the text, and with more, the loop ends in `end`.
  abbrev pub Terminates : Bool → Timedelta → Text → Type 0
  unfolding duration_loop
  Terminates section res text =
      (end : Result Timedelta) × ((fuel : ℕ)
        → length text ≤ fuel
        → duration_loop characters fuel section res text ≡ some end)
      × Ends IsTimedelta end

  loop_raises :
      (fuel : ℕ) (section : Bool) (res : Timedelta) (c : ℕ) (s : Text) (e : Exception)
      → duration_round characters section res (c ∷ s) ≡ raise e
      → suc (length s) ≤ fuel
      → duration_loop characters fuel section res (c ∷ s) ≡ some (raise e)
  unfolding duration_loop
  loop_raises zero section res c s e same enough = absurd (omega arith)
  loop_raises (suc fuel) section res c s e same enough = rw (same, duration_loop)

  pub loop_goes_on :
      (section : Bool) (res : Timedelta) (c : ℕ) (s : Text) {section' : Bool} {sum : Timedelta}
      {rest : Text} {end : Result Timedelta} (fuel : ℕ)
      → duration_round characters section res (c ∷ s) ≡ ok (section', sum, rest)
      → suc (length s) ≤ fuel
      → ((less : ℕ)
          → length rest ≤ less
          → duration_loop characters less section' sum rest ≡ some end)
      → duration_loop characters fuel section res (c ∷ s) ≡ some end
  unfolding duration_loop
  loop_goes_on section res c s zero same enough h = absurd (omega arith)
  loop_goes_on section res c s (suc fuel) same enough h =
      let shorter = duration_round-shortens section res (c ∷ s) same in
      rw (same, duration_loop) (h fuel (omega arith))

  round-Terminates :
      (section : Bool) (res : Timedelta) (c : ℕ) (s : Text) (r : Result (Bool × Timedelta × Text))
      → duration_round characters section res (c ∷ s) ≡ r
      → Ends (Shortens (length (c ∷ s))) r
      → ((section' : Bool) (sum : Timedelta) (rest : Text)
          → length rest ≤ length s
          → IsTimedelta sum
          → Terminates section' sum rest)
      → Terminates section res (c ∷ s)
  unfolding duration_loop
  round-Terminates section res c s (raise e) same (fails e' d) ih =
      (raise e, λ fuel enough. loop_raises fuel section res c s e same enough, fails e d)
  round-Terminates section res c s (ok (section', sum, rest)) same (ends a (p, shorter)) ih =
      let (end, enough_fuel, good) = ih section' sum rest (omega arith) p in
      (end, λ fuel enough. loop_goes_on section res c s fuel same enough enough_fuel, good)

  loop-Terminates :
      (k : ℕ) (section : Bool) (res : Timedelta) (text : Text)
      → length text ≤ k
      → IsTimedelta res
      → Terminates section res text
  unfolding duration_loop
  loop-Terminates k section res [] short h = (ok res, λ fuel enough. refl, ends res h)
  loop-Terminates zero section res (c ∷ s) short h = absurd (omega arith)
  loop-Terminates (suc k) section res (c ∷ s) short h =
      round-Terminates section res c s _ refl (duration_round-Ends section res (c ∷ s))
        (λ section' sum rest l p. loop-Terminates k section' sum rest (omega arith) p)

  -- Whatever the text, the loop ends within as many rounds as the text is long, more fuel changes
  -- nothing, and what it ends with is a timedelta that Python can hold or one of the exceptions
  -- ValueError, NotImplementedError and OverflowError.
  pub duration_loop-Terminates :
      (section : Bool) (res : Timedelta) (text : Text)
      → IsTimedelta res
      → Terminates section res text
  duration_loop-Terminates section res text h =
      loop-Terminates (length text) section res text (omega arith) h

  -- `duration_to_timedelta` returns on every input: a timedelta that Python can hold, or one of the
  -- exceptions ValueError, NotImplementedError and OverflowError.
  pub duration_to_timedelta-returns :
      (duration : Option Text)
      → (end : Result Timedelta) × (duration_to_timedelta characters duration ≡ some end)
        × Ends IsTimedelta end
  unfolding duration_to_timedelta
  duration_to_timedelta-returns none = (ok (pos 0), refl, ends (pos 0) refl)
  duration_to_timedelta-returns (some []) = (ok (pos 0), refl, ends (pos 0) refl)
  duration_to_timedelta-returns (some (c ∷ s)) =
      let (end, enough, good) = duration_loop-Terminates false (pos 0) s refl in
      elim (Bool-cases (c == b'P')) [
        | inl h ↦ (end, rw h (enough (length s) (omega arith)), good)
        | inr h ↦ (raise value_error, rw h refl, fails value_error (inl refl))
      ]
