-- ===== src/Duration/RoundTrip.antt =====
-- `duration_to_timedelta` (common/parse_utils.py) reads back what `timedelta_to_duration`
-- (skr/output.py) prints.
use sam_ken_x_dnssec_keytool.Prelude.{
  ℕ, zero, suc, ◌+◌, ◌-◌, ◌*◌, ◌/◌, ◌%◌, ◌≤◌, ◌<◌, ◌≡◌, ◌⊎◌, inl, inr, refl, ap, subst, ◌∙◌, true,
  false, some, arith, List, [], ◌∷◌, ◌++◌, ltb, Bool-cases, if◌then◌else◌, All,
}
use sam_ken_x_dnssec_keytool.Prelude.Int.{pos, ◌+ℤ◌}
use sam_ken_x_dnssec_keytool.Prelude.Equal.{nat_eq, int_eq, ◌==◌}
use sam_ken_x_dnssec_keytool.Outcome.{ok}
use sam_ken_x_dnssec_keytool.Texts.{Text, CharacterTable, str}
use sam_ken_x_dnssec_keytool.Texts.Decimal.{str-append, decimal_digits-append}
use sam_ken_x_dnssec_keytool.Duration.{
  second, minute, hour, day, timedelta_max, add_unit, add_timedelta, duration_loop,
  duration_to_timedelta, timedelta_to_duration, time_part, print_item, seconds_part, minutes_part,
  hours_part, td_days, td_seconds,
}
use sam_ken_x_dnssec_keytool.Duration.Printed.{
  Follows, nothing-Follows, LoopEnds-no_time, item, IsUnit, item-Follows, time-Follows, LoopEnds,
  LoopEnds-item, LoopEnds-time,
}

abbrev pub unit_micros : ℕ → ℕ
unit_micros u = if u == b'H' then hour else if u == b'M' then minute else second

-- A positive number of hours, minutes or seconds
abbrev pub IsTimeItem : ℕ × ℕ → Type 0
IsTimeItem (n, u) = (0 < n) × ((u ≡ b'H') ⊎ (u ≡ b'M') ⊎ (u ≡ b'S'))

abbrev pub items_text : List (ℕ × ℕ) → Text
items_text [] = []
items_text ((n, u) ∷ items) = item n u (items_text items)

abbrev pub items_micros : List (ℕ × ℕ) → ℕ
items_micros [] = 0
items_micros ((n, u) ∷ items) = n * unit_micros u + items_micros items

add_fits : (r t : ℕ) → r + t ≤ timedelta_max → add_timedelta (pos r) (pos t) ≡ ok (pos (r + t))
unfolding ◌+ℤ◌
add_fits r t h = ground arith

fits_at :
    (r n : ℕ) {u v : ℕ}
    → u ≡ v
    → r + n * unit_micros u ≤ timedelta_max
    → r + n * unit_micros v ≤ timedelta_max
fits_at r n e fits = subst (λ v. r + n * unit_micros v ≤ timedelta_max) e fits

add_unit-time :
    (r n u : ℕ)
    → IsTimeItem (n, u)
    → r + n * unit_micros u ≤ timedelta_max
    → add_unit true u n (pos r) ≡ ok (pos (r + n * unit_micros u))
add_unit-time r n u (h, inl e) fits = rw e (add_fits r (n * hour) (fits_at r n e fits))
add_unit-time r n u (h, inr (inl e)) fits = rw e (add_fits r (n * minute) (fits_at r n e fits))
add_unit-time r n u (h, inr (inr e)) fits = rw e (add_fits r (n * second) (fits_at r n e fits))

IsTimeItem-IsUnit : (n u : ℕ) → IsTimeItem (n, u) → IsUnit u
IsTimeItem-IsUnit n u (h, inl e) = rw e (omega arith, omega arith, refl)
IsTimeItem-IsUnit n u (h, inr (inl e)) = rw e (omega arith, omega arith, refl)
IsTimeItem-IsUnit n u (h, inr (inr e)) = rw e (omega arith, omega arith, refl)

module _ (characters : CharacterTable) where
  items-Follows :
      (items : List (ℕ × ℕ)) → All IsTimeItem items → Follows characters (items_text items)
  items-Follows [] h = nothing-Follows characters
  items-Follows ((n, u) ∷ items) (h, hs) =
      item-Follows characters n u _ h.0 (IsTimeItem-IsUnit n u h) (items-Follows items hs).one_line

  LoopEnds-items :
      (items : List (ℕ × ℕ)) (r : ℕ)
      → All IsTimeItem items
      → r + items_micros items ≤ timedelta_max
      → LoopEnds characters true (pos r) (items_text items) (pos (r + items_micros items))
  unfolding duration_loop
  LoopEnds-items [] r h fits = λ fuel enough. ap (λ m. some (ok (pos m))) (omega arith)
  LoopEnds-items ((n, u) ∷ items) r (h, hs) fits =
      let regroup : (r + n * unit_micros u) + items_micros items
          ≡ r + items_micros ((n, u) ∷ items) =
        omega arith in
      rw (← regroup) (
        LoopEnds-item characters true (pos r) (pos (r + n * unit_micros u)) _ n u (items_text items)
          h.0 (IsTimeItem-IsUnit n u h) (items-Follows items hs)
          (add_unit-time r n u h (omega (arith, fits)))
          (LoopEnds-items items (r + n * unit_micros u) hs (rw regroup fits)))

  -- the time part of a text, from the `T` on
  LoopEnds-times :
      (items : List (ℕ × ℕ)) (r : ℕ)
      → All IsTimeItem items
      → 0 < items_micros items
      → r + items_micros items ≤ timedelta_max
      → LoopEnds characters false (pos r) (b'T' ∷ items_text items) (pos (r + items_micros items))
  unfolding duration_loop
  LoopEnds-times [] r h some_time fits = absurd (omega arith)
  LoopEnds-times ((n, u) ∷ items) r (h, hs) some_time fits =
      let regroup : (r + n * unit_micros u) + items_micros items
          ≡ r + items_micros ((n, u) ∷ items) =
        omega arith in
      rw (← regroup) (
        LoopEnds-time characters (pos r) (pos (r + n * unit_micros u)) _ n u (items_text items) h.0
          (IsTimeItem-IsUnit n u h) (items-Follows items hs)
          (add_unit-time r n u h (omega (arith, fits)))
          (LoopEnds-items items (r + n * unit_micros u) hs (rw regroup fits)))

-- The items that `timedelta_to_duration` prints for a number of seconds
second_items : ℕ → List (ℕ × ℕ)
second_items s = if s == 0 then [] else (s, b'S') ∷ []

minute_items : ℕ → List (ℕ × ℕ)
unfolding second_items
minute_items s = if ltb 60 s then (s / 60, b'M') ∷ second_items (s % 60) else second_items s

time_items : ℕ → List (ℕ × ℕ)
unfolding minute_items
time_items s = if ltb 3600 s then (s / 3600, b'H') ∷ minute_items (s % 3600) else minute_items s

second_items_lem :
    (s : ℕ) → All IsTimeItem (second_items s) × (items_micros (second_items s) ≡ s * second)
unfolding second_items
second_items_lem s = ground arith

minute_items_lem :
    (s : ℕ) → All IsTimeItem (minute_items s) × (items_micros (minute_items s) ≡ s * second)
unfolding minute_items
minute_items_lem s = ground (arith, second_items_lem s, second_items_lem (s % 60))

time_items_lem :
    (s : ℕ) → All IsTimeItem (time_items s) × (items_micros (time_items s) ≡ s * second)
unfolding time_items
time_items_lem s = ground (arith, minute_items_lem s, minute_items_lem (s % 3600))

print_item-append : (n u : ℕ) (rest : Text) → 0 < n → print_item n u ++ rest ≡ item n u rest
print_item-append n u rest h =
    rw (str-append n (u ∷ []) h) (decimal_digits-append n n (u ∷ []) rest)

seconds_part-items : (s : ℕ) → seconds_part s ≡ items_text (second_items s)
unfolding str second_items
seconds_part-items s = ground (arith, str-append s (b'S' ∷ []))

minutes_part-items : (s : ℕ) → minutes_part s ≡ items_text (minute_items s)
unfolding str minute_items
minutes_part-items s = elim (Bool-cases (ltb 60 s)) [
  | inl h ↦
      rw
        (
          h,
          print_item-append (s / 60) b'M' (seconds_part (s % 60)) (ground (arith, h)),
          seconds_part-items (s % 60),
        )
        refl
  | inr h ↦ rw h (seconds_part-items s)
]

hours_part-items : (s : ℕ) → hours_part s ≡ items_text (time_items s)
unfolding str time_items
hours_part-items s = elim (Bool-cases (ltb 3600 s)) [
  | inl h ↦
      rw
        (
          h,
          print_item-append (s / 3600) b'H' (minutes_part (s % 3600)) (ground (arith, h)),
          minutes_part-items (s % 3600),
        )
        refl
  | inr h ↦ rw h (minutes_part-items s)
]

time_part-items : (s : ℕ) → 0 < s → time_part s ≡ b'T' ∷ items_text (time_items s)
unfolding time_part
time_part-items s h = ground (arith, hours_part-items s)

module _ (characters : CharacterTable) where
  -- the time part of a duration, after some days
  LoopEnds-time_part :
      (s r : ℕ)
      → r + s * second ≤ timedelta_max
      → LoopEnds characters false (pos r) (time_part s) (pos (r + s * second))
        × Follows characters (time_part s)
  unfolding duration_loop time_part
  LoopEnds-time_part zero r fits =
      (λ fuel enough. ap (λ m. some (ok (pos m))) (omega arith), nothing-Follows characters)
  LoopEnds-time_part (suc s) r fits =
      let (valid, value) = time_items_lem (suc s) in
      rw (time_part-items (suc s) (omega arith), ← value)
        (
          LoopEnds-times characters (time_items (suc s)) r valid (omega (arith, value))
              (omega (arith, value, fits)),
          time-Follows characters _ (items-Follows characters (time_items (suc s)) valid).one_line,
        )

  LoopEnds-days :
      (n s : ℕ)
      → 0 < n
      → n * day + s * second ≤ timedelta_max
      → LoopEnds characters false (pos 0) (item n b'D' (time_part s)) (pos (n * day + s * second))
  LoopEnds-days n s h fits =
      let (time_ends, follows) = LoopEnds-time_part s (n * day) fits in
      LoopEnds-item characters false (pos 0) (pos (n * day)) _ n b'D' (time_part s) h
        (omega arith, omega arith, refl) follows
        (add_fits 0 (n * day) (omega (arith, fits)) ∙ ap (λ m. ok (pos m)) (omega arith)) time_ends

  after_days : (t : ℕ) → t / day * day + t % day / second * second ≡ t - t % second
  after_days t = omega arith

  LoopEnds-printed :
      (t : ℕ)
      → t ≤ timedelta_max
      → 0 < t
      → LoopEnds characters false
          (pos 0)
          ((if td_days (pos t) == pos 0 then [] else print_item (t / day) b'D')
            ++ time_part (td_seconds (pos t)))
          (pos (t - t % second))
  LoopEnds-printed t fits h = elim (Bool-cases (td_days (pos t) == pos 0)) [
    | inl e ↦
        let no_days : t / day ≡ 0 = ground (arith, e) in
        let value : 0 + t % day / second * second ≡ t - t % second = omega (arith, no_days) in
        rw (e, ← value) (LoopEnds-time_part (t % day / second) 0 (omega (arith, value, fits))).0
    | inr e ↦
        let days : 0 < t / day = ground (arith, e) in
        rw (e, print_item-append (t / day) b'D' (time_part (t % day / second)) days, ← after_days t)
          (LoopEnds-days (t / day) (t % day / second) days (omega (arith, fits)))
  ]

  -- A duration that is printed is read back, less its fraction of a second: for the timedeltas that
  -- are not negative, up to the greatest.
  pub duration_to_timedelta-timedelta_to_duration :
      (t : ℕ)
      → t ≤ timedelta_max
      → duration_to_timedelta characters (some (timedelta_to_duration (pos t)))
        ≡ some (ok (pos (t - t % second)))
  unfolding duration_to_timedelta timedelta_to_duration
  duration_to_timedelta-timedelta_to_duration zero fits =
      LoopEnds-no_time characters 3 (omega arith)
  duration_to_timedelta-timedelta_to_duration (suc t) fits =
      let not_zero : (pos (suc t) == pos 0) ≡ false = ground arith in
      rw (not_zero, timedelta_to_duration)
        (LoopEnds-printed (suc t) fits (omega arith) _ (omega arith))
