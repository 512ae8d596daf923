-- ===== src/Texts/Decimal.antt =====
-- Reading back the decimal digits that `str` prints.
use sam_ken_x_dnssec_keytool.Prelude.{
  ℕ, zero, suc, ◌+◌, ◌*◌, ◌/◌, ◌%◌, ◌<◌, ◌≤◌, ◌≡◌, ◌⊎◌, inl, inr, refl, ap, ◌∙◌, Bool, true, false,
  none, some, arith, [], ◌∷◌, ◌++◌, Bool-cases,
}
use sam_ken_x_dnssec_keytool.Prelude.Equal.{nat_eq, ◌==◌}
use sam_ken_x_dnssec_keytool.Texts.{Text, CharacterTable, decimal_digits, str, int, read_digits}

no_digits : (fuel : ℕ) (out : Text) → decimal_digits fuel 0 out ≡ out
unfolding decimal_digits
no_digits zero out = refl
no_digits (suc fuel) out = refl

one_round :
    (fuel n : ℕ) (out : Text)
    → 0 < n
    → decimal_digits (suc fuel) n out ≡ decimal_digits fuel (n / 10) ((b'0' + n % 10) ∷ out)
unfolding decimal_digits
one_round fuel n out h = ground arith

pub decimal_digits-append :
    (fuel n : ℕ) (out s : Text) → decimal_digits fuel n out ++ s ≡ decimal_digits fuel n (out ++ s)
unfolding decimal_digits
decimal_digits-append zero n out s = refl
decimal_digits-append (suc fuel) n out s =
    ground (arith, decimal_digits-append fuel (n / 10) ((b'0' + n % 10) ∷ out) s)

-- A text that starts with an ASCII digit
abbrev pub StartsWithDigit : Text → Type 0
StartsWithDigit s = (d : ℕ) × (rest : Text) × (d < 10) × (s ≡ (b'0' + d) ∷ rest)

decimal_digits-StartsWithDigit_after :
    (fuel n d : ℕ) (out : Text)
    → d < 10
    → StartsWithDigit (decimal_digits fuel n ((b'0' + d) ∷ out))
unfolding decimal_digits
decimal_digits-StartsWithDigit_after zero n d out h = (d, out, h, refl)
decimal_digits-StartsWithDigit_after (suc fuel) n d out h = elim (Bool-cases (n == 0)) [
  | inl e ↦ rw (e, decimal_digits) (d, out, h, refl)
  | inr e ↦
      rw (e, decimal_digits)
        (decimal_digits-StartsWithDigit_after fuel (n / 10) (n % 10) ((b'0' + d) ∷ out)
          (omega arith))
]

zero_or_positive : (n : ℕ) → (n ≡ 0) ⊎ (0 < n)
zero_or_positive zero = inl refl
zero_or_positive (suc n) = inr (omega arith)

-- A scanner that takes in a digit the way `int` does, reads a positive number back.
module _ {R : Type 0} (scan : Bool → ℕ → Text → R)
    (scan_digit : (needed : Bool) (n d : ℕ) (s : Text)
      → d < 10
      → scan needed n ((b'0' + d) ∷ s) ≡ scan false (n * 10 + d) s) where
  pub scan-decimal_digits :
      (fuel n : ℕ) (needed : Bool) (out : Text)
      → 0 < n
      → n ≤ fuel
      → scan needed 0 (decimal_digits fuel n out) ≡ scan false n out
  scan-decimal_digits zero n needed out h l = absurd (omega arith)
  scan-decimal_digits (suc fuel) n needed out h l =
      rw (one_round fuel n out h) (elim (zero_or_positive (n / 10)) [
        | inl e ↦
            rw (e, no_digits fuel ((b'0' + n % 10) ∷ out))
              (scan_digit needed 0 (n % 10) out (omega arith)
                ∙ ap (λ m. scan false m out) (omega (arith, e)))
        | inr p ↦
            scan-decimal_digits fuel (n / 10) needed ((b'0' + n % 10) ∷ out) p (omega arith)
            ∙ (scan_digit false (n / 10) (n % 10) out (omega arith)
                ∙ ap (λ m. scan false m out) (omega arith))
      ])

pub str-positive : (n : ℕ) → 0 < n → str n ≡ decimal_digits n n []
unfolding str
str-positive n h = ground arith

-- `str(n)` in front of a text
pub str-append : (n : ℕ) (s : Text) → 0 < n → str n ++ s ≡ decimal_digits n n s
str-append n s h = rw (str-positive n h) (decimal_digits-append n n [] s)

pub str-StartsWithDigit : (n : ℕ) (s : Text) → 0 < n → StartsWithDigit (decimal_digits n n s)
unfolding decimal_digits
str-StartsWithDigit zero s h = absurd (omega arith)
str-StartsWithDigit (suc n) s h =
    rw (one_round n (suc n) s h)
      (decimal_digits-StartsWithDigit_after n (suc n / 10) (suc n % 10) s (omega arith))

module _ (characters : CharacterTable) where
  open characters use {decimal, is_space, decimal-ascii, is_space-ascii}

  pub decimal-digit : (d : ℕ) → d < 10 → decimal (b'0' + d) ≡ some d
  decimal-digit d h = decimal-ascii (b'0' + d) (omega arith) ∙ ground arith

  pub decimal-letter : (c : ℕ) → b'A' ≤ c → c < 128 → decimal c ≡ none
  decimal-letter c l h = decimal-ascii c h ∙ ground arith

  read_digits-digit :
      (needed : Bool) (n d : ℕ) (s : Text)
      → d < 10
      → read_digits characters needed n ((b'0' + d) ∷ s)
        ≡ read_digits characters false (n * 10 + d) s
  unfolding read_digits
  read_digits-digit needed n d s h = rw (decimal-digit d h, read_digits) refl

  is_space-visible : (c : ℕ) → b'0' ≤ c → c < 128 → is_space c ≡ false
  is_space-visible c l h = is_space-ascii c h ∙ ground arith

  read_digits-letter :
      (needed : Bool) (n c : ℕ) (s : Text)
      → b'A' ≤ c
      → c ≤ b'Z'
      → read_digits characters needed n (c ∷ s) ≡ none
  unfolding read_digits
  read_digits-letter needed n c s l h =
      let no_digit = decimal-letter c l (omega arith) in
      let visible = is_space-visible c (omega arith) (omega arith) in
      ground (arith, no_digit, visible)

  -- No space and no sign in front: `int` reads digits from the start.
  int-unsigned :
      (c : ℕ) (s : Text)
      → b'0' ≤ c
      → c < 128
      → read_digits characters true 0 (c ∷ s) ≡ none
      → int characters (c ∷ s) ≡ none
  unfolding int
  int-unsigned c s l h none_read = let visible = is_space-visible c l h in ground (arith, visible)

  -- A number with a letter after it is no argument of `int`.
  pub int-number_letter :
      (n c : ℕ) (s : Text)
      → 0 < n
      → b'A' ≤ c
      → c ≤ b'Z'
      → int characters (decimal_digits n n (c ∷ s)) ≡ none
  int-number_letter n c s h l u =
      let (d, rest, digit, same) = str-StartsWithDigit n (c ∷ s) h in
      let reads =
        scan-decimal_digits (read_digits characters) read_digits-digit n n true (c ∷ s) h
          (omega arith)
        ∙ read_digits-letter false n c s l u in
      rw same (int-unsigned (b'0' + d) rest (omega arith) (omega arith) (rw (← same) reads))

  pub int-letter : (c : ℕ) (s : Text) → b'A' ≤ c → c ≤ b'Z' → int characters (c ∷ s) ≡ none
  int-letter c s l u =
      int-unsigned c s (omega arith) (omega arith) (read_digits-letter true 0 c s l u)
