-- ===== src/Keymaster/Label.antt =====
-- What the label of a key says of the time at which it was generated (keymaster/keygen.py).
use sam_ken_x_dnssec_keytool.Prelude.{
  true, false, ℕ, ◌+◌, ◌-◌, ◌*◌, ◌/◌, ◌%◌, ◌^◌, ◌<◌, ◌≤◌, ◌≡◌, ◌≢◌, ◌⊎◌, refl, ◌∙◌, ap, [], ◌∷◌,
  take, map, ltb, if◌then◌else◌, arith, length,
}
use sam_ken_x_dnssec_keytool.Outcome.{Result, ok, raise, overflow_error}
use sam_ken_x_dnssec_keytool.Codec.BigEndian.{to_bytes, to_be}
use sam_ken_x_dnssec_keytool.Texts.{Text}
use sam_ken_x_dnssec_keytool.Keymaster.{
  b32_digit, b32_quantum, bits_40, lower, label_prefix, generate_key_label,
}

-- The value of a character of base 32, in lower case
abbrev pub digit_value : ℕ → ℕ
digit_value c = if ltb c b'a' then c - b'2' + 26 else c - b'a'

abbrev pub label_value : ℕ → Text → ℕ
label_value n [] = n
label_value n (c ∷ s) = label_value (n * 32 + digit_value c) s

digit_value-b32_digit : (v : ℕ) → v < 32 → digit_value (lower (b32_digit v)) ≡ v
digit_value-b32_digit v h = ground arith

-- the six characters of a number of 30 bits
abbrev pub six : ℕ → Text
six n = map (λ k. lower (b32_digit (n / 32 ^ k % 32))) (5 ∷ 4 ∷ 3 ∷ 2 ∷ 1 ∷ 0 ∷ [])

quantum-six : (q : ℕ) → take 6 (map lower (b32_quantum q)) ≡ six (q / 1024)
quantum-six q =
    let e7 : q / 34_359_738_368 % 32 ≡ q / 1024 / 33_554_432 % 32 = omega arith in
    let e6 : q / 1_073_741_824 % 32 ≡ q / 1024 / 1_048_576 % 32 = omega arith in
    let e5 : q / 33_554_432 % 32 ≡ q / 1024 / 32_768 % 32 = omega arith in
    let e4 : q / 1_048_576 % 32 ≡ q / 1024 / 1024 % 32 = omega arith in
    let e3 : q / 32_768 % 32 ≡ q / 1024 / 32 % 32 = omega arith in
    let e2 : q / 1024 % 32 ≡ q / 1024 / 1 % 32 = omega arith in rw (e7, e6, e5, e4, e3, e2) refl

four_bytes :
    (now : ℕ)
    → now < 4_294_967_296
    → bits_40 (now / 256 / 256 / 256 % 256) (now / 256 / 256 % 256) (now / 256 % 256) (now % 256) 0
        / 1024
      ≡ now / 4
four_bytes now h = omega arith

label_value-six : (n : ℕ) → n < 1_073_741_824 → label_value 0 (six n) ≡ n
label_value-six n h =
    let d5 = digit_value-b32_digit (n / 33_554_432 % 32) (omega arith) in
    let d4 = digit_value-b32_digit (n / 1_048_576 % 32) (omega arith) in
    let d3 = digit_value-b32_digit (n / 32_768 % 32) (omega arith) in
    let d2 = digit_value-b32_digit (n / 1024 % 32) (omega arith) in
    let d1 = digit_value-b32_digit (n / 32 % 32) (omega arith) in
    let d0 = digit_value-b32_digit (n / 1 % 32) (omega arith) in
    rw (d5, d4, d3, d2, d1, d0) (omega arith)

-- K for a key signing key, C for no flags, U for all others
abbrev pub IsPrefixOf : (flags prefix : ℕ) → Type 0
IsPrefixOf flags prefix =
    ((flags ≡ 257) × (prefix ≡ b'K'))
    ⊎ ((flags ≡ 0) × (prefix ≡ b'C'))
    ⊎ ((flags ≢ 257) × (flags ≢ 0) × (prefix ≡ b'U'))

label_prefix-IsPrefixOf : (flags : ℕ) → IsPrefixOf flags (label_prefix flags)
label_prefix-IsPrefixOf flags = ground arith

-- The prefix of a label, and its time: its value in base 32, of units of four seconds
abbrev pub StandsFor : Text → (flags now : ℕ) → Type 0
StandsFor label flags now =
    (prefix : ℕ) × (characters : Text) × (label ≡ prefix ∷ characters)
    × IsPrefixOf flags prefix
    × (length characters ≡ 6)
    × (label_value 0 characters ≡ now / 4)

-- Up to the year 2106 a key has a label of a prefix, which is K for the flags 257, C for the flags 0 and U
-- for all others, even those of a ZSK, and six characters, which in base 32 are the time in units of four seconds: no two labels of different such units are
-- the same.
pub generate_key_label-StandsFor :
    (flags now : ℕ)
    → now < 4_294_967_296
    → (label : Text) × (generate_key_label flags now ≡ ok label) × StandsFor label flags now
unfolding generate_key_label to_bytes to_be
generate_key_label-StandsFor flags now below =
    let fits : ltb now 4_294_967_296 ≡ true = ground arith in
    let units : now / 4 < 1_073_741_824 = omega arith in
    let bits =
      bits_40 (now / 256 / 256 / 256 % 256) (now / 256 / 256 % 256) (now / 256 % 256) (now % 256)
        0 in
    (
      label_prefix flags ∷ six (now / 4),
      rw fits (
          ap (λ s. Result.ok (label_prefix flags ∷ s))
            (quantum-six bits ∙ ap six (four_bytes now below))),
      (
        label_prefix flags,
        six (now / 4),
        refl,
        label_prefix-IsPrefixOf flags,
        refl,
        label_value-six (now / 4) units,
      ),
    )

-- Later times do not fit into four bytes.
generate_key_label-overflow :
    (flags now : ℕ) → 4_294_967_296 ≤ now → generate_key_label flags now ≡ raise overflow_error
unfolding generate_key_label to_bytes
generate_key_label-overflow flags now above =
    let overflows : ltb now 4_294_967_296 ≡ false = ground arith in rw overflows refl
