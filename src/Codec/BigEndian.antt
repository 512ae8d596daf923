-- ===== src/Codec/BigEndian.antt =====
-- Numbers as big-endian bytes: `int.from_bytes`, `int.to_bytes`, `struct.pack`, `int.bit_length`.
use native.Mathlib.Nat.{pow-suc}
use sam_ken_x_dnssec_keytool.Prelude.{
  ℕ, zero, suc, ◌+◌, ◌*◌, ◌/◌, ◌%◌, ◌^◌, ◌<◌, ◌≤◌, ◌≡◌, ◌∙◌, refl, [], ◌∷◌, ◌++◌, arith, ltb,
  length, length-append, All, if◌then◌else◌,
}
use sam_ken_x_dnssec_keytool.Outcome.{Result, ok, raise, struct_error, overflow_error}
use sam_ken_x_dnssec_keytool.Data.{Bytes}

-- Every element is a byte.
abbrev pub IsBytes : Bytes → Type 0
IsBytes bs = All (λ b. b < 256) bs

-- `int.from_bytes(bs, "big")`, with the number read so far
unfoldable pub from_be : ℕ → Bytes → ℕ
from_be n [] = n
from_be n (b ∷ bs) = from_be (n * 256 + b) bs

-- the last `width` bytes of `n`
unfoldable pub to_be : ℕ → ℕ → Bytes
to_be zero n = []
to_be (suc width) n = to_be width (n / 256) ++ n % 256 ∷ []

-- `int.to_bytes(n, width, "big")`
unfoldable pub to_bytes : ℕ → ℕ → Result Bytes
unfolding to_be
to_bytes width n = if ltb n (256 ^ width) then ok (to_be width n) else raise overflow_error

-- `struct.pack` of one field, `!B`, `!H` or `!I` for a width of 1, 2 or 4
unfoldable pub pack : ℕ → ℕ → Result Bytes
unfolding to_be
pack width n = if ltb n (256 ^ width) then ok (to_be width n) else raise struct_error

pub from_be-append : (n : ℕ) (xs ys : Bytes) → from_be n (xs ++ ys) ≡ from_be (from_be n xs) ys
unfolding from_be
from_be-append n [] ys = refl
from_be-append n (x ∷ xs) ys = from_be-append (n * 256 + x) xs ys

pub length-to_be : (width n : ℕ) → length (to_be width n) ≡ width
unfolding to_be
length-to_be zero n = refl
length-to_be (suc width) n =
    omega (
      arith,
      length-append {0} (to_be width (n / 256)) (n % 256 ∷ []),
      length-to_be width (n / 256),
    )

div-lt-pow : (width n : ℕ) → n < 256 ^ suc width → n / 256 < 256 ^ width
div-lt-pow width n h = omega (arith, pow-suc 256 width)

-- What `to_be` writes is read back, if it fits.
pub from_be-to_be : (width n : ℕ) → n < 256 ^ width → from_be 0 (to_be width n) ≡ n
unfolding from_be to_be
from_be-to_be zero n h = omega arith
from_be-to_be (suc width) n h =
    from_be-append 0 (to_be width (n / 256)) (n % 256 ∷ [])
    ∙ omega (arith, from_be-to_be width (n / 256) (div-lt-pow width n h))

pub IsBytes-append : (xs ys : Bytes) → IsBytes xs → IsBytes ys → IsBytes (xs ++ ys)
IsBytes-append [] ys h k = k
IsBytes-append (x ∷ xs) ys (p, h) k = (p, IsBytes-append xs ys h k)

pub to_be-IsBytes : (width n : ℕ) → IsBytes (to_be width n)
unfolding to_be
to_be-IsBytes zero n = tt
to_be-IsBytes (suc width) n =
    IsBytes-append (to_be width (n / 256)) _ (to_be-IsBytes width (n / 256)) (omega arith, tt)

-- `math.ceil(int.bit_length(n) / 8)`: the bytes that `n` takes, counted with enough `fuel`
byte_length_fuel : ℕ → ℕ → ℕ
byte_length_fuel zero n = 0
byte_length_fuel (suc fuel) zero = 0
byte_length_fuel (suc fuel) (suc n) = suc (byte_length_fuel fuel (suc n / 256))

unfoldable pub byte_length : ℕ → ℕ
unfolding byte_length_fuel
byte_length n = byte_length_fuel n n

byte_length_fuel-fits : (fuel n : ℕ) → n ≤ fuel → n < 256 ^ byte_length_fuel fuel n
unfolding byte_length_fuel
byte_length_fuel-fits zero n h = omega arith
byte_length_fuel-fits (suc fuel) zero h = omega arith
byte_length_fuel-fits (suc fuel) (suc n) h = omega (
  arith,
  pow-suc 256 (byte_length_fuel fuel (suc n / 256)),
  byte_length_fuel-fits fuel (suc n / 256) (omega arith),
)

-- A number fits into its own bytes.
pub byte_length-fits : (n : ℕ) → n < 256 ^ byte_length n
unfolding byte_length
byte_length-fits n = byte_length_fuel-fits n n (omega arith)

pub byte_length_pos : (n : ℕ) → 0 < n → 0 < byte_length n
unfolding byte_length
byte_length_pos zero h = h
byte_length_pos (suc n) h = omega arith
