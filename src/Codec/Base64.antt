-- ===== src/Codec/Base64.antt =====
-- base64.b64encode and base64.b64decode, as CPython's `binascii` does them: the decoder skips what is
-- not in the alphabet, stops at the padding that completes a group, and refuses an unfinished group.
use sam_ken_x_dnssec_keytool.Prelude.{
  ℕ, ◌+◌, ◌-◌, ◌*◌, ◌/◌, ◌%◌, ◌<◌, ◌≡◌, refl, ap, ◌∙◌, ◌⊎◌, inl, inr, [], ◌∷◌, ◌++◌, Option, none,
  some, arith, false, ltb, leb, nat_eqb, if◌then◌else◌, ◌&&◌,
}
use sam_ken_x_dnssec_keytool.Outcome.{Result, ok, raise, ◌>>=◌, value_error}
use sam_ken_x_dnssec_keytool.Data.{Bytes}
use sam_ken_x_dnssec_keytool.Codec.BigEndian.{IsBytes}

sextet_char : ℕ → ℕ
sextet_char n =
    if ltb n 26
    then n + 65
    else if ltb n 52
    then n + 71
    else if ltb n 62
    then n - 52 + 48
    else if nat_eqb n 62
    then 43
    else 47

sextet : ℕ → Option ℕ
sextet c =
    if leb 65 c && leb c 90
    then some (c - 65)
    else if leb 97 c && leb c 122
    then some (c - 71)
    else if leb 48 c && leb c 57
    then some (c - 48 + 52)
    else if nat_eqb c 43
    then some 62
    else if nat_eqb c 47
    then some 63
    else none

unfoldable pub b64encode : Bytes → Bytes
unfolding sextet_char
b64encode [] = []
b64encode (a ∷ []) = sextet_char (a / 4) ∷ sextet_char (a % 4 * 16) ∷ b'=' ∷ b'=' ∷ []
b64encode (a ∷ b ∷ []) =
    sextet_char (a / 4) ∷ sextet_char (a % 4 * 16 + b / 16) ∷ sextet_char (b % 16 * 4) ∷ b'=' ∷ []
b64encode (a ∷ b ∷ c ∷ rest) =
    sextet_char (a / 4)
    ∷ sextet_char (a % 4 * 16 + b / 16)
    ∷ sextet_char (b % 16 * 4 + c / 64)
    ∷ sextet_char (c % 64)
    ∷ b64encode rest

-- The place in the group of four, and the bits that wait for the next character.
pub data Quad : Type 0 where
  start : Quad
  one two three : ℕ → Quad

pub data Step : Type 0 where
  stop : Step
  more : Bytes → Quad → ℕ → Step

-- one `=`, the `pads + 1`st in a row
pad : Quad → ℕ → Step
pad start pads = more [] start pads
pad (one l) pads = more [] (one l) pads
pad (two l) pads = if leb 1 pads then stop else more [] (two l) (pads + 1)
pad (three l) pads = stop

fill : Quad → ℕ → Step
fill start v = more [] (one v) 0
fill (one l) v = more ((l * 4 + v / 16) ∷ []) (two (v % 16)) 0
fill (two l) v = more ((l * 16 + v / 4) ∷ []) (three (v % 4)) 0
fill (three l) v = more ((l * 64 + v) ∷ []) start 0

step : Quad → ℕ → ℕ → Step
unfolding pad fill sextet
step q pads c =
    if nat_eqb c b'='
    then pad q pads
    else elim (sextet c) [ none ↦ more [] q pads | some v ↦ fill q v ]

finish : Quad → Result Bytes
finish start = ok []
finish q = raise value_error

decode_from : Quad → ℕ → Bytes → Result Bytes
decode_from q pads [] = finish q
decode_from q pads (c ∷ cs) = elim (step q pads c) [
  | stop ↦ ok []
  | more out q' pads' ↦ decode_from q' pads' cs >>= λ bs. ok (out ++ bs)
]

unfoldable pub b64decode : Bytes → Result Bytes
unfolding decode_from finish step
b64decode cs = decode_from start 0 cs

sextet-char : (n : ℕ) → n < 64 → sextet (sextet_char n) ≡ some n
unfolding sextet sextet_char
sextet-char n h = ground arith

char-not_pad : (n : ℕ) → nat_eqb (sextet_char n) b'=' ≡ false
unfolding sextet_char
char-not_pad n = ground arith

-- A letter of the alphabet is no padding, and stands for the number that it was made from.
step-char : (q : Quad) (pads n : ℕ) → n < 64 → step q pads (sextet_char n) ≡ fill q n
unfolding step
step-char q pads n h = rw (char-not_pad n) (rw (sextet-char n h))

-- What a letter of the alphabet does to the rest of the decoding.
after : Step → Bytes → Result Bytes
unfolding decode_from
after stop cs = ok []
after (more out q pads) cs = decode_from q pads cs >>= λ bs. ok (out ++ bs)

Step-cases :
    (s : Step) → (s ≡ stop) ⊎ ((out : Bytes) × (q : Quad) × (pads : ℕ) × (s ≡ more out q pads))
Step-cases stop = inl refl
Step-cases (more out q pads) = inr (out, q, pads, refl)

decode_from-char :
    (q : Quad) (pads n : ℕ) (cs : Bytes)
    → n < 64
    → decode_from q pads (sextet_char n ∷ cs) ≡ after (fill q n) cs
unfolding decode_from after
decode_from-char q pads n cs h = elim (Step-cases (fill q n)) [
  | inl e ↦ rw (step-char q pads n h, e, decode_from)
  | inr (out, q', pads', e) ↦ rw (step-char q pads n h, e, decode_from)
]

-- A whole group of four letters gives three bytes, and the decoding starts anew.
decode_from-group :
    (a b c : ℕ) (cs : Bytes)
    → a < 256
    → b < 256
    → c < 256
    → decode_from start 0 (
        sextet_char (a / 4)
        ∷ sextet_char (a % 4 * 16 + b / 16)
        ∷ sextet_char (b % 16 * 4 + c / 64)
        ∷ sextet_char (c % 64)
        ∷ cs)
      ≡ (decode_from start 0 cs >>= λ bs. ok (a ∷ b ∷ c ∷ bs))
unfolding after fill
decode_from-group a b c cs ha hb hc = rw (decode_from-char start 0 (a / 4) _ (omega arith)) (
    rw (decode_from-char (one (a / 4)) 0 (a % 4 * 16 + b / 16) _ (omega arith)) (
      rw
        (decode_from-char (two ((a % 4 * 16 + b / 16) % 16)) 0 (b % 16 * 4 + c / 64) _
          (omega arith))
        (rw (decode_from-char (three ((b % 16 * 4 + c / 64) % 4)) 0 (c % 64) _ (omega arith))
          (rw (first_byte, second_byte, third_byte) (regroup (decode_from start 0 cs))))))
  where
    first_byte : a / 4 * 4 + (a % 4 * 16 + b / 16) / 16 ≡ a
    first_byte = omega arith

    second_byte : (a % 4 * 16 + b / 16) % 16 * 16 + (b % 16 * 4 + c / 64) / 4 ≡ b
    second_byte = omega arith

    third_byte : (b % 16 * 4 + c / 64) % 4 * 64 + c % 64 ≡ c
    third_byte = omega arith

    regroup :
        (r : Result Bytes)
        → ((((r >>= λ bs. ok (c ∷ bs)) >>= λ bs. ok (b ∷ bs)) >>= λ bs. ok (a ∷ bs)) >>= λ bs.
            ok bs)
          ≡ (r >>= λ bs. ok (a ∷ b ∷ c ∷ bs))
    regroup (ok bs) = refl
    regroup (raise e) = refl

tail_of_one : (l : ℕ) → decode_from (two l) 0 (b'=' ∷ b'=' ∷ []) ≡ ok []
unfolding decode_from step pad
tail_of_one l = refl

tail_of_two : (l : ℕ) → decode_from (three l) 0 (b'=' ∷ []) ≡ ok []
unfolding decode_from step pad
tail_of_two l = refl

decode_from-one :
    (a : ℕ)
    → a < 256
    → decode_from start 0 (sextet_char (a / 4) ∷ sextet_char (a % 4 * 16) ∷ b'=' ∷ b'=' ∷ [])
      ≡ ok (a ∷ [])
unfolding after fill
decode_from-one a ha = rw (decode_from-char start 0 (a / 4) _ (omega arith)) (
    rw (decode_from-char (one (a / 4)) 0 (a % 4 * 16) _ (omega arith))
      (rw (tail_of_one _) (rw first_byte)))
  where
    first_byte : a / 4 * 4 + a % 4 * 16 / 16 ≡ a
    first_byte = omega arith

decode_from-two :
    (a b : ℕ)
    → a < 256
    → b < 256
    → decode_from start 0 (
        sextet_char (a / 4)
        ∷ sextet_char (a % 4 * 16 + b / 16)
        ∷ sextet_char (b % 16 * 4)
        ∷ b'='
        ∷ [])
      ≡ ok (a ∷ b ∷ [])
unfolding after fill
decode_from-two a b ha hb = rw (decode_from-char start 0 (a / 4) _ (omega arith)) (
    rw (decode_from-char (one (a / 4)) 0 (a % 4 * 16 + b / 16) _ (omega arith)) (
      rw (decode_from-char (two ((a % 4 * 16 + b / 16) % 16)) 0 (b % 16 * 4) _ (omega arith))
        (rw (tail_of_two _) (rw (first_byte, second_byte)))))
  where
    first_byte : a / 4 * 4 + (a % 4 * 16 + b / 16) / 16 ≡ a
    first_byte = omega arith

    second_byte : (a % 4 * 16 + b / 16) % 16 * 16 + b % 16 * 4 / 4 ≡ b
    second_byte = omega arith

-- Decoding what was encoded gives the bytes back.
pub b64decode-b64encode : (bs : Bytes) → IsBytes bs → b64decode (b64encode bs) ≡ ok bs
unfolding b64encode b64decode
b64decode-b64encode [] h = refl
b64decode-b64encode (a ∷ []) h = decode_from-one a h.0
b64decode-b64encode (a ∷ b ∷ []) h = decode_from-two a b h.0 h.1.0
b64decode-b64encode (a ∷ b ∷ c ∷ rest) h =
    decode_from-group a b c (b64encode rest) h.0 h.1.0 h.1.1.0
    ∙ ap (λ r. r >>= λ bs. ok (a ∷ b ∷ c ∷ bs)) (b64decode-b64encode rest h.1.1.1)
