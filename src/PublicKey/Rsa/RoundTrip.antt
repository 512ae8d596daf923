-- ===== src/PublicKey/Rsa/RoundTrip.antt =====
-- An RSA key that was written in the form of RFC 3110 is read back.
use native.Mathlib.Decide.{dec_lt}
use sam_ken_x_dnssec_keytool.Prelude.{
  ℕ, zero, suc, ◌+◌, ◌*◌, ◌/◌, ◌%◌, ◌<◌, ◌≡◌, ◌∙◌, refl, ap, ◌∷◌, ◌++◌, length, take, drop, arith,
  take-append_length, drop-append_length,
}
use sam_ken_x_dnssec_keytool.Outcome.{Result, ok, ◌>>=◌}
use sam_ken_x_dnssec_keytool.Data.{Bytes}
use sam_ken_x_dnssec_keytool.Codec.BigEndian.{
  IsBytes, from_be, to_be, to_bytes, pack, byte_length, byte_length-fits, length-to_be,
  from_be-to_be, to_be-IsBytes, IsBytes-append, byte_length_pos,
}
use sam_ken_x_dnssec_keytool.Codec.Base64.{b64encode, b64decode, b64decode-b64encode}
use sam_ken_x_dnssec_keytool.PublicKey.{PublicKey, rsa}
use sam_ken_x_dnssec_keytool.PublicKey.Rsa.{
  decode_rsa_public_key, encode_rsa_public_key, split_header, exp_header, decode_raw, encode_raw,
}

split_header-short : (len : ℕ) (rest : Bytes) → 0 < len → split_header (len ∷ rest) ≡ ok (len, rest)
unfolding split_header
split_header-short zero rest h = absurd (omega arith)
split_header-short (suc len) rest h = refl

-- What follows the header: the exponent in its own number of bytes, then the modulus.
module _ (exponent : ℕ) (n : Bytes) where
  abbrev len : ℕ
  len = byte_length exponent

  abbrev body : Bytes
  body = to_be len exponent ++ n

  read_body :
      rsa (length (drop len body) * 8) (from_be 0 (take len body)) (drop len body)
      ≡ rsa (length n * 8) exponent n
  read_body =
      let width : length (to_be len exponent) ≡ len = length-to_be len exponent in
      let front : take len body ≡ to_be len exponent =
        rw width at (take-append_length (to_be len exponent) n) in
      let back : drop len body ≡ n = rw width at (drop-append_length (to_be len exponent) n) in
      let value : from_be 0 (to_be len exponent) ≡ exponent =
        from_be-to_be len exponent (byte_length-fits exponent) in
      rw (front, back, value)

  decode_raw-short : 0 < len → decode_raw (len ∷ body) ≡ ok (rsa (length n * 8) exponent n)
  unfolding decode_raw
  decode_raw-short h = rw (split_header-short len body h) (ap {B = Result PublicKey} ok read_body)

  decode_raw-long :
      decode_raw (0 ∷ len / 256 ∷ len % 256 ∷ body) ≡ ok (rsa (length n * 8) exponent n)
  unfolding decode_raw split_header
  decode_raw-long =
      let whole : len / 256 * 256 + len % 256 ≡ len = omega arith in
      rw whole (ap {B = Result PublicKey} ok read_body)

  pub encode_raw-short : len < 256 → encode_raw exponent n ≡ ok (len ∷ body)
  unfolding encode_raw exp_header pack to_bytes to_be
  encode_raw-short h = ground (arith, byte_length-fits exponent)

  pub encode_raw-long :
      255 < len → len < 65536 → encode_raw exponent n ≡ ok (0 ∷ len / 256 ∷ len % 256 ∷ body)
  unfolding encode_raw exp_header pack to_bytes to_be
  encode_raw-long h k = ground (arith, byte_length-fits exponent)

  body-IsBytes : IsBytes n → IsBytes body
  body-IsBytes h = IsBytes-append (to_be len exponent) n (to_be-IsBytes len exponent) h

  -- The bytes `raw` carry the key from the encoder to the decoder.
  through :
      (raw : Bytes)
      → encode_raw exponent n ≡ ok raw
      → decode_raw raw ≡ ok (rsa (length n * 8) exponent n)
      → IsBytes raw
      → (encode_rsa_public_key exponent n >>= decode_rsa_public_key)
        ≡ ok (rsa (length n * 8) exponent n)
  unfolding encode_rsa_public_key decode_rsa_public_key
  through raw encoded decoded bytes =
      ap (λ r. (r >>= λ x. ok (b64encode x)) >>= λ key. b64decode key >>= decode_raw) encoded
      ∙ ap (λ r. r >>= decode_raw) (b64decode-b64encode raw bytes)
      ∙ decoded

-- A public key whose exponent is not zero and takes at most 65535 bytes is read back from the form
-- of RFC 3110 in which it was written: the exponent, the modulus, and the modulus's size in bits.
pub decode-encode_rsa :
    (exponent : ℕ) (n : Bytes)
    → 0 < exponent
    → byte_length exponent < 65536
    → IsBytes n
    → (encode_rsa_public_key exponent n >>= decode_rsa_public_key)
      ≡ ok (rsa (length n * 8) exponent n)
decode-encode_rsa exponent n h k bytes = elim (dec_lt (byte_length exponent) 256) [
  | yes short ↦
      through exponent n _ (encode_raw-short exponent n short)
        (decode_raw-short exponent n (byte_length_pos exponent h))
        (short, body-IsBytes exponent n bytes)
  | no long ↦
      through exponent n _ (encode_raw-long exponent n (omega arith) k) (decode_raw-long exponent n)
        (omega arith, (omega arith, (omega arith, body-IsBytes exponent n bytes)))
]
