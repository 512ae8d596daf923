-- ===== src/PublicKey/Rsa/Form.antt =====
-- The form of RFC 3110 in which an RSA key is written (common/rsa_utils.py).
use native.Mathlib.Decide.{dec_lt}
use sam_ken_x_dnssec_keytool.Prelude.{
  ℕ, ◌/◌, ◌%◌, ◌<◌, ◌≤◌, ◌≡◌, ◌⊎◌, inl, inr, ◌∷◌, ◌++◌, length, arith,
}
use sam_ken_x_dnssec_keytool.Outcome.{ok, raise, struct_error, >>=-eq-ok}
use sam_ken_x_dnssec_keytool.Data.{Bytes}
use sam_ken_x_dnssec_keytool.Codec.BigEndian.{
  IsBytes, from_be, to_be, to_bytes, pack, byte_length, byte_length-fits, length-to_be,
  from_be-to_be, to_be-IsBytes,
}
use sam_ken_x_dnssec_keytool.Codec.Base64.{b64encode}
use sam_ken_x_dnssec_keytool.PublicKey.Rsa.{encode_rsa_public_key, exp_header, encode_raw}
use sam_ken_x_dnssec_keytool.PublicKey.Rsa.RoundTrip.{encode_raw-short, encode_raw-long}

-- The number of bytes of the exponent in one byte, or 0 and that number in two bytes; the bytes of the
-- exponent; the modulus
pub record IsRfc3110 (exponent : ℕ) (n raw : Bytes) : Type 0 where
  pub bytes : Bytes
  pub are_bytes : IsBytes bytes
  pub big_endian : from_be 0 bytes ≡ exponent
  pub layout :
      ((length bytes < 256) × (raw ≡ length bytes ∷ bytes ++ n))
      ⊎ ((255 < length bytes)
          × (length bytes < 65536)
          × (raw ≡ 0 ∷ length bytes / 256 ∷ length bytes % 256 ∷ bytes ++ n))

encode_raw-too_long :
    (exponent : ℕ) (n : Bytes)
    → 65536 ≤ byte_length exponent
    → encode_raw exponent n ≡ raise struct_error
unfolding encode_raw exp_header pack to_bytes to_be
encode_raw-too_long exponent n h = ground (arith, byte_length-fits exponent)

encode_raw-IsRfc3110 :
    (exponent : ℕ) (n raw : Bytes) → encode_raw exponent n ≡ ok raw → IsRfc3110 exponent n raw
encode_raw-IsRfc3110 exponent n raw h =
    let width = length-to_be (byte_length exponent) exponent in
    let layout : (byte_length exponent < 256
          × (raw ≡ byte_length exponent ∷ to_be (byte_length exponent) exponent ++ n))
        ⊎ ((255 < byte_length exponent)
            × (byte_length exponent < 65536)
            × (raw
                ≡ 0
                    ∷ byte_length exponent / 256
                    ∷ byte_length exponent % 256
                    ∷ to_be (byte_length exponent) exponent
                  ++ n)) =
      elim (dec_lt (byte_length exponent) 256) [
        | yes short ↦ inl (short, let e = encode_raw-short exponent n short in cc)
        | no long ↦ elim (dec_lt (byte_length exponent) 65536) [
          | yes fits ↦
              inr (omega arith, fits, let e = encode_raw-long exponent n (omega arith) fits in cc)
          | no above ↦ let e = encode_raw-too_long exponent n (omega arith) in absurd (cc)
        ]
      ] in
    record {
      bytes = to_be (byte_length exponent) exponent;
      are_bytes = to_be-IsBytes (byte_length exponent) exponent;
      big_endian = from_be-to_be (byte_length exponent) exponent (byte_length-fits exponent);
      layout = rw width layout;
    }

pub encode_rsa_public_key-IsRfc3110 :
    (exponent : ℕ) (n key : Bytes)
    → encode_rsa_public_key exponent n ≡ ok key
    → (raw : Bytes) × IsRfc3110 exponent n raw × (key ≡ b64encode raw)
unfolding encode_rsa_public_key
encode_rsa_public_key-IsRfc3110 exponent n key h =
    let (raw, e, last) = >>=-eq-ok (encode_raw exponent n) _ h in
    (raw, encode_raw-IsRfc3110 exponent n raw e, cc)
