-- ===== src/PublicKey/Rsa.antt =====
-- src/kskm/common/rsa_utils.py: RSA public keys in the form of RFC 3110.
pub mod RoundTrip
pub mod Form
use sam_ken_x_dnssec_keytool.Prelude.{
  ℕ, ◌≡◌, ◌+◌, ◌*◌, zero, List, [], ◌∷◌, ◌++◌, length, take, drop, ltb, nat_eqb, if◌then◌else◌,
}
use sam_ken_x_dnssec_keytool.Outcome.{
  Result, ok, raise, ◌>>=◌, >>=-eq-ok, index_error, struct_error,
}
use sam_ken_x_dnssec_keytool.Data.{Bytes}
use sam_ken_x_dnssec_keytool.Codec.BigEndian.{from_be, to_bytes, pack, byte_length}
use sam_ken_x_dnssec_keytool.Codec.Base64.{b64encode, b64decode}
use sam_ken_x_dnssec_keytool.PublicKey.{PublicKey, rsa}

-- the length of the exponent, and the bytes behind it
split_header : Bytes → Result (ℕ × Bytes)
split_header [] = raise index_error
split_header (zero ∷ hi ∷ lo ∷ rest) = ok (hi * 256 + lo, rest)
split_header (zero ∷ _) = raise struct_error
split_header (len ∷ rest) = ok (len, rest)

decode_raw : Bytes → Result PublicKey
unfolding split_header
decode_raw bytes = do
  (exponent_len, rest) ← split_header bytes
  let rsa_n = drop exponent_len rest
  ok (rsa (length rsa_n * 8) (from_be 0 (take exponent_len rest)) rsa_n)

-- decode_rsa_public_key
unfoldable pub decode_rsa_public_key : Bytes → Result PublicKey
unfolding decode_raw
decode_rsa_public_key key = do bytes ← b64decode key; decode_raw bytes

exp_header : ℕ → Result Bytes
exp_header exp_len =
    if ltb 255 exp_len then (do len ← pack 2 exp_len; ok (0 ∷ len)) else pack 1 exp_len

pub encode_raw : ℕ → Bytes → Result Bytes
unfolding exp_header
encode_raw exponent n = do
  let exp_len = byte_length exponent
  exp ← to_bytes exp_len exponent
  header ← exp_header exp_len
  ok (header ++ (exp ++ n))

-- encode_rsa_public_key
unfoldable pub encode_rsa_public_key : ℕ → Bytes → Result Bytes
unfolding encode_raw
encode_rsa_public_key exponent n = do raw ← encode_raw exponent n; ok (b64encode raw)

-- What is decoded is an RSA key.
pub decode_rsa_public_key-rsa :
    (key : Bytes) (p : PublicKey)
    → decode_rsa_public_key key ≡ ok p
    → (bits : ℕ) × (exponent : ℕ) × (n : Bytes) × (p ≡ rsa bits exponent n)
unfolding decode_rsa_public_key
decode_rsa_public_key-rsa key p h =
    let (bytes, _, h1) = >>=-eq-ok (b64decode key) _ h in
    let ((len, rest), _, h2) = >>=-eq-ok (split_header bytes) _ h1 in
    (length (drop len rest) * 8, from_be 0 (take len rest), drop len rest, cc)
