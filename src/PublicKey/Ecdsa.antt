-- ===== src/PublicKey/Ecdsa.antt =====
-- src/kskm/common/ecdsa_utils.py: ECDSA public keys, with or without the 0x04 prefix of SEC 1.
pub mod Point
use sam_ken_x_dnssec_keytool.Prelude.{ℕ, ◌*◌, ◌/◌, [], ◌∷◌, length, nat_eqb, if◌then◌else◌}
use sam_ken_x_dnssec_keytool.Outcome.{Result, ok, raise, ◌>>=◌, value_error, index_error}
use sam_ken_x_dnssec_keytool.Data.{Bytes}
use sam_ken_x_dnssec_keytool.Data.Algorithm.{AlgorithmDnssec, ecdsap256sha256, ecdsap384sha384}
use sam_ken_x_dnssec_keytool.Codec.Base64.{b64encode, b64decode}
use sam_ken_x_dnssec_keytool.PublicKey.{PublicKey, ecdsa, EcCurve, p256, p384}

-- algorithm_to_curve
unfoldable pub algorithm_to_curve : AlgorithmDnssec → Result EcCurve
algorithm_to_curve ecdsap256sha256 = ok p256
algorithm_to_curve ecdsap384sha384 = ok p384
algorithm_to_curve _ = raise value_error

-- get_ecdsa_pubkey_size
unfoldable pub get_ecdsa_pubkey_size : Bytes → ℕ
get_ecdsa_pubkey_size public_key = length public_key * 8 / 2

-- expected_ecdsa_key_size
unfoldable pub expected_ecdsa_key_size : AlgorithmDnssec → Result ℕ
expected_ecdsa_key_size ecdsap256sha256 = ok 256
expected_ecdsa_key_size ecdsap384sha384 = ok 384
expected_ecdsa_key_size _ = raise value_error

drop_prefix : Bytes → Result Bytes
drop_prefix [] = raise index_error
drop_prefix (b ∷ bs) = if nat_eqb b 4 then ok bs else ok (b ∷ bs)

-- ecdsa_public_key_without_prefix
unfoldable pub ecdsa_public_key_without_prefix : Bytes → AlgorithmDnssec → Result Bytes
unfolding get_ecdsa_pubkey_size drop_prefix
ecdsa_public_key_without_prefix public_key algorithm = do
  expected ← expected_ecdsa_key_size algorithm
  if nat_eqb (get_ecdsa_pubkey_size public_key) expected
      then ok public_key
      else drop_prefix public_key

-- encode_ecdsa_public_key
unfoldable pub encode_ecdsa_public_key : Bytes → Bytes
encode_ecdsa_public_key q = b64encode q

-- decode_ecdsa_public_key
unfoldable pub decode_ecdsa_public_key : Bytes → EcCurve → Result PublicKey
decode_ecdsa_public_key key curve = do q ← b64decode key; ok (ecdsa (length q * 8) q curve)
