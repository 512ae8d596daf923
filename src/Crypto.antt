-- ===== src/Crypto.antt =====
-- src/kskm/misc/crypto.py over the `cryptography` package, which is a parameter.
use sam_ken_x_dnssec_keytool.Prelude.{
  ℕ, ◌*◌, ◌/◌, ◌∷◌, Option, none, some, length, take, drop, nat_eqb, if◌then◌else◌,
}
use sam_ken_x_dnssec_keytool.Outcome.{Result, ok, raise, ◌>>=◌, Checked, runtime_error, value_error}
use sam_ken_x_dnssec_keytool.Codec.BigEndian.{from_be}
use sam_ken_x_dnssec_keytool.Data.{Bytes, Key}
use sam_ken_x_dnssec_keytool.Data.Algorithm.{
  AlgorithmDnssec, rsasha256, ecdsap256sha256, ecdsap384sha384, is_algorithm_rsa,
  is_algorithm_ecdsa,
}
use sam_ken_x_dnssec_keytool.PublicKey.{PublicKey, rsa, ecdsa, EcCurve, p256, p384}
use sam_ken_x_dnssec_keytool.PublicKey.Rsa.{decode_rsa_public_key}
use sam_ken_x_dnssec_keytool.PublicKey.Ecdsa.{algorithm_to_curve, decode_ecdsa_public_key}

pub data Hash : Type 0 where
  sha256 sha384 : Hash

-- `RSAPublicNumbers` with `load_rsa_public_numbers`, `from_encoded_point`, and `verify` of the two kinds
-- of keys: for RSA with PKCS1v15 padding, for ECDSA with `encode_dss_signature(r, s)`. Each of them may
-- raise; `verify` raises InvalidSignature where the signature is not one of the data.
pub record Cryptography : Type 1 where
  pub CryptoPubKey : Type 0
  pub load_rsa : (exponent n : ℕ) → Result CryptoPubKey
  pub load_point : EcCurve → Bytes → Result CryptoPubKey
  pub verify_rsa : CryptoPubKey → (signature body : Bytes) → Hash → Checked
  pub verify_ecdsa : CryptoPubKey → (r s : ℕ) → (body : Bytes) → Hash → Checked

-- _algorithm_to_hash
unfoldable pub algorithm_to_hash : AlgorithmDnssec → Result Hash
algorithm_to_hash rsasha256 = ok sha256
algorithm_to_hash ecdsap256sha256 = ok sha256
algorithm_to_hash ecdsap384sha384 = ok sha384
algorithm_to_hash _ = raise value_error

-- the bare point gets the prefix 0x04 of SEC 1
with_prefix : ℕ → Bytes → Bytes
with_prefix size q = if nat_eqb (length q) (size / 8 * 2) then 4 ∷ q else q

module _ (c : Cryptography) where
  open c use {CryptoPubKey, load_rsa, load_point, verify_rsa, verify_ecdsa}

  -- rsa_pubkey_to_crypto_pubkey
  rsa_pubkey_to_crypto_pubkey : (exponent : ℕ) (n : Bytes) → Result CryptoPubKey
  rsa_pubkey_to_crypto_pubkey exponent n = load_rsa exponent (from_be 0 n)

  -- ecdsa_pubkey_to_crypto_pubkey
  ecdsa_pubkey_to_crypto_pubkey : EcCurve → Bytes → Result CryptoPubKey
  unfolding with_prefix
  ecdsa_pubkey_to_crypto_pubkey p256 q = load_point p256 (with_prefix 256 q)
  ecdsa_pubkey_to_crypto_pubkey p384 q = load_point p384 (with_prefix 384 q)

  -- pubkey_to_crypto_pubkey
  unfoldable pub pubkey_to_crypto_pubkey : Option PublicKey → Result CryptoPubKey
  unfolding rsa_pubkey_to_crypto_pubkey ecdsa_pubkey_to_crypto_pubkey
  pubkey_to_crypto_pubkey none = raise runtime_error
  pubkey_to_crypto_pubkey (some (rsa bits exponent n)) = rsa_pubkey_to_crypto_pubkey exponent n
  pubkey_to_crypto_pubkey (some (ecdsa bits q curve)) = ecdsa_pubkey_to_crypto_pubkey curve q

  -- key_to_crypto_pubkey
  unfoldable pub key_to_crypto_pubkey : Key → Result CryptoPubKey
  key_to_crypto_pubkey key =
      if is_algorithm_rsa key.algorithm
      then (do pubkey ← decode_rsa_public_key key.public_key; pubkey_to_crypto_pubkey (some pubkey))
      else if is_algorithm_ecdsa key.algorithm
      then (do
        crv ← algorithm_to_curve key.algorithm
        pubkey ← decode_ecdsa_public_key key.public_key crv
        pubkey_to_crypto_pubkey (some pubkey))
      else raise runtime_error

  verify_halves : CryptoPubKey → (signature body : Bytes) → Hash → Checked
  verify_halves pubkey signature body hash =
      let half = length signature / 2 in
      verify_ecdsa pubkey (from_be 0 (take half signature)) (from_be 0 (drop half signature)) body
        hash

  -- verify_signature
  unfoldable pub verify_signature :
      CryptoPubKey → (signature body : Bytes) → AlgorithmDnssec → Checked
  unfolding verify_halves
  verify_signature pubkey signature body algorithm = do
    hash ← algorithm_to_hash algorithm
    if is_algorithm_rsa algorithm
        then verify_rsa pubkey signature body hash
        else if is_algorithm_ecdsa algorithm
        then verify_halves pubkey signature body hash
        else raise runtime_error
