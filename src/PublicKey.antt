-- ===== src/PublicKey.antt =====
-- The parsed public keys of src/kskm/common: KSKM_PublicKey (public_key.py) with its subclasses
-- KSKM_PublicKey_RSA (rsa_utils.py) and KSKM_PublicKey_ECDSA (ecdsa_utils.py).
pub mod Rsa
pub mod Ecdsa
use sam_ken_x_dnssec_keytool.Prelude.{ℕ}
use sam_ken_x_dnssec_keytool.Data.{Bytes}

-- ECCurve
pub data EcCurve : Type 0 where
  p256 p384 : EcCurve

pub data PublicKey : Type 0 where
  rsa : (bits exponent : ℕ) (n : Bytes) → PublicKey
  ecdsa : (bits : ℕ) (q : Bytes) (curve : EcCurve) → PublicKey
