-- ===== src/Dnssec.antt =====
-- src/kskm/common/dnssec.py, and the check that `Key.__post_init__` (common/data.py) makes whenever a
-- `Key` is constructed or replaced.
pub mod KeyTag
pub mod Construction
use sam_ken_x_dnssec_keytool.Prelude.{
  ℕ, ◌+◌, ◌*◌, ◌/◌, ◌%◌, String, Option, Bool, true, false, not, List, [], ◌∷◌, ◌++◌, nat_eqb, ◌||◌,
  if◌then◌else◌,
}
use sam_ken_x_dnssec_keytool.Prelude.Equal.{Eq, ◌==◌}
use sam_ken_x_dnssec_keytool.Outcome.{
  Result, ok, raise, ◌>>=◌, ◌>>◌, Checked, done, guard, refuse, value_error, Exception,
}
use sam_ken_x_dnssec_keytool.Codec.BigEndian.{pack}
use sam_ken_x_dnssec_keytool.Codec.Base64.{b64decode}
use sam_ken_x_dnssec_keytool.Data.{Bytes, Key}
use sam_ken_x_dnssec_keytool.Data.Flags.{zone, ksk_flags, revoked_ksk_flags}
use sam_ken_x_dnssec_keytool.Data.Algorithm.{AlgorithmDnssec, algorithm_value, is_algorithm_ecdsa}
use sam_ken_x_dnssec_keytool.PublicKey.{PublicKey, rsa, ecdsa, EcCurve, p256, p384}
use sam_ken_x_dnssec_keytool.PublicKey.Rsa.{encode_rsa_public_key}
use sam_ken_x_dnssec_keytool.PublicKey.Ecdsa.{
  algorithm_to_curve, ecdsa_public_key_without_prefix, get_ecdsa_pubkey_size,
  expected_ecdsa_key_size, encode_ecdsa_public_key,
}

-- key_to_rdata: `struct.pack("!HBB", ...)` and the decoded public key
unfoldable pub key_to_rdata : Key → Result Bytes
key_to_rdata key = do
  flags ← pack 2 key.flags
  protocol ← pack 1 key.protocol
  algorithm ← pack 1 (algorithm_value key.algorithm)
  pubkey ← b64decode key.public_key
  ok (flags ++ (protocol ++ (algorithm ++ pubkey)))

-- the loop of calculate_key_tag, with `_odd` and `_sum`
tag_sum : Bool → ℕ → Bytes → ℕ
tag_sum odd sum [] = sum
tag_sum odd sum (this ∷ rest) =
    tag_sum (not odd) (if odd then sum + this else sum + this * 256) rest

-- `((_sum & 0xFFFF) + (_sum >> 16)) & 0xFFFF`
fold_sum : ℕ → ℕ
fold_sum sum = (sum % 65536 + sum / 65536) % 65536

-- calculate_key_tag
unfoldable pub calculate_key_tag : Key → Result ℕ
unfolding tag_sum fold_sum
calculate_key_tag key = do rdata ← key_to_rdata key; ok (fold_sum (tag_sum false 0 rdata))

check_ecdsa_length : Key → Checked
check_ecdsa_length key = do
  raw ← b64decode key.public_key
  pubkey ← ecdsa_public_key_without_prefix raw key.algorithm
  expected ← expected_ecdsa_key_size key.algorithm
  guard (nat_eqb (get_ecdsa_pubkey_size pubkey) expected) value_error

acceptable_flags : ℕ → Bool
acceptable_flags flags =
    nat_eqb flags ksk_flags || (nat_eqb flags revoked_ksk_flags || nat_eqb flags zone)

-- Key.__post_init__
unfoldable pub post_init : Key → Checked
unfolding check_ecdsa_length acceptable_flags
post_init key = do
  if is_algorithm_ecdsa key.algorithm then check_ecdsa_length key else done
  guard (acceptable_flags key.flags) value_error

-- A key as the constructor, or `dataclasses.replace`, leaves it.
unfoldable pub construct : Key → Result Key
construct key = post_init key >> ok key

curve_eqb : EcCurve → EcCurve → Bool
curve_eqb p256 p256 = true
curve_eqb p384 p384 = true
curve_eqb p256 p384 = false
curve_eqb p384 p256 = false

encode_public_key : PublicKey → AlgorithmDnssec → Result Bytes
unfolding curve_eqb
encode_public_key (rsa bits exponent n) algorithm = encode_rsa_public_key exponent n
encode_public_key (ecdsa bits q curve) algorithm = do
  expected ← algorithm_to_curve algorithm
  if curve_eqb expected curve then ok (encode_ecdsa_public_key q) else raise value_error

-- public_key_to_dnssec_key
unfoldable pub public_key_to_dnssec_key :
    PublicKey → Option String → AlgorithmDnssec → (ttl flags : ℕ) → Result Key
unfolding encode_public_key
public_key_to_dnssec_key key identifier algorithm ttl flags = do
  pubkey ← encode_public_key key algorithm
  untagged ← construct (record {
    key_identifier = identifier;
    key_tag = 0;
    ttl = ttl;
    flags = flags;
    protocol = 3;
    algorithm = algorithm;
    public_key = pubkey;
  })
  key_tag ← calculate_key_tag untagged
  construct (record untagged { key_tag = key_tag })
