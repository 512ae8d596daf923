-- ===== src/Signer/Key.antt =====
-- src/kskm/signer/key.py, src/kskm/common/config_ksk.py and src/kskm/ta/keydigest.py: a key signing key
-- as the HSM holds it and in the form of the DNS, checked against its configuration.
use sam_ken_x_dnssec_keytool.Prelude.{
  ℕ, ◌+◌, ◌-◌, ◌/◌, ◌%◌, String, Option, none, some, List, [], ◌∷◌, ◌++◌, map, Bool, true, ◌&&◌,
  leb, ltb, if◌then◌else◌,
}
use sam_ken_x_dnssec_keytool.Prelude.Int.{ltb_ℤ}
use sam_ken_x_dnssec_keytool.Prelude.Equal.{◌==◌, nat_eq, list_eq, option_eq}
use sam_ken_x_dnssec_keytool.Outcome.{
  Result, ok, ◌>>=◌, ◌>>◌, Checked, done, guard, refuse, value_error, runtime_error,
  key_usage_policy_violation,
}
use sam_ken_x_dnssec_keytool.Data.{Bytes, Datetime, Key, RequestBundle}
use sam_ken_x_dnssec_keytool.Data.Flags.{ksk_flags}
use sam_ken_x_dnssec_keytool.Data.Algorithm.{AlgorithmDnssec, is_algorithm_rsa, is_algorithm_ecdsa}
use sam_ken_x_dnssec_keytool.PublicKey.{PublicKey, rsa, ecdsa}
use sam_ken_x_dnssec_keytool.Dnssec.{key_to_rdata, public_key_to_dnssec_key}
use sam_ken_x_dnssec_keytool.Config.{KskKey, KskPolicy}
use sam_ken_x_dnssec_keytool.Rrsig.{dn2wire}
use sam_ken_x_dnssec_keytool.Hsm.{Pkcs11, P11Key, get_p11_key}

-- CompositeKey
pub record CompositeKey (p : Pkcs11) : Type 0 where
  pub p11 : P11Key p
  pub dns : Key

-- KeyDigest, whose digest type is always SHA-256
pub record KeyDigest : Type 0 where
  pub id : Option String
  pub key_tag : ℕ
  pub algorithm : AlgorithmDnssec
  pub digest : Bytes
  pub valid_from : Datetime
  pub valid_until : Option Datetime

-- a digit of `binascii.hexlify(...)`, in upper case
hex_digit : ℕ → ℕ
hex_digit n = if ltb n 10 then n + 48 else n + 55

hexlify_upper : Bytes → Bytes
unfolding hex_digit
hexlify_upper [] = []
hexlify_upper (b ∷ bs) = hex_digit (b / 16) ∷ hex_digit (b % 16) ∷ hexlify_upper bs

-- `str.upper` as far as a comparison with hexadecimal digits can see it
upper : Bytes → Bytes
upper text = map (λ c. if leb 97 c && leb c 122 then c - 32 else c) text

module _ (p : Pkcs11) where
  -- create_trustanchor_keydigest for the root
  unfoldable pub create_trustanchor_keydigest : KskKey → Key → Result KeyDigest
  create_trustanchor_keydigest ksk_key key = do
    owner ← dn2wire "."
    rdata ← key_to_rdata key
    ok (record {
      id = key.key_identifier;
      key_tag = key.key_tag;
      algorithm = key.algorithm;
      digest = p.sha256 (owner ++ rdata);
      valid_from = ksk_key.valid_from;
      valid_until = ksk_key.valid_until;
    })

  check_digest : KskKey → Key → Option Bytes → Checked
  unfolding create_trustanchor_keydigest hexlify_upper upper
  check_digest ksk dnskey none = done
  check_digest ksk dnskey (some []) = done
  check_digest ksk dnskey (some (x ∷ xs)) = do
    ds ← create_trustanchor_keydigest ksk dnskey
    guard (upper (x ∷ xs) == hexlify_upper ds.digest) runtime_error

  check_tag : Key → Option ℕ → Checked
  check_tag dnskey none = done
  check_tag dnskey (some key_tag) = guard (dnskey.key_tag == key_tag) runtime_error

  -- validate_dnskey_matches_ksk
  unfoldable pub validate_dnskey_matches_ksk : KskKey → Key → Checked
  unfolding check_digest check_tag
  validate_dnskey_matches_ksk ksk dnskey = do
    check_digest ksk dnskey ksk.ds_sha256
    check_tag dnskey ksk.key_tag

  check_valid_until : RequestBundle → Option Datetime → Checked
  check_valid_until bundle none = done
  check_valid_until bundle (some t) = refuse (ltb_ℤ t bundle.expiration) key_usage_policy_violation

  -- the second search, for the public key that belongs to a private one
  complete : KskKey → List (List p.Session) → Bool → P11Key p → Result (P11Key p)
  complete ksk p11modules is_public found = elim found.public_key [
    | some _ ↦ ok found
    | none ↦ if is_public then ok found else (do
      found_pub ← get_p11_key p (some ksk.label) p11modules true
      elim found_pub [
        | none ↦ ok found
        | some other ↦ ok (record found { public_key = other.public_key })
      ])
  ]

  -- the key in the HSM is of the kind that is configured
  check_kind : KskKey → PublicKey → Checked
  check_kind ksk (rsa bits exponent n) = do
    guard (is_algorithm_rsa ksk.algorithm) value_error
    guard (some bits == ksk.rsa_size) value_error
    guard (some exponent == ksk.rsa_exponent) value_error
  check_kind ksk (ecdsa bits q curve) = guard (is_algorithm_ecdsa ksk.algorithm) value_error

  compose : KskKey → KskPolicy → P11Key p → Option PublicKey → Result (Option (CompositeKey p))
  unfolding check_kind
  compose ksk ksk_policy found none = ok none
  compose ksk ksk_policy found (some pubkey) = do
    check_kind ksk pubkey
    dns ← public_key_to_dnssec_key pubkey (some ksk.label) ksk.algorithm ksk_policy.ttl ksk_flags
    ok (some (record { p11 = found; dns = dns }))

  load_found :
      KskKey
      → List (List p.Session)
      → KskPolicy
      → Bool
      → Option (P11Key p)
      → Result (Option (CompositeKey p))
  unfolding complete compose
  load_found ksk p11modules ksk_policy is_public none = ok none
  load_found ksk p11modules ksk_policy is_public (some first) = do
    found ← complete ksk p11modules is_public first
    compose ksk ksk_policy found found.public_key

  -- load_pkcs11_key
  unfoldable pub load_pkcs11_key :
      KskKey
      → List (List p.Session)
      → KskPolicy
      → RequestBundle
      → Bool
      → Result (Option (CompositeKey p))
  unfolding check_valid_until load_found
  load_pkcs11_key ksk p11modules ksk_policy bundle is_public = do
    refuse (ltb_ℤ bundle.inception ksk.valid_from) key_usage_policy_violation
    check_valid_until bundle ksk.valid_until
    first ← get_p11_key p (some ksk.label) p11modules is_public
    load_found ksk p11modules ksk_policy is_public first
