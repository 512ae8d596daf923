-- ===== src/Tests/Inputs.antt =====
-- A request, its policy and its responses, small enough to compute with. The toy signature scheme of
-- the cryptographic package accepts a signature that ends in the last byte of the modulus.
use sam_ken_x_dnssec_keytool.Prelude.{
  ℕ, ◌+◌, String, none, some, [], ◌∷◌, true, nat_eqb, get_last?, ◌%◌,
}
use sam_ken_x_dnssec_keytool.Outcome.{ok, raise, guard, require, ◌>>=◌, invalid_signature}
use sam_ken_x_dnssec_keytool.Data.{
  Bytes, Datetime, Key, Signature, Bundle, RequestBundle, Request, Response, SignaturePolicy, rsa,
  dnskey,
}
use sam_ken_x_dnssec_keytool.Data.Flags.{zone, ksk_flags}
use sam_ken_x_dnssec_keytool.Data.Algorithm.{rsasha256}
use sam_ken_x_dnssec_keytool.Config.{RequestPolicy, ResponsePolicy, default_request_policy, days}
use sam_ken_x_dnssec_keytool.Crypto.{Cryptography}

abbrev pub toy : Cryptography
toy = record {
  CryptoPubKey = ℕ;
  load_rsa = λ exponent n. ok n;
  load_point = λ curve q. raise invalid_signature;
  verify_rsa = λ pubkey signature body hash.
      require (get_last? signature) invalid_signature >>= λ b.
      guard (nat_eqb b (pubkey % 256)) invalid_signature;
  verify_ecdsa = λ pubkey r s body hash. raise invalid_signature;
}

-- the exponent 3 and the modulus 0x0102, in base64: "AQMBAg=="
abbrev pub zsk : Key
zsk = record {
  key_identifier = some "zsk";
  key_tag = 1549;
  ttl = 172_800;
  flags = zone;
  protocol = 3;
  algorithm = rsasha256;
  public_key = 65 ∷ 81 ∷ 77 ∷ 66 ∷ 65 ∷ 103 ∷ 61 ∷ 61 ∷ [];
}

abbrev pub modulus : Bytes
modulus = 1 ∷ 2 ∷ []

-- the same public key as a key signing key
abbrev pub ksk : Key
ksk = record zsk { key_identifier = some "ksk"; key_tag = 1550; flags = ksk_flags }

-- the bytes 7, 8, 2 in base64: "BwgC"
abbrev pub proof : Datetime → Datetime → Signature
proof inception expiration = record {
  key_identifier = some "zsk";
  ttl = 172_800;
  type_covered = dnskey;
  algorithm = rsasha256;
  labels = 0;
  original_ttl = 172_800;
  signature_expiration = expiration;
  signature_inception = inception;
  key_tag = 1549;
  signers_name = ".";
  signature_data = 66 ∷ 119 ∷ 103 ∷ 67 ∷ [];
}

abbrev pub bundle_at : String → ℕ → Bundle
bundle_at id day = record {
  id = id;
  inception = days day;
  expiration = days (day + 21);
  keys = zsk ∷ [];
  signatures = proof (days day) (days (day + 21)) ∷ [];
}

abbrev pub request_bundle_at : String → ℕ → RequestBundle
request_bundle_at id day = record { bundle = bundle_at id day; signers = none }

abbrev pub zsk_policy : SignaturePolicy
zsk_policy = record {
  publish_safety = days 10;
  retire_safety = days 10;
  max_signature_validity = days 21;
  min_signature_validity = days 21;
  max_validity_overlap = days 12;
  min_validity_overlap = days 9;
  algorithms = rsa 16 rsasha256 3 ∷ [];
}

abbrev pub request : Request
request = record {
  id = "request";
  serial = 1;
  domain = ".";
  timestamp = none;
  zsk_policy = zsk_policy;
  bundles = request_bundle_at "a" 100 ∷ request_bundle_at "b" 110 ∷ [];
}

abbrev pub last_skr : Response
last_skr = record {
  id = "last";
  serial = 0;
  domain = ".";
  timestamp = none;
  zsk_policy = zsk_policy;
  ksk_policy = zsk_policy;
  bundles = bundle_at "y" 80 ∷ bundle_at "z" 90 ∷ [];
}

abbrev pub new_skr : Response
new_skr = record {
  id = "request";
  serial = 1;
  domain = ".";
  timestamp = none;
  zsk_policy = zsk_policy;
  ksk_policy = zsk_policy;
  bundles = bundle_at "a" 100 ∷ bundle_at "b" 110 ∷ [];
}

unfoldable pub policy : RequestPolicy
unfolding default_request_policy
policy = record default_request_policy {
  num_bundles = some 2;
  min_cycle_inception_length = days 9;
  max_cycle_inception_length = days 11;
  rsa_approved_exponents = 3 ∷ [];
  rsa_approved_key_sizes = 16 ∷ [];
  num_keys_per_bundle = 1 ∷ 1 ∷ [];
  num_different_keys_in_all_bundles = some 1;
}

abbrev pub response_policy : ResponsePolicy
response_policy = record { num_bundles = some 2; validate_signatures = true }
