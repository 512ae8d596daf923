-- ===== src/Tests/Signing.antt =====
-- A toy HSM with one RSA key, and what signing the request with it returns.
use sam_ken_x_dnssec_keytool.Prelude.{◌≡◌, refl, ℕ, ◌+◌, String, none, some, List, [], ◌∷◌}
use sam_ken_x_dnssec_keytool.Prelude.Equal.{contains, add}
use sam_ken_x_dnssec_keytool.Prelude.Dict.{get, set, has_key}
use sam_ken_x_dnssec_keytool.Outcome.{ok, for_each, map_each, fold_each}
use sam_ken_x_dnssec_keytool.Outcome.Index.{index_from}
use sam_ken_x_dnssec_keytool.Codec.BigEndian.{from_be, to_be, to_bytes, pack, byte_length}
use sam_ken_x_dnssec_keytool.Codec.Base64.{b64encode, b64decode}
use sam_ken_x_dnssec_keytool.Data.{Key, Bundle, Signature, Response, Datetime}
use sam_ken_x_dnssec_keytool.Data.Algorithm.{
  rsasha256, algorithm_value, algorithm_name, is_algorithm_rsa, is_algorithm_ecdsa,
}
use sam_ken_x_dnssec_keytool.Data.Equality.{key_beq, signature_beq}
use sam_ken_x_dnssec_keytool.Data.Flags.{ksk_flags, revoked_ksk_flags}
use sam_ken_x_dnssec_keytool.PublicKey.{rsa}
use sam_ken_x_dnssec_keytool.PublicKey.Rsa.{decode_rsa_public_key, encode_rsa_public_key}
use sam_ken_x_dnssec_keytool.Dnssec.{
  key_to_rdata, calculate_key_tag, post_init, construct, public_key_to_dnssec_key,
}
use sam_ken_x_dnssec_keytool.Config.{days, KskKey, KskPolicy, Schema}
use sam_ken_x_dnssec_keytool.Crypto.{
  algorithm_to_hash, pubkey_to_crypto_pubkey, key_to_crypto_pubkey, verify_signature,
}
use sam_ken_x_dnssec_keytool.Rrsig.{dn2wire, dndepth, make_raw_rrsig}
use sam_ken_x_dnssec_keytool.Rrsig.Sorting.{sorted, bytes_le}
use sam_ken_x_dnssec_keytool.Signatures.{validate_signatures}
use sam_ken_x_dnssec_keytool.Hsm.{
  Pkcs11, rsa_type, fill, pad_digest, p11_object_to_public_key, find_key_by_label, get_p11_key,
  sign_using_p11,
}
use sam_ken_x_dnssec_keytool.Skr.{check_valid_signatures}
use sam_ken_x_dnssec_keytool.Signer.Key.{load_pkcs11_key, validate_dnskey_matches_ksk}
use sam_ken_x_dnssec_keytool.Signer.Sign.{SigningConfig, sign_bundles, revoke_key}
use sam_ken_x_dnssec_keytool.Tests.Inputs.{
  toy, request, zsk, ksk, proof, zsk_policy, response_policy, modulus,
}

-- Every label names the one key, and every signature is the bytes 7, 8, 2.
abbrev pub toy_hsm : Pkcs11
toy_hsm = record {
  Session = ℕ;
  Handle = ℕ;
  find_objects = λ session label key_class. ok (1 ∷ []);
  key_type = λ session handle. ok rsa_type;
  modulus = λ session handle. ok (1 ∷ 2 ∷ []);
  public_exponent = λ session handle. ok (3 ∷ []);
  ec_point = λ session handle. ok [];
  ec_params = λ session handle. ok [];
  sign = λ session handle bytes mechanism. ok (7 ∷ 8 ∷ 2 ∷ []);
  sha1 = λ bytes. bytes;
  sha256 = λ bytes. bytes;
  sha384 = λ bytes. bytes;
  sha512 = λ bytes. bytes;
}

abbrev pub modules : List (List ℕ)
modules = (0 ∷ []) ∷ []

abbrev pub ksk_config : KskKey
ksk_config = record {
  description = "a toy";
  label = "ksk";
  key_tag = some 1550;
  algorithm = rsasha256;
  valid_from = days 0;
  valid_until = none;
  rsa_size = some 16;
  rsa_exponent = some 3;
  ds_sha256 = none;
}

abbrev pub ksk_policy : KskPolicy
ksk_policy = record { signature_policy = zsk_policy; ttl = 172_800; signers_name = "." }

abbrev pub config : SigningConfig
config = record { ksk_keys = ("current", ksk_config) ∷ []; response_policy = response_policy }

abbrev pub schema : Schema
schema = record {
  name = "normal";
  actions =
      (1, record { publish = "current" ∷ []; sign = "current" ∷ []; revoke = [] })
      ∷ (2, record { publish = []; sign = "current" ∷ []; revoke = [] })
      ∷ [];
}

abbrev pub ksk_signature : Datetime → Datetime → Signature
ksk_signature inception expiration = record (proof inception expiration) {
  key_identifier = some "ksk";
  key_tag = 1550;
}

abbrev pub answer_at : String → ℕ → Bundle
answer_at id day = record {
  id = id;
  inception = days day;
  expiration = days (day + 21);
  keys = zsk ∷ ksk ∷ [];
  signatures = ksk_signature (days day) (days (day + 21)) ∷ [];
}

abbrev pub answers : List Bundle
answers = answer_at "a" 100 ∷ answer_at "b" 110 ∷ []

pub request_is_signed :
    sign_bundles toy toy_hsm modules ksk_policy config request schema ≡ ok answers
unfolding sign_bundles contains add get set has_key for_each map_each fold_each index_from from_be
    to_be to_bytes pack byte_length b64encode b64decode algorithm_value algorithm_name
    is_algorithm_rsa is_algorithm_ecdsa key_beq signature_beq decode_rsa_public_key
    encode_rsa_public_key key_to_rdata calculate_key_tag post_init construct
    public_key_to_dnssec_key algorithm_to_hash pubkey_to_crypto_pubkey key_to_crypto_pubkey
    verify_signature dn2wire dndepth make_raw_rrsig sorted bytes_le validate_signatures fill
    pad_digest p11_object_to_public_key find_key_by_label get_p11_key sign_using_p11
    check_valid_signatures load_pkcs11_key validate_dnskey_matches_ksk
request_is_signed = refl

abbrev pub signed_skr : Response
signed_skr = record {
  id = "request";
  serial = 1;
  domain = ".";
  timestamp = none;
  zsk_policy = zsk_policy;
  ksk_policy = zsk_policy;
  bundles = answers;
}

pub ksk_is_made :
    public_key_to_dnssec_key (rsa 16 3 modulus) (some "ksk") rsasha256 172_800 ksk_flags ≡ ok ksk
unfolding public_key_to_dnssec_key encode_rsa_public_key post_init construct calculate_key_tag
    key_to_rdata pack to_be to_bytes byte_length b64encode b64decode algorithm_value
    is_algorithm_ecdsa contains
ksk_is_made = refl

abbrev pub revoked_ksk : Key
revoked_ksk = record ksk { flags = revoked_ksk_flags; key_tag = 1678 }

pub ksk_is_revoked : revoke_key ksk ≡ ok revoked_ksk
unfolding revoke_key post_init construct calculate_key_tag key_to_rdata pack to_be b64decode
    algorithm_value is_algorithm_ecdsa contains
ksk_is_revoked = refl
