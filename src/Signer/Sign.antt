-- ===== src/Signer/Sign.antt =====
-- src/kskm/signer/sign.py
pub mod Cover
pub mod Answers
pub mod Revocation
use Prim.Native.Nat.{bit_or}
use sam_ken_x_dnssec_keytool.Prelude.{
  ℕ, suc, String, Option, none, some, List, [], ◌∷◌, map, Bool, true, false, ◌&&◌, nat_eqb,
  if◌then◌else◌,
}
use sam_ken_x_dnssec_keytool.Prelude.Equal.{contains, add, nat_eq, string_eq}
use sam_ken_x_dnssec_keytool.Prelude.Dict.{Dict, get}
use sam_ken_x_dnssec_keytool.Outcome.{
  Result, ok, raise, ◌>>=◌, ◌>>◌, Checked, done, guard, require, for_each, map_each, fold_each,
  except_invalid_signature, assertion_error, key_error, configuration_error, create_signature_error,
  skr_verify_failure,
}
use sam_ken_x_dnssec_keytool.Codec.Base64.{b64encode}
use sam_ken_x_dnssec_keytool.Data.{
  Bytes, Set, Key, Signature, Bundle, RequestBundle, Request, dnskey,
}
use sam_ken_x_dnssec_keytool.Data.Flags.{revoke}
use sam_ken_x_dnssec_keytool.Data.Algorithm.{AlgorithmDnssec, algorithm_name}
use sam_ken_x_dnssec_keytool.Data.Equality.{key_eq, signature_eq}
use sam_ken_x_dnssec_keytool.Dnssec.{calculate_key_tag, construct}
use sam_ken_x_dnssec_keytool.Config.{KskKey, KskPolicy, Schema, ResponsePolicy}
use sam_ken_x_dnssec_keytool.Crypto.{Cryptography, pubkey_to_crypto_pubkey, verify_signature}
use sam_ken_x_dnssec_keytool.Rrsig.{dndepth, make_raw_rrsig}
use sam_ken_x_dnssec_keytool.Hsm.{Pkcs11, P11Key, sign_using_p11}
use sam_ken_x_dnssec_keytool.Signer.Key.{CompositeKey, load_pkcs11_key, validate_dnskey_matches_ksk}
use sam_ken_x_dnssec_keytool.Skr.{check_valid_signatures}

-- what the source takes from the configuration: the keys by their names, and the response policy
pub record SigningConfig : Type 0 where
  pub ksk_keys : Dict String KskKey
  pub response_policy : ResponsePolicy

all_in : List String → List String → Bool
all_in [] ys = true
all_in (x ∷ xs) ys = contains ys x && all_in xs ys

-- the same elements, in any order
same_set : List String → List String → Bool
unfolding all_in
same_set xs ys = all_in xs ys && all_in ys xs

-- a key of the request with the TTL of the KSK operator
override_ttl : KskPolicy → Key → Result Key
override_ttl ksk_policy key =
    if nat_eqb key.ttl ksk_policy.ttl
    then ok key
    else construct (record key { ttl = ksk_policy.ttl })

pub add_zsk : KskPolicy → Set Key → Key → Result (Set Key)
unfolding override_ttl
add_zsk ksk_policy keys key = do key' ← override_ttl ksk_policy key; ok (add key' keys)

-- the revoked form of a key, with its new key tag
unfoldable pub revoke_key : Key → Result Key
revoke_key key = do
  revoked_key ← construct (record key { flags = bit_or key.flags revoke })
  key_tag ← calculate_key_tag revoked_key
  construct (record revoked_key { key_tag = key_tag })

module _ (c : Cryptography) (p : Pkcs11) where
  fetch_key :
      List (List p.Session)
      → KskPolicy
      → Dict String KskKey
      → RequestBundle
      → Bool
      → String
      → Result (CompositeKey p)
  fetch_key p11modules ksk_policy ksk_keys bundle is_public name = do
    ksk ← require (get ksk_keys name) key_error
    loaded ← load_pkcs11_key p ksk p11modules ksk_policy bundle is_public
    this_key ← require loaded configuration_error
    validate_dnskey_matches_ksk p ksk this_key.dns
    ok this_key

  -- _fetch_keys
  fetch_keys :
      List String
      → RequestBundle
      → List (List p.Session)
      → KskPolicy
      → Dict String KskKey
      → Bool
      → Result (List (CompositeKey p))
  unfolding fetch_key
  fetch_keys key_names bundle p11modules ksk_policy ksk_keys is_public =
      map_each (fetch_key p11modules ksk_policy ksk_keys bundle is_public) key_names

  -- _verify_using_crypto, which raises the exception that it catches
  verify_using_crypto : P11Key p → Bytes → Bytes → AlgorithmDnssec → Checked
  verify_using_crypto p11_key rrsig_raw signature algorithm = do
    pubkey ← pubkey_to_crypto_pubkey c p11_key.public_key
    verify_signature c pubkey signature rrsig_raw algorithm

  -- _sign_keys, with the keys of the updated bundle
  sign_keys : RequestBundle → Set Key → KskPolicy → CompositeKey p → Result Signature
  unfolding verify_using_crypto
  sign_keys bundle keys ksk_policy signing_key = do
    for_each (λ (key : Key). guard (nat_eqb key.ttl ksk_policy.ttl) assertion_error) keys
    labels ← dndepth ksk_policy.signers_name
    let sig : Signature = record {
      key_tag = signing_key.dns.key_tag;
      key_identifier = signing_key.dns.key_identifier;
      signature_expiration = bundle.expiration;
      signature_inception = bundle.inception;
      type_covered = dnskey;
      algorithm = signing_key.dns.algorithm;
      original_ttl = ksk_policy.ttl;
      ttl = ksk_policy.ttl;
      signers_name = ksk_policy.signers_name;
      labels = labels;
      signature_data = [];
    }
    rrsig_raw ← make_raw_rrsig sig keys
    signature_data ← sign_using_p11 p signing_key.p11 rrsig_raw signing_key.dns.algorithm
    except_invalid_signature
        (verify_using_crypto signing_key.p11 rrsig_raw signature_data signing_key.dns.algorithm)
        skr_verify_failure
    ok (record sig { signature_data = b64encode signature_data })

  add_signature :
      RequestBundle → Set Key → KskPolicy → Set Signature → CompositeKey p → Result (Set Signature)
  unfolding sign_keys
  add_signature bundle keys ksk_policy signatures sign_key = do
    sig ← sign_keys bundle keys ksk_policy sign_key
    ok (add sig signatures)

  pub add_dns : Set Key → CompositeKey p → Result (Set Key)
  add_dns keys this_key = ok (add this_key.dns keys)

  pub add_revoked : Set Key → CompositeKey p → Result (Set Key)
  unfolding revoke_key
  add_revoked keys this_key = do revoked_key ← revoke_key this_key.dns; ok (add revoked_key keys)

  -- the algorithms must be the same, and the response policy is applied for good measure
  finish_bundle : RequestBundle → Set Key → Set Signature → ResponsePolicy → Result Bundle
  unfolding same_set
  finish_bundle bundle new_keys signatures response_policy = do
    guard
        (same_set (map (λ (x : Key). algorithm_name x.algorithm) bundle.keys)
          (map (λ (x : Signature). algorithm_name x.algorithm) signatures))
        create_signature_error
    let response_bundle : Bundle = record {
      id = bundle.id;
      inception = bundle.inception;
      expiration = bundle.expiration;
      keys = new_keys;
      signatures = signatures;
    }
    check_valid_signatures c response_bundle response_policy
    ok response_bundle

  module _ (p11modules : List (List p.Session)) (ksk_policy : KskPolicy)
      (config : SigningConfig) where
    -- the body of the loop, with the actions of the bundle's place in the schema
    sign_bundle : (publish revoking sign : List String) → RequestBundle → Result Bundle
    unfolding add_zsk add_dns add_revoked add_signature fetch_keys finish_bundle
    sign_bundle publish revoking sign bundle = do
      zsks ← fold_each (add_zsk ksk_policy) [] bundle.keys
      publish_keys ← fetch_keys publish bundle p11modules ksk_policy config.ksk_keys true
      published ← fold_each add_dns zsks publish_keys
      revoke_keys ← fetch_keys revoking bundle p11modules ksk_policy config.ksk_keys true
      revoked ← fold_each add_revoked published revoke_keys
      signing_keys ← fetch_keys sign bundle p11modules ksk_policy config.ksk_keys false
      new_keys ← fold_each add_dns revoked signing_keys
      signatures ← fold_each (add_signature bundle new_keys ksk_policy) [] signing_keys
      finish_bundle bundle new_keys signatures config.response_policy

    -- the loop, with the number of bundles that are done
    sign_from : Schema → ℕ → List RequestBundle → Result (List Bundle)
    unfolding sign_bundle
    sign_from schema bundle_num [] = ok []
    sign_from schema bundle_num (bundle ∷ rest) = do
      let later = sign_from schema (suc bundle_num) rest
      this_schema ← require (get schema.actions (suc bundle_num)) key_error
      response_bundle ← sign_bundle this_schema.publish this_schema.revoke this_schema.sign bundle
      others ← later
      ok (response_bundle ∷ others)

    -- sign_bundles
    unfoldable pub sign_bundles : Request → Schema → Result (List Bundle)
    unfolding sign_from
    sign_bundles request schema = sign_from schema 0 request.bundles
