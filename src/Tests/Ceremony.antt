-- ===== src/Tests/Ceremony.antt =====
-- A ceremony: the command run on a previous response, a request and a schema, and an upload of the
-- same request.
use sam_ken_x_dnssec_keytool.Prelude.{◌≡◌, refl, ℕ, String, none, some, true, false, List, [], ◌∷◌}
use sam_ken_x_dnssec_keytool.Prelude.Int.{◌+ℤ◌, ◌-ℤ◌, floor_div}
use sam_ken_x_dnssec_keytool.Prelude.Equal.{contains, add}
use sam_ken_x_dnssec_keytool.Prelude.Dict.{get, set, has_key}
use sam_ken_x_dnssec_keytool.Outcome.{
  Result, ok, raise, for_each, map_each, fold_each, runtime_error,
}
use sam_ken_x_dnssec_keytool.Outcome.Index.{index_from}
use sam_ken_x_dnssec_keytool.Outcome.Pairs.{for_each_pair}
use sam_ken_x_dnssec_keytool.Codec.BigEndian.{from_be, to_be, to_bytes, pack, byte_length}
use sam_ken_x_dnssec_keytool.Codec.Base64.{b64encode, b64decode}
use sam_ken_x_dnssec_keytool.Texts.{Text}
use sam_ken_x_dnssec_keytool.Data.{Response}
use sam_ken_x_dnssec_keytool.Data.Algorithm.{
  algorithm_value, algorithm_name, algorithm_of_name, is_algorithm_rsa, is_algorithm_ecdsa,
}
use sam_ken_x_dnssec_keytool.Data.Equality.{key_beq, signature_beq}
use sam_ken_x_dnssec_keytool.PublicKey.Rsa.{decode_rsa_public_key, encode_rsa_public_key}
use sam_ken_x_dnssec_keytool.Dnssec.{
  key_to_rdata, calculate_key_tag, post_init, construct, public_key_to_dnssec_key,
}
use sam_ken_x_dnssec_keytool.Config.{days}
use sam_ken_x_dnssec_keytool.Configuration.{
  KskmConfig, ActionEntry, name, get_filename, request_policy, parse_actions, parse_action,
  get_schema,
}
use sam_ken_x_dnssec_keytool.Crypto.{
  algorithm_to_hash, pubkey_to_crypto_pubkey, key_to_crypto_pubkey, verify_signature,
}
use sam_ken_x_dnssec_keytool.Rrsig.{dn2wire, dndepth, make_raw_rrsig}
use sam_ken_x_dnssec_keytool.Rrsig.Sorting.{sorted, bytes_le}
use sam_ken_x_dnssec_keytool.Signatures.{validate_signatures}
use sam_ken_x_dnssec_keytool.Hsm.{
  fill, pad_digest, p11_object_to_public_key, find_key_by_label, get_p11_key, sign_using_p11,
}
use sam_ken_x_dnssec_keytool.Ksr.{validate_request}
use sam_ken_x_dnssec_keytool.Skr.{validate_response, check_valid_signatures}
use sam_ken_x_dnssec_keytool.Loading.{
  Documents, load_ksr, load_skr, read_limited, except_policy_violation,
}
use sam_ken_x_dnssec_keytool.Signer.Chain.{check_chain, check_unique_ids}
use sam_ken_x_dnssec_keytool.Signer.Safety.{check_last_skr_and_new_skr}
use sam_ken_x_dnssec_keytool.Signer.Presence.{check_skr_and_ksr}
use sam_ken_x_dnssec_keytool.Signer.FirstKey.{first_key_of}
use sam_ken_x_dnssec_keytool.Signer.Key.{load_pkcs11_key, validate_dnskey_matches_ksk}
use sam_ken_x_dnssec_keytool.Signer.Sign.{sign_bundles}
use sam_ken_x_dnssec_keytool.Signer.Create.{
  create_skr, ksk_signature_policy, add_bundle_algorithms, add_key_algorithm,
}
use sam_ken_x_dnssec_keytool.Command.{
  Arguments, Written, configured, confirm, load_previous, check_previous, check_new,
  previous_skr_filename, ksr_filename, skr_filename, sign_request, process_ksr, ksrsigner,
}
use sam_ken_x_dnssec_keytool.Tests.Inputs.{toy, request, policy, response_policy}
use sam_ken_x_dnssec_keytool.Tests.Signing.{
  toy_hsm, modules, ksk_config, ksk_policy, answer_at, answers, signed_skr,
}

-- the response of the ceremony before
abbrev pub previous : Response
previous = record signed_skr { id = "previous"; bundles = answer_at "y" 80 ∷ answer_at "z" 90 ∷ [] }

abbrev pub documents : Documents
documents = record {
  read_file = λ filename. ok (1 ∷ []);
  request_from_xml = λ content. ok request;
  response_from_xml = λ content. ok previous;
}

abbrev pub entry : ActionEntry
entry = record { publish = some (name "current"); sign = some (name "current"); revoke = none }

unfoldable pub kskm_config : KskmConfig
unfolding policy
kskm_config = record {
  filenames = some (("previous_skr", some "skr.xml") ∷ ("input_ksr", some "ksr.xml") ∷ []);
  schemas = some (("normal", (1, entry) ∷ (2, entry) ∷ []) ∷ []);
  request_section = policy;
  response_policy = response_policy;
  ksk_policy = ksk_policy;
  ksk_keys = ("current", ksk_config) ∷ [];
}

abbrev pub arguments : Arguments
arguments = record {
  ksr = none;
  skr = none;
  previous_skr = none;
  config = "ksrsigner.yaml";
  schema = "normal";
  force = false;
}

-- "Yes" and a newline
abbrev pub answer : Result Text
answer = ok (b'Y' ∷ b'e' ∷ b's' ∷ 10 ∷ [])

abbrev pub get_config : String → Result KskmConfig
get_config filename = raise runtime_error

abbrev pub init_modules : KskmConfig → Result (List (List ℕ))
init_modules config = ok modules

abbrev pub written : Written
written = record { filename = none; skr = signed_skr }

pub ceremony :
    ksrsigner toy toy_hsm
      (days 90)
      documents
      get_config
      init_modules
      answer
      arguments
      (some kskm_config)
    ≡ ok (some written)
unfolding ksrsigner kskm_config policy configured confirm load_previous check_previous check_new
    previous_skr_filename ksr_filename skr_filename sign_request process_ksr get_filename
    request_policy parse_actions parse_action get_schema validate_request validate_response load_ksr
    load_skr read_limited except_policy_violation check_chain check_unique_ids
    check_last_skr_and_new_skr check_skr_and_ksr first_key_of create_skr ksk_signature_policy
    add_bundle_algorithms add_key_algorithm sign_bundles contains add get set has_key for_each
    map_each fold_each for_each_pair index_from from_be to_be to_bytes pack byte_length b64encode
    b64decode algorithm_value algorithm_name algorithm_of_name is_algorithm_rsa is_algorithm_ecdsa
    key_beq signature_beq decode_rsa_public_key encode_rsa_public_key key_to_rdata calculate_key_tag
    post_init construct public_key_to_dnssec_key algorithm_to_hash pubkey_to_crypto_pubkey
    key_to_crypto_pubkey verify_signature dn2wire dndepth make_raw_rrsig sorted bytes_le
    validate_signatures fill pad_digest p11_object_to_public_key find_key_by_label get_p11_key
    sign_using_p11 check_valid_signatures load_pkcs11_key validate_dnskey_matches_ksk ◌+ℤ◌ ◌-ℤ◌
    floor_div
ceremony = refl

-- with the TTL of the KSK operator for the one that is not given
pub request_is_valid : validate_request toy (days 90) request (request_policy kskm_config) ≡ ok true
unfolding request_policy kskm_config policy validate_request sorted for_each map_each fold_each
    for_each_pair index_from get set has_key contains add ◌-ℤ◌ floor_div from_be to_be pack
    b64decode algorithm_value algorithm_of_name is_algorithm_rsa is_algorithm_ecdsa key_beq
    decode_rsa_public_key key_to_rdata calculate_key_tag algorithm_to_hash pubkey_to_crypto_pubkey
    key_to_crypto_pubkey verify_signature dn2wire make_raw_rrsig validate_signatures
request_is_valid = refl

pub announced : ksk_signature_policy ksk_policy answers ≡ ok signed_skr.ksk_policy
unfolding ksk_signature_policy b64decode from_be
announced = refl
