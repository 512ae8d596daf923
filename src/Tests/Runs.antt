-- ===== src/Tests/Runs.antt =====
-- Whole runs on the concrete request and responses.
use sam_ken_x_dnssec_keytool.Prelude.{◌≡◌, refl, true, [], ◌∷◌}
use sam_ken_x_dnssec_keytool.Prelude.Int.{◌+ℤ◌, ◌-ℤ◌, floor_div}
use sam_ken_x_dnssec_keytool.Prelude.Equal.{contains, add}
use sam_ken_x_dnssec_keytool.Prelude.Dict.{get, set, has_key}
use sam_ken_x_dnssec_keytool.Outcome.{
  ok, raise, Passes, for_each, map_each, fold_each, ksr_domain_violation,
  ksr_chain_overlap_violation,
}
use sam_ken_x_dnssec_keytool.Outcome.Index.{index_from}
use sam_ken_x_dnssec_keytool.Outcome.Pairs.{for_each_pair}
use sam_ken_x_dnssec_keytool.Codec.BigEndian.{from_be, to_be, pack, byte_length}
use sam_ken_x_dnssec_keytool.Codec.Base64.{b64decode}
use sam_ken_x_dnssec_keytool.Data.{Request, Bytes}
use sam_ken_x_dnssec_keytool.Data.Algorithm.{
  algorithm_value, algorithm_of_name, is_algorithm_rsa, is_algorithm_ecdsa,
}
use sam_ken_x_dnssec_keytool.Data.Equality.{key_beq}
use sam_ken_x_dnssec_keytool.PublicKey.Rsa.{decode_rsa_public_key}
use sam_ken_x_dnssec_keytool.Dnssec.{key_to_rdata, calculate_key_tag}
use sam_ken_x_dnssec_keytool.Config.{days}
use sam_ken_x_dnssec_keytool.Crypto.{
  algorithm_to_hash, pubkey_to_crypto_pubkey, key_to_crypto_pubkey, verify_signature,
}
use sam_ken_x_dnssec_keytool.Rrsig.{dn2wire, make_raw_rrsig}
use sam_ken_x_dnssec_keytool.Rrsig.Sorting.{sorted, bytes_le}
use sam_ken_x_dnssec_keytool.Signatures.{validate_signatures}
use sam_ken_x_dnssec_keytool.Ksr.{validate_request}
use sam_ken_x_dnssec_keytool.Skr.{validate_response}
use sam_ken_x_dnssec_keytool.Signer.Chain.{check_chain, check_unique_ids}
use sam_ken_x_dnssec_keytool.Signer.Safety.{check_last_skr_and_new_skr}
use sam_ken_x_dnssec_keytool.Tests.Inputs.{
  zsk, ksk, proof, toy, request, request_bundle_at, policy, last_skr, new_skr, response_policy,
}

request_is_accepted : validate_request toy (days 90) request policy ≡ ok true
unfolding validate_request policy sorted for_each map_each fold_each for_each_pair index_from get
    set has_key contains add ◌-ℤ◌ floor_div from_be to_be pack b64decode algorithm_value
    algorithm_of_name is_algorithm_rsa is_algorithm_ecdsa key_beq decode_rsa_public_key key_to_rdata
    calculate_key_tag algorithm_to_hash pubkey_to_crypto_pubkey key_to_crypto_pubkey
    verify_signature dn2wire make_raw_rrsig validate_signatures
request_is_accepted = refl

-- Another domain is refused.
other_domain : Request
other_domain = record request { domain = "example" }

other_domain_is_refused :
    validate_request toy (days 90) other_domain policy ≡ raise ksr_domain_violation
unfolding validate_request policy other_domain contains
other_domain_is_refused = refl

response_is_accepted : validate_response toy new_skr response_policy ≡ ok true
unfolding validate_response for_each map_each index_from get set has_key contains from_be to_be pack
    b64decode algorithm_value is_algorithm_rsa decode_rsa_public_key key_to_rdata algorithm_to_hash
    pubkey_to_crypto_pubkey key_to_crypto_pubkey verify_signature dn2wire make_raw_rrsig
    validate_signatures sorted
response_is_accepted = refl

chain_is_accepted : Passes (check_chain request last_skr policy)
unfolding check_chain policy for_each contains key_beq algorithm_value ◌-ℤ◌
chain_is_accepted = refl

-- A request with another timetable leaves a gap behind the last response.
late_request : Request
late_request = record request { bundles = request_bundle_at "c" 120 ∷ [] }

late_request_is_refused :
    check_chain late_request last_skr policy ≡ raise ksr_chain_overlap_violation
unfolding check_chain policy late_request for_each contains key_beq algorithm_value ◌-ℤ◌
late_request_is_refused = refl

new_identifiers_are_accepted : Passes (check_unique_ids request last_skr)
unfolding check_unique_ids for_each
new_identifiers_are_accepted = refl

safety_is_accepted : Passes (check_last_skr_and_new_skr last_skr new_skr policy)
unfolding check_last_skr_and_new_skr policy for_each ◌-ℤ◌ ◌+ℤ◌
safety_is_accepted = refl

abbrev pub zsk_rdata : Bytes
zsk_rdata = 1 ∷ 0 ∷ 3 ∷ 8 ∷ 1 ∷ 3 ∷ 1 ∷ 2 ∷ []

pub zsk_rdata_is_packed : key_to_rdata zsk ≡ ok zsk_rdata
unfolding key_to_rdata pack to_be b64decode algorithm_value
zsk_rdata_is_packed = refl

pub ksk_has_key_tag : calculate_key_tag ksk ≡ ok 1550
unfolding calculate_key_tag key_to_rdata pack to_be b64decode algorithm_value
ksk_has_key_tag = refl

abbrev pub signed_bytes : Bytes
signed_bytes =
    0 ∷ 48 ∷ 8 ∷ 0 ∷ 0 ∷ 2 ∷ 163 ∷ 0 ∷ 0 ∷ 159 ∷ 133 ∷ 128 ∷ 0 ∷ 131 ∷ 214 ∷ 0 ∷ 6 ∷ 13 ∷ 0 ∷ 0 ∷ 0
    ∷ 48 ∷ 0 ∷ 1 ∷ 0 ∷ 2 ∷ 163 ∷ 0 ∷ 0 ∷ 8 ∷ 1 ∷ 0 ∷ 3 ∷ 8 ∷ 1 ∷ 3 ∷ 1 ∷ 2 ∷ 0 ∷ 0 ∷ 48 ∷ 0 ∷ 1 ∷ 0
    ∷ 2 ∷ 163 ∷ 0 ∷ 0 ∷ 8 ∷ 1 ∷ 1 ∷ 3 ∷ 8 ∷ 1 ∷ 3 ∷ 1 ∷ 2 ∷ []

pub keys_are_packed :
    make_raw_rrsig (proof (days 100) (days 121)) (zsk ∷ ksk ∷ []) ≡ ok signed_bytes
unfolding make_raw_rrsig dn2wire map_each key_to_rdata sorted bytes_le pack to_be b64decode
    algorithm_value
keys_are_packed = refl

pub exponent_is_short : byte_length 65537 ≡ 3
unfolding byte_length
exponent_is_short = refl

pub small_exponent_is_short : byte_length 3 ≡ 1
unfolding byte_length
small_exponent_is_short = refl
