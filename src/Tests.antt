-- ===== src/Tests.antt =====
-- The theorems at concrete inputs: a request of two bundles with one small RSA key, signed with a toy
-- signature scheme, and the responses before and after it.
mod Inputs
mod Runs
mod Signing
mod Ceremony
mod Commands
mod Keymaster
mod Parsing
use mathlib.Core.List.Perm
use sam_ken_x_dnssec_keytool.Prelude.{
  ◌≡◌, ◌≢◌, ◌↔◌, ◌⊎◌, ◌<◌, ◌*◌, ℕ, refl, true, some, none, [], ◌∷◌, length, All, Any, arith,
}
use sam_ken_x_dnssec_keytool.Prelude.Int.{◌-ℤ◌}
use sam_ken_x_dnssec_keytool.Outcome.{ok, Passes, ◌>>=◌}
use sam_ken_x_dnssec_keytool.Outcome.Switch.{IfOn}
use sam_ken_x_dnssec_keytool.Outcome.Pairs.{Linked}
use sam_ken_x_dnssec_keytool.Data.{RequestBundle, Bundle, policy_algorithm}
use sam_ken_x_dnssec_keytool.Config.{days}
use sam_ken_x_dnssec_keytool.PublicKey.{rsa}
use sam_ken_x_dnssec_keytool.PublicKey.Rsa.{encode_rsa_public_key, decode_rsa_public_key}
use sam_ken_x_dnssec_keytool.PublicKey.Rsa.RoundTrip.{decode-encode_rsa}
use sam_ken_x_dnssec_keytool.Dnssec.{calculate_key_tag}
use sam_ken_x_dnssec_keytool.Dnssec.KeyTag.{
  reference_tag, revoked, calculate_key_tag-reference, revoke-changes_key_tag,
}
use sam_ken_x_dnssec_keytool.Rrsig.{make_raw_rrsig}
use sam_ken_x_dnssec_keytool.Rrsig.KeyOrder.{make_raw_rrsig-perm}
use sam_ken_x_dnssec_keytool.Signatures.{validate_signatures}
use sam_ken_x_dnssec_keytool.Signatures.Accepted.{IsSigned, validate_signatures_iff}
use sam_ken_x_dnssec_keytool.Ksr.{validate_request, validate_request_iff, IsValidRequest}
use sam_ken_x_dnssec_keytool.Ksr.Bundles.{
  verify_bundles, check_keys_match_zsk_policy, check_new_key, check_proof_of_possession,
}
use sam_ken_x_dnssec_keytool.Ksr.Bundles.Accepted.{HasAcceptableBundles, verify_bundles_iff}
use sam_ken_x_dnssec_keytool.Ksr.Bundles.Keys.{
  all_keys, Consistent, check_keys_match_zsk_policy-keys,
}
use sam_ken_x_dnssec_keytool.Ksr.Bundles.NewKey.{IsAcceptedKey, check_new_key_iff}
use sam_ken_x_dnssec_keytool.Ksr.Bundles.Possession.{
  ProvesPossession, check_proof_of_possession_iff,
}
use sam_ken_x_dnssec_keytool.Ksr.Policy.{
  verify_policy, check_zsk_policy_algorithm, check_signature_validity, check_signature_horizon,
  check_keys_in_bundles, check_bundle_overlaps, different_identifiers,
}
use sam_ken_x_dnssec_keytool.Ksr.Policy.Accepted.{
  FollowsPolicy, verify_policy_iff, Overlaps, check_bundle_overlaps_iff,
}
use sam_ken_x_dnssec_keytool.Ksr.Policy.Algorithms.{
  IsSupported, AreApproved, check_zsk_policy_algorithm_iff,
}
use sam_ken_x_dnssec_keytool.Ksr.Policy.Horizon.{
  IsWithinHorizon, check_signature_validity_iff, check_signature_horizon_iff,
}
use sam_ken_x_dnssec_keytool.Ksr.Policy.KeySets.{
  HaveCounts, AreIdentifiersOf, check_keys_in_bundles_iff, different_identifiers_lem,
}
use sam_ken_x_dnssec_keytool.Skr.{validate_response, validate_response_iff, IsValidResponse}
use sam_ken_x_dnssec_keytool.Signer.Chain.{
  check_chain, check_chain_iff, Joined, SharesKeys, ChainOverlaps, check_unique_ids,
  check_unique_ids-Passes,
}
use sam_ken_x_dnssec_keytool.Signer.Safety.{
  check_publish_safety, check_publish_safety_iff, check_retire_safety, check_retire_safety_iff,
  Meet, IsPublished, IsRetiredSafely,
}
use sam_ken_x_dnssec_keytool.Hsm.{pad_digest}
use sam_ken_x_dnssec_keytool.Hsm.Padding.{length-pad_digest}
use sam_ken_x_dnssec_keytool.Signer.Presence.{
  check_last_skr_key_present, check_last_skr_key_present_iff, IsSignedInHsm,
}
use sam_ken_x_dnssec_keytool.Signer.Sign.Answers.{AnswerAll, sign_bundles-AnswerAll}
use Signing.{
  toy_hsm, modules, ksk_policy, config, schema, answers, signed_skr, request_is_signed, ksk_is_made,
  ksk_is_revoked, revoked_ksk,
}
use sam_ken_x_dnssec_keytool.Data.Algorithm.{rsasha256}
use sam_ken_x_dnssec_keytool.Data.Flags.{ksk_flags}
use sam_ken_x_dnssec_keytool.Dnssec.Construction.{
  IsDnssecKey, public_key_to_dnssec_key-IsDnssecKey, decode-public_key_to_dnssec_key,
}
use sam_ken_x_dnssec_keytool.Signer.Sign.Revocation.{IsRevokedOf, revoke_key-changes}
use Inputs.{
  toy, modulus, zsk, ksk, proof, request, policy, last_skr, new_skr, response_policy, bundle_at,
}
use Runs.{
  zsk_rdata, zsk_rdata_is_packed, ksk_has_key_tag, signed_bytes, keys_are_packed, exponent_is_short,
  small_exponent_is_short,
}

validate_request_iff_example :
    (validate_request toy (days 90) request policy ≡ ok true)
    ↔ (IsValidRequest toy (days 90) request policy × (true ≡ true))
validate_request_iff_example = validate_request_iff toy (days 90) request policy true

verify_bundles_iff_example :
    Passes (verify_bundles toy request policy) ↔ HasAcceptableBundles toy request policy
verify_bundles_iff_example = verify_bundles_iff request policy toy

verify_policy_iff_example :
    Passes (verify_policy (days 90) request policy) ↔ FollowsPolicy (days 90) request policy
verify_policy_iff_example = verify_policy_iff (days 90) request policy

validate_signatures_iff_example :
    (validate_signatures toy (bundle_at "a" 100) ≡ ok true) ↔ IsSigned toy (bundle_at "a" 100)
validate_signatures_iff_example = validate_signatures_iff toy (bundle_at "a" 100)

validate_response_iff_example :
    (validate_response toy new_skr response_policy ≡ ok true)
    ↔ IsValidResponse toy new_skr response_policy
validate_response_iff_example = validate_response_iff toy new_skr response_policy

check_keys_match_zsk_policy-keys_example : Passes (check_keys_match_zsk_policy request policy) ↔ (
    All (λ y. Passes (check_new_key request policy y)) (all_keys request.bundles)
    × Consistent (all_keys request.bundles))
unfolding policy
check_keys_match_zsk_policy-keys_example = check_keys_match_zsk_policy-keys request policy refl

check_new_key_iff_example :
    Passes (check_new_key request policy zsk) ↔ IsAcceptedKey request policy zsk
check_new_key_iff_example = check_new_key_iff request policy zsk

check_proof_of_possession_iff_example :
    Passes (check_proof_of_possession toy request policy)
    ↔ All (ProvesPossession toy) request.bundles
unfolding policy
check_proof_of_possession_iff_example = check_proof_of_possession_iff toy request policy refl

check_chain_iff_example : Passes (check_chain request last_skr policy) ↔ (
    IfOn policy.check_chain_keys (Joined SharesKeys last_skr request)
    × IfOn policy.check_chain_overlap (Joined (ChainOverlaps request) last_skr request))
check_chain_iff_example = check_chain_iff request last_skr policy

check_publish_safety_iff_example :
    Passes (check_publish_safety last_skr new_skr policy)
    ↔ IfOn policy.check_keys_publish_safety (Meet (IsPublished new_skr) last_skr new_skr)
check_publish_safety_iff_example = check_publish_safety_iff last_skr new_skr policy

check_retire_safety_iff_example :
    Passes (check_retire_safety last_skr new_skr policy)
    ↔ IfOn policy.check_keys_retire_safety (Meet (IsRetiredSafely new_skr) last_skr new_skr)
check_retire_safety_iff_example = check_retire_safety_iff last_skr new_skr policy

check_unique_ids-Passes_example : Passes (check_unique_ids request last_skr) ↔ (
    (request.id ≢ last_skr.id)
    × All
        (λ (b : RequestBundle). All (λ (x : Bundle). b.id ≢ x.id) last_skr.bundles)
        request.bundles)
check_unique_ids-Passes_example = check_unique_ids-Passes request last_skr

check_zsk_policy_algorithm_iff_example : Passes (check_zsk_policy_algorithm request policy) ↔ (
    All
      (λ alg. IsSupported policy.enable_unsupported_ecdsa (policy_algorithm alg))
      request.zsk_policy.algorithms
    × IfOn policy.signature_algorithms_match_zsk_policy
        (AreApproved policy request.zsk_policy.algorithms))
check_zsk_policy_algorithm_iff_example = check_zsk_policy_algorithm_iff request policy

check_signature_validity_iff_example :
    Passes (check_signature_validity request policy)
    ↔ IfOn policy.signature_validity_match_zsk_policy (
        All
          (λ (b : RequestBundle).
            b.expiration -ℤ b.inception ≡ request.zsk_policy.max_signature_validity)
          request.bundles)
check_signature_validity_iff_example = check_signature_validity_iff request policy

check_signature_horizon_iff_example :
    Passes (check_signature_horizon (days 90) request policy)
    ↔ IfOn policy.signature_check_expire_horizon (
        All
          (λ (b : RequestBundle).
            IsWithinHorizon policy.signature_horizon_days (days 90) b.expiration)
          request.bundles)
check_signature_horizon_iff_example = check_signature_horizon_iff (days 90) request policy

check_keys_in_bundles_iff_example :
    Passes (check_keys_in_bundles request policy)
    ↔ IfOn policy.check_keys_match_ksk_operator_policy (
        HaveCounts request.bundles policy.num_keys_per_bundle
        × ((policy.num_different_keys_in_all_bundles ≡ none)
            ⊎ (policy.num_different_keys_in_all_bundles
                ≡ some (length (different_identifiers [] request.bundles)))))
check_keys_in_bundles_iff_example = check_keys_in_bundles_iff request policy

different_identifiers_lem_example :
    AreIdentifiersOf (different_identifiers [] request.bundles) (all_keys request.bundles)
different_identifiers_lem_example = different_identifiers_lem request.bundles

check_bundle_overlaps_iff_example :
    Passes (check_bundle_overlaps request policy)
    ↔ IfOn policy.check_bundle_overlap (Linked (Overlaps request.zsk_policy) request.bundles)
check_bundle_overlaps_iff_example = check_bundle_overlaps_iff request policy

make_raw_rrsig-perm_example :
    make_raw_rrsig (proof (days 100) (days 121)) (ksk ∷ zsk ∷ []) ≡ ok signed_bytes
make_raw_rrsig-perm_example =
    make_raw_rrsig-perm (proof (days 100) (days 121)) (zsk ∷ ksk ∷ []) (ksk ∷ zsk ∷ []) signed_bytes
      (Perm.swap ksk zsk []) keys_are_packed

calculate_key_tag-reference_example :
    (calculate_key_tag zsk ≡ ok (reference_tag zsk_rdata)) × (reference_tag zsk_rdata < 65536)
calculate_key_tag-reference_example = calculate_key_tag-reference zsk zsk_rdata_is_packed

revoke-changes_key_tag_example :
    (tag' : ℕ) × (calculate_key_tag (revoked ksk) ≡ ok tag') × (tag' ≢ 1550)
revoke-changes_key_tag_example = revoke-changes_key_tag ksk refl ksk_has_key_tag

decode-encode_rsa_example :
    (encode_rsa_public_key 65537 modulus >>= decode_rsa_public_key)
    ≡ ok (rsa (length modulus * 8) 65537 modulus)
decode-encode_rsa_example =
    decode-encode_rsa 65537 modulus (omega arith) (omega (arith, exponent_is_short))
      (omega arith, (omega arith, tt))

sign_bundles-AnswerAll_example :
    AnswerAll toy toy_hsm modules ksk_policy config request.bundles answers
sign_bundles-AnswerAll_example =
    sign_bundles-AnswerAll toy toy_hsm modules ksk_policy config request schema answers
      request_is_signed

check_last_skr_key_present_iff_example :
    Passes (check_last_skr_key_present toy_hsm modules signed_skr policy) ↔ (
      (modules ≡ [])
      ⊎ IfOn policy.check_chain_keys_in_hsm (IsSignedInHsm toy_hsm modules signed_skr))
check_last_skr_key_present_iff_example =
    check_last_skr_key_present_iff toy_hsm modules signed_skr policy

length-pad_digest_example : length (pad_digest 64 modulus) ≡ 8
length-pad_digest_example = length-pad_digest 64 modulus (omega arith)

public_key_to_dnssec_key-IsDnssecKey_example :
    IsDnssecKey (rsa 16 3 modulus) (some "ksk") rsasha256 172_800 ksk_flags ksk
public_key_to_dnssec_key-IsDnssecKey_example =
    public_key_to_dnssec_key-IsDnssecKey (rsa 16 3 modulus) (some "ksk") rsasha256 172_800 ksk_flags
      ksk ksk_is_made

decode-public_key_to_dnssec_key_example :
    decode_rsa_public_key ksk.public_key ≡ ok (rsa (length modulus * 8) 3 modulus)
decode-public_key_to_dnssec_key_example =
    decode-public_key_to_dnssec_key 16 3 modulus (some "ksk") rsasha256 172_800 ksk_flags ksk
      (omega arith) (omega (arith, small_exponent_is_short)) (omega arith, (omega arith, tt))
      ksk_is_made

revoke_key-changes_example : IsRevokedOf ksk revoked_ksk × (revoked_ksk.key_tag ≢ 1550)
revoke_key-changes_example = revoke_key-changes ksk revoked_ksk refl ksk_has_key_tag ksk_is_revoked
