-- ===== src/Ksr/Policy.antt =====
-- src/kskm/ksr/verify_policy.py
use sam_ken_x_dnssec_keytool.Prelude.{
  ℕ, String, Option, none, some, List, [], ◌∷◌, length, Bool, true, false, not, ◌&&◌, if◌then◌else◌,
  nat_eqb,
}
use sam_ken_x_dnssec_keytool.Prelude.Int.{ℤ, pos, ◌-ℤ◌, ltb_ℤ, int_eqb, floor_div}
use sam_ken_x_dnssec_keytool.Prelude.Equal.{◌==◌, string_eq, option_eq, nat_eq, contains, add}
use sam_ken_x_dnssec_keytool.Outcome.{
  Result, ok, raise, ◌>>=◌, ◌>>◌, Checked, done, guard, refuse, for_each, map_each, index_error,
  assertion_error, ksr_policy_violation, ksr_policy_keys_violation, ksr_policy_alg_violation,
  ksr_policy_sig_overlap_violation, ksr_policy_sig_validity_violation,
  ksr_policy_sig_horizon_violation, ksr_policy_bundle_interval_violation,
}
use sam_ken_x_dnssec_keytool.Outcome.Limits.{hold_between}
use sam_ken_x_dnssec_keytool.Outcome.Pairs.{for_each_pair}
use sam_ken_x_dnssec_keytool.Outcome.Switch.{unless_disabled}
use sam_ken_x_dnssec_keytool.Data.{
  Datetime, Request, RequestBundle, Key, Set, AlgorithmPolicy, rsa, ecdsa, dsa, policy_algorithm,
  SignaturePolicy,
}
use sam_ken_x_dnssec_keytool.Data.Algorithm.{
  AlgorithmDnssec, algorithm_eq, algorithm_of_name, is_algorithm_rsa, is_algorithm_ecdsa,
  deprecated_algorithms, supported_algorithms,
}
use sam_ken_x_dnssec_keytool.Config.{RequestPolicy}
pub mod Horizon
pub mod Algorithms
pub mod KeySets
pub mod Accepted

-- the loop over the bundles and the numbers of keys that they should have
unfoldable pub check_key_counts : List RequestBundle → List ℕ → Checked
check_key_counts [] counts = done
check_key_counts (b ∷ bs) [] = raise index_error
check_key_counts (b ∷ bs) (n ∷ ns) =
    guard (nat_eqb (length b.keys) n) ksr_policy_keys_violation >> check_key_counts bs ns

-- the inner loop that fills the dictionary `_keys`, whose keys alone matter
unfoldable pub add_identifiers : List (Option String) → Set Key → List (Option String)
add_identifiers ids [] = ids
add_identifiers ids (key ∷ keys) = add_identifiers (add key.key_identifier ids) keys

-- the outer loop, over the bundles
unfoldable pub different_identifiers :
    List (Option String) → List RequestBundle → List (Option String)
unfolding add_identifiers
different_identifiers ids [] = ids
different_identifiers ids (b ∷ bs) = different_identifiers (add_identifiers ids b.keys) bs

check_key_sets : Request → RequestPolicy → Checked
unfolding different_identifiers
check_key_sets request policy = elim policy.num_different_keys_in_all_bundles [
  | none ↦ done
  | some n ↦
      guard (nat_eqb (length (different_identifiers [] request.bundles)) n)
        ksr_policy_keys_violation
]

-- check_keys_in_bundles
unfoldable pub check_keys_in_bundles : Request → RequestPolicy → Checked
unfolding check_key_counts check_key_sets
check_keys_in_bundles request policy =
    unless_disabled policy.check_keys_match_ksk_operator_policy (do
      guard (nat_eqb (length request.bundles) (length policy.num_keys_per_bundle))
          ksr_policy_keys_violation
      check_key_counts request.bundles policy.num_keys_per_bundle
      check_key_sets request policy)

check_bundle_validity : SignaturePolicy → RequestBundle → Checked
check_bundle_validity zsk bundle =
    let validity = bundle.expiration -ℤ bundle.inception in
    refuse (ltb_ℤ validity zsk.max_signature_validity) ksr_policy_sig_validity_violation
    >> refuse (ltb_ℤ zsk.max_signature_validity validity) ksr_policy_sig_validity_violation

-- check_signature_validity
unfoldable pub check_signature_validity : Request → RequestPolicy → Checked
unfolding check_bundle_validity
check_signature_validity request policy =
    unless_disabled policy.signature_validity_match_zsk_policy
      (for_each (check_bundle_validity request.zsk_policy) request.bundles)

-- `(bundle.expiration - dt_now).days`
unfoldable pub expire_days : Datetime → RequestBundle → ℤ
expire_days dt_now bundle = floor_div (bundle.expiration -ℤ dt_now) 86_400_000_000

check_bundle_horizon : Datetime → RequestPolicy → RequestBundle → Checked
unfolding expire_days
check_bundle_horizon dt_now policy bundle = do
  refuse
      (not (int_eqb policy.signature_horizon_days (pos 0))
        && ltb_ℤ policy.signature_horizon_days (expire_days dt_now bundle))
      ksr_policy_sig_horizon_violation
  refuse (ltb_ℤ (pos 0) policy.signature_horizon_days && ltb_ℤ (expire_days dt_now bundle) (pos 0))
      ksr_policy_violation

-- check_signature_horizon, with the time of the clock
unfoldable pub check_signature_horizon : Datetime → Request → RequestPolicy → Checked
unfolding check_bundle_horizon
check_signature_horizon dt_now request policy =
    unless_disabled policy.signature_check_expire_horizon
      (for_each (check_bundle_horizon dt_now policy) request.bundles)

check_supported : RequestPolicy → AlgorithmPolicy → Checked
check_supported policy alg = do
  refuse (contains deprecated_algorithms (policy_algorithm alg)) ksr_policy_alg_violation
  guard (contains supported_algorithms (policy_algorithm alg)) ksr_policy_alg_violation
  refuse (is_algorithm_ecdsa (policy_algorithm alg) && not policy.enable_unsupported_ecdsa)
      ksr_policy_alg_violation

-- the second half of the last loop's body: `alg` is an `AlgorithmPolicyRSA`, or the assertion fails
check_rsa_parameters : RequestPolicy → AlgorithmPolicy → Checked
check_rsa_parameters policy (rsa bits algorithm exponent) = do
  guard (contains policy.rsa_approved_key_sizes bits) ksr_policy_alg_violation
  guard (contains policy.rsa_approved_exponents exponent) ksr_policy_alg_violation
check_rsa_parameters policy (ecdsa bits algorithm) = raise assertion_error
check_rsa_parameters policy (dsa bits algorithm) = raise assertion_error

check_parameters : RequestPolicy → AlgorithmPolicy → Checked
unfolding check_rsa_parameters
check_parameters policy alg =
    if is_algorithm_rsa (policy_algorithm alg) then check_rsa_parameters policy alg else done

-- the two loops over the algorithms of the KSK operator's policy
check_approved : RequestPolicy → Set AlgorithmPolicy → List AlgorithmDnssec → Checked
unfolding check_parameters
check_approved policy algorithms approved = do
  for_each
      (λ (alg : AlgorithmPolicy).
        guard (contains approved (policy_algorithm alg)) ksr_policy_alg_violation)
      algorithms
  for_each (check_parameters policy) algorithms

-- check_zsk_policy_algorithm
unfoldable pub check_zsk_policy_algorithm : Request → RequestPolicy → Checked
unfolding check_supported check_approved
check_zsk_policy_algorithm request policy = do
  for_each (check_supported policy) request.zsk_policy.algorithms
  unless_disabled policy.signature_algorithms_match_zsk_policy (do
    approved ← map_each algorithm_of_name policy.approved_algorithms
    check_approved policy request.zsk_policy.algorithms approved)

check_overlap : SignaturePolicy → (previous this : RequestBundle) → Checked
check_overlap zsk previous this = do
  refuse (ltb_ℤ previous.expiration this.inception) ksr_policy_sig_overlap_violation
  hold_between zsk.min_validity_overlap zsk.max_validity_overlap
      (previous.expiration -ℤ this.inception) ksr_policy_sig_overlap_violation

-- check_bundle_overlaps
unfoldable pub check_bundle_overlaps : Request → RequestPolicy → Checked
unfolding check_overlap
check_bundle_overlaps request policy =
    unless_disabled policy.check_bundle_overlap
      (for_each_pair (check_overlap request.zsk_policy) request.bundles)

check_interval : RequestPolicy → (previous this : RequestBundle) → Checked
check_interval policy previous this =
    hold_between policy.min_bundle_interval policy.max_bundle_interval
      (this.inception -ℤ previous.inception) ksr_policy_bundle_interval_violation

-- check_bundle_intervals
unfoldable pub check_bundle_intervals : Request → RequestPolicy → Checked
unfolding check_interval
check_bundle_intervals request policy =
    unless_disabled policy.check_bundle_intervals
      (for_each_pair (check_interval policy) request.bundles)

-- verify_policy
unfoldable pub verify_policy : Datetime → Request → RequestPolicy → Checked
unfolding check_keys_in_bundles check_zsk_policy_algorithm check_bundle_overlaps
    check_signature_validity check_signature_horizon check_bundle_intervals
verify_policy dt_now request policy = do
  check_keys_in_bundles request policy
  check_zsk_policy_algorithm request policy
  check_bundle_overlaps request policy
  check_signature_validity request policy
  check_signature_horizon dt_now request policy
  check_bundle_intervals request policy
