-- ===== src/Ksr/Policy/Accepted.antt =====
-- Exactly which requests pass `verify_policy`.
use sam_ken_x_dnssec_keytool.Prelude.{
  false, ◌≡◌, none, some, ◌↔◌, ◌⊎◌, length, [], All, iff_trans, ×_iff, arith,
}
use sam_ken_x_dnssec_keytool.Prelude.Int.{ℤ, ◌-ℤ◌, ◌≤ℤ◌, ltb_ℤ}
use sam_ken_x_dnssec_keytool.Outcome.{
  Passes, >>-Passes, refuse-Passes, ksr_policy_sig_overlap_violation,
  ksr_policy_bundle_interval_violation,
}
use sam_ken_x_dnssec_keytool.Outcome.Switch.{IfOn, unless_disabled_iff}
use sam_ken_x_dnssec_keytool.Outcome.Limits.{IsBetween, hold_between_iff}
use sam_ken_x_dnssec_keytool.Outcome.Pairs.{Linked, for_each_pair-Passes}
use sam_ken_x_dnssec_keytool.Data.{
  Datetime, Request, RequestBundle, SignaturePolicy, policy_algorithm,
}
use sam_ken_x_dnssec_keytool.Config.{RequestPolicy}
use sam_ken_x_dnssec_keytool.Ksr.Policy.{
  check_overlap, check_bundle_overlaps, check_interval, check_bundle_intervals,
  check_keys_in_bundles, check_zsk_policy_algorithm, check_signature_validity,
  check_signature_horizon, verify_policy, different_identifiers,
}
use sam_ken_x_dnssec_keytool.Ksr.Policy.Horizon.{
  IsWithinHorizon, check_signature_validity_iff, check_signature_horizon_iff,
}
use sam_ken_x_dnssec_keytool.Ksr.Policy.Algorithms.{
  IsSupported, AreApproved, check_zsk_policy_algorithm_iff,
}
use sam_ken_x_dnssec_keytool.Ksr.Policy.KeySets.{HaveCounts, check_keys_in_bundles_iff}

-- The bundle begins before the previous one has ended, and their common time is within the limits.
abbrev pub Overlaps : SignaturePolicy → (previous this : RequestBundle) → Type 0
Overlaps zsk previous this =
    (this.inception ≤ℤ previous.expiration)
    × IsBetween zsk.min_validity_overlap zsk.max_validity_overlap
        (previous.expiration -ℤ this.inception)

not_after : (a b : ℤ) → (ltb_ℤ a b ≡ false) ↔ (b ≤ℤ a)
not_after a b = ground arith

-- The check passes exactly when it is switched off or each bundle overlaps the next by a time within
-- the limits of the ZSK policy, so that the bundles leave no gap.
pub check_bundle_overlaps_iff :
    (request : Request) (policy : RequestPolicy)
    → Passes (check_bundle_overlaps request policy)
      ↔ IfOn policy.check_bundle_overlap (Linked (Overlaps request.zsk_policy) request.bundles)
unfolding check_bundle_overlaps check_overlap
check_bundle_overlaps_iff request policy = unless_disabled_iff policy.check_bundle_overlap _ (
    for_each_pair-Passes _ (Overlaps request.zsk_policy) request.bundles (λ previous this.
      iff_trans (>>-Passes _ _) (
        ×_iff (iff_trans (refuse-Passes _ _) (not_after previous.expiration this.inception)) (
          hold_between_iff request.zsk_policy.min_validity_overlap
            request.zsk_policy.max_validity_overlap (previous.expiration -ℤ this.inception)
            ksr_policy_sig_overlap_violation))))

-- The inceptions are apart by a time within the limits of the configuration.
abbrev pub IsSpaced : RequestPolicy → (previous this : RequestBundle) → Type 0
IsSpaced policy previous this =
    IsBetween policy.min_bundle_interval policy.max_bundle_interval
      (this.inception -ℤ previous.inception)

check_bundle_intervals_iff :
    (request : Request) (policy : RequestPolicy)
    → Passes (check_bundle_intervals request policy)
      ↔ IfOn policy.check_bundle_intervals (Linked (IsSpaced policy) request.bundles)
unfolding check_bundle_intervals check_interval
check_bundle_intervals_iff request policy = unless_disabled_iff policy.check_bundle_intervals _ (
    for_each_pair-Passes _ (IsSpaced policy) request.bundles (λ previous this.
      hold_between_iff policy.min_bundle_interval policy.max_bundle_interval
        (this.inception -ℤ previous.inception) ksr_policy_bundle_interval_violation))

-- What `verify_policy` asks of a request at a time, check by check.
pub record FollowsPolicy (dt_now : Datetime) (request : Request) (policy : RequestPolicy)
    : Type 0 where
  pub key_sets : IfOn policy.check_keys_match_ksk_operator_policy (
      HaveCounts request.bundles policy.num_keys_per_bundle
      × ((policy.num_different_keys_in_all_bundles ≡ none)
          ⊎ (policy.num_different_keys_in_all_bundles
              ≡ some (length (different_identifiers [] request.bundles)))))
  pub supported :
      All
        (λ alg. IsSupported policy.enable_unsupported_ecdsa (policy_algorithm alg))
        request.zsk_policy.algorithms
  pub approved :
      IfOn policy.signature_algorithms_match_zsk_policy
        (AreApproved policy request.zsk_policy.algorithms)
  pub overlaps :
      IfOn policy.check_bundle_overlap (Linked (Overlaps request.zsk_policy) request.bundles)
  pub validity : IfOn policy.signature_validity_match_zsk_policy (
      All
        (λ (b : RequestBundle).
          b.expiration -ℤ b.inception ≡ request.zsk_policy.max_signature_validity)
        request.bundles)
  pub horizon : IfOn policy.signature_check_expire_horizon (
      All
        (λ (b : RequestBundle). IsWithinHorizon policy.signature_horizon_days dt_now b.expiration)
        request.bundles)
  pub intervals : IfOn policy.check_bundle_intervals (Linked (IsSpaced policy) request.bundles)

-- A request passes the checks of its policy exactly when it follows the policy of the KSK operator: the
-- numbers of keys, the algorithms, the overlaps, the validity, the horizon and the intervals. Each
-- check but that of the supported algorithms can be switched off.
pub verify_policy_iff :
    (dt_now : Datetime) (request : Request) (policy : RequestPolicy)
    → Passes (verify_policy dt_now request policy) ↔ FollowsPolicy dt_now request policy
unfolding verify_policy
verify_policy_iff dt_now request policy =
    let steps = iff_trans (>>-Passes (check_keys_in_bundles request policy) _) (
      ×_iff (check_keys_in_bundles_iff request policy) (
        iff_trans (>>-Passes (check_zsk_policy_algorithm request policy) _) (
          ×_iff (check_zsk_policy_algorithm_iff request policy) (
            iff_trans (>>-Passes (check_bundle_overlaps request policy) _) (
              ×_iff (check_bundle_overlaps_iff request policy) (
                iff_trans (>>-Passes (check_signature_validity request policy) _) (
                  ×_iff (check_signature_validity_iff request policy) (
                    iff_trans (>>-Passes (check_signature_horizon dt_now request policy) _) (
                      ×_iff (check_signature_horizon_iff dt_now request policy)
                        (check_bundle_intervals_iff request policy)))))))))) in
    (
      λ h.
          let (k, r1) = steps.0 h in
          let (a, r2) = r1 in
          let (o, r3) = r2 in
          let (v, r4) = r3 in
          record {
            key_sets = k;
            supported = a.0;
            approved = a.1;
            overlaps = o;
            validity = v;
            horizon = r4.0;
            intervals = r4.1;
          },
      λ f. steps.1 (
        f.key_sets,
        ((f.supported, f.approved), (f.overlaps, (f.validity, (f.horizon, f.intervals)))),
      ),
    )
