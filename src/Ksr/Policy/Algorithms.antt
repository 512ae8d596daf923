-- ===== src/Ksr/Policy/Algorithms.antt =====
-- Exactly which ZSK policies `check_zsk_policy_algorithm` accepts.
use sam_ken_x_dnssec_keytool.Prelude.{
  Bool, true, false, not, ◌&&◌, ◌≡◌, ◌↔◌, ◌⊎◌, ap, ◌∙◌, List, All, Any, All-iff, iff_trans, ×_iff,
  arith,
}
use sam_ken_x_dnssec_keytool.Prelude.Equal.{nat_eq, contains, contains_iff}
use sam_ken_x_dnssec_keytool.Outcome.{
  ok, Passes, ◌>>=◌, ◌>>◌, guard, refuse, map_each, for_each-Passes, >>-Passes, >>=-eq-ok,
  guard-Passes, ksr_policy_alg_violation,
}
use sam_ken_x_dnssec_keytool.Outcome.Switch.{IfOn, unless_disabled_iff}
use sam_ken_x_dnssec_keytool.Data.{Request, AlgorithmPolicy, rsa, ecdsa, dsa, policy_algorithm}
use sam_ken_x_dnssec_keytool.Data.Algorithm.{
  AlgorithmDnssec, algorithm_eq, algorithm_value, algorithm_of_name, is_algorithm_rsa,
  is_algorithm_ecdsa, deprecated_algorithms, supported_algorithms, rsasha256, rsasha512,
  ecdsap256sha256, ecdsap384sha384,
}
use sam_ken_x_dnssec_keytool.Config.{RequestPolicy}
use sam_ken_x_dnssec_keytool.Ksr.Policy.{
  check_supported, check_approved, check_parameters, check_rsa_parameters,
  check_zsk_policy_algorithm,
}

-- RSA with SHA-256 or SHA-512, or an elliptic curve where the KSK operator has enabled them.
abbrev pub IsSupported : (enable_ecdsa : Bool) → AlgorithmDnssec → Type 0
IsSupported enable_ecdsa a =
    (a ≡ rsasha256)
    ⊎ (a ≡ rsasha512)
    ⊎ (((a ≡ ecdsap256sha256) ⊎ (a ≡ ecdsap384sha384)) × (enable_ecdsa ≡ true))

check_supported_iff :
    (policy : RequestPolicy) (alg : AlgorithmPolicy)
    → Passes (check_supported policy alg)
      ↔ IsSupported policy.enable_unsupported_ecdsa (policy_algorithm alg)
unfolding check_supported contains is_algorithm_ecdsa algorithm_value
check_supported_iff policy alg = by_algorithm policy.enable_unsupported_ecdsa (policy_algorithm alg)
  where
    by_algorithm :
        (b : Bool) (a : AlgorithmDnssec)
        → Passes (do
          refuse (contains deprecated_algorithms a) ksr_policy_alg_violation
          guard (contains supported_algorithms a) ksr_policy_alg_violation
          refuse (is_algorithm_ecdsa a && not b) ksr_policy_alg_violation)
          ↔ IsSupported b a
    by_algorithm b rsasha256 = ground arith
    by_algorithm b _ = ground arith

-- An RSA algorithm comes with a key size and an exponent, both of which are approved.
abbrev pub HasApprovedParameters : RequestPolicy → AlgorithmPolicy → Type 0
HasApprovedParameters policy (rsa bits a exponent) =
    is_algorithm_rsa a ≡ true
    → Any (λ x. bits ≡ x) policy.rsa_approved_key_sizes
      × Any (λ x. exponent ≡ x) policy.rsa_approved_exponents
HasApprovedParameters policy (ecdsa bits a) = is_algorithm_rsa a ≡ false
HasApprovedParameters policy (dsa bits a) = is_algorithm_rsa a ≡ false

check_parameters_iff :
    (policy : RequestPolicy) (alg : AlgorithmPolicy)
    → Passes (check_parameters policy alg) ↔ HasApprovedParameters policy alg
unfolding check_parameters check_rsa_parameters
check_parameters_iff policy (rsa bits a exponent) = ground (
  arith,
  contains_iff policy.rsa_approved_key_sizes bits,
  contains_iff policy.rsa_approved_exponents exponent,
)
check_parameters_iff policy (ecdsa bits a) = ground arith
check_parameters_iff policy (dsa bits a) = ground arith

-- Every name of the KSK operator's policy is an algorithm's, and the ZSK policy keeps to those, with
-- parameters that are approved.
abbrev pub AreApproved : RequestPolicy → List AlgorithmPolicy → Type 0
AreApproved policy algorithms =
    (approved : List AlgorithmDnssec) × (map_each algorithm_of_name policy.approved_algorithms
      ≡ ok approved)
    × All (λ alg. Any (λ a. policy_algorithm alg ≡ a) approved) algorithms
    × All (HasApprovedParameters policy) algorithms

approved_iff :
    (policy : RequestPolicy) (algorithms : List AlgorithmPolicy) (approved : List AlgorithmDnssec)
    → Passes (check_approved policy algorithms approved) ↔ (
        All (λ alg. Any (λ a. policy_algorithm alg ≡ a) approved) algorithms
        × All (HasApprovedParameters policy) algorithms)
unfolding check_approved
approved_iff policy algorithms approved = iff_trans (>>-Passes _ _) (
    ×_iff
      (iff_trans (for_each-Passes _ algorithms) (
        All-iff algorithms (λ (alg : AlgorithmPolicy).
          iff_trans (guard-Passes _ _) (contains_iff approved (policy_algorithm alg)))))
      (iff_trans (for_each-Passes _ algorithms) (All-iff algorithms (check_parameters_iff policy))))

-- The check passes exactly when every algorithm of the ZSK policy is supported and, where the switch
-- is on, all of them are approved with their parameters.
pub check_zsk_policy_algorithm_iff :
    (request : Request) (policy : RequestPolicy)
    → Passes (check_zsk_policy_algorithm request policy) ↔ (
        All
          (λ alg. IsSupported policy.enable_unsupported_ecdsa (policy_algorithm alg))
          request.zsk_policy.algorithms
        × IfOn policy.signature_algorithms_match_zsk_policy
            (AreApproved policy request.zsk_policy.algorithms))
unfolding check_zsk_policy_algorithm
check_zsk_policy_algorithm_iff request policy = iff_trans (>>-Passes _ _) (
    ×_iff
      (iff_trans (for_each-Passes _ request.zsk_policy.algorithms)
        (All-iff request.zsk_policy.algorithms (check_supported_iff policy)))
      (unless_disabled_iff policy.signature_algorithms_match_zsk_policy _ (
        λ h.
            let (approved, e, h1) =
              >>=-eq-ok (map_each algorithm_of_name policy.approved_algorithms) _ h in
            let (members, parameters) =
              (approved_iff policy request.zsk_policy.algorithms approved).0 h1 in
            (approved, e, members, parameters),
        λ (approved, e, members, parameters).
            ap (λ r. r >>= check_approved policy request.zsk_policy.algorithms) e
            ∙ (approved_iff policy request.zsk_policy.algorithms approved).1 (members, parameters),
      )))
