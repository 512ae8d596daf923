-- ===== src/Ksr/Bundles/Accepted.antt =====
-- Exactly which requests pass `verify_bundles`.
use mathlib.Core.Option.{some-injective}
use sam_ken_x_dnssec_keytool.Prelude.{
  none, some, List, [], ◌∷◌, length, head?, get_last?, get_last?-cons, is_empty, true, ◌≡◌, ◌↔◌,
  ◌⊎◌, refl, ap, subst, All, All-iff, iff_trans, ×_iff, arith, if◌then◌else◌,
}
use sam_ken_x_dnssec_keytool.Prelude.Int.{◌-ℤ◌}
use sam_ken_x_dnssec_keytool.Prelude.Equal.{string_eq, option_eq}
use sam_ken_x_dnssec_keytool.Prelude.Dict.{DistinctBy}
use sam_ken_x_dnssec_keytool.Outcome.{
  ◌>>=◌, Passes, done, >>=-eq-ok, >>-Passes, ksr_bundle_unique_violation,
  ksr_bundle_cycle_duration_violation,
}
use sam_ken_x_dnssec_keytool.Outcome.Index.{index_from, index_iff}
use sam_ken_x_dnssec_keytool.Outcome.Limits.{IsBetween, hold_between_iff}
use sam_ken_x_dnssec_keytool.Outcome.Switch.{IfOn, switched}
use sam_ken_x_dnssec_keytool.Data.{Request, RequestBundle, Timedelta}
use sam_ken_x_dnssec_keytool.Data.Algorithm.{algorithm_eq}
use sam_ken_x_dnssec_keytool.Config.{RequestPolicy}
use sam_ken_x_dnssec_keytool.Crypto.{Cryptography}
use sam_ken_x_dnssec_keytool.Ksr.Bundles.{
  check_unique_ids, check_keys_match_zsk_policy, check_proof_of_possession, check_bundle_count,
  check_cycle_length, check_cycle_durations, verify_bundles,
}
use sam_ken_x_dnssec_keytool.Ksr.Bundles.NewKey.{IsAcceptedKey, check_new_key_iff}
use sam_ken_x_dnssec_keytool.Ksr.Bundles.Possession.{
  ProvesPossession, check_proof_of_possession_iff,
}
use sam_ken_x_dnssec_keytool.Ksr.Bundles.Keys.{
  all_keys, Consistent, check_keys_match_zsk_policy-keys,
}

-- KSR-BUNDLE-UNIQUE
check_unique_ids_iff :
    (request : Request)
    → Passes (check_unique_ids request) ↔ DistinctBy (λ (b : RequestBundle). b.id) request.bundles
unfolding check_unique_ids
check_unique_ids_iff request =
    let index =
      index_iff (λ (b : RequestBundle). b.id) ksr_bundle_unique_violation request.bundles in
    (
      λ h.
          let (d, e, _) =
            >>=-eq-ok (index_from _ ksr_bundle_unique_violation [] request.bundles) _ h in
          ((index d).0 e).0,
      λ distinct. ap (λ r. r >>= λ seen. done) ((index _).1 (distinct, refl)),
    )

-- KSR-BUNDLE-COUNT
check_bundle_count_iff :
    (request : Request) (policy : RequestPolicy)
    → Passes (check_bundle_count request policy)
      ↔ ((policy.num_bundles ≡ none) ⊎ (policy.num_bundles ≡ some (length request.bundles)))
unfolding check_bundle_count
check_bundle_count_iff request policy = ground arith

-- The time from the first inception to the last is within the limits.
abbrev pub CycleIsBetween : (least most : Timedelta) → List RequestBundle → Type 0
CycleIsBetween least most bundles =
    (first last : RequestBundle)
    → head? bundles ≡ some first
    → get_last? bundles ≡ some last
    → IsBetween least most (last.inception -ℤ first.inception)

check_cycle_length_iff :
    (policy : RequestPolicy) (b : RequestBundle) (bs : List RequestBundle)
    → Passes (check_cycle_length policy (b ∷ bs))
      ↔ CycleIsBetween policy.min_cycle_inception_length policy.max_cycle_inception_length (b ∷ bs)
unfolding check_cycle_length
check_cycle_length_iff policy b bs =
    let (last, e) = get_last?-cons b bs in
    let limits =
      hold_between_iff policy.min_cycle_inception_length policy.max_cycle_inception_length
        (last.inception -ℤ b.inception) ksr_bundle_cycle_duration_violation in
    rw (e, check_cycle_length)
      (
        λ h first last' ef el.
            subst
              (λ (x : RequestBundle).
                IsBetween policy.min_cycle_inception_length policy.max_cycle_inception_length
                  (x.inception -ℤ first.inception))
              (some-injective _ _ el)
              (subst
                (λ (x : RequestBundle).
                  IsBetween policy.min_cycle_inception_length policy.max_cycle_inception_length
                    (last.inception -ℤ x.inception))
                (some-injective _ _ ef) (limits.0 h)),
        λ h. limits.1 (h b last refl refl),
      )

-- KSR-BUNDLE-CYCLE-DURATION
check_cycle_durations_iff :
    (request : Request) (policy : RequestPolicy)
    → policy.check_cycle_length ≡ true
    → Passes (check_cycle_durations request policy)
      ↔ CycleIsBetween policy.min_cycle_inception_length policy.max_cycle_inception_length
          request.bundles
unfolding check_cycle_durations
check_cycle_durations_iff request policy on = rw on (by_length request.bundles)
  where
    by_length :
        (bundles : List RequestBundle)
        → Passes (if is_empty bundles then done else check_cycle_length policy bundles)
          ↔ CycleIsBetween policy.min_cycle_inception_length policy.max_cycle_inception_length
              bundles
    by_length [] = (λ _ first last h. absurd (cc), λ _. refl)
    by_length (b ∷ bs) = check_cycle_length_iff policy b bs

-- What `verify_bundles` asks of a request, check by check.
pub record HasAcceptableBundles (c : Cryptography) (request : Request) (policy : RequestPolicy)
    : Type 0 where
  pub unique : DistinctBy (λ (b : RequestBundle). b.id) request.bundles
  pub keys : IfOn policy.keys_match_zsk_policy (
      All (IsAcceptedKey request policy) (all_keys request.bundles)
      × Consistent (all_keys request.bundles))
  pub possession : IfOn policy.validate_signatures (All (ProvesPossession c) request.bundles)
  pub count : (policy.num_bundles ≡ none) ⊎ (policy.num_bundles ≡ some (length request.bundles))
  pub cycle : IfOn policy.check_cycle_length (
      CycleIsBetween policy.min_cycle_inception_length policy.max_cycle_inception_length
        request.bundles)

module _ (request : Request) (policy : RequestPolicy) where
  keys_iff :
      Passes (check_keys_match_zsk_policy request policy)
      ↔ IfOn policy.keys_match_zsk_policy (
          All (IsAcceptedKey request policy) (all_keys request.bundles)
          × Consistent (all_keys request.bundles))
  keys_iff =
      switched policy.keys_match_zsk_policy _
        (λ on. iff_trans (check_keys_match_zsk_policy-keys request policy on) (
          ×_iff (All-iff (all_keys request.bundles) (check_new_key_iff request policy))
            (λ p. p, λ p. p)))
        (λ off. unfold check_keys_match_zsk_policy in rw off)

  cycle_iff :
      Passes (check_cycle_durations request policy)
      ↔ IfOn policy.check_cycle_length (
          CycleIsBetween policy.min_cycle_inception_length policy.max_cycle_inception_length
            request.bundles)
  cycle_iff =
      switched policy.check_cycle_length _ (check_cycle_durations_iff request policy)
        (λ off. unfold check_cycle_durations in rw off)

  possession_iff :
      (c : Cryptography)
      → Passes (check_proof_of_possession c request policy)
        ↔ IfOn policy.validate_signatures (All (ProvesPossession c) request.bundles)
  possession_iff c =
      switched policy.validate_signatures _ (check_proof_of_possession_iff c request policy)
        (λ off. unfold check_proof_of_possession in rw off)

  -- The bundles of a request pass exactly when they are acceptable: their identifiers differ; each of
  -- their keys is accepted by the ZSK policy and keys of one identifier are the same; each bundle proves
  -- the possession of its keys; their number and the length of the cycle are the configured ones. Each
  -- check but the first can be switched off.
  pub verify_bundles_iff :
      (c : Cryptography)
      → Passes (verify_bundles c request policy) ↔ HasAcceptableBundles c request policy
  unfolding verify_bundles
  verify_bundles_iff c =
      let steps = iff_trans (>>-Passes (check_unique_ids request) _) (
        ×_iff (check_unique_ids_iff request) (
          iff_trans (>>-Passes (check_keys_match_zsk_policy request policy) _) (
            ×_iff keys_iff (
              iff_trans (>>-Passes (check_proof_of_possession c request policy) _) (
                ×_iff (possession_iff c) (
                  iff_trans (>>-Passes (check_bundle_count request policy) _)
                    (×_iff (check_bundle_count_iff request policy) cycle_iff))))))) in
      (
        λ h.
            let (u, rest) = steps.0 h in
            let (k, more) = rest in
            let (p, last) = more in
            record { unique = u; keys = k; possession = p; count = last.0; cycle = last.1 },
        λ a. steps.1 (a.unique, (a.keys, (a.possession, (a.count, a.cycle)))),
      )
