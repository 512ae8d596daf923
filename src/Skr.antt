-- ===== src/Skr.antt =====
-- src/kskm/skr/validate.py
use sam_ken_x_dnssec_keytool.Prelude.{
  ◌≡◌, ◌↔◌, ◌⊎◌, Bool, true, none, some, length, nat_eqb, All, All-iff, iff_trans, arith,
}
use sam_ken_x_dnssec_keytool.Outcome.{
  Result, ok, Passes, Checked, ◌>>=◌, ◌>>◌, done, guard, for_each, >>=-eq-ok, for_each-Passes,
  guard-Passes, except_invalid_signature, except_invalid_signature_iff, policy_violation,
  invalid_signature_violation,
}
use sam_ken_x_dnssec_keytool.Outcome.Switch.{IfOn, unless_disabled, unless_disabled_iff}
use sam_ken_x_dnssec_keytool.Data.{Bundle, Response}
use sam_ken_x_dnssec_keytool.Config.{ResponsePolicy}
use sam_ken_x_dnssec_keytool.Crypto.{Cryptography}
use sam_ken_x_dnssec_keytool.Signatures.{validate_signatures}
use sam_ken_x_dnssec_keytool.Signatures.Accepted.{IsSigned, validate_signatures_iff}

check_bundle_count : Response → ResponsePolicy → Checked
check_bundle_count response policy = elim policy.num_bundles [
  | none ↦ done
  | some n ↦ guard (nat_eqb (length response.bundles) n) policy_violation
]

module _ (c : Cryptography) where
  -- the `try` statement
  validate_bundle : Bundle → Checked
  validate_bundle bundle =
      except_invalid_signature
        (validate_signatures c bundle >>= λ valid. guard valid invalid_signature_violation)
        invalid_signature_violation

  -- check_valid_signatures
  unfoldable pub check_valid_signatures : Bundle → ResponsePolicy → Checked
  unfolding validate_bundle
  check_valid_signatures bundle policy =
      unless_disabled policy.validate_signatures (validate_bundle bundle)

  -- validate_response: `true`, or an exception
  unfoldable pub validate_response : Response → ResponsePolicy → Result Bool
  unfolding check_bundle_count check_valid_signatures
  validate_response response policy = do
    check_bundle_count response policy
    for_each (λ bundle. check_valid_signatures bundle policy) response.bundles
    ok true

  validate_bundle_iff : (bundle : Bundle) → Passes (validate_bundle bundle) ↔ IsSigned c bundle
  unfolding validate_bundle
  validate_bundle_iff bundle =
      let signed = validate_signatures_iff c bundle in
      let caught =
        except_invalid_signature_iff
          (validate_signatures c bundle >>= λ valid. guard valid invalid_signature_violation)
          invalid_signature_violation tt in
      (
        λ h.
            let (valid, e, g) = >>=-eq-ok (validate_signatures c bundle) _ (caught.0 h) in
            signed.0 (ground (arith, guard-Passes valid invalid_signature_violation)),
        λ s. caught.1 (let e = signed.1 s in rw e),
      )

  -- The signatures of a bundle pass exactly when their check is switched off or all of them are valid.
  pub check_valid_signatures_iff :
      (bundle : Bundle) (policy : ResponsePolicy)
      → Passes (check_valid_signatures bundle policy)
        ↔ IfOn policy.validate_signatures (IsSigned c bundle)
  unfolding check_valid_signatures
  check_valid_signatures_iff bundle policy =
      unless_disabled_iff policy.validate_signatures (validate_bundle bundle)
        (validate_bundle_iff bundle)

  -- A response that passes its policy.
  abbrev pub IsValidResponse : Response → ResponsePolicy → Type 0
  IsValidResponse response policy =
      ((policy.num_bundles ≡ none) ⊎ (policy.num_bundles ≡ some (length response.bundles)))
      × All (λ bundle. IfOn policy.validate_signatures (IsSigned c bundle)) response.bundles

  count_iff :
      (response : Response) (policy : ResponsePolicy)
      → Passes (check_bundle_count response policy)
        ↔ ((policy.num_bundles ≡ none) ⊎ (policy.num_bundles ≡ some (length response.bundles)))
  unfolding check_bundle_count
  count_iff response policy = ground arith

  -- `validate_response` returns true exactly for the responses with the configured number of bundles,
  -- if one is configured, whose bundles all have valid signatures, unless that check is switched off.
  pub validate_response_iff :
      (response : Response) (policy : ResponsePolicy)
      → (validate_response response policy ≡ ok true) ↔ IsValidResponse response policy
  unfolding validate_response
  validate_response_iff response policy =
      let count = count_iff response policy in
      let bundles =
        iff_trans
          (for_each-Passes (λ bundle. check_valid_signatures bundle policy) response.bundles)
          (All-iff response.bundles (λ bundle. check_valid_signatures_iff bundle policy)) in
      (
        λ h.
            let (_, n, h1) = >>=-eq-ok (check_bundle_count response policy) _ h in
            let (_, s, _) =
              >>=-eq-ok (for_each (λ bundle. check_valid_signatures bundle policy) response.bundles)
                _ h1 in
            (count.0 n, bundles.0 s),
        λ (n, s). let p = count.1 n in let q = bundles.1 s in rw (p, q),
      )
