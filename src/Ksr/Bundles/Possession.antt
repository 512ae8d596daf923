-- ===== src/Ksr/Bundles/Possession.antt =====
-- Which requests pass the proof of possession: `check_proof_of_possession`.
use sam_ken_x_dnssec_keytool.Prelude.{
  [], ◌∷◌, Bool, true, ◌≡◌, ◌↔◌, ap, ◌∙◌, All, All-iff, Any, iff_trans, arith,
}
use sam_ken_x_dnssec_keytool.Prelude.Equal.{==_iff, string_eq, option_eq}
use sam_ken_x_dnssec_keytool.Outcome.{
  Result, ok, ◌>>=◌, ◌>>◌, Passes, guard, for_each, >>=-eq-ok, guard-Passes, for_each-Passes,
  except_invalid_signature, except_invalid_signature_iff, ksr_bundle_pop_violation,
}
use sam_ken_x_dnssec_keytool.Data.{Request, RequestBundle, Key, Set, Signature}
use sam_ken_x_dnssec_keytool.Data.Algorithm.{algorithm_eq}
use sam_ken_x_dnssec_keytool.Config.{RequestPolicy}
use sam_ken_x_dnssec_keytool.Crypto.{Cryptography}
use sam_ken_x_dnssec_keytool.Signatures.{validate_signatures}
use sam_ken_x_dnssec_keytool.Signatures.Accepted.{IsSigned, validate_signatures_iff}
use sam_ken_x_dnssec_keytool.Ksr.Bundles.{
  check_bundle_possession, check_proof_of_possession, key_is_used,
}

key_is_used_iff :
    (sigs : Set Signature) (key : Key)
    → (key_is_used sigs key ≡ true) ↔ Any (λ sig. sig.key_identifier ≡ key.key_identifier) sigs
unfolding key_is_used
key_is_used_iff [] key = ground arith
key_is_used_iff (x ∷ xs) key =
    ground (arith, ==_iff x.key_identifier key.key_identifier, key_is_used_iff xs key)

-- All signatures of the bundle are valid, and every key of it made one of them.
abbrev pub ProvesPossession : Cryptography → RequestBundle → Type 0
ProvesPossession c b =
    IsSigned c b.bundle
    × All (λ key. Any (λ sig. sig.key_identifier ≡ key.key_identifier) b.signatures) b.keys

module _ (c : Cryptography) where
  check_bundle_possession_iff :
      (b : RequestBundle) → Passes (check_bundle_possession c b) ↔ ProvesPossession c b
  unfolding check_bundle_possession
  check_bundle_possession_iff b =
      let caught =
        except_invalid_signature_iff (validate_signatures c b.bundle) ksr_bundle_pop_violation in
      let used = iff_trans (for_each-Passes _ b.keys) (
        All-iff b.keys (λ key.
          iff_trans (guard-Passes _ ksr_bundle_pop_violation)
            (key_is_used_iff b.signatures key))) in
      (
        λ h.
            let (valid, ev, h1) =
              >>=-eq-ok
                (except_invalid_signature (validate_signatures c b.bundle) ksr_bundle_pop_violation)
                _ h in
            let (_, eg, h2) = >>=-eq-ok (guard valid ksr_bundle_pop_violation) _ h1 in
            let true_result = ev ∙ ap {B = Result Bool} ok ((guard-Passes _ _).0 eg) in
            ((validate_signatures_iff c b.bundle).0 ((caught true).0 true_result), used.0 h2),
        λ (signed, all).
            ap
              (λ r. r >>= λ valid.
                guard valid ksr_bundle_pop_violation
                >> for_each
                    (λ (key : Key). guard (key_is_used b.signatures key) ksr_bundle_pop_violation)
                    b.keys)
              ((caught true).1 ((validate_signatures_iff c b.bundle).1 signed))
            ∙ used.1 all,
      )

  -- KSR-BUNDLE-POP: with the check on, every bundle proves the possession of its keys.
  pub check_proof_of_possession_iff :
      (request : Request) (policy : RequestPolicy)
      → policy.validate_signatures ≡ true
      → Passes (check_proof_of_possession c request policy)
        ↔ All (ProvesPossession c) request.bundles
  unfolding check_proof_of_possession
  check_proof_of_possession_iff request policy on = rw on (
      iff_trans (for_each-Passes _ request.bundles)
        (All-iff request.bundles check_bundle_possession_iff))
