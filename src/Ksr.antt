-- ===== src/Ksr.antt =====
-- src/kskm/ksr/validate.py
pub mod Header
pub mod Bundles
pub mod Policy
use sam_ken_x_dnssec_keytool.Prelude.{◌≡◌, ◌↔◌, Bool, true, Any, arith, iff_trans, ×_iff}
use sam_ken_x_dnssec_keytool.Outcome.{Result, ok, Passes, ◌>>=◌, ◌>>◌, >>-Passes, >>=-eq-ok}
use sam_ken_x_dnssec_keytool.Data.{Datetime, Request}
use sam_ken_x_dnssec_keytool.Config.{RequestPolicy}
use sam_ken_x_dnssec_keytool.Crypto.{Cryptography}
use Header.{verify_header, verify_header_iff}
use Bundles.{verify_bundles}
use Bundles.Accepted.{HasAcceptableBundles, verify_bundles_iff}
use Policy.{verify_policy}
use Policy.Accepted.{FollowsPolicy, verify_policy_iff}

-- validate_request, with the time of the clock: `true`, or an exception
unfoldable pub validate_request : Cryptography → Datetime → Request → RequestPolicy → Result Bool
unfolding verify_header verify_bundles verify_policy
validate_request c dt_now request policy = do
  verify_header request policy
  verify_bundles c request policy
  verify_policy dt_now request policy
  ok true

-- A request that the KSK operator accepts: its domain is acceptable, its bundles are, and it follows
-- the operator's policy.
pub record IsValidRequest (c : Cryptography) (dt_now : Datetime) (request : Request)
    (policy : RequestPolicy) : Type 0 where
  pub domain : Any (λ domain. request.domain ≡ domain) policy.acceptable_domains
  pub bundles : HasAcceptableBundles c request policy
  pub follows : FollowsPolicy dt_now request policy

-- `validate_request` returns true exactly for the requests that are acceptable in their domain and
-- bundles and follow the policy of the KSK operator; it never returns false.
pub validate_request_iff :
    (c : Cryptography) (dt_now : Datetime) (request : Request) (policy : RequestPolicy) (b : Bool)
    → (validate_request c dt_now request policy ≡ ok b)
      ↔ (IsValidRequest c dt_now request policy × (b ≡ true))
unfolding validate_request
validate_request_iff c dt_now request policy b = (
  λ h.
      let (_, p, h1) = >>=-eq-ok (verify_header request policy) _ h in
      let (_, q, h2) = >>=-eq-ok (verify_bundles c request policy) _ h1 in
      let (_, r, h3) = >>=-eq-ok (verify_policy dt_now request policy) _ h2 in
      (
        record {
          domain = (verify_header_iff request policy).0 p;
          bundles = (verify_bundles_iff request policy c).0 q;
          follows = (verify_policy_iff dt_now request policy).0 r;
        },
        cc,
      ),
  λ (v, e). ground (
    arith,
    (verify_header_iff request policy).1 v.domain,
    (verify_bundles_iff request policy c).1 v.bundles,
    (verify_policy_iff dt_now request policy).1 v.follows,
  ),
)
