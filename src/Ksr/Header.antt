-- ===== src/Ksr/Header.antt =====
-- src/kskm/ksr/verify_header.py
use sam_ken_x_dnssec_keytool.Prelude.{◌≡◌, ◌↔◌, arith, Any}
use sam_ken_x_dnssec_keytool.Prelude.Equal.{string_eq, contains, contains_iff}
use sam_ken_x_dnssec_keytool.Outcome.{◌>>◌, Checked, Passes, done, guard, ksr_domain_violation}
use sam_ken_x_dnssec_keytool.Data.{Request}
use sam_ken_x_dnssec_keytool.Config.{RequestPolicy}

-- check_domain
check_domain : Request → RequestPolicy → Checked
check_domain request policy =
    guard (contains policy.acceptable_domains request.domain) ksr_domain_violation

-- check_id: the identifier is compared when the last response is at hand
check_id : Request → RequestPolicy → Checked
check_id request policy = done

-- verify_header
unfoldable pub verify_header : Request → RequestPolicy → Checked
unfolding check_domain check_id
verify_header request policy = do check_domain request policy; check_id request policy

-- The header passes exactly when the domain is one of the acceptable ones.
pub verify_header_iff :
    (request : Request) (policy : RequestPolicy)
    → Passes (verify_header request policy)
      ↔ Any (λ domain. request.domain ≡ domain) policy.acceptable_domains
unfolding verify_header
verify_header_iff request policy =
    let found = contains_iff policy.acceptable_domains request.domain in ground arith
