-- ===== src/Signer/Chain.antt =====
-- src/kskm/signer/verify_chain.py, less the check of the keys in the HSM, and the unique identifiers
-- of src/kskm/signer/policy.py.
use sam_ken_x_dnssec_keytool.Prelude.{
  String, ◌≡◌, ◌≢◌, ◌↔◌, false, head?, get_last?, some, All, Any, All-iff, iff_trans, ×_iff, arith,
}
use sam_ken_x_dnssec_keytool.Prelude.Int.{◌-ℤ◌}
use sam_ken_x_dnssec_keytool.Prelude.Equal.{◌==◌, string_eq, ==_iff, contains, contains_iff}
use sam_ken_x_dnssec_keytool.Outcome.{
  Passes, Checked, ◌>>=◌, ◌>>◌, guard, refuse, require, for_each, >>-Passes, for_each-Passes,
  guard-Passes, refuse-Passes, require-Passes, index_error, ksr_chain_keys_violation,
  ksr_chain_overlap_violation, ksr_id_violation, ksr_bundle_unique_violation,
}
use sam_ken_x_dnssec_keytool.Outcome.Switch.{IfOn, unless_disabled, unless_disabled_iff}
use sam_ken_x_dnssec_keytool.Outcome.Limits.{hold_between, IsBetween, hold_between_iff}
use sam_ken_x_dnssec_keytool.Data.{Request, RequestBundle, Response, Bundle, Key}
use sam_ken_x_dnssec_keytool.Data.Equality.{key_eq}
use sam_ken_x_dnssec_keytool.Config.{RequestPolicy}

check_key_sets : Request → Response → Checked
check_key_sets ksr last_skr = do
  last ← require (get_last? last_skr.bundles) index_error
  first ← require (head? ksr.bundles) index_error
  for_each (λ (this : Key). guard (contains last.keys this) ksr_chain_keys_violation) first.keys

-- check_chain_keys
unfoldable pub check_chain_keys : Request → Response → RequestPolicy → Checked
unfolding check_key_sets
check_chain_keys ksr last_skr policy =
    unless_disabled policy.check_chain_keys (check_key_sets ksr last_skr)

check_overlap : Request → Response → Checked
check_overlap ksr last_skr = do
  previous ← require (get_last? last_skr.bundles) index_error
  ksr_first ← require (head? ksr.bundles) index_error
  hold_between ksr.zsk_policy.min_validity_overlap ksr.zsk_policy.max_validity_overlap
      (previous.expiration -ℤ ksr_first.inception) ksr_chain_overlap_violation

-- check_chain_overlap
unfoldable pub check_chain_overlap : Request → Response → RequestPolicy → Checked
unfolding check_overlap
check_chain_overlap ksr last_skr policy =
    unless_disabled policy.check_chain_overlap (check_overlap ksr last_skr)

-- check_chain
unfoldable pub check_chain : Request → Response → RequestPolicy → Checked
unfolding check_chain_keys check_chain_overlap
check_chain ksr last_skr policy = do
  check_chain_keys ksr last_skr policy
  check_chain_overlap ksr last_skr policy

-- check_unique_request
check_unique_request : Request → Response → Checked
check_unique_request ksr last_skr = refuse (ksr.id == last_skr.id) ksr_id_violation

-- check_unique_bundle_ids
check_unique_bundle_ids : Request → Response → Checked
check_unique_bundle_ids ksr last_skr =
    for_each
      (λ (ksr_bundle : RequestBundle).
        for_each
          (λ (skr_bundle : Bundle).
            refuse (ksr_bundle.id == skr_bundle.id) ksr_bundle_unique_violation)
          last_skr.bundles)
      ksr.bundles

-- check_unique_ids
unfoldable pub check_unique_ids : Request → Response → Checked
unfolding check_unique_request check_unique_bundle_ids
check_unique_ids ksr last_skr = do
  check_unique_request ksr last_skr
  check_unique_bundle_ids ksr last_skr

-- The response has a last bundle and the request a first one, and they are related by `R`.
abbrev pub Joined : (R : Bundle → RequestBundle → Type 0) → Response → Request → Type 0
Joined R last_skr ksr =
    (last : Bundle) × (get_last? last_skr.bundles ≡ some last)
    × (first : RequestBundle) × (head? ksr.bundles ≡ some first)
    × R last first

Joined-iff :
    (R : Bundle → RequestBundle → Type 0) (body : Bundle → RequestBundle → Checked) (ksr : Request)
    (last_skr : Response)
    → ((last : Bundle) (first : RequestBundle) → Passes (body last first) ↔ R last first)
    → Passes (
        require (get_last? last_skr.bundles) index_error >>= λ last.
        require (head? ksr.bundles) index_error >>= λ first. body last first)
      ↔ Joined R last_skr ksr
Joined-iff R body ksr last_skr step = (
  λ h.
      let (last, el, h1) = (require-Passes (get_last? last_skr.bundles) index_error _).0 h in
      let (first, ef, h2) = (require-Passes (head? ksr.bundles) index_error (body last)).0 h1 in
      (last, el, first, ef, (step last first).0 h2),
  λ (last, el, first, ef, r). (require-Passes (get_last? last_skr.bundles) index_error _).1 (
    last,
    el,
    (require-Passes (head? ksr.bundles) index_error (body last)).1
        (first, ef, (step last first).1 r),
  ),
)

-- Every key of the request's first bundle is in the last bundle of the response.
abbrev pub SharesKeys : Bundle → RequestBundle → Type 0
SharesKeys last first = All (λ key. Any (λ x. key ≡ x) last.keys) first.keys

check_chain_keys_iff :
    (ksr : Request) (last_skr : Response) (policy : RequestPolicy)
    → Passes (check_chain_keys ksr last_skr policy)
      ↔ IfOn policy.check_chain_keys (Joined SharesKeys last_skr ksr)
unfolding check_chain_keys check_key_sets
check_chain_keys_iff ksr last_skr policy = unless_disabled_iff policy.check_chain_keys _ (
    Joined-iff SharesKeys _ ksr last_skr (λ last first.
      iff_trans (for_each-Passes _ first.keys)
        (All-iff first.keys (λ key. iff_trans (guard-Passes _ _) (contains_iff last.keys key)))))

-- The last bundle of the response ends after the request begins, by a time within the limits.
abbrev pub ChainOverlaps : Request → Bundle → RequestBundle → Type 0
ChainOverlaps ksr last first =
    IsBetween ksr.zsk_policy.min_validity_overlap ksr.zsk_policy.max_validity_overlap
      (last.expiration -ℤ first.inception)

check_chain_overlap_iff :
    (ksr : Request) (last_skr : Response) (policy : RequestPolicy)
    → Passes (check_chain_overlap ksr last_skr policy)
      ↔ IfOn policy.check_chain_overlap (Joined (ChainOverlaps ksr) last_skr ksr)
unfolding check_chain_overlap check_overlap
check_chain_overlap_iff ksr last_skr policy = unless_disabled_iff policy.check_chain_overlap _ (
    Joined-iff (ChainOverlaps ksr) _ ksr last_skr (λ last first.
      hold_between_iff ksr.zsk_policy.min_validity_overlap ksr.zsk_policy.max_validity_overlap
        (last.expiration -ℤ first.inception) ksr_chain_overlap_violation))

-- A request passes exactly when it continues the last response: unless the checks are switched off,
-- every key of its first bundle is in the response's last bundle, and the two bundles overlap by a time
-- within the limits of the ZSK policy. That the last bundle has no other keys is not checked.
pub check_chain_iff :
    (ksr : Request) (last_skr : Response) (policy : RequestPolicy)
    → Passes (check_chain ksr last_skr policy) ↔ (
        IfOn policy.check_chain_keys (Joined SharesKeys last_skr ksr)
        × IfOn policy.check_chain_overlap (Joined (ChainOverlaps ksr) last_skr ksr))
unfolding check_chain
check_chain_iff ksr last_skr policy =
    iff_trans (>>-Passes (check_chain_keys ksr last_skr policy) _) (
      ×_iff (check_chain_keys_iff ksr last_skr policy)
        (check_chain_overlap_iff ksr last_skr policy))

differ : (a b : String) → ((a == b) ≡ false) ↔ (a ≢ b)
differ a b = ground (arith, ==_iff a b)

-- The identifiers pass exactly when the request has not the last response's identifier and none of
-- its bundles has the identifier of a bundle of that response.
pub check_unique_ids-Passes :
    (ksr : Request) (last_skr : Response)
    → Passes (check_unique_ids ksr last_skr) ↔ (
        (ksr.id ≢ last_skr.id)
        × All
            (λ (b : RequestBundle). All (λ (x : Bundle). b.id ≢ x.id) last_skr.bundles)
            ksr.bundles)
unfolding check_unique_ids check_unique_request check_unique_bundle_ids
check_unique_ids-Passes ksr last_skr = iff_trans (>>-Passes _ _) (
    ×_iff (iff_trans (refuse-Passes _ _) (differ ksr.id last_skr.id)) (
      iff_trans (for_each-Passes _ ksr.bundles) (
        All-iff ksr.bundles (λ (b : RequestBundle). iff_trans (for_each-Passes _ last_skr.bundles) (
          All-iff last_skr.bundles
            (λ (x : Bundle). iff_trans (refuse-Passes _ _) (differ b.id x.id)))))))
