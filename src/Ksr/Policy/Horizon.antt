-- ===== src/Ksr/Policy/Horizon.antt =====
-- How far away a signature may expire, and how long it may be valid.
use sam_ken_x_dnssec_keytool.Prelude.{
  zero, suc, ◌*◌, inl, inr, false, not, ◌&&◌, ◌≡◌, ◌↔◌, ◌⊎◌, All, All-iff, iff_trans, ×_iff, arith,
}
use sam_ken_x_dnssec_keytool.Prelude.Int.{
  ℤ, pos, negsuc, floor_div, -ℤ_parts, ◌+ℤ◌, ◌-ℤ◌, ◌≤ℤ◌, ◌<ℤ◌, ltb_ℤ, int_eqb, eq_of_parts,
}
use sam_ken_x_dnssec_keytool.Outcome.{Passes, for_each-Passes, >>-Passes, refuse-Passes}
use sam_ken_x_dnssec_keytool.Outcome.Switch.{IfOn, unless_disabled_iff}
use sam_ken_x_dnssec_keytool.Data.{Datetime, Timedelta, Request, RequestBundle}
use sam_ken_x_dnssec_keytool.Config.{RequestPolicy}
use sam_ken_x_dnssec_keytool.Ksr.Policy.{
  check_bundle_validity, check_signature_validity, check_bundle_horizon, check_signature_horizon,
  expire_days,
}

exactly : (x limit : ℤ) → ((ltb_ℤ x limit ≡ false) × (ltb_ℤ limit x ≡ false)) ↔ (x ≡ limit)
exactly x limit = ground (arith, eq_of_parts x limit)

-- The check passes exactly when it is switched off or the validity of every bundle is the maximum
-- of the ZSK policy, neither less nor more: the minimum of the policy plays no part.
pub check_signature_validity_iff :
    (request : Request) (policy : RequestPolicy)
    → Passes (check_signature_validity request policy)
      ↔ IfOn policy.signature_validity_match_zsk_policy (
          All
            (λ (b : RequestBundle).
              b.expiration -ℤ b.inception ≡ request.zsk_policy.max_signature_validity)
            request.bundles)
unfolding check_signature_validity check_bundle_validity
check_signature_validity_iff request policy =
    unless_disabled_iff policy.signature_validity_match_zsk_policy _ (
      iff_trans (for_each-Passes _ request.bundles) (
        All-iff request.bundles (λ (b : RequestBundle). iff_trans (>>-Passes _ _) (
          iff_trans (×_iff (refuse-Passes _ _) (refuse-Passes _ _))
            (exactly (b.expiration -ℤ b.inception) request.zsk_policy.max_signature_validity)))))

-- a number of days as a timedelta
abbrev pub days_long : ℤ → Timedelta
days_long (pos n) = pos (n * 86_400_000_000)
days_long (negsuc n) = pos 0 -ℤ pos (suc n * 86_400_000_000)

-- A bundle expires within a horizon of days: less than a day later than that many days after the
-- time of the clock, unless the horizon is 0; and with a positive horizon not before that time.
abbrev pub IsWithinHorizon : (horizon : ℤ) (dt_now expiration : Datetime) → Type 0
IsWithinHorizon horizon dt_now expiration =
    ((horizon ≡ pos 0) ⊎ (expiration -ℤ dt_now <ℤ days_long (horizon +ℤ pos 1)))
    × (pos 0 <ℤ horizon → dt_now ≤ℤ expiration)

-- A number of whole days is at most `h` exactly for the times below a day more.
floor_div_bound : (x h : ℤ) → (floor_div x 86_400_000_000 ≤ℤ h) ↔ (x <ℤ days_long (h +ℤ pos 1))
unfolding floor_div ◌+ℤ◌ ◌-ℤ◌
floor_div_bound (pos x) (pos h) = ground arith
floor_div_bound (pos x) (negsuc zero) = ground arith
floor_div_bound (pos x) (negsuc (suc h)) = ground arith
floor_div_bound (negsuc x) (pos h) = ground arith
floor_div_bound (negsuc x) (negsuc zero) = ground arith
floor_div_bound (negsuc x) (negsuc (suc h)) = ground arith

floor_div_sign : (x : ℤ) → (pos 0 ≤ℤ floor_div x 86_400_000_000) ↔ (pos 0 ≤ℤ x)
unfolding floor_div
floor_div_sign (pos x) = ground arith
floor_div_sign (negsuc x) = ground arith

in_days :
    (h d : ℤ)
    → (((not (int_eqb h (pos 0)) && ltb_ℤ h d) ≡ false)
        × ((ltb_ℤ (pos 0) h && ltb_ℤ d (pos 0)) ≡ false))
      ↔ (((h ≡ pos 0) ⊎ (d ≤ℤ h)) × (pos 0 <ℤ h → pos 0 ≤ℤ d))
in_days h d = ground (arith, eq_of_parts h (pos 0))

difference_sign : (a b : ℤ) → (pos 0 ≤ℤ a -ℤ b) ↔ (b ≤ℤ a)
difference_sign a b = ground (arith, -ℤ_parts a b)

within :
    (h now expiration : ℤ)
    → (((h ≡ pos 0) ⊎ (floor_div (expiration -ℤ now) 86_400_000_000 ≤ℤ h))
        × (pos 0 <ℤ h → pos 0 ≤ℤ floor_div (expiration -ℤ now) 86_400_000_000))
      ↔ IsWithinHorizon h now expiration
within h now expiration =
    let bound = floor_div_bound (expiration -ℤ now) h in
    let sign = iff_trans (floor_div_sign (expiration -ℤ now)) (difference_sign expiration now) in
    (
      λ (above, below).
          (elim above [ inl z ↦ inl z | inr d ↦ inr (bound.0 d) ], λ h_pos. sign.0 (below h_pos)),
      λ (above, below).
          (elim above [ inl z ↦ inl z | inr d ↦ inr (bound.1 d) ], λ h_pos. sign.1 (below h_pos)),
    )

-- The check passes exactly when it is switched off or every bundle expires within the horizon, in whole
-- days from the time of the clock, so less than a day later than the horizon: with a horizon of 0 at any
-- time, and with a positive one not in the past.
pub check_signature_horizon_iff :
    (dt_now : Datetime) (request : Request) (policy : RequestPolicy)
    → Passes (check_signature_horizon dt_now request policy)
      ↔ IfOn policy.signature_check_expire_horizon (
          All
            (λ (b : RequestBundle).
              IsWithinHorizon policy.signature_horizon_days dt_now b.expiration)
            request.bundles)
unfolding check_signature_horizon check_bundle_horizon expire_days
check_signature_horizon_iff dt_now request policy =
    unless_disabled_iff policy.signature_check_expire_horizon _ (
      iff_trans (for_each-Passes _ request.bundles) (
        All-iff request.bundles (λ (b : RequestBundle). iff_trans (>>-Passes _ _) (
          iff_trans (×_iff (refuse-Passes _ _) (refuse-Passes _ _)) (
            iff_trans (in_days policy.signature_horizon_days (expire_days dt_now b))
              (within policy.signature_horizon_days dt_now b.expiration))))))
