-- ===== src/Signer/Safety.antt =====
-- src/kskm/signer/policy.py: the publish and retire safety of the new response against the last one.
use sam_ken_x_dnssec_keytool.Prelude.{
  some, ◌≡◌, ◌↔◌, inl, inr, refl, Bool, true, false, ◌||◌, List, [], ◌∷◌, head?, get_last?, All,
  Any, All-iff, iff_trans, ×_iff, arith, if◌then◌else◌, Bool-cases,
}
use sam_ken_x_dnssec_keytool.Prelude.Int.{pos, negsuc, ◌-ℤ◌, ◌+ℤ◌, ◌≤ℤ◌, ltb_ℤ, leb_ℤ}
use sam_ken_x_dnssec_keytool.Prelude.Equal.{◌==◌, string_eq, option_eq, ==_iff}
use sam_ken_x_dnssec_keytool.Outcome.{
  Result, ok, raise, Passes, Checked, ◌>>=◌, ◌>>◌, done, guard, require, for_each, >>-Passes,
  for_each-Passes, guard-Passes, require-Passes, index_error, overflow_error,
  ksr_policy_safety_violation,
}
use sam_ken_x_dnssec_keytool.Outcome.Switch.{IfOn, unless_disabled, unless_disabled_iff}
use sam_ken_x_dnssec_keytool.Outcome.Limits.{hold_between, IsBetween, hold_between_iff}
use sam_ken_x_dnssec_keytool.Data.{Response, Bundle, Key, Set, Signature, Datetime}
use sam_ken_x_dnssec_keytool.Config.{RequestPolicy}

-- the first and the last microsecond that a `datetime` can stand for, of the years 1 and 9999
abbrev pub datetime_min : Datetime
datetime_min = negsuc 62_135_596_799_999_999

abbrev pub datetime_max : Datetime
datetime_max = pos 253_402_300_799_999_999

-- the result of date arithmetic, which is an OverflowError outside of the years
in_range : Datetime → Result Datetime
in_range t = if ltb_ℤ t datetime_min || ltb_ℤ datetime_max t then raise overflow_error else ok t

-- `[x for x in keys if x.key_identifier == sig.key_identifier]` is not empty
unfoldable pub has_key_of : Set Key → Signature → Bool
has_key_of [] sig = false
has_key_of (x ∷ xs) sig = x.key_identifier == sig.key_identifier || has_key_of xs sig

-- every signature's key is in the key set
check_present : Set Signature → Set Key → Checked
unfolding has_key_of
check_present signatures keys =
    for_each (λ sig. guard (has_key_of keys sig) ksr_policy_safety_violation) signatures

check_published : Response → Response → Checked
unfolding check_present in_range
check_published last_skr new_skr = do
  last ← require (get_last? last_skr.bundles) index_error
  first ← require (head? new_skr.bundles) index_error
  check_present first.signatures last.keys
  publish_dt ← in_range (first.inception -ℤ new_skr.ksk_policy.publish_safety)
  hold_between last.inception last.expiration publish_dt ksr_policy_safety_violation

-- check_publish_safety
unfoldable pub check_publish_safety : Response → Response → RequestPolicy → Checked
unfolding check_published
check_publish_safety last_skr new_skr policy =
    unless_disabled policy.check_keys_publish_safety (check_published last_skr new_skr)

-- the first loop's body: a bundle that begins by then has all keys that signed the last bundle
check_not_retired : (retire_at : Datetime) → Set Signature → Bundle → Checked
check_not_retired retire_at signatures bundle =
    if leb_ℤ bundle.inception retire_at then check_present signatures bundle.keys else done

-- the second loop: the keys that sign a bundle are in all bundles that follow it
check_stays : List Bundle → Checked
check_stays [] = done
check_stays (b ∷ bs) =
    for_each (λ (bundle : Bundle). check_present b.signatures bundle.keys) bs >> check_stays bs

check_retired : Response → Response → Checked
unfolding check_not_retired check_stays in_range
check_retired last_skr new_skr = do
  last ← require (get_last? last_skr.bundles) index_error
  first ← require (head? new_skr.bundles) index_error
  retire_at ← in_range (first.inception +ℤ new_skr.ksk_policy.retire_safety)
  for_each (check_not_retired retire_at last.signatures) new_skr.bundles
  check_stays new_skr.bundles

-- check_retire_safety
unfoldable pub check_retire_safety : Response → Response → RequestPolicy → Checked
unfolding check_retired check_present
check_retire_safety last_skr new_skr policy =
    unless_disabled policy.check_keys_retire_safety (check_retired last_skr new_skr)

-- check_last_skr_and_new_skr
unfoldable pub check_last_skr_and_new_skr : Response → Response → RequestPolicy → Checked
unfolding check_publish_safety check_retire_safety
check_last_skr_and_new_skr last_skr new_skr policy = do
  check_publish_safety last_skr new_skr policy
  check_retire_safety last_skr new_skr policy

-- Each signature's key is among the keys.
abbrev pub AreAllIn : Set Signature → Set Key → Type 0
AreAllIn signatures keys =
    All (λ (sig : Signature). Any (λ (key : Key). key.key_identifier ≡ sig.key_identifier) keys)
      signatures

has_key_of_iff :
    (keys : Set Key) (sig : Signature)
    → (has_key_of keys sig ≡ true)
      ↔ Any (λ (key : Key). key.key_identifier ≡ sig.key_identifier) keys
unfolding has_key_of
has_key_of_iff [] sig = ground arith
has_key_of_iff (x ∷ xs) sig =
    ground (arith, ==_iff x.key_identifier sig.key_identifier, has_key_of_iff xs sig)

check_present_iff :
    (signatures : Set Signature) (keys : Set Key)
    → Passes (check_present signatures keys) ↔ AreAllIn signatures keys
unfolding check_present
check_present_iff signatures keys =
    iff_trans (for_each-Passes _ signatures)
      (All-iff signatures (λ sig. iff_trans (guard-Passes _ _) (has_key_of_iff keys sig)))

-- The time stands for a `datetime`.
abbrev pub IsDatetime : Datetime → Type 0
IsDatetime t = IsBetween datetime_min datetime_max t

in_range-Passes :
    (t : Datetime) (f : Datetime → Checked)
    → Passes (in_range t >>= f) ↔ (IsDatetime t × Passes (f t))
unfolding in_range
in_range-Passes t f = elim (Bool-cases (ltb_ℤ t datetime_min || ltb_ℤ datetime_max t)) [
  | inl out ↦ rw out (ground arith)
  | inr fits ↦ rw fits (ground arith)
]

-- The last bundle of one response and the first of the next are related by `R`.
abbrev pub Meet : (R : Bundle → Bundle → Type 0) → Response → Response → Type 0
Meet R last_skr new_skr =
    (last : Bundle) × (get_last? last_skr.bundles ≡ some last)
    × (first : Bundle) × (head? new_skr.bundles ≡ some first)
    × R last first

Meet-iff :
    (R : Bundle → Bundle → Type 0) (body : Bundle → Bundle → Checked) (last_skr new_skr : Response)
    → ((last first : Bundle) → Passes (body last first) ↔ R last first)
    → Passes (
        require (get_last? last_skr.bundles) index_error >>= λ last.
        require (head? new_skr.bundles) index_error >>= λ first. body last first)
      ↔ Meet R last_skr new_skr
Meet-iff R body last_skr new_skr step = (
  λ h.
      let (last, el, h1) = (require-Passes (get_last? last_skr.bundles) index_error _).0 h in
      let (first, ef, h2) = (require-Passes (head? new_skr.bundles) index_error (body last)).0 h1 in
      (last, el, first, ef, (step last first).0 h2),
  λ (last, el, first, ef, r). (require-Passes (get_last? last_skr.bundles) index_error _).1 (
    last,
    el,
    (require-Passes (head? new_skr.bundles) index_error (body last)).1
        (first, ef, (step last first).1 r),
  ),
)

-- The keys that sign the first bundle are published in the last one, at the time that lies the
-- publish safety before the first bundle.
abbrev pub IsPublished : Response → (last first : Bundle) → Type 0
IsPublished new_skr last first =
    AreAllIn first.signatures last.keys
    × (IsDatetime (first.inception -ℤ new_skr.ksk_policy.publish_safety)
        × IsBetween last.inception last.expiration
            (first.inception -ℤ new_skr.ksk_policy.publish_safety))

-- The check passes exactly when it is switched off, or every key that signs the first bundle of the new
-- response is in the last bundle of the last response, and the time of the first bundle's inception
-- less the publish safety is a date within the validity of that last bundle.
pub check_publish_safety_iff :
    (last_skr new_skr : Response) (policy : RequestPolicy)
    → Passes (check_publish_safety last_skr new_skr policy)
      ↔ IfOn policy.check_keys_publish_safety (Meet (IsPublished new_skr) last_skr new_skr)
unfolding check_publish_safety check_published
check_publish_safety_iff last_skr new_skr policy =
    unless_disabled_iff policy.check_keys_publish_safety _ (
      Meet-iff (IsPublished new_skr) _ last_skr new_skr (λ last first.
        iff_trans (>>-Passes (check_present first.signatures last.keys) _) (
          ×_iff (check_present_iff first.signatures last.keys) (
            iff_trans (in_range-Passes _ _) (
              ×_iff (λ p. p, λ p. p)
                (hold_between_iff last.inception last.expiration _ ksr_policy_safety_violation))))))

-- The keys that sign a bundle are in every bundle that follows.
abbrev pub Stays : List Bundle → Type 0
Stays [] = Unit
Stays (b ∷ bs) = All (λ (bundle : Bundle). AreAllIn b.signatures bundle.keys) bs × Stays bs

check_stays_iff : (bundles : List Bundle) → Passes (check_stays bundles) ↔ Stays bundles
unfolding check_stays
check_stays_iff [] = (λ _. tt, λ _. refl)
check_stays_iff (b ∷ bs) = iff_trans (>>-Passes _ (check_stays bs)) (
    ×_iff
      (iff_trans (for_each-Passes _ bs)
        (All-iff bs (λ (bundle : Bundle). check_present_iff b.signatures bundle.keys)))
      (check_stays_iff bs))

check_not_retired_iff :
    (t : Datetime) (signatures : Set Signature) (bundle : Bundle)
    → Passes (check_not_retired t signatures bundle)
      ↔ (bundle.inception ≤ℤ t → AreAllIn signatures bundle.keys)
unfolding check_not_retired
check_not_retired_iff t signatures bundle =
    let present = check_present_iff signatures bundle.keys in
    elim (Bool-cases (leb_ℤ bundle.inception t)) [
      | inl before ↦ rw before (λ h _. present.0 h, λ f. present.1 (f (ground arith)))
      | inr after ↦ rw after (λ _ h. absurd (ground arith), λ _. refl)
    ]

-- The keys that signed the last bundle are in every bundle that begins no later than the retire safety
-- after the first, and the keys that sign a bundle stay in those that follow.
abbrev pub IsRetiredSafely : Response → (last first : Bundle) → Type 0
IsRetiredSafely new_skr last first =
    IsDatetime (first.inception +ℤ new_skr.ksk_policy.retire_safety)
    × (All
          (λ (bundle : Bundle).
            bundle.inception ≤ℤ first.inception +ℤ new_skr.ksk_policy.retire_safety
            → AreAllIn last.signatures bundle.keys)
          new_skr.bundles
        × Stays new_skr.bundles)

-- The check passes exactly when it is switched off, or the time of the first bundle's inception and
-- the retire safety is a date, the keys that signed the last bundle of the last response are in every
-- bundle of the new one that begins by then, and the keys that sign a bundle are in all later ones.
pub check_retire_safety_iff :
    (last_skr new_skr : Response) (policy : RequestPolicy)
    → Passes (check_retire_safety last_skr new_skr policy)
      ↔ IfOn policy.check_keys_retire_safety (Meet (IsRetiredSafely new_skr) last_skr new_skr)
unfolding check_retire_safety check_retired
check_retire_safety_iff last_skr new_skr policy =
    unless_disabled_iff policy.check_keys_retire_safety _ (
      Meet-iff (IsRetiredSafely new_skr) _ last_skr new_skr (λ last first.
        iff_trans (in_range-Passes _ _) (
          ×_iff (λ p. p, λ p. p)
            (iff_trans (>>-Passes _ _) (
              ×_iff
                (iff_trans (for_each-Passes _ new_skr.bundles)
                  (All-iff new_skr.bundles (check_not_retired_iff _ last.signatures)))
                (check_stays_iff new_skr.bundles))))))
