-- ===== src/Outcome/Limits.antt =====
-- The source's way to hold a length of time between two limits: two tests, each of which raises.
use sam_ken_x_dnssec_keytool.Prelude.{◌↔◌, arith}
use sam_ken_x_dnssec_keytool.Prelude.Int.{ℤ, ◌≤ℤ◌, ltb_ℤ}
use sam_ken_x_dnssec_keytool.Outcome.{Checked, Passes, ◌>>◌, refuse, Exception}

-- `if x < least: raise ...` and `if x > most: raise ...`
abbrev pub hold_between : (least most x : ℤ) → Exception → Checked
hold_between least most x e = refuse (ltb_ℤ x least) e >> refuse (ltb_ℤ most x) e

abbrev pub IsBetween : (least most x : ℤ) → Type 0
IsBetween least most x = (least ≤ℤ x) × (x ≤ℤ most)

pub hold_between_iff :
    (least most x : ℤ) (e : Exception)
    → Passes (hold_between least most x e) ↔ IsBetween least most x
hold_between_iff least most x e = ground arith
