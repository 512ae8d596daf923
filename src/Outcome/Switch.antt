-- ===== src/Outcome/Switch.antt =====
-- A check that a Boolean of the configuration switches on.
use sam_ken_x_dnssec_keytool.Prelude.{◌≡◌, ◌↔◌, refl, Bool, true, false, not, if◌then◌else◌}
use sam_ken_x_dnssec_keytool.Outcome.{Checked, Passes, done}

-- A check that is switched off asks for nothing.
abbrev pub IfOn : Bool → Type 0 → Type 0
IfOn true P = P
IfOn false P = Unit

-- `if not b: return`, then `m`
abbrev pub unless_disabled : Bool → Checked → Checked
unless_disabled b m = if not b then done else m

-- With the switch on `m` passes exactly under `P`, and with it off it passes.
pub switched :
    (b : Bool) (m : Checked) {P : Type 0}
    → (b ≡ true → Passes m ↔ P)
    → (b ≡ false → Passes m)
    → Passes m ↔ IfOn b P
switched true m on off = on refl
switched false m on off = (λ _. tt, λ _. off refl)

pub unless_disabled_iff :
    (b : Bool) (m : Checked) {P : Type 0} → Passes m ↔ P → Passes (unless_disabled b m) ↔ IfOn b P
unless_disabled_iff true m p = p
unless_disabled_iff false m p = (λ _. tt, λ _. refl)
