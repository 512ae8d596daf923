-- ===== src/Data/Flags.antt =====
-- FlagsDNSKEY of src/kskm/common/data.py, and the flag tests of common/parse_utils.py.
use Prim.Native.Nat.{bit_and, bit_or}
use sam_ken_x_dnssec_keytool.Prelude.{ℕ, Bool, not, nat_eqb}

abbrev pub sep : ℕ
sep = 0x0001

abbrev pub revoke : ℕ
revoke = 0x0080

abbrev pub zone : ℕ
zone = 0x0100

-- `flags & mask`, as a truth value
abbrev has_flag : ℕ → ℕ → Bool
has_flag mask flags = not (nat_eqb (bit_and flags mask) 0)

unfoldable pub is_sep_flags : ℕ → Bool
is_sep_flags flags = has_flag sep flags

unfoldable pub is_zsk_flags : ℕ → Bool
unfolding is_sep_flags
is_zsk_flags flags = not (is_sep_flags flags)

unfoldable pub is_revoked_flags : ℕ → Bool
is_revoked_flags flags = has_flag revoke flags

-- the flags of a key signing key, and of one that is revoked
abbrev pub ksk_flags : ℕ
ksk_flags = bit_or sep zone

abbrev pub revoked_ksk_flags : ℕ
revoked_ksk_flags = bit_or (bit_or zone sep) revoke
