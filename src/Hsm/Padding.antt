-- ===== src/Hsm/Padding.antt =====
-- The padded block has the size of the modulus.
use sam_ken_x_dnssec_keytool.Prelude.{
  ℕ, zero, suc, ◌+◌, ◌-◌, ◌/◌, ◌≤◌, ◌≡◌, refl, ap, ◌∷◌, length, length-append, arith,
}
use sam_ken_x_dnssec_keytool.Data.{Bytes}
use sam_ken_x_dnssec_keytool.Hsm.{fill, pad_digest}

length-fill : (n : ℕ) → length (fill n) ≡ n
unfolding fill
length-fill zero = refl
length-fill (suc n) = ap suc (length-fill n)

-- Where the modulus has room for the digest and three more bytes, the block that is signed with RSA has
-- exactly as many bytes as the modulus: no pad is cut off.
pub length-pad_digest :
    (bits : ℕ) (oid_digest : Bytes)
    → length oid_digest + 3 ≤ bits / 8
    → length (pad_digest bits oid_digest) ≡ bits / 8
unfolding pad_digest
length-pad_digest bits oid_digest h = omega (
  arith,
  length-append (fill (bits / 8 - length oid_digest - 3)) (0x0 ∷ oid_digest),
  length-fill (bits / 8 - length oid_digest - 3),
)
