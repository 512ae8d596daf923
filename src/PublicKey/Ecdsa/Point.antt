-- ===== src/PublicKey/Ecdsa/Point.antt =====
-- The point of an ECDSA key, without the prefix of SEC 1 (common/ecdsa_utils.py).
use sam_ken_x_dnssec_keytool.Prelude.{
  ℕ, ◌*◌, refl, Bool-cases, [], ◌∷◌, length, ◌≡◌, ◌≢◌, ◌↔◌, ◌⊎◌, inl, inr, arith, nat_eqb,
}
use sam_ken_x_dnssec_keytool.Outcome.{ok, >>=-eq-ok}
use sam_ken_x_dnssec_keytool.Data.{Bytes}
use sam_ken_x_dnssec_keytool.Data.Algorithm.{AlgorithmDnssec, ecdsap256sha256, ecdsap384sha384}
use sam_ken_x_dnssec_keytool.PublicKey.Ecdsa.{
  ecdsa_public_key_without_prefix, get_ecdsa_pubkey_size, expected_ecdsa_key_size, drop_prefix,
}

-- the two algorithms, and the sizes of their curves in bits
abbrev pub HasCurve : AlgorithmDnssec → ℕ → Type 0
HasCurve a size = ((a ≡ ecdsap256sha256) × (size ≡ 256)) ⊎ ((a ≡ ecdsap384sha384) × (size ≡ 384))

-- The two coordinates, for a curve of this size: where the bytes are not twice the size of the curve,
-- a first byte 0x04 is not a part of them.
abbrev pub IsPoint : (size : ℕ) (raw point : Bytes) → Type 0
IsPoint size raw point =
    ((length raw * 4 ≡ size) × (point ≡ raw))
    ⊎ ((length raw * 4 ≢ size)
        × ((raw ≡ 4 ∷ point) ⊎ ((b : ℕ) × (q : Bytes) × (raw ≡ b ∷ q) × (b ≢ 4) × (point ≡ raw))))

expected-HasCurve :
    (a : AlgorithmDnssec) (size : ℕ) → (expected_ecdsa_key_size a ≡ ok size) ↔ HasCurve a size
unfolding expected_ecdsa_key_size
expected-HasCurve ecdsap256sha256 size = ground arith
expected-HasCurve ecdsap384sha384 size = ground arith
expected-HasCurve _ size = ground arith

drop_prefix_iff :
    (raw point : Bytes)
    → (drop_prefix raw ≡ ok point)
      ↔ ((raw ≡ 4 ∷ point) ⊎ ((b : ℕ) × (q : Bytes) × (raw ≡ b ∷ q) × (b ≢ 4) × (point ≡ raw)))
unfolding drop_prefix
drop_prefix_iff [] point = ground arith
drop_prefix_iff (b ∷ bs) point = ground arith

pub without_prefix-IsPoint :
    (raw point : Bytes) (a : AlgorithmDnssec) (size : ℕ)
    → HasCurve a size
    → (ecdsa_public_key_without_prefix raw a ≡ ok point) ↔ IsPoint size raw point
unfolding ecdsa_public_key_without_prefix get_ecdsa_pubkey_size
without_prefix-IsPoint raw point a size curve =
    let expected = (expected-HasCurve a size).1 curve in
    let dropped = drop_prefix_iff raw point in rw expected (ground arith)

pub IsPoint-not_empty :
    (size : ℕ) (raw point : Bytes) (a : AlgorithmDnssec)
    → HasCurve a size
    → IsPoint size raw point
    → raw ≢ []
IsPoint-not_empty size [] point a curve h = absurd (ground arith)
IsPoint-not_empty size (b ∷ bs) point a curve h = λ e. absurd (cc)

-- Every key that is not empty has a point.
pub not_empty-IsPoint :
    (size : ℕ) (raw : Bytes) → raw ≢ [] → (point : Bytes) × IsPoint size raw point
not_empty-IsPoint size [] some_bytes = absurd (some_bytes refl)
not_empty-IsPoint size (b ∷ bs) some_bytes =
    elim (Bool-cases (nat_eqb (length (b ∷ bs) * 4) size)) [
      | inl e ↦ (b ∷ bs, inl (ground arith, refl))
      | inr e ↦ elim (Bool-cases (nat_eqb b 4)) [
        | inl four ↦ (bs, inr (ground arith, inl (ground arith)))
        | inr other ↦ (b ∷ bs, inr (ground arith, inr (b, bs, refl, ground arith, refl)))
      ]
    ]

pub without_prefix-HasCurve :
    (raw point : Bytes) (a : AlgorithmDnssec)
    → ecdsa_public_key_without_prefix raw a ≡ ok point
    → (size : ℕ) × HasCurve a size × IsPoint size raw point
unfolding ecdsa_public_key_without_prefix
without_prefix-HasCurve raw point a h =
    let (size, e, _) = >>=-eq-ok (expected_ecdsa_key_size a) _ h in
    let curve = (expected-HasCurve a size).0 e in
    (size, curve, (without_prefix-IsPoint raw point a size curve).0 h)
