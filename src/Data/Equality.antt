-- ===== src/Data/Equality.antt =====
-- `==` on keys and algorithm policies: a frozen data class compares all of its fields.
use sam_ken_x_dnssec_keytool.Prelude.{◌≡◌, ◌↔◌, refl, Bool, true, false, ◌&&◌, arith}
use sam_ken_x_dnssec_keytool.Prelude.Equal.{
  Eq, ◌==◌, nat_eq, int_eq, list_eq, option_eq, string_eq, ==_iff,
}
use sam_ken_x_dnssec_keytool.Data.{Key, Signature, TypeDnssec, dnskey, AlgorithmPolicy}
use sam_ken_x_dnssec_keytool.Data.Algorithm.{algorithm_eq, algorithm_eqb_iff}

-- The fields are compared in turn.
unfoldable pub key_beq : Key → Key → Bool
key_beq a b =
    a.key_identifier == b.key_identifier
    && (a.key_tag == b.key_tag
        && (a.ttl == b.ttl
            && (a.flags == b.flags
                && (a.protocol == b.protocol
                    && (a.algorithm == b.algorithm && a.public_key == b.public_key)))))

pub key_beq_iff : (a b : Key) → (key_beq a b ≡ true) ↔ (a ≡ b)
unfolding key_beq
key_beq_iff a b = ground (
  arith,
  ==_iff a.key_identifier b.key_identifier,
  algorithm_eqb_iff a.algorithm b.algorithm,
  ==_iff a.public_key b.public_key,
)

instance abbrev pub key_eq : Eq Key
key_eq = record { beq = key_beq; beq_iff = key_beq_iff }

type_beq : TypeDnssec → TypeDnssec → Bool
type_beq dnskey dnskey = true

type_beq_iff : (a b : TypeDnssec) → (type_beq a b ≡ true) ↔ (a ≡ b)
unfolding type_beq
type_beq_iff dnskey dnskey = (λ _. refl, λ _. refl)

unfoldable pub signature_beq : Signature → Signature → Bool
unfolding type_beq
signature_beq a b =
    a.key_identifier == b.key_identifier
    && (a.ttl == b.ttl
        && (type_beq a.type_covered b.type_covered
            && (a.algorithm == b.algorithm
                && (a.labels == b.labels
                    && (a.original_ttl == b.original_ttl
                        && (a.signature_expiration == b.signature_expiration
                            && (a.signature_inception == b.signature_inception
                                && (a.key_tag == b.key_tag
                                    && (a.signers_name == b.signers_name
                                        && a.signature_data == b.signature_data)))))))))

pub signature_beq_iff : (a b : Signature) → (signature_beq a b ≡ true) ↔ (a ≡ b)
unfolding signature_beq
signature_beq_iff a b = ground (
  arith,
  ==_iff a.key_identifier b.key_identifier,
  type_beq_iff a.type_covered b.type_covered,
  algorithm_eqb_iff a.algorithm b.algorithm,
  ==_iff a.signature_expiration b.signature_expiration,
  ==_iff a.signature_inception b.signature_inception,
  ==_iff a.signers_name b.signers_name,
  ==_iff a.signature_data b.signature_data,
)

instance abbrev pub signature_eq : Eq Signature
signature_eq = record { beq = signature_beq; beq_iff = signature_beq_iff }

abbrev pub policy_beq : AlgorithmPolicy → AlgorithmPolicy → Bool
policy_beq (AlgorithmPolicy.rsa bits alg exponent) (AlgorithmPolicy.rsa bits' alg' exponent') =
    bits == bits' && (alg == alg' && exponent == exponent')
policy_beq (AlgorithmPolicy.ecdsa bits alg) (AlgorithmPolicy.ecdsa bits' alg') =
    bits == bits' && alg == alg'
policy_beq (AlgorithmPolicy.dsa bits alg) (AlgorithmPolicy.dsa bits' alg') =
    bits == bits' && alg == alg'
policy_beq _ _ = false

pub policy_beq_iff : (a b : AlgorithmPolicy) → (policy_beq a b ≡ true) ↔ (a ≡ b)
policy_beq_iff (AlgorithmPolicy.rsa bits alg exponent) (AlgorithmPolicy.rsa bits' alg' exponent') =
    ground (arith, algorithm_eqb_iff alg alg')
policy_beq_iff (AlgorithmPolicy.ecdsa bits alg) (AlgorithmPolicy.ecdsa bits' alg') =
    ground (arith, algorithm_eqb_iff alg alg')
policy_beq_iff (AlgorithmPolicy.dsa bits alg) (AlgorithmPolicy.dsa bits' alg') =
    ground (arith, algorithm_eqb_iff alg alg')
policy_beq_iff (AlgorithmPolicy.rsa bits alg exponent) (AlgorithmPolicy.ecdsa bits' alg') =
    ground arith
policy_beq_iff (AlgorithmPolicy.rsa bits alg exponent) (AlgorithmPolicy.dsa bits' alg') =
    ground arith
policy_beq_iff (AlgorithmPolicy.ecdsa bits alg) (AlgorithmPolicy.rsa bits' alg' exponent') =
    ground arith
policy_beq_iff (AlgorithmPolicy.ecdsa bits alg) (AlgorithmPolicy.dsa bits' alg') = ground arith
policy_beq_iff (AlgorithmPolicy.dsa bits alg) (AlgorithmPolicy.rsa bits' alg' exponent') =
    ground arith
policy_beq_iff (AlgorithmPolicy.dsa bits alg) (AlgorithmPolicy.ecdsa bits' alg') = ground arith

-- Data classes of different types are not equal.
instance abbrev pub policy_eq : Eq AlgorithmPolicy
policy_eq = record { beq = policy_beq; beq_iff = policy_beq_iff }
