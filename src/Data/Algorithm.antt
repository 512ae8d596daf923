-- ===== src/Data/Algorithm.antt =====
-- AlgorithmDNSSEC of src/kskm/common/data.py, and the tests on algorithms of rsa_utils.py,
-- dsa_utils.py and ecdsa_utils.py.
use text.Mathlib.Text.{◌==◌ as str_eq}
use sam_ken_x_dnssec_keytool.Prelude.{
  ℕ, ◌≡◌, ◌↔◌, refl, Bool, true, String, List, [], ◌∷◌, nat_eqb, arith, if◌then◌else◌,
}
use sam_ken_x_dnssec_keytool.Prelude.Equal.{Eq, contains}
use sam_ken_x_dnssec_keytool.Outcome.{Result, ok, raise, value_error, key_error}

pub data AlgorithmDnssec : Type 0 where
  rsamd5 dsa rsasha1 dsa_nsec3_sha1 rsasha1_nsec3_sha1 rsasha256 rsasha512 : AlgorithmDnssec
  ecc_gost ecdsap256sha256 ecdsap384sha384 ed25519 ed448 : AlgorithmDnssec

-- `algorithm.value`
unfoldable pub algorithm_value : AlgorithmDnssec → ℕ
algorithm_value rsamd5 = 1
algorithm_value dsa = 3
algorithm_value rsasha1 = 5
algorithm_value dsa_nsec3_sha1 = 6
algorithm_value rsasha1_nsec3_sha1 = 7
algorithm_value rsasha256 = 8
algorithm_value rsasha512 = 10
algorithm_value ecc_gost = 12
algorithm_value ecdsap256sha256 = 13
algorithm_value ecdsap384sha384 = 14
algorithm_value ed25519 = 15
algorithm_value ed448 = 16

abbrev pub all_algorithms : List AlgorithmDnssec
all_algorithms =
    rsamd5 ∷ dsa ∷ rsasha1 ∷ dsa_nsec3_sha1 ∷ rsasha1_nsec3_sha1 ∷ rsasha256 ∷ rsasha512 ∷ ecc_gost
    ∷ ecdsap256sha256 ∷ ecdsap384sha384 ∷ ed25519 ∷ ed448 ∷ []

find_value : ℕ → List AlgorithmDnssec → Result AlgorithmDnssec
unfolding algorithm_value
find_value n [] = raise value_error
find_value n (a ∷ rest) = if nat_eqb n (algorithm_value a) then ok a else find_value n rest

-- `AlgorithmDNSSEC(n)`: an unknown number is a ValueError.
unfoldable pub algorithm_of_value : ℕ → Result AlgorithmDnssec
unfolding find_value
algorithm_of_value n = find_value n all_algorithms

-- `algorithm.name`
unfoldable pub algorithm_name : AlgorithmDnssec → String
algorithm_name rsamd5 = "RSAMD5"
algorithm_name dsa = "DSA"
algorithm_name rsasha1 = "RSASHA1"
algorithm_name dsa_nsec3_sha1 = "DSA_NSEC3_SHA1"
algorithm_name rsasha1_nsec3_sha1 = "RSASHA1_NSEC3_SHA1"
algorithm_name rsasha256 = "RSASHA256"
algorithm_name rsasha512 = "RSASHA512"
algorithm_name ecc_gost = "ECC_GOST"
algorithm_name ecdsap256sha256 = "ECDSAP256SHA256"
algorithm_name ecdsap384sha384 = "ECDSAP384SHA384"
algorithm_name ed25519 = "ED25519"
algorithm_name ed448 = "ED448"

find_name : String → List AlgorithmDnssec → Result AlgorithmDnssec
unfolding algorithm_name
find_name s [] = raise key_error
find_name s (a ∷ rest) = if str_eq s (algorithm_name a) then ok a else find_name s rest

-- `AlgorithmDNSSEC[s]`: an unknown name is a KeyError.
unfoldable pub algorithm_of_name : String → Result AlgorithmDnssec
unfolding find_name
algorithm_of_name s = find_name s all_algorithms

-- A member is found again by its number.
pub algorithm_of_value-value : (a : AlgorithmDnssec) → algorithm_of_value (algorithm_value a) ≡ ok a
unfolding algorithm_of_value
algorithm_of_value-value rsamd5 = refl
algorithm_of_value-value _ = refl

-- A member is found again by its name.
pub algorithm_of_name-name : (a : AlgorithmDnssec) → algorithm_of_name (algorithm_name a) ≡ ok a
unfolding algorithm_of_name
algorithm_of_name-name rsamd5 = refl
algorithm_of_name-name _ = refl

abbrev pub algorithm_eqb : AlgorithmDnssec → AlgorithmDnssec → Bool
unfolding algorithm_value
algorithm_eqb a b = nat_eqb (algorithm_value a) (algorithm_value b)

pub algorithm_eqb_iff : (a b : AlgorithmDnssec) → (algorithm_eqb a b ≡ true) ↔ (a ≡ b)
unfolding algorithm_eqb
algorithm_eqb_iff a b = ground (arith, algorithm_of_value-value a, algorithm_of_value-value b)

instance abbrev pub algorithm_eq : Eq AlgorithmDnssec
algorithm_eq = record { beq = algorithm_eqb; beq_iff = algorithm_eqb_iff }

abbrev pub deprecated_algorithms : List AlgorithmDnssec
deprecated_algorithms = rsamd5 ∷ dsa ∷ dsa_nsec3_sha1 ∷ ecc_gost ∷ []

abbrev pub supported_algorithms : List AlgorithmDnssec
supported_algorithms = rsasha256 ∷ rsasha512 ∷ ecdsap256sha256 ∷ ecdsap384sha384 ∷ []

unfoldable pub is_algorithm_rsa : AlgorithmDnssec → Bool
unfolding contains algorithm_value
is_algorithm_rsa a = contains (rsasha1 ∷ rsasha256 ∷ rsasha512 ∷ []) a

unfoldable pub is_algorithm_dsa : AlgorithmDnssec → Bool
unfolding algorithm_value
is_algorithm_dsa a = algorithm_eqb a dsa

unfoldable pub is_algorithm_ecdsa : AlgorithmDnssec → Bool
unfolding contains algorithm_value
is_algorithm_ecdsa a = contains (ecdsap256sha256 ∷ ecdsap384sha384 ∷ []) a
