-- ===== src/Data.antt =====
-- The data classes of src/kskm/common/data.py, ksr/data.py and skr/data.py.
--
-- A `datetime` is the number of microseconds since 1970-01-01T00:00:00 UTC, a `timedelta` a number
-- of microseconds. A `Set` is the list of its elements, each once, in the order in which the
-- interpreter iterates over it. Texts and bytes that the source walks are lists of numbers.
pub mod Algorithm
pub mod Flags
pub mod Equality
use sam_ken_x_dnssec_keytool.Prelude.{ℕ, String, List, Option}
use sam_ken_x_dnssec_keytool.Prelude.Int.{ℤ}
use Algorithm.{AlgorithmDnssec}

abbrev pub Bytes : Type 0
Bytes = List ℕ

abbrev pub Datetime : Type 0
Datetime = ℤ

abbrev pub Timedelta : Type 0
Timedelta = ℤ

abbrev pub Set : Type 0 → Type 0
Set A = List A

-- DNS RR type
pub data TypeDnssec : Type 0 where
  dnskey : TypeDnssec

abbrev pub type_value : TypeDnssec → ℕ
type_value dnskey = 48

-- AlgorithmPolicy and its subclasses
pub data AlgorithmPolicy : Type 0 where
  rsa : (bits : ℕ) (algorithm : AlgorithmDnssec) (exponent : ℕ) → AlgorithmPolicy
  ecdsa dsa : (bits : ℕ) (algorithm : AlgorithmDnssec) → AlgorithmPolicy

abbrev pub policy_algorithm : AlgorithmPolicy → AlgorithmDnssec
policy_algorithm (rsa bits algorithm exponent) = algorithm
policy_algorithm (ecdsa bits algorithm) = algorithm
policy_algorithm (dsa bits algorithm) = algorithm

pub record SignaturePolicy : Type 0 where
  pub publish_safety : Timedelta
  pub retire_safety : Timedelta
  pub max_signature_validity : Timedelta
  pub min_signature_validity : Timedelta
  pub max_validity_overlap : Timedelta
  pub min_validity_overlap : Timedelta
  pub algorithms : Set AlgorithmPolicy

pub record Signer : Type 0 where
  pub key_identifier : Option String

-- The identifier is `None` where the XML element has no `keyIdentifier`.
pub record Signature : Type 0 where
  pub key_identifier : Option String
  pub ttl : ℕ
  pub type_covered : TypeDnssec
  pub algorithm : AlgorithmDnssec
  pub labels : ℕ
  pub original_ttl : ℕ
  pub signature_expiration : Datetime
  pub signature_inception : Datetime
  pub key_tag : ℕ
  pub signers_name : String
  pub signature_data : Bytes

pub record Key : Type 0 where
  pub key_identifier : Option String
  pub key_tag : ℕ
  pub ttl : ℕ
  pub flags : ℕ
  pub protocol : ℕ
  pub algorithm : AlgorithmDnssec
  pub public_key : Bytes

-- `ResponseBundle` adds nothing to `Bundle`.
pub record Bundle : Type 0 where
  pub id : String
  pub inception : Datetime
  pub expiration : Datetime
  pub keys : Set Key
  pub signatures : Set Signature

pub record RequestBundle : Type 0 where
  pub bundle : Bundle
  pub open bundle use *
  pub signers : Option (Set Signer)

-- The fields of `KSR` and `Request`, less the file's name and hash, which are only logged.
pub record Request : Type 0 where
  pub id : String
  pub serial : ℕ
  pub domain : String
  pub timestamp : Option Datetime
  pub zsk_policy : SignaturePolicy
  pub bundles : List RequestBundle

pub record Response : Type 0 where
  pub id : String
  pub serial : ℕ
  pub domain : String
  pub timestamp : Option Datetime
  pub zsk_policy : SignaturePolicy
  pub ksk_policy : SignaturePolicy
  pub bundles : List Bundle
