-- ===== src/Config.antt =====
-- The configuration records of src/kskm/common/config_misc.py.
use sam_ken_x_dnssec_keytool.Prelude.{
  ℕ, Bool, true, false, String, List, [], ◌∷◌, Option, some, ◌*◌,
}
use sam_ken_x_dnssec_keytool.Prelude.Int.{ℤ, pos}
use sam_ken_x_dnssec_keytool.Prelude.Dict.{Dict}
use sam_ken_x_dnssec_keytool.Data.{Bytes, Datetime, Timedelta, SignaturePolicy}
use sam_ken_x_dnssec_keytool.Data.Algorithm.{AlgorithmDnssec}

-- `None` for the number of bundles or of keys switches its check off.
pub record RequestPolicy : Type 0 where
  pub acceptable_domains : List String
  pub num_bundles : Option ℕ
  pub validate_signatures : Bool
  pub keys_match_zsk_policy : Bool
  pub rsa_exponent_match_zsk_policy : Bool
  pub enable_unsupported_ecdsa : Bool
  pub check_cycle_length : Bool
  pub min_cycle_inception_length : Timedelta
  pub max_cycle_inception_length : Timedelta
  pub min_bundle_interval : Timedelta
  pub max_bundle_interval : Timedelta
  pub check_bundle_overlap : Bool
  pub signature_algorithms_match_zsk_policy : Bool
  pub approved_algorithms : List String
  pub rsa_approved_exponents : List ℕ
  pub rsa_approved_key_sizes : List ℕ
  pub signature_validity_match_zsk_policy : Bool
  pub check_keys_match_ksk_operator_policy : Bool
  pub num_keys_per_bundle : List ℕ
  pub num_different_keys_in_all_bundles : Option ℕ
  pub dns_ttl : ℕ
  pub signature_check_expire_horizon : Bool
  pub signature_horizon_days : ℤ
  pub check_bundle_intervals : Bool
  pub check_chain_keys : Bool
  pub check_chain_keys_in_hsm : Bool
  pub check_chain_overlap : Bool
  pub check_keys_publish_safety : Bool
  pub check_keys_retire_safety : Bool

pub record ResponsePolicy : Type 0 where
  pub num_bundles : Option ℕ
  pub validate_signatures : Bool

pub record SchemaAction : Type 0 where
  pub publish : List String
  pub sign : List String
  pub revoke : List String

pub record Schema : Type 0 where
  pub name : String
  pub actions : Dict ℕ SchemaAction

pub record KskPolicy : Type 0 where
  pub signature_policy : SignaturePolicy
  pub ttl : ℕ
  pub signers_name : String

pub record KskKey : Type 0 where
  pub description : String
  pub label : String
  pub key_tag : Option ℕ
  pub algorithm : AlgorithmDnssec
  pub valid_from : Datetime
  pub valid_until : Option Datetime
  pub rsa_size : Option ℕ
  pub rsa_exponent : Option ℕ
  pub ds_sha256 : Option Bytes

-- a number of days, in microseconds
abbrev pub days : ℕ → Timedelta
days n = pos (n * 86_400_000_000)

-- `RequestPolicy()`: the defaults
unfoldable pub default_request_policy : RequestPolicy
default_request_policy = record {
  acceptable_domains = "." ∷ [];
  num_bundles = some 9;
  validate_signatures = true;
  keys_match_zsk_policy = true;
  rsa_exponent_match_zsk_policy = true;
  enable_unsupported_ecdsa = false;
  check_cycle_length = true;
  min_cycle_inception_length = days 79;
  max_cycle_inception_length = days 81;
  min_bundle_interval = days 9;
  max_bundle_interval = days 11;
  check_bundle_overlap = true;
  signature_algorithms_match_zsk_policy = true;
  approved_algorithms = "RSASHA256" ∷ [];
  rsa_approved_exponents = 65537 ∷ [];
  rsa_approved_key_sizes = 2048 ∷ [];
  signature_validity_match_zsk_policy = true;
  check_keys_match_ksk_operator_policy = true;
  num_keys_per_bundle = 2 ∷ 1 ∷ 1 ∷ 1 ∷ 1 ∷ 1 ∷ 1 ∷ 1 ∷ 2 ∷ [];
  num_different_keys_in_all_bundles = some 3;
  dns_ttl = 0;
  signature_check_expire_horizon = true;
  signature_horizon_days = pos 180;
  check_bundle_intervals = true;
  check_chain_keys = true;
  check_chain_keys_in_hsm = true;
  check_chain_overlap = true;
  check_keys_publish_safety = true;
  check_keys_retire_safety = true;
}

unfoldable pub default_response_policy : ResponsePolicy
default_response_policy = record { num_bundles = some 9; validate_signatures = true }
