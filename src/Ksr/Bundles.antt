-- ===== src/Ksr/Bundles.antt =====
-- src/kskm/ksr/verify_bundles.py
pub mod Keys
pub mod Ecdsa
pub mod NewKey
pub mod Possession
pub mod Accepted
use sam_ken_x_dnssec_keytool.Prelude.{
  ℕ, String, Option, none, some, List, [], ◌∷◌, length, head?, get_last?, is_empty, Bool, true,
  false, not, ◌&&◌, ◌||◌, if◌then◌else◌, nat_eqb,
}
use sam_ken_x_dnssec_keytool.Prelude.Int.{ℤ, ◌-ℤ◌, ltb_ℤ}
use sam_ken_x_dnssec_keytool.Prelude.Equal.{◌==◌, string_eq, option_eq, nat_eq}
use sam_ken_x_dnssec_keytool.Prelude.Dict.{Dict, get, set}
use sam_ken_x_dnssec_keytool.Outcome.{
  Result, ok, raise, ◌>>=◌, ◌>>◌, Checked, done, guard, refuse, require, for_each, fold_each,
  Exception, except_invalid_signature, value_error, index_error, ksr_bundle_keys_violation,
  ksr_bundle_pop_violation, ksr_bundle_unique_violation, ksr_bundle_count_violation,
  ksr_bundle_cycle_duration_violation,
}
use sam_ken_x_dnssec_keytool.Outcome.Index.{index_from}
use sam_ken_x_dnssec_keytool.Outcome.Limits.{hold_between}
use sam_ken_x_dnssec_keytool.Codec.Base64.{b64decode}
use sam_ken_x_dnssec_keytool.Data.{
  Request, RequestBundle, Key, Set, Signature, AlgorithmPolicy, rsa, ecdsa,
}
use sam_ken_x_dnssec_keytool.Data.Flags.{zone}
use sam_ken_x_dnssec_keytool.Data.Algorithm.{algorithm_eq, is_algorithm_rsa, is_algorithm_ecdsa}
use sam_ken_x_dnssec_keytool.Data.Equality.{key_eq}
use sam_ken_x_dnssec_keytool.PublicKey
use sam_ken_x_dnssec_keytool.PublicKey.{PublicKey}
use sam_ken_x_dnssec_keytool.PublicKey.Rsa.{decode_rsa_public_key}
use sam_ken_x_dnssec_keytool.PublicKey.Ecdsa.{
  ecdsa_public_key_without_prefix, get_ecdsa_pubkey_size,
}
use sam_ken_x_dnssec_keytool.Dnssec.{calculate_key_tag}
use sam_ken_x_dnssec_keytool.Config.{RequestPolicy}
use sam_ken_x_dnssec_keytool.Crypto.{Cryptography}
use sam_ken_x_dnssec_keytool.Signatures.{validate_signatures}

-- check_unique_ids; of the dictionary `seen` only the keys matter
unfoldable pub check_unique_ids : Request → Checked
check_unique_ids request = do
  seen ← index_from (λ (b : RequestBundle). b.id) ksr_bundle_unique_violation [] request.bundles
  done

-- the loop of _find_matching_zsk_policy_rsa_alg
find_rsa :
    Key
    → (bits exponent : ℕ) → (ignore_exponent : Bool) → List AlgorithmPolicy
    → Option AlgorithmPolicy
find_rsa key bits exponent ignore_exponent [] = none
find_rsa key bits exponent ignore_exponent (rsa b a e ∷ rest) =
    if key.algorithm == a && (nat_eqb bits b && nat_eqb exponent e)
    then some (rsa b a e)
    else if key.algorithm == a && (nat_eqb bits b && ignore_exponent)
    then some (rsa b a e)
    else find_rsa key bits exponent ignore_exponent rest
find_rsa key bits exponent ignore_exponent (_ ∷ rest) =
    find_rsa key bits exponent ignore_exponent rest

-- the loop of _find_matching_zsk_policy_ecdsa_alg
unfoldable pub find_ecdsa : Key → List AlgorithmPolicy → Result (Option AlgorithmPolicy)
find_ecdsa key [] = ok none
find_ecdsa key (ecdsa b a ∷ rest) = do
  let later = find_ecdsa key rest
  raw ← b64decode key.public_key
  pubkey ← ecdsa_public_key_without_prefix raw a
  if key.algorithm == a && nat_eqb (get_ecdsa_pubkey_size pubkey) b
      then ok (some (ecdsa b a))
      else later
find_ecdsa key (_ ∷ rest) = find_ecdsa key rest

-- The exponent may differ from the ZSK policy where the KSK operator's policy says so.
match_rsa : Request → RequestPolicy → Key → PublicKey → Option AlgorithmPolicy
unfolding find_rsa
match_rsa request policy key (PublicKey.rsa bits exponent n) =
    elim (find_rsa key bits exponent false request.zsk_policy.algorithms) [
      | some alg ↦ some alg
      | none ↦
          if policy.rsa_exponent_match_zsk_policy
          then none
          else find_rsa key bits exponent true request.zsk_policy.algorithms
    ]
match_rsa request policy key (PublicKey.ecdsa bits q curve) = none

-- A new key must match the ZSK operator's signature policy.
check_algorithm : Request → RequestPolicy → Key → Checked
unfolding match_rsa
check_algorithm request policy key =
    if is_algorithm_rsa key.algorithm
    then (do
      pubkey ← decode_rsa_public_key key.public_key
      matching ← require (match_rsa request policy key pubkey) ksr_bundle_keys_violation
      done)
    else if is_algorithm_ecdsa key.algorithm
    then (do
      found ← find_ecdsa key request.zsk_policy.algorithms
      matching ← require found ksr_bundle_keys_violation
      done)
    else raise value_error

-- the checks of a key that is seen for the first time
unfoldable pub check_new_key : Request → RequestPolicy → Key → Checked
unfolding check_algorithm
check_new_key request policy key = do
  check_algorithm request policy key
  guard (nat_eqb key.flags zone) ksr_bundle_keys_violation
  key_tag ← calculate_key_tag key
  guard (nat_eqb key_tag key.key_tag) ksr_bundle_keys_violation

-- the body of the loops, with the dictionary `seen`, which is local: that a refused key is entered
-- before it is refused shows nowhere
pub visit_key :
    Request → RequestPolicy → Dict (Option String) Key → Key → Result (Dict (Option String) Key)
visit_key request policy seen key = elim (get seen key.key_identifier) [
  | some before ↦ if key == before then ok seen else raise ksr_bundle_keys_violation
  | none ↦ check_new_key request policy key >> ok (set seen key.key_identifier key)
]

visit_bundle :
    Request
    → RequestPolicy
    → Dict (Option String) Key
    → RequestBundle
    → Result (Dict (Option String) Key)
unfolding visit_key check_new_key
visit_bundle request policy seen bundle = fold_each (visit_key request policy) seen bundle.keys

-- check_keys_match_zsk_policy
unfoldable pub check_keys_match_zsk_policy : Request → RequestPolicy → Checked
unfolding visit_bundle
check_keys_match_zsk_policy request policy =
    if not policy.keys_match_zsk_policy
    then done
    else (do seen ← fold_each (visit_bundle request policy) [] request.bundles; done)

-- Some signature of the bundle names the key.
key_is_used : Set Signature → Key → Bool
key_is_used [] key = false
key_is_used (x ∷ xs) key = x.key_identifier == key.key_identifier || key_is_used xs key

module _ (c : Cryptography) where
  check_bundle_possession : RequestBundle → Checked
  unfolding key_is_used
  check_bundle_possession bundle = do
    valid ← except_invalid_signature (validate_signatures c bundle.bundle) ksr_bundle_pop_violation
    guard valid ksr_bundle_pop_violation
    for_each (λ (key : Key). guard (key_is_used bundle.signatures key) ksr_bundle_pop_violation)
        bundle.keys

  -- check_proof_of_possession
  unfoldable pub check_proof_of_possession : Request → RequestPolicy → Checked
  unfolding check_bundle_possession
  check_proof_of_possession request policy =
      if not policy.validate_signatures
      then done
      else for_each check_bundle_possession request.bundles

-- check_bundle_count
unfoldable pub check_bundle_count : Request → RequestPolicy → Checked
check_bundle_count request policy = elim policy.num_bundles [
  | none ↦ done
  | some n ↦ guard (nat_eqb (length request.bundles) n) ksr_bundle_count_violation
]

check_cycle_length : RequestPolicy → List RequestBundle → Checked
check_cycle_length policy bundles = do
  last ← require (get_last? bundles) index_error
  first ← require (head? bundles) index_error
  hold_between policy.min_cycle_inception_length policy.max_cycle_inception_length
      (last.inception -ℤ first.inception) ksr_bundle_cycle_duration_violation

-- check_cycle_durations
unfoldable pub check_cycle_durations : Request → RequestPolicy → Checked
unfolding check_cycle_length
check_cycle_durations request policy =
    if not policy.check_cycle_length
    then done
    else if is_empty request.bundles
    then done
    else check_cycle_length policy request.bundles

-- verify_bundles
unfoldable pub verify_bundles : Cryptography → Request → RequestPolicy → Checked
unfolding check_unique_ids check_keys_match_zsk_policy check_proof_of_possession check_bundle_count
    check_cycle_durations
verify_bundles c request policy = do
  check_unique_ids request
  check_keys_match_zsk_policy request policy
  check_proof_of_possession c request policy
  check_bundle_count request policy
  check_cycle_durations request policy
