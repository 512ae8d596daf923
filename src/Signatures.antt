-- ===== src/Signatures.antt =====
-- src/kskm/common/signature.py: `validate_signatures`.
pub mod Accepted
use sam_ken_x_dnssec_keytool.Prelude.{
  String, Option, none, some, List, [], ◌∷◌, is_empty, Bool, true, if◌then◌else◌,
}
use sam_ken_x_dnssec_keytool.Prelude.Equal.{option_eq, string_eq}
use sam_ken_x_dnssec_keytool.Prelude.Dict.{Dict, get}
use sam_ken_x_dnssec_keytool.Outcome.{
  Result, ok, raise, ◌>>=◌, ◌>>◌, Checked, refuse, require, value_error, for_each,
}
use sam_ken_x_dnssec_keytool.Outcome.Index.{index_from}
use sam_ken_x_dnssec_keytool.Codec.Base64.{b64decode}
use sam_ken_x_dnssec_keytool.Data.{Bundle, Key, Set, Signature}
use sam_ken_x_dnssec_keytool.Crypto.{Cryptography, key_to_crypto_pubkey, verify_signature}
use sam_ken_x_dnssec_keytool.Rrsig.{make_raw_rrsig}

module _ (c : Cryptography) where
  -- the body of the loop, once the key of the signature is found
  verify_with : Set Key → Signature → Key → Checked
  verify_with keys sig key = do
    pubkey ← key_to_crypto_pubkey c key
    sig_decoded ← b64decode sig.signature_data
    rrsig_raw ← make_raw_rrsig sig keys
    verify_signature c pubkey sig_decoded rrsig_raw key.algorithm

  -- The `except` clause logs and raises the same exception again.
  verify_one : Set Key → Dict (Option String) Key → Signature → Checked
  unfolding verify_with
  verify_one keys by_id sig = do
    key ← require (get by_id sig.key_identifier) value_error
    verify_with keys sig key

  -- validate_signatures: `true`, or an exception
  unfoldable pub validate_signatures : Bundle → Result Bool
  unfolding verify_one
  validate_signatures bundle = do
    refuse (is_empty bundle.keys) value_error
    refuse (is_empty bundle.signatures) value_error
    by_id ← index_from (λ (key : Key). key.key_identifier) value_error [] bundle.keys
    for_each (verify_one bundle.keys by_id) bundle.signatures
    ok true
