-- ===== src/Signatures/Accepted.antt =====
-- Exactly which bundles `validate_signatures` accepts.
use sam_ken_x_dnssec_keytool.Prelude.{
  String, Option, [], is_empty, true, false, ◌≡◌, ◌≢◌, ◌↔◌, All, Any, All-iff, refl, iff_trans, ◌∙◌,
  subst, ap, is_empty_iff,
}
use sam_ken_x_dnssec_keytool.Prelude.Equal.{option_eq, string_eq}
use sam_ken_x_dnssec_keytool.Prelude.Dict.{
  Dict, get, DistinctBy, entries, get-entries, get-entries_of,
}
use sam_ken_x_dnssec_keytool.Outcome.{
  ok, ◌>>=◌, ◌>>◌, Passes, refuse, require, value_error, for_each, for_each-Passes, >>=-eq-ok,
  require-eq-ok, refuse-Passes,
}
use sam_ken_x_dnssec_keytool.Outcome.Index.{index_from, index_iff}
use sam_ken_x_dnssec_keytool.Codec.Base64.{b64decode}
use sam_ken_x_dnssec_keytool.Data.{Bundle, Key, Set, Bytes, Signature}
use sam_ken_x_dnssec_keytool.Crypto.{Cryptography, key_to_crypto_pubkey, verify_signature}
use sam_ken_x_dnssec_keytool.Rrsig.{make_raw_rrsig}
use sam_ken_x_dnssec_keytool.Signatures.{validate_signatures, verify_one, verify_with}

abbrev pub identifier : Key → Option String
identifier key = key.key_identifier

-- `key` is in the set, under the identifier that the signature names.
abbrev pub IsKeyOf : Set Key → Signature → Key → Type 0
IsKeyOf keys sig key = Any (λ k. (k ≡ key) × (key.key_identifier ≡ sig.key_identifier)) keys

module _ (c : Cryptography) where
  -- The signature is a valid one of the whole key set by `key`: the key can be loaded, both can be
  -- put into wire form, and the cryptographic library accepts it.
  pub record IsSignedBy (keys : Set Key) (sig : Signature) (key : Key) : Type 0 where
    pub pubkey : c.CryptoPubKey
    pub loaded : key_to_crypto_pubkey c key ≡ ok pubkey
    pub sig_decoded : Bytes
    pub decoded : b64decode sig.signature_data ≡ ok sig_decoded
    pub raw : Bytes
    pub packed : make_raw_rrsig sig keys ≡ ok raw
    pub verified : Passes (verify_signature c pubkey sig_decoded raw key.algorithm)

  verify_with_iff :
      (keys : Set Key) (sig : Signature) (key : Key)
      → Passes (verify_with c keys sig key) ↔ IsSignedBy keys sig key
  unfolding verify_with
  verify_with_iff keys sig key = (
    λ h.
        let (p, ep, h1) = >>=-eq-ok (key_to_crypto_pubkey c key) _ h in
        let (s, es, h2) = >>=-eq-ok (b64decode sig.signature_data) _ h1 in
        let (r, er, h3) = >>=-eq-ok (make_raw_rrsig sig keys) _ h2 in
        record {
          pubkey = p;
          loaded = ep;
          sig_decoded = s;
          decoded = es;
          raw = r;
          packed = er;
          verified = h3;
        },
    λ s. rw (s.loaded, s.decoded, s.packed) s.verified,
  )

  -- A bundle whose signatures are all valid: there are keys and signatures, no two keys have the same
  -- identifier, and every signature is one of the whole key set by a key of the set.
  pub record IsSigned (bundle : Bundle) : Type 0 where
    pub has_keys : bundle.keys ≢ []
    pub has_signatures : bundle.signatures ≢ []
    pub distinct : DistinctBy identifier bundle.keys
    pub signed :
        All
          (λ sig. (key : Key) × IsKeyOf bundle.keys sig key × IsSignedBy bundle.keys sig key)
          bundle.signatures

  verify_one_iff :
      (keys : Set Key) (sig : Signature)
      → DistinctBy identifier keys
      → Passes (verify_one c keys (entries identifier keys) sig)
        ↔ ((key : Key) × IsKeyOf keys sig key × IsSignedBy keys sig key)
  unfolding verify_one
  verify_one_iff keys sig distinct = (
    λ h.
        let (key, ek, h1) =
          >>=-eq-ok (require (get (entries identifier keys) sig.key_identifier) value_error) _ h in
        (
          key,
          get-entries identifier sig.key_identifier key keys (require-eq-ok _ _ ek),
          (verify_with_iff keys sig key).0 h1,
        ),
    λ (key, found, signed).
        ap (λ o. require o value_error >>= verify_with c keys sig)
          (get-entries_of identifier sig.key_identifier key keys distinct found)
        ∙ (verify_with_iff keys sig key).1 signed,
  )

  All-signed :
      (keys : Set Key) (sigs : Set Signature)
      → DistinctBy identifier keys
      → Passes (for_each (verify_one c keys (entries identifier keys)) sigs)
        ↔ All (λ sig. (key : Key) × IsKeyOf keys sig key × IsSignedBy keys sig key) sigs
  All-signed keys sigs distinct =
      iff_trans (for_each-Passes _ sigs) (All-iff sigs (λ sig. verify_one_iff keys sig distinct))

  accept :
      (bundle : Bundle) {by_id : Dict (Option String) Key}
      → is_empty bundle.keys ≡ false
      → is_empty bundle.signatures ≡ false
      → index_from identifier value_error [] bundle.keys ≡ ok by_id
      → Passes (for_each (verify_one c bundle.keys by_id) bundle.signatures)
      → validate_signatures c bundle ≡ ok true
  unfolding validate_signatures
  accept bundle e0 e1 ei el =
      rw (e0, e1)
        (ap
            (λ r.
              r >>= λ by_id. for_each (verify_one c bundle.keys by_id) bundle.signatures >> ok true)
            ei
          ∙ ap (λ r. r >> ok true) el)

  -- `validate_signatures` accepts exactly the bundles whose signatures are all valid.
  pub validate_signatures_iff :
      (bundle : Bundle) → (validate_signatures c bundle ≡ ok true) ↔ IsSigned bundle
  unfolding validate_signatures
  validate_signatures_iff bundle = (
    λ h.
        let (_, e0, h1) = >>=-eq-ok (refuse (is_empty bundle.keys) value_error) _ h in
        let (_, e1, h2) = >>=-eq-ok (refuse (is_empty bundle.signatures) value_error) _ h1 in
        let (by_id, ei, h3) = >>=-eq-ok (index_from identifier value_error [] bundle.keys) _ h2 in
        let (distinct, ed) = (index_iff identifier value_error bundle.keys by_id).0 ei in
        let (_, el, _) =
          >>=-eq-ok (for_each (verify_one c bundle.keys by_id) bundle.signatures) _ h3 in
        record {
          has_keys = (is_empty_iff bundle.keys).0 ((refuse-Passes _ _).0 e0);
          has_signatures = (is_empty_iff bundle.signatures).0 ((refuse-Passes _ _).0 e1);
          distinct = distinct;
          signed =
              (All-signed bundle.keys bundle.signatures distinct).0 (
                subst (λ d. Passes (for_each (verify_one c bundle.keys d) bundle.signatures)) ed
                  el);
        },
    λ s.
        let e0 = (is_empty_iff bundle.keys).1 s.has_keys in
        let e1 = (is_empty_iff bundle.signatures).1 s.has_signatures in
        let ei = (index_iff identifier value_error bundle.keys _).1 (s.distinct, refl) in
        let el = (All-signed bundle.keys bundle.signatures s.distinct).1 s.signed in
        accept bundle e0 e1 ei el,
  )
