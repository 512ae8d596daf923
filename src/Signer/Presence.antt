-- ===== src/Signer/Presence.antt =====
-- check_last_skr_key_present of src/kskm/signer/verify_chain.py and check_skr_and_ksr of
-- src/kskm/signer/policy.py.
use sam_ken_x_dnssec_keytool.Prelude.{
  some, ◌≡◌, ◌≢◌, ◌↔◌, ◌⊎◌, inl, inr, refl, sym, subst, true, List, [], ◌∷◌, get_last?, is_empty,
  is_empty_iff, All, All-iff, iff_trans, ×_iff, if◌then◌else◌,
}
use sam_ken_x_dnssec_keytool.Prelude.Equal.{◌==◌, ==_iff, string_eq, option_eq, list_eq, nat_eq}
use sam_ken_x_dnssec_keytool.Outcome.{
  ok, ◌>>=◌, ◌>>◌, Checked, Passes, done, guard, refuse, require, for_each, >>=-eq-ok,
  require-Passes, >>-Passes, for_each-Passes, guard-Passes, refuse-Passes, index_error,
  runtime_error, ksr_chain_keys_violation,
}
use sam_ken_x_dnssec_keytool.Outcome.Switch.{IfOn, unless_disabled, unless_disabled_iff}
use sam_ken_x_dnssec_keytool.Data.{Key, Signature, Bundle, Request, Response}
use sam_ken_x_dnssec_keytool.Data.Flags.{ksk_flags}
use sam_ken_x_dnssec_keytool.PublicKey.{PublicKey}
use sam_ken_x_dnssec_keytool.Dnssec.{public_key_to_dnssec_key}
use sam_ken_x_dnssec_keytool.Config.{RequestPolicy}
use sam_ken_x_dnssec_keytool.Hsm.{Pkcs11, get_p11_key}
use sam_ken_x_dnssec_keytool.Signer.FirstKey.{first_key_of, IsFirstOf, first_key_of_iff}
use sam_ken_x_dnssec_keytool.Hsm.Search.{IsFirstPublic, all_sessions, get_p11_key_iff}
use sam_ken_x_dnssec_keytool.Dnssec.Construction.{IsFormOf, public_key_to_dnssec_key-IsDnssecKey}
use sam_ken_x_dnssec_keytool.Signer.Chain.{check_chain, check_unique_ids}

module _ (p : Pkcs11) (p11modules : List (List p.Session)) where
  -- the body of the loop
  check_in_hsm : Bundle → Signature → Checked
  check_in_hsm last_bundle sig = do
    found ← get_p11_key p sig.key_identifier p11modules true
    p11key ← require found ksr_chain_keys_violation
    pubkey ← require p11key.public_key runtime_error
    hsmkey ← public_key_to_dnssec_key pubkey sig.key_identifier sig.algorithm sig.ttl ksk_flags
    key ← require (first_key_of last_bundle.keys sig) index_error
    guard (key.public_key == hsmkey.public_key) ksr_chain_keys_violation

  check_last_bundle : Response → Checked
  unfolding check_in_hsm
  check_last_bundle skr = do
    last_bundle ← require (get_last? skr.bundles) index_error
    for_each (check_in_hsm last_bundle) last_bundle.signatures
    refuse (is_empty last_bundle.signatures) ksr_chain_keys_violation

  -- check_last_skr_key_present: without modules there is nothing to check
  unfoldable pub check_last_skr_key_present : Response → RequestPolicy → Checked
  unfolding check_last_bundle
  check_last_skr_key_present skr policy =
      if is_empty p11modules
      then done
      else unless_disabled policy.check_chain_keys_in_hsm (check_last_bundle skr)

  -- check_skr_and_ksr
  unfoldable pub check_skr_and_ksr : Request → Response → RequestPolicy → Checked
  unfolding check_last_skr_key_present
  check_skr_and_ksr ksr last_skr policy = do
    check_unique_ids ksr last_skr
    check_chain ksr last_skr policy
    check_last_skr_key_present last_skr policy

  -- The first public key that the sessions have under the signature's identifier is, in the form of the
  -- DNS, the key that the bundle publishes first under that identifier.
  pub record IsInHsm (last_bundle : Bundle) (sig : Signature) : Type 0 where
    pub pubkey : PublicKey
    pub held : IsFirstPublic p sig.key_identifier (all_sessions p11modules) pubkey
    pub hsmkey : Key
    pub converted :
        public_key_to_dnssec_key pubkey sig.key_identifier sig.algorithm sig.ttl ksk_flags
        ≡ ok hsmkey
    pub key : Key
    pub published : IsFirstOf sig last_bundle.keys key
    pub same : key.public_key ≡ hsmkey.public_key
    pub form : IsFormOf pubkey sig.algorithm key.public_key

  check_in_hsm_iff :
      (last_bundle : Bundle) (sig : Signature)
      → Passes (check_in_hsm last_bundle sig) ↔ IsInHsm last_bundle sig
  unfolding check_in_hsm
  check_in_hsm_iff last_bundle sig = (
    λ h.
        let (found, e0, h0) = >>=-eq-ok (get_p11_key p sig.key_identifier p11modules true) _ h in
        let (p11key, e1, h1) = (require-Passes found ksr_chain_keys_violation _).0 h0 in
        let (pubkey, e2, h2) = (require-Passes p11key.public_key runtime_error _).0 h1 in
        let (hsmkey, e3, h3) =
          >>=-eq-ok
            (public_key_to_dnssec_key pubkey sig.key_identifier sig.algorithm sig.ttl ksk_flags) _
            h2 in
        let (key, e4, h4) =
          (require-Passes (first_key_of last_bundle.keys sig) index_error _).0 h3 in
        let same = (==_iff key.public_key hsmkey.public_key).0 ((guard-Passes _ _).0 h4) in
        let made =
          public_key_to_dnssec_key-IsDnssecKey pubkey sig.key_identifier sig.algorithm sig.ttl
            ksk_flags hsmkey e3 in
        record {
          pubkey = pubkey;
          held = (get_p11_key_iff p sig.key_identifier p11modules pubkey).0 (p11key, cc, e2);
          hsmkey = hsmkey;
          converted = e3;
          key = key;
          published = (first_key_of_iff sig last_bundle.keys key).0 e4;
          same = same;
          form = subst (IsFormOf pubkey sig.algorithm) (sym same) made.has_public_key;
        },
    λ s.
        let (p11key, found, loaded) =
          (get_p11_key_iff p sig.key_identifier p11modules s.pubkey).1 s.held in
        rw (found, loaded, s.converted, (first_key_of_iff sig last_bundle.keys s.key).1 s.published)
          ((guard-Passes _ ksr_chain_keys_violation).1
            ((==_iff s.key.public_key s.hsmkey.public_key).1 s.same)),
  )

  -- The keys that signed the last bundle, of which there is one at least, are all in the HSM.
  abbrev pub IsSignedInHsm : Response → Type 0
  IsSignedInHsm skr =
      (last : Bundle) × (get_last? skr.bundles ≡ some last)
      × (All (IsInHsm last) last.signatures × (last.signatures ≢ []))

  check_last_bundle_iff : (skr : Response) → Passes (check_last_bundle skr) ↔ IsSignedInHsm skr
  unfolding check_last_bundle
  check_last_bundle_iff skr =
      let body : (last : Bundle)
          → Passes (
              for_each (check_in_hsm last) last.signatures
              >> refuse (is_empty last.signatures) ksr_chain_keys_violation)
            ↔ (All (IsInHsm last) last.signatures × (last.signatures ≢ [])) =
        λ last. iff_trans (>>-Passes _ _) (
          ×_iff
            (iff_trans (for_each-Passes _ last.signatures)
              (All-iff last.signatures (check_in_hsm_iff last)))
            (iff_trans (refuse-Passes _ _) (is_empty_iff last.signatures))) in
      let last_is = require-Passes (get_last? skr.bundles) index_error _ in
      (
        λ h. let (last, e, h1) = last_is.0 h in (last, e, (body last).0 h1),
        λ (last, e, s). last_is.1 (last, e, (body last).1 s),
      )

  -- The check passes exactly when there are no modules, or it is switched off, or the last response has a
  -- last bundle with signatures, and every key that made one is in the HSM: of the public keys that the
  -- sessions of the modules have under its identifier, the first is, in the form of the DNS, the key that
  -- the bundle publishes first under that identifier.
  pub check_last_skr_key_present_iff :
      (skr : Response) (policy : RequestPolicy)
      → Passes (check_last_skr_key_present skr policy)
        ↔ ((p11modules ≡ []) ⊎ IfOn policy.check_chain_keys_in_hsm (IsSignedInHsm skr))
  unfolding check_last_skr_key_present
  check_last_skr_key_present_iff skr policy = by_modules p11modules
    where
      by_modules :
          (modules : List (List p.Session))
          → Passes (
              if is_empty modules
              then done
              else unless_disabled policy.check_chain_keys_in_hsm (check_last_bundle skr))
            ↔ ((modules ≡ []) ⊎ IfOn policy.check_chain_keys_in_hsm (IsSignedInHsm skr))
      by_modules [] = (λ _. inl refl, λ _. refl)
      by_modules (m ∷ ms) =
          let on =
            unless_disabled_iff policy.check_chain_keys_in_hsm (check_last_bundle skr)
              (check_last_bundle_iff skr) in
          (λ h. inr (on.0 h), λ s. elim s [ inl none_here ↦ absurd (cc) | inr h ↦ on.1 h ])
