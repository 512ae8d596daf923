-- ===== src/Signer/Sign/Answers.antt =====
-- What the bundles that `sign_bundles` returns have to do with the request.
use sam_ken_x_dnssec_keytool.Prelude.{
  ℕ, suc, String, List, [], ◌∷◌, map, true, false, ◌≡◌, refl, subst, All, Any, All-map, arith,
}
use sam_ken_x_dnssec_keytool.Prelude.Equal.{contains_iff, string_eq, nat_eq}
use sam_ken_x_dnssec_keytool.Prelude.Dict.{get}
use sam_ken_x_dnssec_keytool.Outcome.{
  ok, guard, require, fold_each, >>=-eq-ok, guard-Passes, create_signature_error,
}
use sam_ken_x_dnssec_keytool.Outcome.Switch.{IfOn}
use sam_ken_x_dnssec_keytool.Data.{Set, Key, Signature, Bundle, RequestBundle, Request}
use sam_ken_x_dnssec_keytool.Data.Algorithm.{algorithm_name}
use sam_ken_x_dnssec_keytool.Data.Equality.{key_eq}
use sam_ken_x_dnssec_keytool.Config.{KskPolicy, Schema}
use sam_ken_x_dnssec_keytool.Crypto.{Cryptography}
use sam_ken_x_dnssec_keytool.Hsm.{Pkcs11}
use sam_ken_x_dnssec_keytool.Signer.Key.{CompositeKey}
use sam_ken_x_dnssec_keytool.Signatures.Accepted.{IsSigned}
use sam_ken_x_dnssec_keytool.Skr.{check_valid_signatures, check_valid_signatures_iff}
use sam_ken_x_dnssec_keytool.Signer.Sign.{
  SigningConfig, sign_bundles, sign_from, sign_bundle, finish_bundle, add_zsk, add_dns, add_revoked,
  fetch_keys, add_signature, same_set, all_in,
}
use sam_ken_x_dnssec_keytool.Signer.Sign.Cover.{
  fold_each-keeps, AreCovered, zsks-AreCovered, add_dns-keeps, add_revoked-keeps,
}

-- A set with the same elements.
abbrev pub AreSame : List String → List String → Type 0
AreSame xs ys = All (λ x. Any (λ y. x ≡ y) ys) xs × All (λ y. Any (λ x. y ≡ x) xs) ys

all_in-All : (xs ys : List String) → all_in xs ys ≡ true → All (λ x. Any (λ y. x ≡ y) ys) xs
unfolding all_in
all_in-All [] ys h = tt
all_in-All (x ∷ xs) ys h = ((contains_iff ys x).0 (ground arith), all_in-All xs ys (ground arith))

same_set-AreSame : (xs ys : List String) → same_set xs ys ≡ true → AreSame xs ys
unfolding same_set
same_set-AreSame xs ys h = (all_in-All xs ys (ground arith), all_in-All ys xs (ground arith))

module _ (c : Cryptography) (p : Pkcs11) (p11modules : List (List p.Session))
    (ksk_policy : KskPolicy) (config : SigningConfig) where
  -- The response to a bundle of the request.
  pub record Answers (bundle : RequestBundle) (response : Bundle) : Type 0 where
    pub id : response.id ≡ bundle.id
    pub inception : response.inception ≡ bundle.inception
    pub expiration : response.expiration ≡ bundle.expiration
    pub covered : AreCovered ksk_policy bundle.keys response.keys
    pub algorithms :
        AreSame
          (map (λ (x : Key). algorithm_name x.algorithm) bundle.keys)
          (map (λ (x : Signature). algorithm_name x.algorithm) response.signatures)
    pub valid : IfOn config.response_policy.validate_signatures (IsSigned c response)

  -- The responses answer the bundles, one each and in the same order.
  abbrev pub AnswerAll : List RequestBundle → List Bundle → Type 0
  AnswerAll [] [] = Unit
  AnswerAll [] (r ∷ rs) = ⊥
  AnswerAll (b ∷ bs) [] = ⊥
  AnswerAll (b ∷ bs) (r ∷ rs) = Answers b r × AnswerAll bs rs

  finish_bundle-Answers :
      (bundle : RequestBundle) (keys : Set Key) (signatures : Set Signature) (response : Bundle)
      → AreCovered ksk_policy bundle.keys keys
      → finish_bundle c p bundle keys signatures config.response_policy ≡ ok response
      → Answers bundle response
  unfolding finish_bundle
  finish_bundle-Answers bundle keys signatures response covered h =
      let made : Bundle = record {
        id = bundle.id;
        inception = bundle.inception;
        expiration = bundle.expiration;
        keys = keys;
        signatures = signatures;
      } in
      let (_, g, h1) =
        >>=-eq-ok
          (guard
            (same_set (map (λ (x : Key). algorithm_name x.algorithm) bundle.keys)
              (map (λ (x : Signature). algorithm_name x.algorithm) signatures))
            create_signature_error)
          _ h in
      let (_, v, h2) = >>=-eq-ok (check_valid_signatures c made config.response_policy) _ h1 in
      let same : made ≡ response = cc in
      subst (Answers bundle) same (record {
        id = refl;
        inception = refl;
        expiration = refl;
        covered = covered;
        algorithms = same_set-AreSame _ _ ((guard-Passes _ _).0 g);
        valid = (check_valid_signatures_iff c made config.response_policy).0 v;
      })

  -- The keys of the request stay while the keys of the KSK operator are added.
  covered_by :
      (bundle : RequestBundle) (zsks published revoked keys : Set Key)
      (publish_keys revoke_keys signing_keys : List (CompositeKey p))
      → fold_each (add_zsk ksk_policy) [] bundle.keys ≡ ok zsks
      → fold_each (add_dns c p) zsks publish_keys ≡ ok published
      → fold_each (add_revoked c p) published revoke_keys ≡ ok revoked
      → fold_each (add_dns c p) revoked signing_keys ≡ ok keys
      → AreCovered ksk_policy bundle.keys keys
  covered_by bundle zsks published revoked keys publish_keys revoke_keys signing_keys h0 h1 h2 h3 =
      All-map bundle.keys
        (λ key m.
          fold_each-keeps (Any _) (add_dns c p) (add_dns-keeps c _) signing_keys revoked keys
            (fold_each-keeps (Any _) (add_revoked c p) (add_revoked-keeps c _) revoke_keys published
              revoked
              (fold_each-keeps (Any _) (add_dns c p) (add_dns-keeps c _) publish_keys zsks published
                m h1)
              h2)
            h3)
        (zsks-AreCovered ksk_policy bundle.keys [] zsks h0)

  sign_bundle-Answers :
      (publish revoking sign : List String) (bundle : RequestBundle) (response : Bundle)
      → sign_bundle c p p11modules ksk_policy config publish revoking sign bundle ≡ ok response
      → Answers bundle response
  unfolding sign_bundle
  sign_bundle-Answers publish revoking sign bundle response h =
      let (zsks, e0, h0) = >>=-eq-ok (fold_each (add_zsk ksk_policy) [] bundle.keys) _ h in
      let (publish_keys, _, h1) =
        >>=-eq-ok (fetch_keys c p publish bundle p11modules ksk_policy config.ksk_keys true) _ h0 in
      let (published, e2, h2) = >>=-eq-ok (fold_each (add_dns c p) zsks publish_keys) _ h1 in
      let (revoke_keys, _, h3) =
        >>=-eq-ok (fetch_keys c p revoking bundle p11modules ksk_policy config.ksk_keys true) _
          h2 in
      let (revoked, e4, h4) = >>=-eq-ok (fold_each (add_revoked c p) published revoke_keys) _ h3 in
      let (signing_keys, _, h5) =
        >>=-eq-ok (fetch_keys c p sign bundle p11modules ksk_policy config.ksk_keys false) _ h4 in
      let (keys, e6, h6) = >>=-eq-ok (fold_each (add_dns c p) revoked signing_keys) _ h5 in
      let (signatures, _, h7) =
        >>=-eq-ok (fold_each (add_signature c p bundle keys ksk_policy) [] signing_keys) _ h6 in
      finish_bundle-Answers bundle keys signatures response
        (covered_by bundle zsks published revoked keys publish_keys revoke_keys signing_keys e0 e2
          e4 e6)
        h7

  sign_from-AnswerAll :
      (schema : Schema) (n : ℕ) (bundles : List RequestBundle) (responses : List Bundle)
      → sign_from c p p11modules ksk_policy config schema n bundles ≡ ok responses
      → AnswerAll bundles responses
  unfolding sign_from
  sign_from-AnswerAll schema n [] responses h =
      let none_left : [] ≡ responses = cc in subst (AnswerAll []) none_left tt
  sign_from-AnswerAll schema n (b ∷ bs) responses h =
      let (actions, _, h1) = >>=-eq-ok (require (get schema.actions (suc n)) _) _ h in
      let (response, e, h2) =
        >>=-eq-ok
          (sign_bundle c p p11modules ksk_policy config actions.publish actions.revoke actions.sign
            b)
          _ h1 in
      let (others, eo, h3) =
        >>=-eq-ok (sign_from c p p11modules ksk_policy config schema (suc n) bs) _ h2 in
      let all : response ∷ others ≡ responses = cc in
      subst (AnswerAll (b ∷ bs)) all
        (sign_bundle-Answers _ _ _ b response e, sign_from-AnswerAll schema (suc n) bs others eo)

  -- When a request is signed, there is one response for each of its bundles, in order, with the bundle's
  -- identifier and dates, in which every key of the bundle is present with the TTL of the KSK operator,
  -- the algorithms of the signatures are those of the bundle's keys, and, unless the response policy
  -- switches it off, every signature is valid for the whole set of keys.
  pub sign_bundles-AnswerAll :
      (request : Request) (schema : Schema) (responses : List Bundle)
      → sign_bundles c p p11modules ksk_policy config request schema ≡ ok responses
      → AnswerAll request.bundles responses
  unfolding sign_bundles
  sign_bundles-AnswerAll request schema responses h =
      sign_from-AnswerAll schema 0 request.bundles responses h
