-- ===== src/Command/Signed.antt =====
-- What the command of tools/ksrsigner.py has established about a response that it writes.
use sam_ken_x_dnssec_keytool.Prelude.{false, ◌≡◌, refl, String, Option, none, some, List, [], subst}
use mathlib.Core.Option.{some-injective}
use sam_ken_x_dnssec_keytool.Prelude.Equal.{nat_eq}
use sam_ken_x_dnssec_keytool.Outcome.{Result, ok, >>=-eq-ok}
use sam_ken_x_dnssec_keytool.Texts.{Text}
use sam_ken_x_dnssec_keytool.Data.{Datetime, Bytes, Request, Response}
use sam_ken_x_dnssec_keytool.Config.{Schema}
use sam_ken_x_dnssec_keytool.Configuration.{KskmConfig, get_schema, request_policy}
use sam_ken_x_dnssec_keytool.Crypto.{Cryptography}
use sam_ken_x_dnssec_keytool.Hsm.{Pkcs11}
use sam_ken_x_dnssec_keytool.Ksr.{IsValidRequest}
use sam_ken_x_dnssec_keytool.Loading.{Documents, load_ksr}
use sam_ken_x_dnssec_keytool.Loading.Accepted.{IsRead, load_ksr_iff}
use sam_ken_x_dnssec_keytool.Signer.Sign.{sign_bundles}
use sam_ken_x_dnssec_keytool.Signer.Sign.Answers.{AnswerAll, sign_bundles-AnswerAll}
use sam_ken_x_dnssec_keytool.Signer.Create.{
  create_skr, ksk_signature_policy, Collects, keys_of, ksk_signature_policy-Collects,
}
use sam_ken_x_dnssec_keytool.Command.{
  Arguments, Written, configured, previous_skr_filename, ksr_filename, skr_filename,
  output_filename, given, except_key_error, except_any, signing_config, confirm, load_previous,
  check_previous, check_new, sign_request, process_ksr, ksrsigner,
}
use sam_ken_x_dnssec_keytool.Command.Steps.{
  or_stop-ok, go-injective, except_key_error-ok, except_any-ok, Continues, IsSafeAfter, IfGiven,
  check_previous-IfGiven, check_new-IfGiven, IsLoaded, load_previous-IsLoaded, IsConfirmed,
  confirm-IsConfirmed,
}

module _ (c : Cryptography) (p : Pkcs11) where
  -- The response that is made from a request: its identifier, serial number, domain and ZSK policy,
  -- an answer to every bundle in order, and the algorithms of the keys that the bundles have.
  pub record IsMadeFrom (p11modules : List (List p.Session)) (config : KskmConfig)
      (request : Request) (response : Response) : Type 0 where
    pub id : response.id ≡ request.id
    pub serial : response.serial ≡ request.serial
    pub domain : response.domain ≡ request.domain
    pub zsk_policy : response.zsk_policy ≡ request.zsk_policy
    pub answers :
        AnswerAll c p p11modules config.ksk_policy
          (signing_config config)
          request.bundles
          response.bundles
    pub announced : Collects [] (keys_of response.bundles) response.ksk_policy.algorithms

  create_skr-IsMadeFrom :
      (request : Request) (schema : Schema) (p11modules : List (List p.Session))
      (config : KskmConfig) (response : Response)
      → create_skr c p request schema p11modules config.ksk_policy (signing_config config)
        ≡ ok response
      → IsMadeFrom p11modules config request response
  unfolding create_skr
  create_skr-IsMadeFrom request schema p11modules config response h =
      let (bundles, signed, h1) =
        >>=-eq-ok
          (sign_bundles c p p11modules config.ksk_policy (signing_config config) request schema) _
          h in
      let (policy, announced, h2) =
        >>=-eq-ok (ksk_signature_policy config.ksk_policy bundles) _ h1 in
      let made : Response = record {
        id = request.id;
        serial = request.serial;
        domain = request.domain;
        bundles = bundles;
        ksk_policy = policy;
        zsk_policy = request.zsk_policy;
        timestamp = none;
      } in
      let same : made ≡ response = cc in
      subst (IsMadeFrom p11modules config request) same (record {
        id = refl;
        serial = refl;
        domain = refl;
        zsk_policy = refl;
        answers =
            sign_bundles-AnswerAll c p p11modules config.ksk_policy (signing_config config) request
              schema bundles signed;
        announced = (ksk_signature_policy-Collects config.ksk_policy bundles policy announced).0;
      })

module _ (c : Cryptography) (p : Pkcs11) (dt_now : Datetime) (documents : Documents)
    (get_config : String → Result KskmConfig)
    (init_pkcs11_modules : KskmConfig → Result (List (List p.Session))) (answer : Result Text) where
  -- All that was checked before the response was written
  pub record IsSignedSafely (args : Arguments) (config : KskmConfig) (written : Written)
      : Type 0 where
    pub schema : Schema
    pub schema_found : get_schema config args.schema ≡ ok schema
    pub skr : Option Response
    pub skr_loaded :
        IsLoaded c dt_now documents (previous_skr_filename args config) config.response_policy skr
    pub filename : String
    pub filename_given : ksr_filename args config ≡ some filename
    pub content : Bytes
    pub read : IsRead c dt_now documents filename content
    pub request : Request
    pub parsed : documents.request_from_xml content ≡ ok request
    pub valid : IsValidRequest c dt_now request (request_policy config)
    pub p11modules : List (List p.Session)
    pub opened : init_pkcs11_modules config ≡ ok p11modules
    pub continues : IfGiven skr (λ s. Continues p request s (request_policy config) p11modules)
    pub confirmed : IsConfirmed answer args.force
    pub made : IsMadeFrom c p p11modules config request written.skr
    pub safe : IfGiven skr (λ s. IsSafeAfter s written.skr (request_policy config))
    pub destination : written.filename ≡ given (skr_filename args config)

  -- What the command writes is signed safely: the configuration was loaded and has the schema; the
  -- request comes from the file of the KSR, which is not too large, and is acceptable under the policy
  -- for requests; the operator confirmed, or the confirmation was forced; the response answers every
  -- bundle of the request and announces the algorithms of its keys. If there is a previous SKR, it is a
  -- valid response, the request continues it, and the new response is safe after it.
  pub ksrsigner-IsSignedSafely :
      (args : Arguments) (provided : Option KskmConfig) (written : Written)
      → ksrsigner c p dt_now documents get_config init_pkcs11_modules answer args provided
        ≡ ok (some written)
      → (config : KskmConfig) × (configured get_config args provided ≡ ok (some config))
        × IsSignedSafely args config written
  unfolding ksrsigner process_ksr sign_request
  ksrsigner-IsSignedSafely args provided written h =
      let (config, loaded, h1) = or_stop-ok (configured get_config args provided) _ h in
      let (schema, has, h2) = or_stop-ok (except_key_error (get_schema config args.schema)) _ h1 in
      let (skr, previous, h3) =
        >>=-eq-ok
          (load_previous c dt_now documents (previous_skr_filename args config)
            config.response_policy)
          _ h2 in
      let (filename, named, h4) = or_stop-ok (ok (ksr_filename args config)) _ h3 in
      let (request, accepted, h5) =
        >>=-eq-ok (load_ksr c dt_now documents filename (request_policy config) false) _ h4 in
      let (content, read, parsed, valid) =
        (load_ksr_iff c dt_now documents filename (request_policy config) false request).0
          accepted in
      let (p11modules, opened, h6) = or_stop-ok (except_any (init_pkcs11_modules config)) _ h5 in
      let (_, continues, h7) =
        >>=-eq-ok (check_previous p request skr (request_policy config) p11modules) _ h6 in
      let (_, confirmed, h8) = or_stop-ok (confirm answer args.force) _ h7 in
      let (new_skr, created, h9) =
        >>=-eq-ok
          (create_skr c p request schema p11modules config.ksk_policy (signing_config config)) _
          h8 in
      let (_, safe, h10) = >>=-eq-ok (check_new skr new_skr (request_policy config)) _ h9 in
      let out : Written = record { filename = output_filename args config; skr = new_skr } in
      let same = some-injective _ _ (go-injective (some out) written h10) in
      (
        config,
        loaded,
        subst (IsSignedSafely args config) same (record {
          schema = schema;
          schema_found = except_key_error-ok (get_schema config args.schema) has;
          skr = skr;
          skr_loaded =
              load_previous-IsLoaded c dt_now documents (previous_skr_filename args config)
                config.response_policy skr previous;
          filename = filename;
          filename_given = go-injective _ _ named;
          content = content;
          read = read;
          request = request;
          parsed = parsed;
          valid = valid;
          p11modules = p11modules;
          opened = except_any-ok (init_pkcs11_modules config) opened;
          continues =
              check_previous-IfGiven p request skr (request_policy config) p11modules continues;
          confirmed = confirm-IsConfirmed answer args.force confirmed;
          made = create_skr-IsMadeFrom c p request schema p11modules config new_skr created;
          safe = check_new-IfGiven skr new_skr (request_policy config) safe;
          destination = refl;
        }),
      )
