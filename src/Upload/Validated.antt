-- ===== src/Upload/Validated.antt =====
-- Which uploaded requests wksr/server.py reports as OK.
use mathlib.Core.Option.{some-injective}
use sam_ken_x_dnssec_keytool.Prelude.{
  ◌≡◌, ◌↔◌, inl, inr, refl, sym, ap, subst, ◌∙◌, true, String, Option, none, some, List, [],
  Bool-cases,
}
use sam_ken_x_dnssec_keytool.Outcome.{Result, ok, raise, Checked, Passes, is_policy_violation}
use sam_ken_x_dnssec_keytool.Texts.{Text}
use sam_ken_x_dnssec_keytool.Data.{Datetime, Request, Response}
use sam_ken_x_dnssec_keytool.Config.{RequestPolicy}
use sam_ken_x_dnssec_keytool.Configuration.{KskmConfig, get_filename, request_policy}
use sam_ken_x_dnssec_keytool.Crypto.{Cryptography}
use sam_ken_x_dnssec_keytool.Hsm.{Pkcs11}
use sam_ken_x_dnssec_keytool.Loading.{Documents}
use sam_ken_x_dnssec_keytool.Loading.Accepted.{load_ksr_iff, load_skr_iff}
use sam_ken_x_dnssec_keytool.Command.{
  Arguments, Written, configured, ksrsigner, ksr_filename, previous_skr_filename, load_previous,
  check_previous,
}
use sam_ken_x_dnssec_keytool.Command.Steps.{
  go-injective, Continues, IfGiven, IsLoaded, check_skr_and_ksr_iff,
}
use sam_ken_x_dnssec_keytool.Command.Signed.{IsSignedSafely, ksrsigner-IsSignedSafely}
use sam_ken_x_dnssec_keytool.Upload.{status_of, validate_uploaded, validate_ksr}

configured-same :
    (get_config : String → Result KskmConfig) (args : Arguments) (config config' : KskmConfig)
    → configured get_config args (some config) ≡ ok (some config')
    → config ≡ config'
unfolding configured
configured-same get_config args config config' h =
    some-injective _ _ (go-injective (some config) config' h)

status_of-true : (m : Checked) → (status_of m ≡ ok true) ↔ Passes m
status_of-true (ok tt) = (λ h. refl, λ h. refl)
status_of-true (raise e) = elim (Bool-cases (is_policy_violation e)) [
  | inl h ↦ rw h (λ p. absurd (cc), λ p. absurd (cc))
  | inr h ↦ rw h (λ p. absurd (cc), λ p. absurd (cc))
]

module _ (c : Cryptography) (dt_now : Datetime) (documents : Documents) where
  load_previous_eq :
      (filename : Option String) (config : KskmConfig) (skr : Option Response)
      → IsLoaded c dt_now documents filename config.response_policy skr
      → load_previous c dt_now documents filename config.response_policy ≡ ok skr
  unfolding load_previous
  load_previous_eq none config skr h = cc
  load_previous_eq (some filename) config skr (s, content, same, read, parsed, valid) =
      rw
        (
          (load_skr_iff c dt_now documents filename config.response_policy s).1
              (content, read, parsed, valid),
          same,
        )
        refl

-- Without modules, nothing is asked of the HSM.
without_modules :
    (p : Pkcs11) (request : Request) (skr : Option Response) (policy : RequestPolicy)
    (p11modules : List (List p.Session))
    → IfGiven skr (λ s. Continues p request s policy p11modules)
    → Passes (check_previous p request skr policy [])
unfolding check_previous
without_modules p request none policy p11modules h = refl
without_modules p request (some s) policy p11modules h =
    (check_skr_and_ksr_iff p request s policy []).1 (record {
      new_id = h.new_id;
      new_bundle_ids = h.new_bundle_ids;
      keys = h.keys;
      overlap = h.overlap;
      present = inl refl;
    })

signed-accepted :
    (c : Cryptography) (p : Pkcs11) (dt_now : Datetime) (documents : Documents)
    (get_config : String → Result KskmConfig)
    (init_pkcs11_modules : KskmConfig → Result (List (List p.Session))) (answer : Result Text)
    (args : Arguments) (config : KskmConfig) (written : Written)
    (s : IsSignedSafely c p dt_now documents get_config init_pkcs11_modules answer args config
      written)
    → previous_skr_filename args config ≡ get_filename config "previous_skr"
    → validate_ksr c p dt_now documents config s.filename ≡ ok true
unfolding validate_ksr validate_uploaded
signed-accepted c p dt_now documents get_config init_pkcs11_modules answer args config written s
      same =
    let previous =
      load_previous_eq c dt_now documents (previous_skr_filename args config) config s.skr
        s.skr_loaded in
    let loaded =
      (load_ksr_iff c dt_now documents s.filename (request_policy config) true s.request).1
        (s.content, s.read, s.parsed, s.valid) in
    let continues =
      without_modules p s.request s.skr (request_policy config) s.p11modules s.continues in
    (status_of-true _).1 (rw (← same, previous, loaded) continues)

-- A KSR that the command signs is one that the server reports as OK, with the same configuration,
-- files and clock, if the command takes the name of the previous SKR from that configuration.
pub ksrsigner-validate_ksr :
    (c : Cryptography) (p : Pkcs11) (dt_now : Datetime) (documents : Documents)
    (get_config : String → Result KskmConfig)
    (init_pkcs11_modules : KskmConfig → Result (List (List p.Session))) (answer : Result Text)
    (args : Arguments) (config : KskmConfig) (written : Written) (filename : String)
    → ksrsigner c p dt_now documents get_config init_pkcs11_modules answer args (some config)
      ≡ ok (some written)
    → ksr_filename args config ≡ some filename
    → previous_skr_filename args config ≡ get_filename config "previous_skr"
    → validate_ksr c p dt_now documents config filename ≡ ok true
ksrsigner-validate_ksr c p dt_now documents get_config init_pkcs11_modules answer args config
      written filename h named same =
    let (config', loaded, s) =
      ksrsigner-IsSignedSafely c p dt_now documents get_config init_pkcs11_modules answer args
        (some config) written h in
    let same_config = configured-same get_config args config config' loaded in
    let same_name : s.filename ≡ filename =
      some-injective _ _
        (sym s.filename_given ∙ (ap (ksr_filename args) (sym same_config) ∙ named)) in
    let accepted =
      signed-accepted c p dt_now documents get_config init_pkcs11_modules answer args config'
        written s
        (subst (λ x. previous_skr_filename args x ≡ get_filename x "previous_skr") same_config
          same) in
    subst (λ x. validate_ksr c p dt_now documents x filename ≡ ok true) (sym same_config)
      (subst (λ f. validate_ksr c p dt_now documents config' f ≡ ok true) same_name accepted)
