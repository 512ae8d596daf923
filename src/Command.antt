-- ===== src/Command.antt =====
-- The command of tools/ksrsigner.py: from the file of a request and the previous response to the new
-- response. What the operator types, the opening of the HSMs and the reading of the configuration
-- are parameters; the parsing of arguments and the printing are left out.
pub mod Steps
pub mod Signed
pub mod Schemas
use sam_ken_x_dnssec_keytool.Prelude.{
  String, Bool, true, false, ◌&&◌, Option, none, some, List, [], ◌∷◌, is_empty, if◌then◌else◌,
}
use sam_ken_x_dnssec_keytool.Prelude.Equal.{nat_eq, list_eq, string_eq, ◌==◌}
use sam_ken_x_dnssec_keytool.Outcome.{
  Result, ok, raise, ◌>>=◌, ◌>>◌, Checked, done, key_error, file_not_found_error,
}
use sam_ken_x_dnssec_keytool.Texts.{Text}
use sam_ken_x_dnssec_keytool.Data.{Datetime, Request, Response}
use sam_ken_x_dnssec_keytool.Config.{RequestPolicy, ResponsePolicy, Schema}
use sam_ken_x_dnssec_keytool.Configuration.{KskmConfig, get_filename, get_schema, request_policy}
use sam_ken_x_dnssec_keytool.Crypto.{Cryptography}
use sam_ken_x_dnssec_keytool.Hsm.{Pkcs11}
use sam_ken_x_dnssec_keytool.Loading.{Documents, load_ksr, load_skr}
use sam_ken_x_dnssec_keytool.Signer.Safety.{check_last_skr_and_new_skr}
use sam_ken_x_dnssec_keytool.Signer.Presence.{check_skr_and_ksr}
use sam_ken_x_dnssec_keytool.Signer.Sign.{SigningConfig}
use sam_ken_x_dnssec_keytool.Signer.Create.{create_skr}

-- The arguments that the command uses; a name that is not given is `None`.
pub record Arguments : Type 0 where
  pub ksr : Option String
  pub skr : Option String
  pub previous_skr : Option String
  pub config : String
  pub schema : String
  pub force : Bool

-- What the command writes: to standard output if there is no filename
pub record Written : Type 0 where
  pub filename : Option String
  pub skr : Response

-- A step that may also return False to the caller, as `none`
abbrev pub Step : Type 0 → Type 0
Step A = Result (Option A)

abbrev pub stop_or_go : {A B : Type 0} → Option A → (A → Step B) → Step B
stop_or_go none next = ok none
stop_or_go (some a) next = next a

infixr 4 ◌or_stop◌
abbrev pub ◌or_stop◌ : {A B : Type 0} → Step A → (A → Step B) → Step B
m or_stop next = m >>= λ o. stop_or_go o next

-- `if args.x`: an empty text counts as none
abbrev pub given : Option String → Option String
given none = none
given (some name) = if name == "" then none else some name

abbrev pub or_else : Option String → Option String → Option String
or_else none other = other
or_else (some name) other = some name

unfoldable pub previous_skr_filename : Arguments → KskmConfig → Option String
unfolding get_filename
previous_skr_filename args config =
    given (or_else (given args.previous_skr) (get_filename config "previous_skr"))

unfoldable pub ksr_filename : Arguments → KskmConfig → Option String
unfolding get_filename
ksr_filename args config = or_else (given args.ksr) (get_filename config "input_ksr")

unfoldable pub skr_filename : Arguments → KskmConfig → Option String
unfolding get_filename
skr_filename args config = or_else (given args.skr) (get_filename config "output_skr")

-- output_skr_xml: where it writes to, without a filename or with an empty one to standard output
unfoldable pub output_filename : Arguments → KskmConfig → Option String
unfolding skr_filename
output_filename args config = given (skr_filename args config)

-- `ack.strip("\n")`
abbrev pub strip_start : Text → Text
strip_start [] = []
strip_start (c ∷ s) = if c == 10 then strip_start s else c ∷ s

abbrev pub strip_end : Text → Text
strip_end [] = []
strip_end (c ∷ s) = let rest = strip_end s in if c == 10 && is_empty rest then [] else c ∷ rest

abbrev pub yes : Text
yes = b'Y' ∷ b'e' ∷ b's' ∷ []

-- `except KeyError: return False`, `except FileNotFoundError: return False`, `except Exception: …`
abbrev pub except_key_error {ℓ} : {A : Type ℓ} → Result A → Result (Option A)
except_key_error (ok a) = ok (some a)
except_key_error (raise key_error) = ok none
except_key_error (raise e) = raise e

abbrev pub except_file_not_found {ℓ} : {A : Type ℓ} → Result A → Result (Option A)
except_file_not_found (ok a) = ok (some a)
except_file_not_found (raise file_not_found_error) = ok none
except_file_not_found (raise e) = raise e

abbrev pub except_any {ℓ} : {A : Type ℓ} → Result A → Result (Option A)
except_any (ok a) = ok (some a)
except_any (raise e) = ok none

-- What the signing takes from the configuration
abbrev pub signing_config : KskmConfig → SigningConfig
signing_config config = record {
  ksk_keys = config.ksk_keys;
  response_policy = config.response_policy;
}

-- The configuration is loaded if it is not provided.
unfoldable pub configured :
    (String → Result KskmConfig) → Arguments → Option KskmConfig → Step KskmConfig
configured get_config args (some config) = ok (some config)
configured get_config args none = except_file_not_found (get_config args.config)

unfoldable pub load_previous :
    Cryptography → Datetime → Documents → Option String → ResponsePolicy → Result (Option Response)
unfolding load_skr
load_previous c dt_now documents none policy = ok none
load_previous c dt_now documents (some filename) policy =
    load_skr c dt_now documents filename policy >>= λ skr. ok (some skr)

unfoldable pub check_previous :
    (p : Pkcs11) → Request → Option Response → RequestPolicy → List (List p.Session) → Checked
unfolding check_skr_and_ksr
check_previous p request none policy p11modules = done
check_previous p request (some skr) policy p11modules =
    check_skr_and_ksr p p11modules request skr policy

-- the confirmation, unless it is forced
unfoldable pub confirm : Result Text → Bool → Step (Unit {0})
confirm answer true = ok (some tt)
confirm answer false =
    answer >>= λ ack. ok (if strip_end (strip_start ack) == yes then some tt else none)

unfoldable pub check_new : Option Response → Response → RequestPolicy → Checked
unfolding check_last_skr_and_new_skr
check_new none new_skr policy = done
check_new (some skr) new_skr policy = check_last_skr_and_new_skr skr new_skr policy

module _ (c : Cryptography) (p : Pkcs11) (dt_now : Datetime) (documents : Documents)
    (get_config : String → Result KskmConfig)
    (init_pkcs11_modules : KskmConfig → Result (List (List p.Session))) (answer : Result Text) where
  -- from the confirmation on
  unfoldable pub sign_request :
      Arguments
      → KskmConfig
      → Schema
      → Option Response
      → Request
      → List (List p.Session)
      → Step Written
  unfolding confirm check_new create_skr output_filename request_policy
  sign_request args config schema skr request p11modules = confirm answer args.force or_stop λ _. do
    new_skr ← create_skr c p request schema p11modules config.ksk_policy (signing_config config)
    check_new skr new_skr (request_policy config)
    ok (some (record { filename = output_filename args config; skr = new_skr }))

  -- from the loading of the request on
  unfoldable pub process_ksr :
      Arguments → KskmConfig → Schema → Option Response → String → Step Written
  unfolding load_ksr check_previous sign_request request_policy
  process_ksr args config schema skr filename = do
    request ← load_ksr c dt_now documents filename (request_policy config) false
    except_any (init_pkcs11_modules config) or_stop λ p11modules. do
      check_previous p request skr (request_policy config) p11modules
      sign_request args config schema skr request p11modules

  -- ksrsigner: `none` where it returns False
  unfoldable pub ksrsigner : Arguments → Option KskmConfig → Step Written
  unfolding configured get_schema load_previous previous_skr_filename ksr_filename process_ksr
  ksrsigner args provided = configured get_config args provided or_stop λ config.
      except_key_error (get_schema config args.schema) or_stop λ schema. do
        skr ←
            load_previous c dt_now documents (previous_skr_filename args config)
              config.response_policy
        ok (ksr_filename args config) or_stop λ filename.
            process_ksr args config schema skr filename
