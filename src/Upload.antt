-- ===== src/Upload.antt =====
-- wksr/server.py: who may upload a request, under which name it is saved, and its validation. What
-- the web framework knows of a request and the clock are parameters.
pub mod Files
pub mod Validated
use sam_ken_x_dnssec_keytool.Prelude.{
  ℕ, Bool, true, false, not, ◌&&◌, ◌||◌, String, Option, none, some, List, [], ◌∷◌, ◌++◌, leb, ltb,
  length, if◌then◌else◌,
}
use sam_ken_x_dnssec_keytool.Prelude.Equal.{nat_eq, list_eq, string_eq, contains, ◌==◌}
use sam_ken_x_dnssec_keytool.Outcome.{
  Result, ok, raise, ◌>>=◌, ◌>>◌, Checked, done, guard, refuse, require, is_policy_violation,
  forbidden, bad_request, request_entity_too_large, runtime_error,
}
use sam_ken_x_dnssec_keytool.Texts.{Text}
use sam_ken_x_dnssec_keytool.Data.{Bytes, Datetime}
use sam_ken_x_dnssec_keytool.Configuration.{KskmConfig, get_filename, request_policy}
use sam_ken_x_dnssec_keytool.Crypto.{Cryptography}
use sam_ken_x_dnssec_keytool.Hsm.{Pkcs11}
use sam_ken_x_dnssec_keytool.Loading.{Documents, load_ksr}
use sam_ken_x_dnssec_keytool.Command.{load_previous, check_previous}

-- A client without a certificate has no digest, and is let through.
unfoldable pub authz : List String → Option String → Checked
unfolding contains
authz client_whitelist none = done
authz client_whitelist (some digest) = guard (contains client_whitelist digest) forbidden

-- The section `ksr` of the server's configuration
pub record KsrConfig : Type 0 where
  pub content_type : Option String
  pub max_size : Option ℕ
  pub prefix : Option Text

-- werkzeug's FileStorage
pub record FileStorage : Type 0 where
  pub content_type : String
  pub stream : Bytes
  pub filename : Text

-- `config.get(key, default)`
abbrev pub or_default {ℓ} : {A : Type ℓ} → Option A → A → A
or_default none default = default
or_default (some a) default = a

-- "upload_" and ".xml"
abbrev pub default_prefix : Text
default_prefix = b'u' ∷ b'p' ∷ b'l' ∷ b'o' ∷ b'a' ∷ b'd' ∷ b'_' ∷ []

abbrev pub xml_extension : Text
xml_extension = b'.' ∷ b'x' ∷ b'm' ∷ b'l' ∷ []

-- `[a-zA-Z0-9_]`
abbrev pub is_word : ℕ → Bool
is_word c =
    (leb b'a' c && leb c b'z')
    || (leb b'A' c && leb c b'Z')
    || (leb b'0' c && leb c b'9')
    || c == b'_'

-- `re.sub(r"[^a-zA-Z0-9_]+", "_", text)`: each run of other characters becomes one `_`
unfoldable pub wash : (in_run : Bool) → Text → Text
wash in_run [] = []
wash in_run (c ∷ s) = elim (is_word c) [
  | true ↦ c ∷ wash false s
  | false ↦ elim in_run [ true ↦ wash true s | false ↦ b'_' ∷ wash true s ]
]

-- A file that is written
pub record Saved : Type 0 where
  pub filename : Text
  pub content : Bytes

-- save_ksr, with the time of the clock as the name's suffix; the checksum is left out
unfoldable pub save_ksr : Option KsrConfig → (suffix : Text) → FileStorage → Result Saved
unfolding wash
save_ksr ksr_config filename_suffix upload_file = do
  config ← require ksr_config runtime_error
  guard (upload_file.content_type == or_default config.content_type "application/xml") bad_request
  refuse (ltb (or_default config.max_size 1_048_576) (length upload_file.stream))
      request_entity_too_large
  let filename_prefix = or_default config.prefix default_prefix
  let filename_washed = wash false upload_file.filename
  ok (record {
    filename = filename_prefix ++ (filename_washed ++ (filename_suffix ++ xml_extension));
    content = upload_file.stream;
  })

-- `except PolicyViolation`: the status ERROR, as `false`
abbrev pub status_of : Checked → Result Bool
status_of (ok u) = ok true
status_of (raise e) = if is_policy_violation e then ok false else raise e

module _ (c : Cryptography) (p : Pkcs11) (dt_now : Datetime) (documents : Documents) where
  -- the `try` statement; there are no PKCS#11 modules
  unfoldable pub validate_uploaded : KskmConfig → String → Checked
  unfolding load_previous load_ksr check_previous request_policy get_filename
  validate_uploaded config filename = do
    previous_skr ←
        load_previous c dt_now documents (get_filename config "previous_skr") config.response_policy
    ksr ← load_ksr c dt_now documents filename (request_policy config) true
    check_previous p ksr previous_skr (request_policy config) []

  -- validate_ksr: whether the status is OK
  unfoldable pub validate_ksr : KskmConfig → String → Result Bool
  unfolding validate_uploaded
  validate_ksr config filename = status_of (validate_uploaded config filename)

-- What a client's request to /upload leaves: a POST of a file, which is saved and then validated;
-- `authz` comes before every request.
unfoldable pub upload :
    List String
    → Option KsrConfig
    → (suffix : Text) → Option String
    → Option FileStorage
    → Result Saved
unfolding authz save_ksr
upload client_whitelist ksr_config suffix digest file = do
  authz client_whitelist digest
  upload_file ← require file bad_request
  save_ksr ksr_config suffix upload_file
