-- ===== src/Tests/Commands.antt =====
-- The theorems on durations, words, loading, the command and the upload server at concrete inputs.
use sam_ken_x_dnssec_keytool.Prelude.{
  ◌≡◌, ◌↔◌, refl, ℕ, ◌-◌, ◌%◌, String, none, some, true, false, List, [], ◌∷◌, length, arith,
}
use sam_ken_x_dnssec_keytool.Prelude.Int.{ℤ, pos}
use sam_ken_x_dnssec_keytool.Prelude.Equal.{contains, nat_eq}
use sam_ken_x_dnssec_keytool.Prelude.Dict.{get, set}
use sam_ken_x_dnssec_keytool.Outcome.{Result, ok}
use sam_ken_x_dnssec_keytool.Texts.{Text, CharacterTable, ascii_decimal, ascii_space}
use sam_ken_x_dnssec_keytool.Config.{days, Schema, SchemaAction}
use sam_ken_x_dnssec_keytool.Configuration.{
  KskmConfig, get_schema, parse_actions, parse_action, request_policy, get_filename,
}
use sam_ken_x_dnssec_keytool.Duration.{duration_to_timedelta, timedelta_to_duration}
use sam_ken_x_dnssec_keytool.Duration.Rounds.{Ends, IsTimedelta, duration_to_timedelta-returns}
use sam_ken_x_dnssec_keytool.Duration.RoundTrip.{duration_to_timedelta-timedelta_to_duration}
use sam_ken_x_dnssec_keytool.Wordlist.{pgp_wordlist, words_to_bytes}
use sam_ken_x_dnssec_keytool.Wordlist.Unambiguous.{pgp_wordlist-words_to_bytes}
use sam_ken_x_dnssec_keytool.Ksr.{IsValidRequest, validate_request_iff}
use sam_ken_x_dnssec_keytool.Loading.{load_ksr}
use sam_ken_x_dnssec_keytool.Loading.Accepted.{IsRead, load_ksr_iff}
use sam_ken_x_dnssec_keytool.Command.{configured, previous_skr_filename, ksr_filename}
use sam_ken_x_dnssec_keytool.Command.Signed.{IsSignedSafely, ksrsigner-IsSignedSafely}
use sam_ken_x_dnssec_keytool.Command.Schemas.{get_schema-covers}
use sam_ken_x_dnssec_keytool.Upload.{
  KsrConfig, FileStorage, Saved, upload, validate_ksr, wash, authz, save_ksr,
}
use sam_ken_x_dnssec_keytool.Upload.Files.{IsAllowed, IsSavedFor, upload-IsSavedFor}
use sam_ken_x_dnssec_keytool.Upload.Validated.{ksrsigner-validate_ksr}
use sam_ken_x_dnssec_keytool.Tests.Inputs.{toy, request, policy}
use sam_ken_x_dnssec_keytool.Tests.Signing.{toy_hsm}
use sam_ken_x_dnssec_keytool.Tests.Ceremony.{
  documents, kskm_config, arguments, answer, get_config, init_modules, written, ceremony,
  request_is_valid,
}

abbrev ascii : CharacterTable
ascii = record {
  decimal = ascii_decimal;
  is_space = ascii_space;
  decimal-ascii = λ c h. refl;
  is_space-ascii = λ c h. refl;
}

-- "P1W2D-5"
abbrev one_week : Text
one_week = b'P' ∷ b'1' ∷ b'W' ∷ b'2' ∷ b'D' ∷ b'-' ∷ b'5' ∷ []

duration_to_timedelta-returns_example :
    (end : Result ℤ) × (duration_to_timedelta ascii (some one_week) ≡ some end)
    × Ends IsTimedelta end
duration_to_timedelta-returns_example = duration_to_timedelta-returns ascii (some one_week)

duration_to_timedelta-timedelta_to_duration_example :
    duration_to_timedelta ascii (some (timedelta_to_duration (pos 1_900_861_000_001)))
    ≡ some (ok (pos (1_900_861_000_001 - 1_900_861_000_001 % 1_000_000)))
duration_to_timedelta-timedelta_to_duration_example =
    duration_to_timedelta-timedelta_to_duration ascii 1_900_861_000_001 (omega arith)

pgp_wordlist-words_to_bytes_example :
    (ws : List String) × (pgp_wordlist (229 ∷ 130 ∷ 148 ∷ []) ≡ ok ws)
    × (length ws ≡ 3)
    × (words_to_bytes false ws ≡ some (229 ∷ 130 ∷ 148 ∷ []))
pgp_wordlist-words_to_bytes_example =
    pgp_wordlist-words_to_bytes (229 ∷ 130 ∷ 148 ∷ [])
      (omega arith, (omega arith, (omega arith, tt)))

load_ksr_iff_example : (load_ksr toy (days 90) documents "ksr.xml" policy true ≡ ok request) ↔ (
    (content : List ℕ) × IsRead toy (days 90) documents "ksr.xml" content
    × (ok request ≡ ok request)
    × IsValidRequest toy (days 90) request policy)
load_ksr_iff_example = load_ksr_iff toy (days 90) documents "ksr.xml" policy true request

ksrsigner-IsSignedSafely_example :
    (config : KskmConfig) × (configured get_config arguments (some kskm_config) ≡ ok (some config))
    × IsSignedSafely toy toy_hsm
        (days 90)
        documents
        get_config
        init_modules
        answer
        arguments
        config
        written
ksrsigner-IsSignedSafely_example =
    ksrsigner-IsSignedSafely toy toy_hsm (days 90) documents get_config init_modules answer
      arguments (some kskm_config) written ceremony

the_file : ksr_filename arguments kskm_config ≡ some "ksr.xml"
unfolding ksr_filename kskm_config get_filename get
the_file = refl

the_previous : previous_skr_filename arguments kskm_config ≡ get_filename kskm_config "previous_skr"
unfolding previous_skr_filename kskm_config get_filename get
the_previous = refl

ksrsigner-validate_ksr_example :
    validate_ksr toy toy_hsm (days 90) documents kskm_config "ksr.xml" ≡ ok true
ksrsigner-validate_ksr_example =
    ksrsigner-validate_ksr toy toy_hsm (days 90) documents get_config init_modules answer arguments
      kskm_config written "ksr.xml" ceremony the_file the_previous

-- what the schema `normal` is
abbrev action : SchemaAction
action = record { publish = "current" ∷ []; sign = "current" ∷ []; revoke = [] }

abbrev normal : Schema
normal = record { name = "normal"; actions = (1, action) ∷ (2, action) ∷ [] }

normal_is_found : get_schema kskm_config "normal" ≡ ok normal
unfolding get_schema kskm_config policy parse_actions parse_action request_policy get set
normal_is_found = refl

get_schema-covers_example : (a : SchemaAction) × (get normal.actions 2 ≡ some a)
get_schema-covers_example =
    get_schema-covers toy (days 90) kskm_config "normal" normal request normal_is_found
      ((validate_request_iff toy (days 90) request (request_policy kskm_config) true).0
        request_is_valid).0
      1 (omega arith)

abbrev ksr_config : KsrConfig
ksr_config = record { content_type = none; max_size = some 4; prefix = none }

-- "../k"
abbrev uploaded : FileStorage
uploaded = record {
  content_type = "application/xml";
  stream = 1 ∷ 2 ∷ [];
  filename = b'.' ∷ b'.' ∷ b'/' ∷ b'k' ∷ [];
}

-- "upload__k_1.xml"
abbrev saved : Saved
saved = record {
  filename =
      b'u' ∷ b'p' ∷ b'l' ∷ b'o' ∷ b'a' ∷ b'd' ∷ b'_' ∷ b'_' ∷ b'k' ∷ b'_' ∷ b'1' ∷ b'.' ∷ b'x'
      ∷ b'm' ∷ b'l' ∷ [];
  content = 1 ∷ 2 ∷ [];
}

is_saved :
    upload ("a" ∷ []) (some ksr_config) (b'_' ∷ b'1' ∷ []) (some "a") (some uploaded) ≡ ok saved
unfolding upload authz save_ksr wash contains
is_saved = refl

upload-IsSavedFor_example :
    IsAllowed ("a" ∷ []) (some "a")
    × (config : KsrConfig) × (some ksr_config ≡ some config)
    × (file : FileStorage) × (some uploaded ≡ some file)
    × IsSavedFor config (b'_' ∷ b'1' ∷ []) file saved
upload-IsSavedFor_example =
    upload-IsSavedFor ("a" ∷ []) (some ksr_config) (b'_' ∷ b'1' ∷ []) (some "a") (some uploaded)
      saved is_saved
