-- ===== src/Loading.antt =====
-- load_ksr and load_skr of ksr/load.py and skr/load.py. The file system and the parsers of the XML
-- documents are parameters.
pub mod Accepted
use sam_ken_x_dnssec_keytool.Prelude.{
  ℕ, zero, suc, List, [], ◌∷◌, subst, ◌∙◌, ◌≤◌, ◌≡◌, ◌↔◌, ◌⊎◌, inl, inr, refl, String, Bool, true,
  false, not, ltb, length, take, if◌then◌else◌, arith, Bool-cases,
}
use sam_ken_x_dnssec_keytool.Outcome.{
  Exception, Result, ok, raise, ◌>>=◌, ◌>>◌, Checked, Passes, done, guard, refuse,
  is_policy_violation, runtime_error, >>=-eq-ok, refuse-Passes,
}
use sam_ken_x_dnssec_keytool.Data.{Bytes, Datetime, Request, Response}
use sam_ken_x_dnssec_keytool.Config.{RequestPolicy, ResponsePolicy}
use sam_ken_x_dnssec_keytool.Crypto.{Cryptography}
use sam_ken_x_dnssec_keytool.Ksr.{validate_request, validate_request_iff, IsValidRequest}
use sam_ken_x_dnssec_keytool.Skr.{validate_response, validate_response_iff, IsValidResponse}

-- The content of a regular file, whose size is the length of the content, and the document that it
-- holds; each may raise.
pub record Documents : Type 0 where
  pub read_file : String → Result Bytes
  pub request_from_xml : Bytes → Result Request
  pub response_from_xml : Bytes → Result Response

abbrev pub max_size : ℕ
max_size = 1_048_576

-- `except PolicyViolation: raise RuntimeError`, unless the original is wanted
unfoldable pub except_policy_violation : (raise_original : Bool) → Checked → Checked
except_policy_violation raise_original (ok u) = ok u
except_policy_violation raise_original (raise e) =
    if is_policy_violation e then raise (if raise_original then e else runtime_error) else raise e

module _ (c : Cryptography) (dt_now : Datetime) (documents : Documents) where
  open documents use {read_file, request_from_xml, response_from_xml}

  -- The size is that of the open file, and what is read is cut at the same limit.
  unfoldable pub read_limited : String → Result Bytes
  read_limited filename = do
    content ← read_file filename
    refuse (ltb max_size (length content)) runtime_error
    ok (take max_size content)

  unfoldable pub load_ksr : String → RequestPolicy → (raise_original : Bool) → Result Request
  unfolding read_limited validate_request except_policy_violation
  load_ksr filename policy raise_original = do
    xml_bytes ← read_limited filename
    request ← request_from_xml xml_bytes
    except_policy_violation raise_original
        (validate_request c dt_now request policy >>= λ valid. guard valid runtime_error)
    ok request

  -- what `validate_response` returns is not looked at
  unfoldable pub load_skr : String → ResponsePolicy → Result Response
  unfolding read_limited validate_response except_policy_violation
  load_skr filename policy = do
    xml_bytes ← read_limited filename
    response ← response_from_xml xml_bytes
    except_policy_violation false (validate_response c response policy >>= λ _. done)
    ok response
