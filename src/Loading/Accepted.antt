-- ===== src/Loading/Accepted.antt =====
-- Which requests and responses `load_ksr` and `load_skr` load (ksr/load.py and skr/load.py).
use sam_ken_x_dnssec_keytool.Prelude.{
  inl, inr, ℕ, zero, suc, List, [], ◌∷◌, subst, ◌≤◌, ◌≡◌, ◌↔◌, refl, String, Bool, true, false, ltb,
  length, take, arith, Bool-cases,
}
use sam_ken_x_dnssec_keytool.Outcome.{
  ok, raise, ◌>>=◌, ◌>>◌, Checked, Passes, done, guard, refuse, is_policy_violation, runtime_error,
  >>=-eq-ok, refuse-Passes,
}
use sam_ken_x_dnssec_keytool.Data.{Bytes, Datetime, Request, Response}
use sam_ken_x_dnssec_keytool.Config.{RequestPolicy, ResponsePolicy}
use sam_ken_x_dnssec_keytool.Crypto.{Cryptography}
use sam_ken_x_dnssec_keytool.Ksr.{validate_request, validate_request_iff, IsValidRequest}
use sam_ken_x_dnssec_keytool.Skr.{validate_response, validate_response_iff, IsValidResponse}
use sam_ken_x_dnssec_keytool.Loading.{
  Documents, max_size, except_policy_violation, read_limited, load_ksr, load_skr,
}

take-all : {A : Type 0} (n : ℕ) (xs : List A) → length xs ≤ n → take n xs ≡ xs
take-all zero [] h = refl
take-all (suc n) [] h = refl
take-all zero (x ∷ xs) h = absurd (omega arith)
take-all (suc n) (x ∷ xs) h = rw (take-all n xs (omega arith))

not_above : (limit n : ℕ) → ltb limit n ≡ false → n ≤ limit
not_above limit n h = ground arith

within : (limit n : ℕ) → n ≤ limit → ltb limit n ≡ false
within limit n h = ground arith

checks-true :
    (m k : Checked) (b : Bool) → (m >> (k >> ok true)) ≡ ok b → (m >> (k >> ok true)) ≡ ok true
checks-true (ok u) (ok u') b h = refl
checks-true (ok u) (raise e) b h = absurd (cc)
checks-true (raise e) k b h = absurd (cc)

-- `validate_response` never returns false.
validate_response-true :
    (c : Cryptography) (response : Response) (policy : ResponsePolicy) (b : Bool)
    → validate_response c response policy ≡ ok b
    → validate_response c response policy ≡ ok true
unfolding validate_response
validate_response-true c response policy b h = checks-true _ _ b h

module _ (c : Cryptography) (dt_now : Datetime) (documents : Documents) where
  open documents use {read_file, request_from_xml, response_from_xml}

  except_policy_violation-Passes :
      (raise_original : Bool) (m : Checked)
      → Passes (except_policy_violation raise_original m) ↔ Passes m
  unfolding except_policy_violation
  except_policy_violation-Passes raise_original (ok u) = (λ h. h, λ h. h)
  except_policy_violation-Passes raise_original (raise e) =
      elim (Bool-cases (is_policy_violation e)) [
        | inl h ↦ rw h (λ p. absurd (cc), λ p. absurd (cc))
        | inr h ↦ rw h (λ p. p, λ p. p)
      ]

  -- What a file within the limit holds, as it is read
  pub IsRead : String → Bytes → Type 0
  IsRead filename content = (read_file filename ≡ ok content) × (length content ≤ max_size)

  read_limited_iff :
      (filename : String) (content : Bytes)
      → (read_limited c dt_now documents filename ≡ ok content) ↔ IsRead filename content
  unfolding read_limited IsRead
  read_limited_iff filename content = (
    λ h.
        let (found, e, h1) = >>=-eq-ok (read_file filename) _ h in
        let (_, small, h2) = >>=-eq-ok (refuse (ltb max_size (length found)) runtime_error) _ h1 in
        let fits : length found ≤ max_size =
          not_above max_size (length found) ((refuse-Passes _ runtime_error).0 small) in
        let whole = take-all max_size found fits in
        let same : found ≡ content = cc in
        subst (λ x. (read_file filename ≡ ok x) × (length x ≤ max_size)) same (e, fits),
    λ (e, fits).
        let small = within max_size (length content) fits in
        rw (e, small, take-all max_size content fits) refl,
  )

  -- A KSR is loaded exactly if its file can be read and is not too large, is parsed into a request,
  -- and the request is acceptable under the policy.
  pub load_ksr_iff :
      (filename : String) (policy : RequestPolicy) (raise_original : Bool) (request : Request)
      → (load_ksr c dt_now documents filename policy raise_original ≡ ok request) ↔ (
          (content : Bytes) × IsRead filename content
          × (request_from_xml content ≡ ok request)
          × IsValidRequest c dt_now request policy)
  unfolding load_ksr
  load_ksr_iff filename policy raise_original request = (
    λ h.
        let (content, e0, h1) = >>=-eq-ok (read_limited c dt_now documents filename) _ h in
        let (loaded, e1, h2) = >>=-eq-ok (request_from_xml content) _ h1 in
        let (_, e2, h3) =
          >>=-eq-ok
            (except_policy_violation raise_original
              (validate_request c dt_now loaded policy >>= λ valid. guard valid runtime_error))
            _ h2 in
        let (valid, e3, h4) =
          >>=-eq-ok (validate_request c dt_now loaded policy) _
            ((except_policy_violation-Passes raise_original _).0 e2) in
        let same : loaded ≡ request = cc in
        subst
          (λ x.
            (content : Bytes) × IsRead filename content
            × (request_from_xml content ≡ ok x)
            × IsValidRequest c dt_now x policy)
          same
          (
            content,
            (read_limited_iff filename content).0 e0,
            e1,
            ((validate_request_iff c dt_now loaded policy valid).0 e3).0,
          ),
    λ (content, read, parsed, valid).
        rw
          (
            (read_limited_iff filename content).1 read,
            parsed,
            (validate_request_iff c dt_now request policy true).1 (valid, refl),
            except_policy_violation,
          )
          refl,
  )

  -- An SKR is loaded exactly if its file can be read and is not too large, is parsed into a response,
  -- and the response has the number of bundles and the signatures that the policy asks for.
  pub load_skr_iff :
      (filename : String) (policy : ResponsePolicy) (response : Response)
      → (load_skr c dt_now documents filename policy ≡ ok response) ↔ (
          (content : Bytes) × IsRead filename content
          × (response_from_xml content ≡ ok response)
          × IsValidResponse c response policy)
  unfolding load_skr
  load_skr_iff filename policy response = (
    λ h.
        let (content, e0, h1) = >>=-eq-ok (read_limited c dt_now documents filename) _ h in
        let (loaded, e1, h2) = >>=-eq-ok (response_from_xml content) _ h1 in
        let (_, e2, h3) =
          >>=-eq-ok
            (except_policy_violation false (validate_response c loaded policy >>= λ _. done)) _
            h2 in
        let (valid, e3, h4) =
          >>=-eq-ok (validate_response c loaded policy) _
            ((except_policy_violation-Passes false _).0 e2) in
        let same : loaded ≡ response = cc in
        subst
          (λ x.
            (content : Bytes) × IsRead filename content
            × (response_from_xml content ≡ ok x)
            × IsValidResponse c x policy)
          same
          (
            content,
            (read_limited_iff filename content).0 e0,
            e1,
            (validate_response_iff c loaded policy).0
                (validate_response-true c loaded policy valid e3),
          ),
    λ (content, read, parsed, valid).
        rw
          (
            (read_limited_iff filename content).1 read,
            parsed,
            (validate_response_iff c response policy).1 valid,
            except_policy_violation,
          )
          refl,
  )
