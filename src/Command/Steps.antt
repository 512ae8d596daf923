-- ===== src/Command/Steps.antt =====
-- What each step of the command of tools/ksrsigner.py has made sure of when it lets the next one run.
use sam_ken_x_dnssec_keytool.Prelude.{
  ◌≡◌, ◌≢◌, ◌↔◌, ◌⊎◌, inl, inr, refl, String, Bool, true, false, Option, none, some, List, [], All,
  Bool-cases, iff_trans, ×_iff,
}
use sam_ken_x_dnssec_keytool.Prelude.Equal.{nat_eq, list_eq, ◌==◌, ==_iff}
use sam_ken_x_dnssec_keytool.Outcome.{Result, ok, raise, Passes, >>=-eq-ok, key_error, >>-Passes}
use sam_ken_x_dnssec_keytool.Outcome.Switch.{IfOn}
use sam_ken_x_dnssec_keytool.Texts.{Text}
use sam_ken_x_dnssec_keytool.Data.{Datetime, Bytes, Request, RequestBundle, Bundle, Response}
use sam_ken_x_dnssec_keytool.Config.{RequestPolicy, ResponsePolicy}
use sam_ken_x_dnssec_keytool.Crypto.{Cryptography}
use sam_ken_x_dnssec_keytool.Hsm.{Pkcs11}
use sam_ken_x_dnssec_keytool.Skr.{IsValidResponse}
use sam_ken_x_dnssec_keytool.Loading.{Documents, load_skr}
use sam_ken_x_dnssec_keytool.Loading.Accepted.{IsRead, load_skr_iff}
use sam_ken_x_dnssec_keytool.Signer.Chain.{
  check_chain, check_unique_ids, check_chain_iff, check_unique_ids-Passes, Joined, SharesKeys,
  ChainOverlaps,
}
use sam_ken_x_dnssec_keytool.Signer.Presence.{
  check_skr_and_ksr, check_last_skr_key_present_iff, IsSignedInHsm,
}
use sam_ken_x_dnssec_keytool.Signer.Safety.{
  check_last_skr_and_new_skr, check_publish_safety, check_publish_safety_iff,
  check_retire_safety_iff, Meet, IsPublished, IsRetiredSafely,
}
use sam_ken_x_dnssec_keytool.Command.{
  Step, ◌or_stop◌, except_key_error, except_any, strip_start, strip_end, yes, load_previous,
  check_previous, check_new, confirm,
}

pub go-injective : {A : Type 0} (o : Option A) (b : A) → Result.ok o ≡ ok (some b) → o ≡ some b
go-injective o b h = cc

-- A step that lets the next one run has a value.
pub or_stop-ok :
    {A B : Type 0} (m : Step A) (next : A → Step B) {b : B}
    → (m or_stop next) ≡ ok (some b)
    → (a : A) × (m ≡ ok (some a)) × (next a ≡ ok (some b))
or_stop-ok (raise e) next h = absurd (cc)
or_stop-ok (ok none) next h = absurd (cc)
or_stop-ok (ok (some a)) next h = (a, refl, h)

pub except_key_error-ok :
    {A : Type 0} (r : Result A) {a : A} → except_key_error r ≡ ok (some a) → r ≡ ok a
except_key_error-ok (ok b) h = cc
except_key_error-ok (raise key_error) h = absurd (cc)
except_key_error-ok (raise _) h = absurd (cc)

pub except_any-ok : {A : Type 0} (r : Result A) {a : A} → except_any r ≡ ok (some a) → r ≡ ok a
except_any-ok (ok b) h = cc
except_any-ok (raise e) h = absurd (cc)

-- The request continues the response of the last ceremony.
pub record Continues (p : Pkcs11) (request : Request) (skr : Response) (policy : RequestPolicy)
    (p11modules : List (List p.Session)) : Type 0 where
  pub new_id : request.id ≢ skr.id
  pub new_bundle_ids :
      All (λ (b : RequestBundle). All (λ (x : Bundle). b.id ≢ x.id) skr.bundles) request.bundles
  pub keys : IfOn policy.check_chain_keys (Joined SharesKeys skr request)
  pub overlap : IfOn policy.check_chain_overlap (Joined (ChainOverlaps request) skr request)
  pub present :
      (p11modules ≡ []) ⊎ IfOn policy.check_chain_keys_in_hsm (IsSignedInHsm p p11modules skr)

-- `check_skr_and_ksr` accepts exactly the requests that continue the response.
pub check_skr_and_ksr_iff :
    (p : Pkcs11) (request : Request) (skr : Response) (policy : RequestPolicy)
    (p11modules : List (List p.Session))
    → Passes (check_skr_and_ksr p p11modules request skr policy)
      ↔ Continues p request skr policy p11modules
unfolding check_skr_and_ksr
check_skr_and_ksr_iff p request skr policy p11modules =
    let ids = check_unique_ids-Passes request skr in
    let chain = check_chain_iff request skr policy in
    let keys = check_last_skr_key_present_iff p p11modules skr policy in
    (
      λ h.
          let (i, h1) = (>>-Passes (check_unique_ids request skr) _).0 h in
          let (k, h2) = (>>-Passes (check_chain request skr policy) _).0 h1 in
          record {
            new_id = (ids.0 i).0;
            new_bundle_ids = (ids.0 i).1;
            keys = (chain.0 k).0;
            overlap = (chain.0 k).1;
            present = keys.0 h2;
          },
      λ s. (>>-Passes (check_unique_ids request skr) _).1 (
        ids.1 (s.new_id, s.new_bundle_ids),
        (>>-Passes (check_chain request skr policy) _).1
            (chain.1 (s.keys, s.overlap), keys.1 s.present),
      ),
    )

-- The new response is safe after the one of the last ceremony.
abbrev pub IsSafeAfter : Response → Response → RequestPolicy → Type 0
IsSafeAfter skr new_skr policy =
    IfOn policy.check_keys_publish_safety (Meet (IsPublished new_skr) skr new_skr)
    × IfOn policy.check_keys_retire_safety (Meet (IsRetiredSafely new_skr) skr new_skr)

pub check_last_skr_and_new_skr_iff :
    (skr new_skr : Response) (policy : RequestPolicy)
    → Passes (check_last_skr_and_new_skr skr new_skr policy) ↔ IsSafeAfter skr new_skr policy
unfolding check_last_skr_and_new_skr
check_last_skr_and_new_skr_iff skr new_skr policy =
    iff_trans (>>-Passes (check_publish_safety skr new_skr policy) _) (
      ×_iff (check_publish_safety_iff skr new_skr policy)
        (check_retire_safety_iff skr new_skr policy))

-- `P` holds of the response, if there is one.
abbrev pub IfGiven : Option Response → (Response → Type 0) → Type 0
IfGiven none P = Unit
IfGiven (some skr) P = P skr

pub check_previous-IfGiven :
    (p : Pkcs11) (request : Request) (skr : Option Response) (policy : RequestPolicy)
    (p11modules : List (List p.Session))
    → Passes (check_previous p request skr policy p11modules)
    → IfGiven skr (λ s. Continues p request s policy p11modules)
unfolding check_previous
check_previous-IfGiven p request none policy p11modules h = tt
check_previous-IfGiven p request (some s) policy p11modules h =
    (check_skr_and_ksr_iff p request s policy p11modules).0 h

pub check_new-IfGiven :
    (skr : Option Response) (new_skr : Response) (policy : RequestPolicy)
    → Passes (check_new skr new_skr policy)
    → IfGiven skr (λ s. IsSafeAfter s new_skr policy)
unfolding check_new
check_new-IfGiven none new_skr policy h = tt
check_new-IfGiven (some s) new_skr policy h = (check_last_skr_and_new_skr_iff s new_skr policy).0 h

-- Nothing was asked for, or what came back is a valid response from the file.
abbrev pub IsLoaded :
    Cryptography → Datetime → Documents → Option String → ResponsePolicy → Option Response → Type 0
IsLoaded c dt_now documents none policy skr = skr ≡ none
IsLoaded c dt_now documents (some filename) policy skr =
    (s : Response) × (content : Bytes) × (skr ≡ some s)
    × IsRead c dt_now documents filename content
    × (documents.response_from_xml content ≡ ok s)
    × IsValidResponse c s policy

pub load_previous-IsLoaded :
    (c : Cryptography) (dt_now : Datetime) (documents : Documents) (filename : Option String)
    (policy : ResponsePolicy) (skr : Option Response)
    → load_previous c dt_now documents filename policy ≡ ok skr
    → IsLoaded c dt_now documents filename policy skr
unfolding load_previous
load_previous-IsLoaded c dt_now documents none policy skr h = cc
load_previous-IsLoaded c dt_now documents (some filename) policy skr h =
    let (s, loaded, h1) = >>=-eq-ok (load_skr c dt_now documents filename policy) _ h in
    let (content, read, parsed, valid) =
      (load_skr_iff c dt_now documents filename policy s).0 loaded in
    (s, content, cc, read, parsed, valid)

-- The confirmation was forced, or the operator typed "Yes".
abbrev pub IsConfirmed : Result Text → Bool → Type 0
IsConfirmed answer force =
    (force ≡ true) ⊎ ((ack : Text) × (answer ≡ ok ack) × (strip_end (strip_start ack) ≡ yes))

pub confirm-IsConfirmed :
    (answer : Result Text) (force : Bool)
    → confirm answer force ≡ ok (some tt)
    → IsConfirmed answer force
unfolding confirm
confirm-IsConfirmed answer true h = inl refl
confirm-IsConfirmed answer false h =
    let (ack, typed, h1) = >>=-eq-ok answer _ h in
    elim (Bool-cases (strip_end (strip_start ack) == yes)) [
      | inl e ↦ inr (ack, typed, (==_iff (strip_end (strip_start ack)) yes).0 e)
      | inr e ↦ absurd (cc (rw e at h1))
    ]
