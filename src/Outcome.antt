-- ===== src/Outcome.antt =====
-- Python's exceptions, as values: a function of the source that may raise returns a `Result`, and
-- `raise e` is the exception that leaves it. The exceptions of the library keep the class that the
-- source gives them (common/validate.py and the `..._Violation` classes of the other files).
pub mod Index
pub mod Limits
pub mod Switch
pub mod Pairs
use mathlib.Core.Option.{some-injective}
use sam_ken_x_dnssec_keytool.Prelude.{
  ◌≡◌, ◌↔◌, refl, sym, subst, Bool, true, false, Option, none, some, arith, List, [], ◌∷◌, ◌++◌,
  All, iff_trans, ×_iff,
}

pub data Exception : Type 0 where
  value_error runtime_error not_implemented_error key_error index_error struct_error : Exception
  overflow_error assertion_error type_error : Exception
  -- argparse.ArgumentError
  argument_error : Exception
  -- `open` on a name that is no file's, and the answers of the web server (werkzeug.exceptions)
  file_not_found_error bad_request forbidden request_entity_too_large : Exception
  -- cryptography.exceptions.InvalidSignature, and its subclass of signer/sign.py
  invalid_signature skr_verify_failure : Exception
  -- common/config.py, signer/sign.py, signer/key.py
  configuration_error create_signature_error key_usage_policy_violation : Exception
  -- common/validate.py and skr/validate.py
  policy_violation invalid_signature_violation : Exception
  -- ksr/verify_header.py
  ksr_id_violation ksr_domain_violation : Exception
  -- ksr/verify_bundles.py
  ksr_bundle_keys_violation ksr_bundle_pop_violation ksr_bundle_unique_violation : Exception
  ksr_bundle_count_violation ksr_bundle_cycle_duration_violation : Exception
  -- ksr/verify_policy.py
  ksr_policy_violation ksr_policy_keys_violation ksr_policy_alg_violation : Exception
  ksr_policy_sig_overlap_violation ksr_policy_sig_validity_violation : Exception
  ksr_policy_sig_horizon_violation ksr_policy_bundle_interval_violation : Exception
  ksr_policy_safety_violation : Exception
  -- signer/verify_chain.py
  ksr_chain_keys_violation ksr_chain_overlap_violation : Exception

pub data Result {ℓ} (A : Type ℓ) : Type ℓ where
  ok : A → Result A
  raise : Exception → Result A

-- A statement whose value is `None`.
abbrev pub Checked : Type 0
Checked = Result (Unit {0})

-- The first exception ends what follows.
infixl 5 ◌>>=◌ ◌>>◌
abbrev pub ◌>>=◌ {ℓ κ} : {A : Type ℓ} {B : Type κ} → Result A → (A → Result B) → Result B
raise e >>= next = raise e
ok value >>= next = next value

abbrev pub ◌>>◌ {ℓ} : {B : Type ℓ} → Checked → Result B → Result B
m >> k = m >>= λ _. k

abbrev pub done : Checked
done = ok tt

-- `if not b: raise e`
abbrev pub guard : Bool → Exception → Checked
guard true e = ok tt
guard false e = raise e

-- `if b: raise e`
abbrev pub refuse : Bool → Exception → Checked
refuse true e = raise e
refuse false e = ok tt

-- a value that may be missing: an index out of range, a key that a dictionary lacks
abbrev pub require {ℓ} : {A : Type ℓ} → Option A → Exception → Result A
require none e = raise e
require (some a) e = ok a

-- `m` raised nothing.
abbrev pub Passes : Checked → Type 0
Passes m = m ≡ ok tt

-- A run that succeeds has gone through both parts.
pub >>=-eq-ok {ℓ κ} :
    {A : Type ℓ} {B : Type κ} (first : Result A) (next : A → Result B) {result : B}
    → (first >>= next) ≡ ok result
    → (between : A) × (first ≡ ok between) × (next between ≡ ok result)
>>=-eq-ok (raise e) next e_eq = absurd (cc)
>>=-eq-ok (ok between) next e_eq = (between, refl, e_eq)

pub require-eq-ok {ℓ} :
    {A : Type ℓ} (o : Option A) (e : Exception) {a : A} → require o e ≡ ok a → o ≡ some a
require-eq-ok none e h = cc
require-eq-ok (some a) e h = cc

pub >>-Passes : (m k : Checked) → Passes (m >> k) ↔ (Passes m × Passes k)
>>-Passes (ok tt) k = ground arith
>>-Passes (raise e) k = ground arith

pub guard-Passes : (b : Bool) (e : Exception) → Passes (guard b e) ↔ (b ≡ true)
guard-Passes b e = ground arith

pub refuse-Passes : (b : Bool) (e : Exception) → Passes (refuse b e) ↔ (b ≡ false)
refuse-Passes b e = ground arith

-- `for x in xs: body(x)`: the first exception ends the loop.
unfoldable pub for_each {ℓ} : {A : Type ℓ} → (A → Checked) → List A → Checked
for_each body [] = done
for_each body (x ∷ xs) = body x >> for_each body xs

-- The loop passes exactly when the body passes at every element.
pub for_each-Passes {ℓ} :
    {A : Type ℓ} (body : A → Checked) (xs : List A)
    → Passes (for_each body xs) ↔ All (λ x. Passes (body x)) xs
unfolding for_each
for_each-Passes body [] = ground arith
for_each-Passes body (x ∷ xs) =
    iff_trans (>>-Passes (body x) (for_each body xs))
      (×_iff (λ p. p, λ p. p) (for_each-Passes body xs))

-- `[body(x) for x in xs]`
unfoldable pub map_each {ℓ κ} :
    {A : Type ℓ} {B : Type κ} → (A → Result B) → List A → Result (List B)
map_each body [] = ok []
map_each body (x ∷ xs) = do y ← body x; ys ← map_each body xs; ok (y ∷ ys)

-- A loop that carries a state: `for x in xs: s = body(s, x)`.
unfoldable pub fold_each {ℓ κ} :
    {S : Type ℓ} {A : Type κ} → (S → A → Result S) → S → List A → Result S
fold_each body s [] = ok s
fold_each body s (x ∷ xs) = body s x >>= λ s'. fold_each body s' xs

-- `try: m` / `except InvalidSignature: raise e`, where the subclass is caught too
abbrev pub except_invalid_signature {ℓ} : {A : Type ℓ} → Result A → Exception → Result A
except_invalid_signature (raise invalid_signature) e = raise e
except_invalid_signature (raise skr_verify_failure) e = raise e
except_invalid_signature m e = m

-- Two continuations that agree may be exchanged.
pub bind-ext {ℓ κ} :
    {A : Type ℓ} {B : Type κ} (r : Result A) {f g : A → Result B}
    → ((a : A) → f a ≡ g a)
    → (r >>= f) ≡ (r >>= g)
bind-ext (ok a) h = h a
bind-ext (raise e) h = refl

bind-regroup {ℓ κ μ} :
    {A : Type ℓ} {B : Type κ} {C : Type μ} (r : Result A) {f : A → Result C} (g : A → Result B)
    (k : B → Result C)
    → ((a : A) → f a ≡ (g a >>= k))
    → (r >>= f) ≡ ((r >>= g) >>= k)
bind-regroup (ok a) g k h = h a
bind-regroup (raise e) g k h = refl

pub fold_each-append {ℓ κ} :
    {S : Type ℓ} {A : Type κ} (body : S → A → Result S) (s : S) (xs ys : List A)
    → fold_each body s (xs ++ ys) ≡ (fold_each body s xs >>= λ s'. fold_each body s' ys)
unfolding fold_each
fold_each-append body s [] ys = refl
fold_each-append body s (x ∷ xs) ys =
    bind-regroup (body s x) _ _ (λ s'. fold_each-append body s' xs ys)

-- Catching one exception changes no success.
pub except_invalid_signature_iff {ℓ} :
    {A : Type ℓ} (m : Result A) (e : Exception) (a : A)
    → (except_invalid_signature m e ≡ ok a) ↔ (m ≡ ok a)
except_invalid_signature_iff (ok b) e a = (λ h. h, λ h. h)
except_invalid_signature_iff (raise invalid_signature) e a = (λ h. absurd (cc), λ h. absurd (cc))
except_invalid_signature_iff (raise skr_verify_failure) e a = (λ h. absurd (cc), λ h. absurd (cc))
except_invalid_signature_iff (raise _) e a = (λ h. absurd (cc), λ h. absurd (cc))

-- The subclasses of PolicyViolation
abbrev pub is_policy_violation : Exception → Bool
is_policy_violation key_usage_policy_violation = true
is_policy_violation policy_violation = true
is_policy_violation invalid_signature_violation = true
is_policy_violation ksr_id_violation = true
is_policy_violation ksr_domain_violation = true
is_policy_violation ksr_bundle_keys_violation = true
is_policy_violation ksr_bundle_pop_violation = true
is_policy_violation ksr_bundle_unique_violation = true
is_policy_violation ksr_bundle_count_violation = true
is_policy_violation ksr_bundle_cycle_duration_violation = true
is_policy_violation ksr_policy_violation = true
is_policy_violation ksr_policy_keys_violation = true
is_policy_violation ksr_policy_alg_violation = true
is_policy_violation ksr_policy_sig_overlap_violation = true
is_policy_violation ksr_policy_sig_validity_violation = true
is_policy_violation ksr_policy_sig_horizon_violation = true
is_policy_violation ksr_policy_bundle_interval_violation = true
is_policy_violation ksr_policy_safety_violation = true
is_policy_violation ksr_chain_keys_violation = true
is_policy_violation ksr_chain_overlap_violation = true
is_policy_violation e = false

-- `require`, and then the rest
pub require-Passes {ℓ} :
    {A : Type ℓ} (o : Option A) (e : Exception) (f : A → Checked)
    → Passes (require o e >>= f) ↔ ((a : A) × (o ≡ some a) × Passes (f a))
require-Passes none e f = (λ h. absurd (cc), λ (a, h, p). absurd (cc))
require-Passes (some a) e f =
    (λ h. (a, refl, h), λ (b, h, p). subst (λ x. Passes (f x)) (sym (some-injective _ _ h)) p)
