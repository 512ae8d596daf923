-- ===== src/Signer/Create.antt =====
-- create_skr of signer/__init__.py, with the statement of the algorithms that the response contains.
use sam_ken_x_dnssec_keytool.Prelude.{
  ◌≡◌, ◌++◌, ◌∙◌, ◌↔◌, ◌⊎◌, inl, inr, refl, sym, subst, true, none, List, [], ◌∷◌, All, Any, arith,
  iff_trans, if◌then◌else◌, Bool-cases,
}
use sam_ken_x_dnssec_keytool.Prelude.Equal.{add, contains, contains_iff}
use sam_ken_x_dnssec_keytool.Outcome.{
  Result, ok, raise, ◌>>=◌, fold_each, fold_each-append, bind-ext, >>=-eq-ok, not_implemented_error,
  type_error,
}
use sam_ken_x_dnssec_keytool.Data.{
  Set, AlgorithmPolicy, SignaturePolicy, Key, Bundle, Request, Response,
}
use sam_ken_x_dnssec_keytool.Data.Algorithm.{AlgorithmDnssec, is_algorithm_rsa}
use sam_ken_x_dnssec_keytool.Data.Equality.{policy_eq}
use sam_ken_x_dnssec_keytool.PublicKey.{PublicKey, rsa, ecdsa}
use sam_ken_x_dnssec_keytool.PublicKey.Rsa.{decode_rsa_public_key}
use sam_ken_x_dnssec_keytool.Config.{KskPolicy, Schema}
use sam_ken_x_dnssec_keytool.Crypto.{Cryptography}
use sam_ken_x_dnssec_keytool.Hsm.{Pkcs11}
use sam_ken_x_dnssec_keytool.Signer.Sign.{SigningConfig, sign_bundles}

-- What is decoded is an RSA key; no other key has an exponent.
abbrev pub rsa_policy : AlgorithmDnssec → PublicKey → Result AlgorithmPolicy
rsa_policy algorithm (rsa bits exponent n) = ok (AlgorithmPolicy.rsa bits algorithm exponent)
rsa_policy algorithm (ecdsa bits q curve) = raise type_error

-- the body of the inner loop
unfoldable pub add_key_algorithm : Set AlgorithmPolicy → Key → Result (Set AlgorithmPolicy)
unfolding is_algorithm_rsa add decode_rsa_public_key
add_key_algorithm algorithms key =
    if is_algorithm_rsa key.algorithm
    then (do
      pub_key ← decode_rsa_public_key key.public_key
      alg ← rsa_policy key.algorithm pub_key
      ok (add alg algorithms))
    else raise not_implemented_error

unfoldable pub add_bundle_algorithms : Set AlgorithmPolicy → Bundle → Result (Set AlgorithmPolicy)
unfolding fold_each add_key_algorithm
add_bundle_algorithms algorithms bundle = fold_each add_key_algorithm algorithms bundle.keys

-- _ksk_signature_policy
unfoldable pub ksk_signature_policy : KskPolicy → List Bundle → Result SignaturePolicy
unfolding fold_each add_bundle_algorithms
ksk_signature_policy ksk_policy bundles = do
  algorithms ← fold_each add_bundle_algorithms [] bundles
  ok (record ksk_policy.signature_policy { algorithms = algorithms })

module _ (c : Cryptography) (p : Pkcs11) where
  unfoldable pub create_skr :
      Request → Schema → List (List p.Session) → KskPolicy → SigningConfig → Result Response
  unfolding sign_bundles ksk_signature_policy
  create_skr request schema p11modules ksk_policy config = do
    bundles ← sign_bundles c p p11modules ksk_policy config request schema
    policy ← ksk_signature_policy ksk_policy bundles
    let response : Response = record {
      id = request.id;
      serial = request.serial;
      domain = request.domain;
      bundles = bundles;
      ksk_policy = policy;
      zsk_policy = request.zsk_policy;
      timestamp = none;
    }
    ok response

-- The policy of an RSA key: the size and the exponent that its public key has
abbrev pub IsPolicyOf : Key → AlgorithmPolicy → Type 0
IsPolicyOf key alg =
    (is_algorithm_rsa key.algorithm ≡ true)
    × (pub_key : PublicKey) × (decode_rsa_public_key key.public_key ≡ ok pub_key)
    × (rsa_policy key.algorithm pub_key ≡ ok alg)

add_key_algorithm-ok :
    (algorithms after : Set AlgorithmPolicy) (key : Key)
    → add_key_algorithm algorithms key ≡ ok after
    → (alg : AlgorithmPolicy) × IsPolicyOf key alg × (after ≡ add alg algorithms)
unfolding add_key_algorithm
add_key_algorithm-ok algorithms after key h = elim (Bool-cases (is_algorithm_rsa key.algorithm)) [
  | inl e ↦
      let (pub_key, decoded, h1) = >>=-eq-ok (decode_rsa_public_key key.public_key) _ (rw e at h) in
      let (alg, made, h2) = >>=-eq-ok (rsa_policy key.algorithm pub_key) _ h1 in
      (alg, (e, pub_key, decoded, made), cc)
  | inr e ↦ absurd (cc (rw e at h))
]

-- the keys of all bundles, in their order
abbrev pub keys_of : List Bundle → List Key
keys_of [] = []
keys_of (b ∷ bs) = b.keys ++ keys_of bs

all_bundles-keys :
    (algorithms : Set AlgorithmPolicy) (bundles : List Bundle)
    → fold_each add_bundle_algorithms algorithms bundles
      ≡ fold_each add_key_algorithm algorithms (keys_of bundles)
unfolding fold_each add_bundle_algorithms
all_bundles-keys algorithms [] = refl
all_bundles-keys algorithms (b ∷ bs) =
    bind-ext (fold_each add_key_algorithm algorithms b.keys) (λ s. all_bundles-keys s bs)
    ∙ sym (fold_each-append add_key_algorithm algorithms b.keys (keys_of bs))

abbrev pub In : AlgorithmPolicy → Set AlgorithmPolicy → Type 0
In alg algorithms = Any (λ a. alg ≡ a) algorithms

In-append :
    (a x : AlgorithmPolicy) (s : Set AlgorithmPolicy) → In a (s ++ x ∷ []) ↔ ((a ≡ x) ⊎ In a s)
In-append a x [] = ground arith
In-append a x (y ∷ s) = ground (arith, In-append a x s)

In-add :
    (alg a : AlgorithmPolicy) (s : Set AlgorithmPolicy) → In a (add alg s) ↔ ((a ≡ alg) ⊎ In a s)
unfolding add
In-add alg a s = elim (Bool-cases (contains s alg)) [
  | inl h ↦ rw h (
    λ m. inr m,
    λ m. elim m [ inl e ↦ subst (λ x. In x s) (sym e) ((contains_iff s alg).0 h) | inr m' ↦ m' ],
  )
  | inr h ↦ rw h (In-append a alg s)
]

IsPolicyOf-unique :
    (key : Key) (a b : AlgorithmPolicy) → IsPolicyOf key a → IsPolicyOf key b → a ≡ b
IsPolicyOf-unique key a b (_, p, dp, mp) (_, q, dq, mq) =
    let same : p ≡ q = cc in let made : rsa_policy key.algorithm p ≡ ok b = rw (same, mq) refl in cc

-- The algorithms that one more key adds
with_key :
    (key : Key) (alg a : AlgorithmPolicy) (s : Set AlgorithmPolicy) {Rest : Type 0}
    → IsPolicyOf key alg
    → (In a (add alg s) ⊎ Rest) ↔ (In a s ⊎ (IsPolicyOf key a ⊎ Rest))
with_key key alg a s is = (
  λ h. elim h [
    | inl m ↦ elim ((In-add alg a s).0 m) [
      | inl e ↦ inr (inl (subst (IsPolicyOf key) (sym e) is))
      | inr old ↦ inl old
    ]
    | inr r ↦ inr (inr r)
  ],
  λ h. elim h [
    | inl old ↦ inl ((In-add alg a s).1 (inr old))
    | inr (inl its) ↦ inl ((In-add alg a s).1 (inl (IsPolicyOf-unique key a alg its is)))
    | inr (inr r) ↦ inr r
  ],
)

-- The algorithms that the keys leave are the policies of the keys and those from before, and every
-- key has a policy.
abbrev pub Collects : Set AlgorithmPolicy → List Key → Set AlgorithmPolicy → Type 0
Collects before keys after =
    ((a : AlgorithmPolicy) → In a after ↔ (In a before ⊎ Any (λ key. IsPolicyOf key a) keys))
    × All (λ key. (alg : AlgorithmPolicy) × IsPolicyOf key alg) keys

add_keys-ok :
    (algorithms after : Set AlgorithmPolicy) (keys : List Key)
    → fold_each add_key_algorithm algorithms keys ≡ ok after
    → Collects algorithms keys after
unfolding fold_each
add_keys-ok algorithms after [] h =
    let same : algorithms ≡ after = cc in
    subst (Collects algorithms []) same
      (λ a. (λ m. inl m, λ m. elim m [ inl n ↦ n | inr n ↦ absurd n ]), tt)
add_keys-ok algorithms after (key ∷ keys) h =
    let (s, e, h1) = >>=-eq-ok (add_key_algorithm algorithms key) _ h in
    let (alg, is, same) = add_key_algorithm-ok algorithms s key e in
    let (members, rest) = add_keys-ok s after keys h1 in
    (λ a. iff_trans (members a) (rw same (with_key key alg a algorithms is)), ((alg, is), rest))

-- The policy that a response announces is the operator's, with the algorithms of the keys of its
-- bundles and no other: every one of these keys is an RSA key and its size and exponent are announced.
pub ksk_signature_policy-Collects :
    (ksk_policy : KskPolicy) (bundles : List Bundle) (policy : SignaturePolicy)
    → ksk_signature_policy ksk_policy bundles ≡ ok policy
    → Collects [] (keys_of bundles) policy.algorithms
      × (record policy { algorithms = ksk_policy.signature_policy.algorithms }
          ≡ ksk_policy.signature_policy)
unfolding ksk_signature_policy
ksk_signature_policy-Collects ksk_policy bundles policy h =
    let (algorithms, e, h1) = >>=-eq-ok (fold_each add_bundle_algorithms [] bundles) _ h in
    let made : record ksk_policy.signature_policy { algorithms = algorithms } ≡ policy = cc in
    subst
      (λ (x : SignaturePolicy).
        Collects [] (keys_of bundles) x.algorithms
        × (record x { algorithms = ksk_policy.signature_policy.algorithms }
            ≡ ksk_policy.signature_policy))
      made
      (add_keys-ok [] algorithms (keys_of bundles) (sym (all_bundles-keys [] bundles) ∙ e), refl)
