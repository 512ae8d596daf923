-- ===== src/Signer/Sign/Cover.antt =====
-- The keys of the request stay in the set while it grows.
use sam_ken_x_dnssec_keytool.Prelude.{
  List, [], ◌∷◌, ◌++◌, ◌≡◌, ◌⊎◌, inl, inr, sym, ap, subst, ◌∙◌, All, Any, Any-map, nat_eqb,
  nat_eqb_iff, Bool-cases,
}
use sam_ken_x_dnssec_keytool.Prelude.Equal.{Eq, contains, contains_iff, add, string_eq}
use sam_ken_x_dnssec_keytool.Outcome.{Result, ok, fold_each, >>=-eq-ok}
use sam_ken_x_dnssec_keytool.Data.{Set, Key}
use sam_ken_x_dnssec_keytool.Data.Equality.{key_eq}
use sam_ken_x_dnssec_keytool.Dnssec.{construct, post_init}
use sam_ken_x_dnssec_keytool.Config.{KskPolicy}
use sam_ken_x_dnssec_keytool.Crypto.{Cryptography}
use sam_ken_x_dnssec_keytool.Hsm.{Pkcs11}
use sam_ken_x_dnssec_keytool.Signer.Key.{CompositeKey}
use sam_ken_x_dnssec_keytool.Signer.Sign.{add_zsk, add_dns, add_revoked, override_ttl, revoke_key}

module _ {A : Type 0} ⦃e : Eq A⦄ (P : A → Type 0) where
  Any-snoc : (xs : List A) (a : A) → Any P xs ⊎ P a → Any P (xs ++ a ∷ [])
  Any-snoc [] a (inl m) = absurd m
  Any-snoc [] a (inr p) = inl p
  Any-snoc (x ∷ xs) a (inl (inl p)) = inl p
  Any-snoc (x ∷ xs) a (inl (inr m)) = inr (Any-snoc xs a (inl m))
  Any-snoc (x ∷ xs) a (inr p) = inr (Any-snoc xs a (inr p))

  -- A set keeps what it has.
  Any-add : (xs : List A) (a : A) → Any P xs → Any P (add a xs)
  unfolding add
  Any-add xs a m = elim (Bool-cases (contains xs a)) [
    | inl there ↦ rw there m
    | inr new ↦ rw new (Any-snoc xs a (inl m))
  ]

  -- What is added is there.
  Any-added : (xs : List A) (a : A) → P a → Any P (add a xs)
  unfolding add
  Any-added xs a p = elim (Bool-cases (contains xs a)) [
    | inl there ↦ rw there (Any-map xs (λ x same. subst P same p) ((contains_iff xs a).0 there))
    | inr new ↦ rw new (Any-snoc xs a (inr p))
  ]

-- What every step of a loop keeps, the loop keeps.
pub fold_each-keeps :
    {S A : Type 0} (Q : S → Type 0) (body : S → A → Result S)
    → ((s s' : S) (x : A) → Q s → body s x ≡ ok s' → Q s')
    → (xs : List A) (s s' : S) → Q s
    → fold_each body s xs ≡ ok s'
    → Q s'
unfolding fold_each
fold_each-keeps Q body step [] s s' q h = subst Q (cc) q
fold_each-keeps Q body step (x ∷ xs) s s' q h =
    let (t, h1, h2) = >>=-eq-ok (body s x) _ h in
    fold_each-keeps Q body step xs t s' (step s t x q h1) h2

-- The key, with the TTL of the KSK operator.
abbrev pub with_ttl : KskPolicy → Key → Key
with_ttl ksk_policy key = record key { ttl = ksk_policy.ttl }

construct-eq : (key key' : Key) → construct key ≡ ok key' → key' ≡ key
unfolding construct
construct-eq key key' h = let (_, _, same) = >>=-eq-ok (post_init key) _ h in cc

override_ttl-eq :
    (ksk_policy : KskPolicy) (key key' : Key)
    → override_ttl ksk_policy key ≡ ok key'
    → key' ≡ with_ttl ksk_policy key
unfolding override_ttl
override_ttl-eq ksk_policy key key' h = elim (Bool-cases (nat_eqb key.ttl ksk_policy.ttl)) [
  | inl same ↦
      let kept : ok key ≡ ok key' = rw same at h in
      let ttl : key.ttl ≡ ksk_policy.ttl = (nat_eqb_iff _ _).0 same in
      let e : key ≡ key' = cc in sym e ∙ ap (λ t. record key { ttl = t }) ttl
  | inr other ↦ construct-eq (with_ttl ksk_policy key) key' (rw other at h)
]

-- Every key of the list is in the set, with the TTL of the KSK operator.
abbrev pub AreCovered : KskPolicy → List Key → Set Key → Type 0
AreCovered ksk_policy zsks keys = All (λ zsk. Any (λ key. with_ttl ksk_policy zsk ≡ key) keys) zsks

add_zsk-keeps :
    (ksk_policy : KskPolicy) (P : Key → Type 0) (keys keys' : Set Key) (key : Key)
    → Any P keys
    → add_zsk ksk_policy keys key ≡ ok keys'
    → Any P keys'
unfolding add_zsk
add_zsk-keeps ksk_policy P keys keys' key m h =
    let (k, _, h1) = >>=-eq-ok (override_ttl ksk_policy key) _ h in
    let e : add k keys ≡ keys' = cc in subst (Any P) e (Any-add P keys k m)

add_zsk-covers :
    (ksk_policy : KskPolicy) (keys keys' : Set Key) (key : Key)
    → add_zsk ksk_policy keys key ≡ ok keys'
    → Any (λ x. with_ttl ksk_policy key ≡ x) keys'
unfolding add_zsk
add_zsk-covers ksk_policy keys keys' key h =
    let (k, ek, h1) = >>=-eq-ok (override_ttl ksk_policy key) _ h in
    let e : add k keys ≡ keys' = cc in
    subst (Any (λ x. with_ttl ksk_policy key ≡ x)) e
      (Any-added _ keys k (sym (override_ttl-eq ksk_policy key k ek)))

pub zsks-AreCovered :
    (ksk_policy : KskPolicy) (zsks : List Key) (keys keys' : Set Key)
    → fold_each (add_zsk ksk_policy) keys zsks ≡ ok keys'
    → AreCovered ksk_policy zsks keys'
unfolding fold_each
zsks-AreCovered ksk_policy [] keys keys' h = tt
zsks-AreCovered ksk_policy (x ∷ xs) keys keys' h =
    let (t, h1, h2) = >>=-eq-ok (add_zsk ksk_policy keys x) _ h in
    (
      fold_each-keeps (Any (λ k. with_ttl ksk_policy x ≡ k)) (add_zsk ksk_policy)
          (add_zsk-keeps ksk_policy _) xs t keys' (add_zsk-covers ksk_policy keys t x h1) h2,
      zsks-AreCovered ksk_policy xs t keys' h2,
    )

pub add_dns-keeps :
    {p : Pkcs11} (c : Cryptography) (P : Key → Type 0) (keys keys' : Set Key) (key : CompositeKey p)
    → Any P keys
    → add_dns c p keys key ≡ ok keys'
    → Any P keys'
unfolding add_dns
add_dns-keeps c P keys keys' key m h =
    let e : add key.dns keys ≡ keys' = cc in subst (Any P) e (Any-add P keys key.dns m)

pub add_revoked-keeps :
    {p : Pkcs11} (c : Cryptography) (P : Key → Type 0) (keys keys' : Set Key) (key : CompositeKey p)
    → Any P keys
    → add_revoked c p keys key ≡ ok keys'
    → Any P keys'
unfolding add_revoked
add_revoked-keeps c P keys keys' key m h =
    let (k, _, h1) = >>=-eq-ok (revoke_key key.dns) _ h in
    let e : add k keys ≡ keys' = cc in subst (Any P) e (Any-add P keys k m)
