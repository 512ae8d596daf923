-- ===== src/Signer/FirstKey.antt =====
-- The key of the last bundle that check_last_skr_key_present of signer/verify_chain.py looks at, the first
-- of the signature's identifier.
use sam_ken_x_dnssec_keytool.Prelude.{
  Option, none, some, ◌≡◌, ◌≢◌, ◌↔◌, inl, inr, refl, sym, subst, ap, ◌++◌, arith, Bool-cases, List,
  [], ◌∷◌, All, if◌then◌else◌,
}
use sam_ken_x_dnssec_keytool.Prelude.Equal.{◌==◌, ==_iff, string_eq, option_eq, list_eq, nat_eq}
use sam_ken_x_dnssec_keytool.Data.{Key, Signature, Set}

-- `[x for x in keys if x.key_identifier == sig.key_identifier][0]`, if there is one
unfoldable pub first_key_of : Set Key → Signature → Option Key
first_key_of [] sig = none
first_key_of (x ∷ xs) sig =
    if x.key_identifier == sig.key_identifier then some x else first_key_of xs sig

-- The first of the keys that has the identifier of the signature
pub record IsFirstOf (sig : Signature) (keys : Set Key) (key : Key) : Type 0 where
  pub before : List Key
  pub after : List Key
  pub split : keys ≡ before ++ key ∷ after
  pub others : All (λ (x : Key). x.key_identifier ≢ sig.key_identifier) before
  pub identified : key.key_identifier ≡ sig.key_identifier

IsFirstOf-skip :
    (sig : Signature) (x : Key) (xs : Set Key) (key : Key)
    → x.key_identifier ≢ sig.key_identifier
    → IsFirstOf sig xs key
    → IsFirstOf sig (x ∷ xs) key
IsFirstOf-skip sig x xs key other first = record {
  before = x ∷ first.before;
  after = first.after;
  split = ap (λ keys. x ∷ keys) first.split;
  others = (other, first.others);
  identified = first.identified;
}

first_key_of-IsFirstOf :
    (sig : Signature) (keys : Set Key) (key : Key)
    → first_key_of keys sig ≡ some key
    → IsFirstOf sig keys key
unfolding first_key_of
first_key_of-IsFirstOf sig [] key h = absurd (cc)
first_key_of-IsFirstOf sig (x ∷ xs) key h =
    elim (Bool-cases (x.key_identifier == sig.key_identifier)) [
      | inl here ↦
          let same : x ≡ key = ground arith in
          record {
            before = [];
            after = xs;
            split = ap (λ k. k ∷ xs) same;
            others = tt;
            identified =
                subst (λ (k : Key). k.key_identifier ≡ sig.key_identifier) same
                  ((==_iff x.key_identifier sig.key_identifier).0 here);
          }
      | inr other ↦
          IsFirstOf-skip sig x xs key
            (λ e. absurd (ground (arith, (==_iff x.key_identifier sig.key_identifier).1 e)))
            (first_key_of-IsFirstOf sig xs key (rw other at h))
    ]

first_key_of-append :
    (sig : Signature) (before after : List Key) (key : Key)
    → All (λ (x : Key). x.key_identifier ≢ sig.key_identifier) before
    → key.key_identifier ≡ sig.key_identifier
    → first_key_of (before ++ key ∷ after) sig ≡ some key
unfolding first_key_of
first_key_of-append sig [] after key others own =
    rw ((==_iff key.key_identifier sig.key_identifier).1 own) refl
first_key_of-append sig (x ∷ before) after key (other, others) own = ground (
  arith,
  ==_iff x.key_identifier sig.key_identifier,
  first_key_of-append sig before after key others own,
)

pub first_key_of_iff :
    (sig : Signature) (keys : Set Key) (key : Key)
    → (first_key_of keys sig ≡ some key) ↔ IsFirstOf sig keys key
first_key_of_iff sig keys key = (
  first_key_of-IsFirstOf sig keys key,
  λ first.
      subst (λ ks. first_key_of ks sig ≡ some key) (sym first.split)
        (first_key_of-append sig first.before first.after key first.others first.identified),
)
