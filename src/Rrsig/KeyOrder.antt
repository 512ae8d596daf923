-- ===== src/Rrsig/KeyOrder.antt =====
-- The data that is signed does not depend on the order in which the set of keys is visited.
use mathlib.Core.List.{Permᴰ, Perm}
use mathlib.Core.Logic.{∥∥₁_elim}
use sam_ken_x_dnssec_keytool.Prelude.{◌≡◌, refl, ap, subst, ◌∙◌, sym, List, [], ◌∷◌, ◌++◌}
use sam_ken_x_dnssec_keytool.Outcome.{Result, ok, ◌>>=◌, >>=-eq-ok, map_each}
use sam_ken_x_dnssec_keytool.Data.{Bytes, Set, Key, Signature}
use sam_ken_x_dnssec_keytool.Dnssec.{key_to_rdata}
use sam_ken_x_dnssec_keytool.Rrsig.{make_raw_rrsig, rrsig_header, rr_prefix, add_keys, dn2wire}
use sam_ken_x_dnssec_keytool.Rrsig.Sorting.{sorted, sorted-perm}

module _ {A B : Type 0} (f : A → Result B) where
  map_each-cons :
      (x : A) (xs : List A) {y : B} {ys : List B}
      → f x ≡ ok y
      → map_each f xs ≡ ok ys
      → map_each f (x ∷ xs) ≡ ok (y ∷ ys)
  unfolding map_each
  map_each-cons x xs p q = rw (p, q)

  map_each-uncons :
      (x : A) (xs : List A) {zs : List B}
      → map_each f (x ∷ xs) ≡ ok zs
      → (y : B) × (ys : List B) × (f x ≡ ok y) × (map_each f xs ≡ ok ys) × (zs ≡ y ∷ ys)
  unfolding map_each
  map_each-uncons x xs e =
      let (y, p, e1) = >>=-eq-ok (f x) _ e in
      let (ys, q, e2) = >>=-eq-ok (map_each f xs) _ e1 in (y, ys, p, q, cc)

  map_each-nil : map_each f [] ≡ ok []
  unfolding map_each
  map_each-nil = refl

  -- Visiting the elements in another order gives the same results in another order.
  map_each-perm :
      {xs xs' : List A} {ys : List B}
      → Permᴰ xs xs'
      → map_each f xs ≡ ok ys
      → (ys' : List B) × (map_each f xs' ≡ ok ys') × Permᴰ ys ys'
  map_each-perm Permᴰ.nil e =
      ([], map_each-nil, subst (λ l. Permᴰ l []) (cc map_each-nil) Permᴰ.nil)
  map_each-perm (Permᴰ.cons {a = a} {b = b} {l₁ = l} {l₂ = l'} same p) e =
      let (y, rest, ey, er, all) = map_each-uncons a l e in
      let (rest', er', r) = map_each-perm p er in
      (
        y ∷ rest',
        map_each-cons b l' (sym (ap f same) ∙ ey) er',
        subst (λ ys. Permᴰ ys (y ∷ rest')) (sym all) (Permᴰ.cons refl r),
      )
  map_each-perm (Permᴰ.swap {a = a} {b = b} {a' = a'} {b' = b'} {l = l} first second) e =
      let (y, rest, ey, er, all) = map_each-uncons a (b ∷ l) e in
      let (z, more, ez, em, all') = map_each-uncons b l er in
      (
        z ∷ y ∷ more,
        map_each-cons a' (b' ∷ l) (sym (ap f second) ∙ ez)
            (map_each-cons b' l (sym (ap f first) ∙ ey) em),
        subst (λ ys. Permᴰ ys (z ∷ y ∷ more)) (sym (all ∙ ap (λ ys. y ∷ ys) all'))
            (Permᴰ.swap refl refl),
      )
  map_each-perm (Permᴰ.trans p q) e =
      let (ys', e', r) = map_each-perm p e in
      let (ys'', e'', r') = map_each-perm q e' in (ys'', e'', Permᴰ.trans r r')

Result-set : IsSet (Result Bytes)
Result-set = hlevel

module _ (sig : Signature) where
  -- With the keys in wire form the rest sees them sorted only.
  raw_of :
      (keys : Set Key) {rdata : List Bytes}
      → map_each key_to_rdata keys ≡ ok rdata
      → make_raw_rrsig sig keys ≡ (do
        header ← rrsig_header sig
        signer ← dn2wire sig.signers_name
        prefix ← rr_prefix sig
        add_keys prefix (header ++ signer) (sorted rdata))
  unfolding make_raw_rrsig
  raw_of keys e = rw e

  rdata_of :
      (keys : Set Key) {raw : Bytes}
      → make_raw_rrsig sig keys ≡ ok raw
      → (rdata : List Bytes) × (map_each key_to_rdata keys ≡ ok rdata)
  unfolding make_raw_rrsig
  rdata_of keys e =
      let (header, _, e1) = >>=-eq-ok (rrsig_header sig) _ e in
      let (signer, _, e2) = >>=-eq-ok (dn2wire sig.signers_name) _ e1 in
      let (prefix, _, e3) = >>=-eq-ok (rr_prefix sig) _ e2 in
      let (rdata, er, _) = >>=-eq-ok (map_each key_to_rdata keys) _ e3 in (rdata, er)

  raw-perm_d :
      (keys keys' : Set Key) {raw : Bytes}
      → Permᴰ keys keys'
      → make_raw_rrsig sig keys ≡ ok raw
      → make_raw_rrsig sig keys' ≡ ok raw
  raw-perm_d keys keys' p e =
      let (rdata, er) = rdata_of keys e in
      let (rdata', er', r) = map_each-perm key_to_rdata p er in
      raw_of keys' er' ∙ rw (← sorted-perm r) (sym (raw_of keys er) ∙ e)

-- The raw RRSIG of a set of keys is the same in whatever order the set is visited.
pub make_raw_rrsig-perm :
    (sig : Signature) (keys keys' : Set Key) (raw : Bytes)
    → Perm keys keys'
    → make_raw_rrsig sig keys ≡ ok raw
    → make_raw_rrsig sig keys' ≡ ok raw
make_raw_rrsig-perm sig keys keys' raw p e =
    ∥∥₁_elim p (Result-set _ _) (λ d. raw-perm_d sig keys keys' d e)
