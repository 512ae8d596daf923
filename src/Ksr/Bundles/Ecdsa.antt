-- ===== src/Ksr/Bundles/Ecdsa.antt =====
-- _find_matching_zsk_policy_ecdsa_alg of src/kskm/ksr/verify_bundles.py: the entries that are found.
use sam_ken_x_dnssec_keytool.Prelude.{
  ℕ, ◌*◌, ◌/◌, some, List, [], ◌∷◌, ◌++◌, length, true, ◌&&◌, ◌≡◌, ◌≢◌, ◌↔◌, ◌⊎◌, inl, inr, refl,
  sym, ap, subst, All, arith, nat_eqb, Bool-cases,
}
use sam_ken_x_dnssec_keytool.Prelude.Equal.{◌==◌, ==_iff}
use sam_ken_x_dnssec_keytool.Outcome.{ok, >>=-eq-ok}
use sam_ken_x_dnssec_keytool.Codec.Base64.{b64decode}
use sam_ken_x_dnssec_keytool.Data.{Key, AlgorithmPolicy, rsa, ecdsa, dsa, Bytes}
use sam_ken_x_dnssec_keytool.Data.Algorithm.{algorithm_eq}
use sam_ken_x_dnssec_keytool.PublicKey.Ecdsa.{
  ecdsa_public_key_without_prefix, get_ecdsa_pubkey_size,
}
use sam_ken_x_dnssec_keytool.PublicKey.Ecdsa.Point.{
  HasCurve, IsPoint, without_prefix-HasCurve, without_prefix-IsPoint, IsPoint-not_empty,
  not_empty-IsPoint,
}
use sam_ken_x_dnssec_keytool.Ksr.Bundles.{find_ecdsa}

-- An entry is not skipped with an exception.
abbrev pub IsReadable : AlgorithmPolicy → Type 0
IsReadable (ecdsa b a) = (size : ℕ) × HasCurve a size
IsReadable _ = Unit

-- The policy of the ZSK operator has an entry of the key's algorithm, whose size is that of a
-- coordinate of the key, and the ECDSA entries before it have an ECDSA algorithm.
pub record AllowsEcdsa (key : Key) (algs : List AlgorithmPolicy) : Type 0 where
  pub raw : Bytes
  pub decoded : b64decode key.public_key ≡ ok raw
  pub size : ℕ
  pub curve : HasCurve key.algorithm size
  pub point : Bytes
  pub is_point : IsPoint size raw point
  pub before : List AlgorithmPolicy
  pub after : List AlgorithmPolicy
  pub readable : All IsReadable before
  pub entry : algs ≡ before ++ ecdsa (length point * 4) key.algorithm ∷ after

-- The search reaches such an entry.
abbrev Reaches : (key : Key) (raw : Bytes) → List AlgorithmPolicy → Type 0
Reaches key raw [] = ⊥
Reaches key raw (ecdsa b a ∷ rest) =
    ((size : ℕ) × HasCurve a size
      × (key.algorithm ≡ a)
      × ((point : Bytes) × IsPoint size raw point × (b ≡ length point * 4)))
    ⊎ (((size : ℕ) × HasCurve a size) × Reaches key raw rest)
Reaches key raw (rsa b a e ∷ rest) = Reaches key raw rest
Reaches key raw (dsa b a ∷ rest) = Reaches key raw rest

Reaches-not_empty :
    (key : Key) (raw : Bytes) (algs : List AlgorithmPolicy) → Reaches key raw algs → raw ≢ []
Reaches-not_empty key raw [] r = absurd r
Reaches-not_empty key raw (rsa b a e ∷ rest) r = Reaches-not_empty key raw rest r
Reaches-not_empty key raw (dsa b a ∷ rest) r = Reaches-not_empty key raw rest r
Reaches-not_empty key raw (ecdsa b a ∷ rest) (inl (size, curve, _, (point, is_point, _))) =
    IsPoint-not_empty size raw point a curve is_point
Reaches-not_empty key raw (ecdsa b a ∷ rest) (inr (_, later)) = Reaches-not_empty key raw rest later

-- An entry that the search passes
skip :
    {key : Key} (alg : AlgorithmPolicy) (rest : List AlgorithmPolicy)
    → IsReadable alg
    → AllowsEcdsa key rest
    → AllowsEcdsa key (alg ∷ rest)
skip alg rest readable allowed = record {
  raw = allowed.raw;
  decoded = allowed.decoded;
  size = allowed.size;
  curve = allowed.curve;
  point = allowed.point;
  is_point = allowed.is_point;
  after = allowed.after;
  before = alg ∷ allowed.before;
  readable = (readable, allowed.readable);
  entry = ap (λ algs. alg ∷ algs) allowed.entry;
}

module _ (key : Key) (raw : Bytes) (decoded : b64decode key.public_key ≡ ok raw) where
  find_ecdsa-Reaches :
      (algs : List AlgorithmPolicy) (alg : AlgorithmPolicy)
      → find_ecdsa key algs ≡ ok (some alg)
      → Reaches key raw algs
  unfolding find_ecdsa get_ecdsa_pubkey_size
  find_ecdsa-Reaches [] alg h = absurd (cc)
  find_ecdsa-Reaches (rsa b a e ∷ rest) alg h = find_ecdsa-Reaches rest alg h
  find_ecdsa-Reaches (dsa b a ∷ rest) alg h = find_ecdsa-Reaches rest alg h
  find_ecdsa-Reaches (ecdsa b a ∷ rest) alg h =
      let (raw', e0, h1) = >>=-eq-ok (b64decode key.public_key) _ h in
      let same : raw' ≡ raw = cc in
      let (point, e1, h2) = >>=-eq-ok (ecdsa_public_key_without_prefix raw' a) _ h1 in
      let (size, curve, is_point) =
        without_prefix-HasCurve raw point a
          (subst (λ r. ecdsa_public_key_without_prefix r a ≡ ok point) same e1) in
      elim (Bool-cases (key.algorithm == a && nat_eqb (get_ecdsa_pubkey_size point) b)) [
        | inl allowed ↦ inl (
          size,
          curve,
          (==_iff key.algorithm a).0 (ground arith),
          (point, is_point, ground arith),
        )
        | inr other ↦ inr ((size, curve), find_ecdsa-Reaches rest alg (rw other at h2))
      ]

  Reaches-find_ecdsa :
      (algs : List AlgorithmPolicy)
      → Reaches key raw algs
      → (alg : AlgorithmPolicy) × (find_ecdsa key algs ≡ ok (some alg))
  unfolding find_ecdsa get_ecdsa_pubkey_size
  Reaches-find_ecdsa [] r = absurd r
  Reaches-find_ecdsa (rsa b a e ∷ rest) r = Reaches-find_ecdsa rest r
  Reaches-find_ecdsa (dsa b a ∷ rest) r = Reaches-find_ecdsa rest r
  Reaches-find_ecdsa (ecdsa b a ∷ rest) r =
      let not_empty = Reaches-not_empty key raw (ecdsa b a ∷ rest) r in
      elim r [
        | inl (size, curve, same, (point, is_point, bits)) ↦
            let e1 = (without_prefix-IsPoint raw point a size curve).1 is_point in
            let equal = (==_iff key.algorithm a).1 same in
            let sized : nat_eqb (length point * 8 / 2) b ≡ true = ground arith in
            (ecdsa b a, rw (decoded, e1, equal, sized) refl)
        | inr ((size, curve), later) ↦
            let (point, is_point) = not_empty-IsPoint size raw not_empty in
            let e1 = (without_prefix-IsPoint raw point a size curve).1 is_point in
            let (alg, e2) = Reaches-find_ecdsa rest later in
            elim (Bool-cases (key.algorithm == a && nat_eqb (length point * 8 / 2) b)) [
              | inl allowed ↦ (ecdsa b a, rw (decoded, e1, allowed) refl)
              | inr other ↦ (alg, rw (decoded, e1, other) e2)
            ]
      ]

  Reaches-AllowsEcdsa : (algs : List AlgorithmPolicy) → Reaches key raw algs → AllowsEcdsa key algs
  Reaches-AllowsEcdsa [] r = absurd r
  Reaches-AllowsEcdsa (rsa b a e ∷ rest) r = skip (rsa b a e) rest tt (Reaches-AllowsEcdsa rest r)
  Reaches-AllowsEcdsa (dsa b a ∷ rest) r = skip (dsa b a) rest tt (Reaches-AllowsEcdsa rest r)
  Reaches-AllowsEcdsa (ecdsa b a ∷ rest) (inr (readable, later)) =
      skip (ecdsa b a) rest readable (Reaches-AllowsEcdsa rest later)
  Reaches-AllowsEcdsa (ecdsa b a ∷ rest) (inl (size, curve, same, (point, is_point, bits))) =
      record {
        raw = raw;
        decoded = decoded;
        size = size;
        curve = subst (λ x. HasCurve x size) (sym same) curve;
        point = point;
        is_point = is_point;
        before = [];
        after = rest;
        readable = tt;
        entry = cc;
      }

  AllowsEcdsa-Reaches :
      (before after : List AlgorithmPolicy) (size : ℕ) (point : Bytes)
      → HasCurve key.algorithm size
      → IsPoint size raw point
      → All IsReadable before
      → Reaches key raw (before ++ ecdsa (length point * 4) key.algorithm ∷ after)
  AllowsEcdsa-Reaches [] after size point curve is_point readable =
      inl (size, curve, refl, (point, is_point, refl))
  AllowsEcdsa-Reaches (rsa b a e ∷ before) after size point curve is_point (_, readable) =
      AllowsEcdsa-Reaches before after size point curve is_point readable
  AllowsEcdsa-Reaches (dsa b a ∷ before) after size point curve is_point (_, readable) =
      AllowsEcdsa-Reaches before after size point curve is_point readable
  AllowsEcdsa-Reaches (ecdsa b a ∷ before) after size point curve is_point (here, readable) =
      inr (here, AllowsEcdsa-Reaches before after size point curve is_point readable)

-- Without the bytes of the key nothing is found.
find_ecdsa-decoded :
    (key : Key) (algs : List AlgorithmPolicy) (alg : AlgorithmPolicy)
    → find_ecdsa key algs ≡ ok (some alg)
    → (raw : Bytes) × (b64decode key.public_key ≡ ok raw)
unfolding find_ecdsa
find_ecdsa-decoded key [] alg h = absurd (cc)
find_ecdsa-decoded key (rsa b a e ∷ rest) alg h = find_ecdsa-decoded key rest alg h
find_ecdsa-decoded key (dsa b a ∷ rest) alg h = find_ecdsa-decoded key rest alg h
find_ecdsa-decoded key (ecdsa b a ∷ rest) alg h =
    let (raw, decoded, _) = >>=-eq-ok (b64decode key.public_key) _ h in (raw, decoded)

pub find_ecdsa_iff :
    (key : Key) (algs : List AlgorithmPolicy)
    → ((alg : AlgorithmPolicy) × (find_ecdsa key algs ≡ ok (some alg))) ↔ AllowsEcdsa key algs
find_ecdsa_iff key algs = (
  λ (alg, found).
      let (raw, decoded) = find_ecdsa-decoded key algs alg found in
      Reaches-AllowsEcdsa key raw decoded algs (find_ecdsa-Reaches key raw decoded algs alg found),
  λ allowed. Reaches-find_ecdsa key allowed.raw allowed.decoded algs (
      subst (Reaches key allowed.raw) (sym allowed.entry) (
        AllowsEcdsa-Reaches key allowed.raw allowed.decoded allowed.before allowed.after
          allowed.size allowed.point allowed.curve allowed.is_point allowed.readable)),
)
