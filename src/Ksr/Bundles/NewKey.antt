-- ===== src/Ksr/Bundles/NewKey.antt =====
-- Which keys pass the checks that `check_keys_match_zsk_policy` makes of a key it has not seen before.
use sam_ken_x_dnssec_keytool.Prelude.{
  ℕ, Option, none, some, List, [], ◌∷◌, Bool, true, false, not, ◌≡◌, ◌↔◌, ◌⊎◌, inl, inr, refl, ap,
  iff_trans, subst, ◌∙◌, Any, Any-map, arith, if◌then◌else◌, nat_eqb, Bool-cases, nat_eqb_iff,
}
use sam_ken_x_dnssec_keytool.Prelude.Equal.{==_iff, string_eq, option_eq}
use sam_ken_x_dnssec_keytool.Outcome.{
  Result, ok, ◌>>=◌, ◌>>◌, Checked, Passes, done, guard, require, >>=-eq-ok, guard-Passes,
  ksr_bundle_keys_violation,
}
use sam_ken_x_dnssec_keytool.Data.{Request, Key, AlgorithmPolicy, rsa, ecdsa, dsa, Bytes}
use sam_ken_x_dnssec_keytool.Data.Flags.{zone}
use sam_ken_x_dnssec_keytool.Data.Algorithm.{algorithm_eq, is_algorithm_rsa, is_algorithm_ecdsa}
use sam_ken_x_dnssec_keytool.PublicKey.{PublicKey}
use sam_ken_x_dnssec_keytool.PublicKey.Rsa.{decode_rsa_public_key, decode_rsa_public_key-rsa}
use sam_ken_x_dnssec_keytool.Dnssec.{calculate_key_tag}
use sam_ken_x_dnssec_keytool.Config.{RequestPolicy}
use sam_ken_x_dnssec_keytool.Ksr.Bundles.Ecdsa.{AllowsEcdsa, find_ecdsa_iff}
use sam_ken_x_dnssec_keytool.Ksr.Bundles.{
  check_algorithm, check_new_key, find_rsa, match_rsa, find_ecdsa,
}

-- The policy of the ZSK operator allows an RSA key of this algorithm, size and exponent. Where the
-- configuration says so the exponent may be another one.
abbrev pub AllowsRsa : (key : Key) (bits exponent : ℕ) (exact : Bool) → AlgorithmPolicy → Type 0
AllowsRsa key bits exponent exact (rsa b a e) =
    (key.algorithm ≡ a) × (bits ≡ b) × ((exponent ≡ e) ⊎ (exact ≡ false))
AllowsRsa key bits exponent exact _ = ⊥

abbrev is_some : Option AlgorithmPolicy → Bool
is_some none = false
is_some (some a) = true

find_rsa_iff :
    (key : Key) (bits exponent : ℕ) (exact : Bool) (algs : List AlgorithmPolicy)
    → (is_some (find_rsa key bits exponent (not exact) algs) ≡ true)
      ↔ Any (AllowsRsa key bits exponent exact) algs
unfolding find_rsa
find_rsa_iff key bits exponent exact [] = ground arith
find_rsa_iff key bits exponent exact (rsa b a e ∷ rest) =
    ground (arith, ==_iff key.algorithm a, find_rsa_iff key bits exponent exact rest)
find_rsa_iff key bits exponent exact (ecdsa b a ∷ rest) =
    ground (arith, find_rsa_iff key bits exponent exact rest)
find_rsa_iff key bits exponent exact (dsa b a ∷ rest) =
    ground (arith, find_rsa_iff key bits exponent exact rest)

AllowsRsa-weaken :
    (key : Key) (bits exponent : ℕ) (alg : AlgorithmPolicy)
    → AllowsRsa key bits exponent true alg
    → AllowsRsa key bits exponent false alg
AllowsRsa-weaken key bits exponent (rsa b a e) (same, size, _) = (same, size, inr refl)
AllowsRsa-weaken key bits exponent (ecdsa b a) h = h
AllowsRsa-weaken key bits exponent (dsa b a) h = h

module _ (request : Request) (policy : RequestPolicy) (key : Key) where
  abbrev algs : List AlgorithmPolicy
  algs = request.zsk_policy.algorithms

  match_rsa_iff :
      (bits exponent : ℕ) (n : Bytes)
      → (is_some (match_rsa request policy key (PublicKey.rsa bits exponent n)) ≡ true)
        ↔ Any (AllowsRsa key bits exponent policy.rsa_exponent_match_zsk_policy) algs
  unfolding match_rsa
  match_rsa_iff bits exponent n =
      by_setting policy.rsa_exponent_match_zsk_policy (find_rsa key bits exponent false algs) refl
    where
      by_setting :
          (exact : Bool) (first : Option AlgorithmPolicy)
          → find_rsa key bits exponent false algs ≡ first
          → (is_some (elim first [
            | some alg ↦ some alg
            | none ↦ if exact then none else find_rsa key bits exponent true algs
          ])
              ≡ true)
            ↔ Any (AllowsRsa key bits exponent exact) algs
      by_setting true none e = rw e at (find_rsa_iff key bits exponent true algs)
      by_setting false none e = find_rsa_iff key bits exponent false algs
      by_setting true (some alg) e = rw e at (find_rsa_iff key bits exponent true algs)
      by_setting false (some alg) e = (
        λ _.
            Any-map algs (AllowsRsa-weaken key bits exponent)
              ((find_rsa_iff key bits exponent true algs).0 (ap is_some e)),
        λ _. refl,
      )

  -- The key has parameters that the ZSK operator's policy allows: an RSA key its size and exponent, an
  -- ECDSA key its size.
  abbrev pub MatchesPolicy : Type 0
  MatchesPolicy =
      ((is_algorithm_rsa key.algorithm ≡ true)
        × ((bits : ℕ) × (exponent : ℕ) × (n : Bytes) × (decode_rsa_public_key key.public_key
              ≡ ok (PublicKey.rsa bits exponent n))
            × Any (AllowsRsa key bits exponent policy.rsa_exponent_match_zsk_policy) algs))
      ⊎ ((is_algorithm_rsa key.algorithm ≡ false)
          × (is_algorithm_ecdsa key.algorithm ≡ true)
          × AllowsEcdsa key algs)

  pub record IsAcceptedKey : Type 0 where
    pub matches : MatchesPolicy
    pub flags : key.flags ≡ zone
    pub tag : calculate_key_tag key ≡ ok key.key_tag

  require_iff :
      (o : Option AlgorithmPolicy)
      → Passes (require o ksr_bundle_keys_violation >>= λ matching. done) ↔ (is_some o ≡ true)
  require_iff o = ground arith

  abbrev RsaMatches : Type 0
  RsaMatches =
      (bits : ℕ) × (exponent : ℕ) × (n : Bytes) × (decode_rsa_public_key key.public_key
        ≡ ok (PublicKey.rsa bits exponent n))
      × Any (AllowsRsa key bits exponent policy.rsa_exponent_match_zsk_policy) algs

  abbrev check_rsa : Checked
  check_rsa = do
    pubkey ← decode_rsa_public_key key.public_key
    matching ← require (match_rsa request policy key pubkey) ksr_bundle_keys_violation
    done

  check_rsa_iff : Passes check_rsa ↔ RsaMatches
  check_rsa_iff = (
    λ h.
        let (p, ed, h1) = >>=-eq-ok (decode_rsa_public_key key.public_key) _ h in
        let (bits, exponent, n, ep) = decode_rsa_public_key-rsa key.public_key p ed in
        (
          bits,
          exponent,
          n,
          ed ∙ ap {B = Result PublicKey} ok ep,
          (match_rsa_iff bits exponent n).0 (
              (require_iff _).0 (
                subst
                  (λ q. Passes (
                    require (match_rsa request policy key q) ksr_bundle_keys_violation
                    >>= λ matching. done))
                  ep h1)),
        ),
    λ (bits, exponent, n, ed, found).
        ap
          (λ r. r >>= λ pubkey.
            require (match_rsa request policy key pubkey) ksr_bundle_keys_violation >>= λ matching.
            done)
          ed
        ∙ (require_iff _).1 ((match_rsa_iff bits exponent n).1 found),
  )

  require-some :
      (o : Option AlgorithmPolicy)
      → Passes (require o ksr_bundle_keys_violation >>= λ matching. done)
      → (alg : AlgorithmPolicy) × (o ≡ some alg)
  require-some none h = absurd (cc)
  require-some (some alg) h = (alg, refl)

  abbrev check_ecdsa : Checked
  check_ecdsa = do
    found ← find_ecdsa key algs
    matching ← require found ksr_bundle_keys_violation
    done

  check_ecdsa_iff : Passes check_ecdsa ↔ AllowsEcdsa key algs
  check_ecdsa_iff =
      iff_trans
        (
          λ h.
              let (found, ef, h1) = >>=-eq-ok (find_ecdsa key algs) _ h in
              let (alg, ea) = require-some found h1 in
              (alg, ef ∙ ap {B = Result (Option AlgorithmPolicy)} ok ea),
          λ (alg, e).
              ap (λ r. r >>= λ found. require found ksr_bundle_keys_violation >>= λ matching. done)
                e,
        )
        (find_ecdsa_iff key algs)

  check_algorithm_iff : Passes (check_algorithm request policy key) ↔ MatchesPolicy
  unfolding check_algorithm
  check_algorithm_iff = elim (Bool-cases (is_algorithm_rsa key.algorithm)) [
    | inl is_rsa ↦ rw is_rsa (
      λ h. inl (refl, check_rsa_iff.0 h),
      λ m. elim m [ inl (_, r) ↦ check_rsa_iff.1 r | inr (e, _, _) ↦ absurd (cc) ],
    )
    | inr not_rsa ↦ rw not_rsa (elim (Bool-cases (is_algorithm_ecdsa key.algorithm)) [
      | inl is_ecdsa ↦ rw is_ecdsa (
        λ h. inr (refl, refl, check_ecdsa_iff.0 h),
        λ m. elim m [ inl (e, _) ↦ absurd (cc) | inr (_, _, r) ↦ check_ecdsa_iff.1 r ],
      )
      | inr not_ecdsa ↦
          rw not_ecdsa (
            λ h. absurd (cc),
            λ m. elim m [ inl (e, _) ↦ absurd (cc) | inr (_, e, _) ↦ absurd (cc) ],
          )
    ])
  ]

  abbrev after_algorithm : Checked
  after_algorithm = do
    guard (nat_eqb key.flags zone) ksr_bundle_keys_violation
    key_tag ← calculate_key_tag key
    guard (nat_eqb key_tag key.key_tag) ksr_bundle_keys_violation

  Passes-after : IsAcceptedKey → Passes after_algorithm
  Passes-after a = ground arith

  -- A new key passes exactly when it matches the policy, is a zone key that is neither a key signing key
  -- nor revoked, and carries its own key tag. To match, an RSA key has the algorithm, the size and the
  -- exponent of an entry, where the configuration may let the exponent differ; an ECDSA key has the
  -- algorithm of an entry whose size is that of a coordinate of its point, and the ECDSA entries before
  -- that one have an ECDSA algorithm.
  pub check_new_key_iff : Passes (check_new_key request policy key) ↔ IsAcceptedKey
  unfolding check_new_key
  check_new_key_iff = (
    λ h.
        let (_, ea, h1) = >>=-eq-ok (check_algorithm request policy key) _ h in
        let (_, ef, h2) =
          >>=-eq-ok (guard (nat_eqb key.flags zone) ksr_bundle_keys_violation) _ h1 in
        let (tag, et, h3) = >>=-eq-ok (calculate_key_tag key) _ h2 in
        record {
          matches = check_algorithm_iff.0 ea;
          flags = (nat_eqb_iff _ _).0 ((guard-Passes _ _).0 ef);
          tag = et ∙ ap {B = Result ℕ} ok ((nat_eqb_iff _ _).0 ((guard-Passes _ _).0 h3));
        },
    λ a. ap (λ m. m >> after_algorithm) (check_algorithm_iff.1 a.matches) ∙ Passes-after a,
  )
