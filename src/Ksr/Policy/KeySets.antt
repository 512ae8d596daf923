-- ===== src/Ksr/Policy/KeySets.antt =====
-- How many keys the bundles have, and how many different ones there are.
use sam_ken_x_dnssec_keytool.Prelude.{
  ℕ, String, Option, none, some, Bool, true, false, ◌||◌, ◌≡◌, ◌≢◌, ◌↔◌, ◌⊎◌, inl, inr, refl, sym,
  ap, ◌∙◌, List, [], ◌∷◌, ◌++◌, length, map, All, iff_trans, ×_iff, arith, nat_eqb, nat_eqb_iff,
  Bool-cases,
}
use sam_ken_x_dnssec_keytool.Prelude.Equal.{Eq, ◌==◌, ==_iff, string_eq, option_eq, contains, add}
use sam_ken_x_dnssec_keytool.Prelude.Dict.{DistinctBy}
use sam_ken_x_dnssec_keytool.Outcome.{
  Passes, guard, guard-Passes, >>-Passes, ksr_policy_keys_violation,
}
use sam_ken_x_dnssec_keytool.Outcome.Switch.{IfOn, unless_disabled_iff}
use sam_ken_x_dnssec_keytool.Data.{Request, RequestBundle, Key, Set}
use sam_ken_x_dnssec_keytool.Config.{RequestPolicy}
use sam_ken_x_dnssec_keytool.Ksr.Policy.{
  check_key_counts, check_key_sets, check_keys_in_bundles, add_identifiers, different_identifiers,
}
use sam_ken_x_dnssec_keytool.Ksr.Bundles.Keys.{all_keys}

module _ {A : Type 0} ⦃e : Eq A⦄ where
  contains-snoc : (xs : List A) (a b : A) → contains (xs ++ a ∷ []) b ≡ (contains xs b || (b == a))
  unfolding contains
  contains-snoc [] a b = ground arith
  contains-snoc (x ∷ xs) a b = ground (arith, contains-snoc xs a b)

  contains-add : (xs : List A) (a b : A) → contains (add a xs) b ≡ (contains xs b || (b == a))
  unfolding add
  contains-add xs a b = elim (Bool-cases (contains xs a)) [
    | inl there ↦ rw there (already xs a b there (Bool-cases (b == a)))
    | inr new ↦ rw new (contains-snoc xs a b)
  ]
    where
      already :
          (xs : List A) (a b : A)
          → contains xs a ≡ true
          → ((b == a) ≡ true) ⊎ ((b == a) ≡ false)
          → contains xs b ≡ (contains xs b || (b == a))
      already xs a b there (inl eq) =
          let here = ap (contains xs) ((==_iff b a).0 eq) ∙ there in ground arith
      already xs a b there (inr ne) = ground arith

  Distinct-snoc :
      (xs : List A) (a : A)
      → DistinctBy (λ x. x) xs
      → contains xs a ≡ false
      → DistinctBy (λ x. x) (xs ++ a ∷ [])
  unfolding contains
  Distinct-snoc [] a d h = (tt, tt)
  Distinct-snoc (x ∷ xs) a (n, d) h = (
    apart x xs n (λ same. absurd (cc ((==_iff a x).1 (sym same)))),
    Distinct-snoc xs a d (ground arith),
  )
    where
      apart : (x : A) (xs : List A) → All (λ y. x ≢ y) xs → x ≢ a → All (λ y. x ≢ y) (xs ++ a ∷ [])
      apart x [] n m = (m, tt)
      apart x (y ∷ ys) (k, n) m = (k, apart x ys n m)

  Distinct-add : (xs : List A) (a : A) → DistinctBy (λ x. x) xs → DistinctBy (λ x. x) (add a xs)
  unfolding add
  Distinct-add xs a d = elim (Bool-cases (contains xs a)) [
    | inl there ↦ rw there d
    | inr new ↦ rw new (Distinct-snoc xs a d new)
  ]

-- The keys' identifiers are entered one after the other.
add_identifiers-IsDistinct :
    (ids : List (Option String)) (keys : Set Key)
    → DistinctBy (λ x. x) ids
    → DistinctBy (λ x. x) (add_identifiers ids keys)
unfolding add_identifiers
add_identifiers-IsDistinct ids [] d = d
add_identifiers-IsDistinct ids (key ∷ keys) d =
    add_identifiers-IsDistinct (add key.key_identifier ids) keys
      (Distinct-add ids key.key_identifier d)

different_identifiers-IsDistinct :
    (ids : List (Option String)) (bundles : List RequestBundle)
    → DistinctBy (λ x. x) ids
    → DistinctBy (λ x. x) (different_identifiers ids bundles)
unfolding different_identifiers
different_identifiers-IsDistinct ids [] d = d
different_identifiers-IsDistinct ids (b ∷ bs) d =
    different_identifiers-IsDistinct (add_identifiers ids b.keys) bs
      (add_identifiers-IsDistinct ids b.keys d)

abbrev identifiers_of : List Key → List (Option String)
identifiers_of keys = map (λ (key : Key). key.key_identifier) keys

or_assoc : (a b c d e : Bool) → a ≡ (b || c) → d ≡ (c || e) → (a || e) ≡ (b || d)
or_assoc a b c d e p q = ground arith

contains-add_identifiers :
    (ids : List (Option String)) (keys : Set Key) (k : Option String)
    → contains (add_identifiers ids keys) k ≡ (contains ids k || contains (identifiers_of keys) k)
unfolding add_identifiers contains
contains-add_identifiers ids [] k = ground arith
contains-add_identifiers ids (key ∷ keys) k =
    contains-add_identifiers (add key.key_identifier ids) keys k
    ∙ or_assoc _ _ _ _ _ (contains-add ids key.key_identifier k) refl

contains-append :
    (xs ys : List (Option String)) (k : Option String)
    → contains (xs ++ ys) k ≡ (contains xs k || contains ys k)
unfolding contains
contains-append [] ys k = refl
contains-append (x ∷ xs) ys k = ground (arith, contains-append xs ys k)

map-append : (xs ys : List Key) → identifiers_of (xs ++ ys) ≡ identifiers_of xs ++ identifiers_of ys
map-append [] ys = refl
map-append (x ∷ xs) ys = rw (map-append xs ys)

contains-different_identifiers :
    (ids : List (Option String)) (bundles : List RequestBundle) (k : Option String)
    → contains (different_identifiers ids bundles) k
      ≡ (contains ids k || contains (identifiers_of (all_keys bundles)) k)
unfolding different_identifiers
contains-different_identifiers ids [] k = unfold contains in ground arith
contains-different_identifiers ids (b ∷ bs) k =
    contains-different_identifiers (add_identifiers ids b.keys) bs k
    ∙ or_assoc _ _ _ _ _ (contains-add_identifiers ids b.keys k) (
        ap (λ l. contains l k) (map-append b.keys (all_keys bs))
        ∙ contains-append (identifiers_of b.keys) (identifiers_of (all_keys bs)) k)

-- `ids` lists the identifiers of the keys, each once.
pub record AreIdentifiersOf (ids : List (Option String)) (keys : List Key) : Type 0 where
  pub each_once : DistinctBy (λ x. x) ids
  pub complete : (k : Option String) → contains ids k ≡ contains (identifiers_of keys) k

-- The identifiers that the check counts are those of all keys of the bundles, each once.
pub different_identifiers_lem :
    (bundles : List RequestBundle)
    → AreIdentifiersOf (different_identifiers [] bundles) (all_keys bundles)
different_identifiers_lem bundles = record {
  each_once = different_identifiers-IsDistinct [] bundles tt;
  complete = λ k. contains-different_identifiers [] bundles k ∙ unfold contains in refl;
}

-- Each bundle has as many keys as the configuration says for its place.
abbrev pub HaveCounts : List RequestBundle → List ℕ → Type 0
HaveCounts [] [] = Unit
HaveCounts [] (n ∷ ns) = ⊥
HaveCounts (b ∷ bs) [] = ⊥
HaveCounts (b ∷ bs) (n ∷ ns) = (length b.keys ≡ n) × HaveCounts bs ns

key_counts_iff :
    (bundles : List RequestBundle) (counts : List ℕ)
    → ((length bundles ≡ length counts) × Passes (check_key_counts bundles counts))
      ↔ HaveCounts bundles counts
unfolding check_key_counts
key_counts_iff [] [] = ground arith
key_counts_iff [] (n ∷ ns) = ground arith
key_counts_iff (b ∷ bs) [] = ground arith
key_counts_iff (b ∷ bs) (n ∷ ns) = ground (
  arith,
  key_counts_iff bs ns,
  >>-Passes (guard (nat_eqb (length b.keys) n) ksr_policy_keys_violation) (check_key_counts bs ns),
  guard-Passes (nat_eqb (length b.keys) n) ksr_policy_keys_violation,
  nat_eqb_iff (length b.keys) n,
)

check_key_sets_iff :
    (request : Request) (policy : RequestPolicy)
    → Passes (check_key_sets request policy) ↔ (
        (policy.num_different_keys_in_all_bundles ≡ none)
        ⊎ (policy.num_different_keys_in_all_bundles
            ≡ some (length (different_identifiers [] request.bundles))))
unfolding check_key_sets
check_key_sets_iff request policy = ground arith

-- The check passes exactly when it is switched off, or the bundles are as many as the numbers of the
-- configuration, each has its number of keys, and the number of different identifiers among all keys
-- is the configured one, if one is configured.
pub check_keys_in_bundles_iff :
    (request : Request) (policy : RequestPolicy)
    → Passes (check_keys_in_bundles request policy)
      ↔ IfOn policy.check_keys_match_ksk_operator_policy (
          HaveCounts request.bundles policy.num_keys_per_bundle
          × ((policy.num_different_keys_in_all_bundles ≡ none)
              ⊎ (policy.num_different_keys_in_all_bundles
                  ≡ some (length (different_identifiers [] request.bundles)))))
unfolding check_keys_in_bundles
check_keys_in_bundles_iff request policy =
    let counts = key_counts_iff request.bundles policy.num_keys_per_bundle in
    let steps = iff_trans (>>-Passes _ _) (
      ×_iff
        (iff_trans (guard-Passes _ _)
          (nat_eqb_iff (length request.bundles) (length policy.num_keys_per_bundle)))
        (iff_trans (>>-Passes (check_key_counts request.bundles policy.num_keys_per_bundle) _)
          (×_iff (λ p. p, λ p. p) (check_key_sets_iff request policy)))) in
    unless_disabled_iff policy.check_keys_match_ksk_operator_policy _ (
      λ h. let (n, rest) = steps.0 h in (counts.0 (n, rest.0), rest.1),
      λ (all, sets). let (n, run) = counts.1 all in steps.1 (n, (run, sets)),
    )
