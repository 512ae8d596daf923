-- ===== src/Ksr/Bundles/Keys.antt =====
-- Which keys `check_keys_match_zsk_policy` accepts: each new key is checked once, and a key that comes
-- again under the same identifier must be the same.
mod Loop
pub use Loop.{Consistent}
use sam_ken_x_dnssec_keytool.Prelude.{
  String, Option, none, some, List, [], ◌∷◌, ◌++◌, true, ◌≡◌, ◌↔◌, refl, sym, ap, subst, ◌∙◌, inl,
  inr, All, All-map, All-map₂, if◌then◌else◌, Option-cases, Bool-cases,
}
use sam_ken_x_dnssec_keytool.Prelude.Equal.{option_eq, string_eq, ◌==◌, ==_iff}
use sam_ken_x_dnssec_keytool.Prelude.Dict.{Dict, get, set, get-set}
use sam_ken_x_dnssec_keytool.Outcome.{
  ok, raise, ◌>>=◌, ◌>>◌, Passes, done, fold_each, >>=-eq-ok, bind-ext, fold_each-append,
  ksr_bundle_keys_violation,
}
use sam_ken_x_dnssec_keytool.Data.{Request, RequestBundle, Key}
use sam_ken_x_dnssec_keytool.Data.Equality.{key_eq, key_beq_iff}
use sam_ken_x_dnssec_keytool.Config.{RequestPolicy}
use sam_ken_x_dnssec_keytool.Ksr.Bundles.{
  check_new_key, visit_key, visit_bundle, check_keys_match_zsk_policy,
}
use Loop.{Agrees, WasChecked, Runs-iff}

-- the keys of all bundles, in the order in which the loops visit them
abbrev pub all_keys : List RequestBundle → List Key
all_keys [] = []
all_keys (b ∷ bs) = b.keys ++ all_keys bs

module _ (request : Request) (policy : RequestPolicy) where
  empty_checked : WasChecked request policy []
  unfolding get
  empty_checked k x h = absurd (cc)

  unseen : (y : Key) → Agrees (get [] y.key_identifier) y
  unfolding get
  unseen y = tt

  visit_bundle-all_keys :
      (seen : Dict (Option String) Key) (bundles : List RequestBundle)
      → fold_each (visit_bundle request policy) seen bundles
        ≡ fold_each (visit_key request policy) seen (all_keys bundles)
  unfolding fold_each visit_bundle
  visit_bundle-all_keys seen [] = refl
  visit_bundle-all_keys seen (b ∷ bs) =
      bind-ext (fold_each (visit_key request policy) seen b.keys)
        (λ seen'. visit_bundle-all_keys seen' bs)
      ∙ sym (fold_each-append (visit_key request policy) seen b.keys (all_keys bs))

  -- The check passes exactly when each key of the bundles passes the checks of a new key and keys of
  -- the same identifier are the same.
  pub check_keys_match_zsk_policy-keys :
      policy.keys_match_zsk_policy ≡ true
      → Passes (check_keys_match_zsk_policy request policy) ↔ (
          All (λ y. Passes (check_new_key request policy y)) (all_keys request.bundles)
          × Consistent (all_keys request.bundles))
  unfolding check_keys_match_zsk_policy
  check_keys_match_zsk_policy-keys on =
      let loop = visit_bundle-all_keys [] request.bundles in
      let runs = Runs-iff request policy [] (all_keys request.bundles) empty_checked in
      (
        λ h.
            let (d, e, _) =
              >>=-eq-ok (fold_each (visit_bundle request policy) [] request.bundles) _
                (rw on at h) in
            let (all, consistent) = runs.0 (d, sym loop ∙ e) in
            (All-map (all_keys request.bundles) (λ y fine. fine.0) all, consistent),
        λ (all, consistent).
            let (d, e) =
              runs.1
                (All-map (all_keys request.bundles) (λ y fine. (fine, unseen y)) all, consistent) in
            rw on (ap (λ r. r >>= λ seen. done) (loop ∙ e)),
      )
