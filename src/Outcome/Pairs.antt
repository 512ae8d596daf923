-- ===== src/Outcome/Pairs.antt =====
-- Loops over the neighbours in a list: `for i in range(1, len(xs)): body(xs[i - 1], xs[i])`.
use sam_ken_x_dnssec_keytool.Prelude.{◌↔◌, List, [], ◌∷◌, iff_trans, ×_iff, arith}
use sam_ken_x_dnssec_keytool.Outcome.{Checked, Passes, ◌>>◌, done, >>-Passes}

module _ {A : Type 0} where
  unfoldable pub for_each_pair : (A → A → Checked) → List A → Checked
  for_each_pair body [] = done
  for_each_pair body (x ∷ []) = done
  for_each_pair body (x ∷ y ∷ ys) = body x y >> for_each_pair body (y ∷ ys)

  -- `R` holds of each element and the next.
  abbrev pub Linked : (A → A → Type 0) → List A → Type 0
  Linked R [] = Unit
  Linked R (x ∷ []) = Unit
  Linked R (x ∷ y ∷ ys) = R x y × Linked R (y ∷ ys)

  pub for_each_pair-Passes :
      (body : A → A → Checked) (R : A → A → Type 0) (xs : List A)
      → ((x y : A) → Passes (body x y) ↔ R x y)
      → Passes (for_each_pair body xs) ↔ Linked R xs
  unfolding for_each_pair
  for_each_pair-Passes body R [] h = ground arith
  for_each_pair-Passes body R (x ∷ []) h = ground arith
  for_each_pair-Passes body R (x ∷ y ∷ ys) h =
      iff_trans (>>-Passes (body x y) (for_each_pair body (y ∷ ys)))
        (×_iff (h x y) (for_each_pair-Passes body R (y ∷ ys) h))
