-- ===== src/Outcome/Index.antt =====
-- The loop by which the source refuses a repeated key while it indexes a collection:
-- `for x in xs: if key(x) in seen: raise ...; seen[key(x)] = x`.
use sam_ken_x_dnssec_keytool.Prelude.{
  ◌≡◌, ◌≢◌, ◌↔◌, inl, inr, refl, sym, ◌∙◌, true, false, List, [], ◌∷◌, ◌++◌, All, arith, Bool-cases,
}
use mathlib.Core.List.{append-nil, append_assoc}
use sam_ken_x_dnssec_keytool.Prelude.Equal.{Eq, ==_iff}
use sam_ken_x_dnssec_keytool.Prelude.Dict.{
  Dict, set, has_key, set-fresh, has_key-append, DistinctBy, entries,
}
use sam_ken_x_dnssec_keytool.Outcome.{Result, ok, raise, Exception}

module _ {A K : Type 0} ⦃e : Eq K⦄ (f : A → K) (err : Exception) where
  unfoldable pub index_from : Dict K A → List A → Result (Dict K A)
  index_from seen [] = ok seen
  index_from seen (x ∷ xs) = elim (has_key seen (f x)) [
    | true ↦ raise err
    | false ↦ index_from (set seen (f x) x) xs
  ]

  -- No key of the list is in `seen`.
  abbrev Unseen : Dict K A → List A → Type 0
  Unseen seen xs = All (λ x. has_key seen (f x) ≡ false) xs

  Unseen-snoc :
      (seen : Dict K A) (x : A) (xs : List A)
      → Unseen (seen ++ (f x, x) ∷ []) xs ↔ (Unseen seen xs × All (λ y. f x ≢ f y) xs)
  unfolding has_key
  Unseen-snoc seen x [] = ground arith
  Unseen-snoc seen x (y ∷ ys) =
      ground (
        arith,
        has_key-append seen ((f x, x) ∷ []) (f y),
        ==_iff (f x) (f y),
        Unseen-snoc seen x ys,
      )

  longer :
      (seen : Dict K A) (x : A) (xs : List A) (d : Dict K A)
      → (index_from (seen ++ (f x, x) ∷ []) xs ≡ ok d) ↔ (
          Unseen (seen ++ (f x, x) ∷ []) xs
          × DistinctBy f xs
          × (d ≡ (seen ++ (f x, x) ∷ []) ++ entries f xs))
      → (index_from (seen ++ (f x, x) ∷ []) xs ≡ ok d) ↔ (
          ((false ≡ false) × Unseen seen xs)
          × (All (λ y. f x ≢ f y) xs × DistinctBy f xs)
          × (d ≡ seen ++ (f x, x) ∷ entries f xs))
  longer seen x xs d rest =
      let same : (seen ++ (f x, x) ∷ []) ++ entries f xs ≡ seen ++ (f x, x) ∷ entries f xs =
        append_assoc seen ((f x, x) ∷ []) (entries f xs) in
      let snoc = Unseen-snoc seen x xs in
      (
        λ h.
            let (new, distinct, e) = rest.0 h in
            let (unseen, differ) = snoc.0 new in ((refl, unseen), (differ, distinct), e ∙ same),
        λ ((_, unseen), (differ, distinct), e).
            rest.1 (snoc.1 (unseen, differ), distinct, e ∙ sym same),
      )

  -- The loop ends exactly when all keys are new and differ, and has then indexed everything.
  pub index_from_iff :
      (seen : Dict K A) (xs : List A) (d : Dict K A)
      → (index_from seen xs ≡ ok d)
        ↔ (Unseen seen xs × DistinctBy f xs × (d ≡ seen ++ entries f xs))
  unfolding index_from
  index_from_iff seen [] d = ground (arith, append-nil seen)
  index_from_iff seen (x ∷ xs) d = elim (Bool-cases (has_key seen (f x))) [
    | inl there ↦ rw (there, index_from) (ground arith)
    | inr fresh ↦
        rw (fresh, index_from)
          (rw (set-fresh seen (f x) x fresh)
            (longer seen x xs d (index_from_iff (seen ++ (f x, x) ∷ []) xs d)))
  ]

  Unseen-nil : (xs : List A) → Unseen [] xs
  unfolding has_key
  Unseen-nil [] = tt
  Unseen-nil (x ∷ xs) = (refl, Unseen-nil xs)

  -- From an empty dictionary: the keys differ, and the dictionary holds every element.
  pub index_iff :
      (xs : List A) (d : Dict K A)
      → (index_from [] xs ≡ ok d) ↔ (DistinctBy f xs × (d ≡ entries f xs))
  index_iff xs d =
      let whole = index_from_iff [] xs d in
      (
        λ h. let (_, distinct, e) = whole.0 h in (distinct, e),
        λ (distinct, e). whole.1 (Unseen-nil xs, distinct, e),
      )
