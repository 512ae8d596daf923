-- ===== src/Ksr/Bundles/Keys/Loop.antt =====
-- The loop over keys with the dictionary of the keys that it has seen.
use sam_ken_x_dnssec_keytool.Prelude.{
  String, Option, none, some, List, [], ◌∷◌, ◌≡◌, ◌↔◌, refl, sym, ap, subst, ◌∙◌, inl, inr, All,
  All-map, All-map₂, if◌then◌else◌, Option-cases, Bool-cases,
}
use sam_ken_x_dnssec_keytool.Prelude.Equal.{option_eq, string_eq, ◌==◌, ==_iff}
use sam_ken_x_dnssec_keytool.Prelude.Dict.{Dict, get, set, get-set}
use sam_ken_x_dnssec_keytool.Outcome.{
  ok, raise, ◌>>◌, Passes, fold_each, >>=-eq-ok, ksr_bundle_keys_violation,
}
use sam_ken_x_dnssec_keytool.Data.{Request, Key}
use sam_ken_x_dnssec_keytool.Data.Equality.{key_eq, key_beq_iff}
use sam_ken_x_dnssec_keytool.Config.{RequestPolicy}
use sam_ken_x_dnssec_keytool.Ksr.Bundles.{check_new_key, visit_key}

-- Two keys of the same identifier are the same key.
abbrev pub Consistent : List Key → Type 0
Consistent [] = Unit
Consistent (x ∷ xs) = All (λ y. x.key_identifier ≡ y.key_identifier → x ≡ y) xs × Consistent xs

-- What was entered under the key's identifier, if anything, is the key.
abbrev pub Agrees : Option Key → Key → Type 0
Agrees none y = Unit
Agrees (some x) y = x ≡ y

module _ (request : Request) (policy : RequestPolicy) where
  abbrev pub Seen : Type 0
  Seen = Dict (Option String) Key

  -- Everything in `seen` is under its own identifier and was checked.
  abbrev pub WasChecked : Seen → Type 0
  WasChecked seen =
      (k : Option String) (x : Key)
      → get seen k ≡ some x
      → (x.key_identifier ≡ k) × Passes (check_new_key request policy x)

  -- What the loop wants of the keys that are still to come.
  abbrev pub AreFine : Seen → List Key → Type 0
  AreFine seen keys =
      All (λ y. Passes (check_new_key request policy y) × Agrees (get seen y.key_identifier) y) keys
      × Consistent keys

  abbrev pub Runs : Seen → List Key → Type 0
  Runs seen keys = (d : Seen) × (fold_each (visit_key request policy) seen keys ≡ ok d)

  Agrees-set :
      (seen : Seen) (x y : Key)
      → get seen x.key_identifier ≡ none
      → Agrees (get (set seen x.key_identifier x) y.key_identifier) y
        ↔ (Agrees (get seen y.key_identifier) y × (x.key_identifier ≡ y.key_identifier → x ≡ y))
  Agrees-set seen x y h =
      rw (get-set seen x.key_identifier y.key_identifier x)
        (elim (Bool-cases (x.key_identifier == y.key_identifier)) [
          | inl eq ↦
              let same = (==_iff x.key_identifier y.key_identifier).0 eq in
              let unseen = sym (ap (get seen) same) ∙ h in
              rw eq (λ p. (subst (λ o. Agrees o y) (sym unseen) tt, λ _. p), λ q. q.1 same)
          | inr ne ↦
              rw ne
                (λ a. (a, λ same. cc ((==_iff x.key_identifier y.key_identifier).1 same)), λ q. q.0)
        ])

  WasChecked-set :
      (seen : Seen) (x : Key)
      → WasChecked seen
      → Passes (check_new_key request policy x)
      → WasChecked (set seen x.key_identifier x)
  WasChecked-set seen x w p k y h =
      let h' : (if x.key_identifier == k then some x else get seen k) ≡ some y =
        sym (get-set seen x.key_identifier k x) ∙ h in
      elim (Bool-cases (x.key_identifier == k)) [
        | inl eq ↦
            let found : some x ≡ some y = rw eq at h' in
            let same : x ≡ y = cc in
            (
              ap (λ (z : Key). z.key_identifier) (sym same) ∙ (==_iff x.key_identifier k).0 eq,
              subst (λ z. Passes (check_new_key request policy z)) same p,
            )
        | inr ne ↦ w k y (rw ne at h')
      ]

  -- The first key, when its identifier is in the dictionary.
  visit-seen :
      (seen : Seen) (x before : Key)
      → get seen x.key_identifier ≡ some before
      → visit_key request policy seen x
        ≡ (if x == before then ok seen else raise ksr_bundle_keys_violation)
  unfolding visit_key
  visit-seen seen x before h = rw (h, visit_key)

  visit-new :
      (seen : Seen) (x : Key)
      → get seen x.key_identifier ≡ none
      → visit_key request policy seen x
        ≡ (check_new_key request policy x >> ok (set seen x.key_identifier x))
  unfolding visit_key
  visit-new seen x h = rw (h, visit_key)

  Runs-cons :
      (seen seen' : Seen) (x : Key) (xs : List Key)
      → visit_key request policy seen x ≡ ok seen'
      → Runs seen (x ∷ xs) ↔ Runs seen' xs
  unfolding fold_each
  Runs-cons seen seen' x xs h = rw h (λ r. r, λ r. r)

  Runs-first :
      (seen : Seen) (x : Key) (xs : List Key)
      → Runs seen (x ∷ xs)
      → (seen' : Seen) × (visit_key request policy seen x ≡ ok seen') × Runs seen' xs
  unfolding fold_each
  Runs-first seen x xs (d, e) =
      let (seen', e1, e2) = >>=-eq-ok (visit_key request policy seen x) _ e in (seen', e1, (d, e2))

  -- When the key is in the dictionary it is the same key, or the loop stops.
  AreFine-seen :
      (seen : Seen) (x : Key) (xs : List Key)
      → WasChecked seen
      → get seen x.key_identifier ≡ some x
      → AreFine seen (x ∷ xs) ↔ AreFine seen xs
  AreFine-seen seen x xs w h = (
    λ f. (f.0.1, f.1.1),
    λ (all, consistent). (
      (((w x.key_identifier x h).1, subst (λ o. Agrees o x) (sym h) refl), all),
      (
        All-map xs (λ y fine same. subst (λ o. Agrees o y) (sym (ap (get seen) same) ∙ h) fine.1)
            all,
        consistent,
      ),
    ),
  )

  AreFine-new :
      (seen : Seen) (x : Key) (xs : List Key)
      → get seen x.key_identifier ≡ none
      → Passes (check_new_key request policy x)
      → AreFine seen (x ∷ xs) ↔ AreFine (set seen x.key_identifier x) xs
  AreFine-new seen x xs h p = (
    λ ((_, all), (differ, consistent)). (
      All-map₂ xs (λ y fine same. (fine.0, (Agrees-set seen x y h).1 (fine.1, same))) all differ,
      consistent,
    ),
    λ (all, consistent). (
      (
        (p, subst (λ o. Agrees o x) (sym h) tt),
        All-map xs (λ y fine. (fine.0, ((Agrees-set seen x y h).0 fine.1).0)) all,
      ),
      (All-map xs (λ y fine. ((Agrees-set seen x y h).0 fine.1).1) all, consistent),
    ),
  )

  Runs-nil : (seen : Seen) → Runs seen []
  unfolding fold_each
  Runs-nil seen = (seen, refl)

  Runs-new :
      (seen : Seen) (x : Key) (xs : List Key)
      → get seen x.key_identifier ≡ none
      → Runs seen (x ∷ xs)
        ↔ (Passes (check_new_key request policy x) × Runs (set seen x.key_identifier x) xs)
  Runs-new seen x xs h = (
    λ r.
        let (seen', e, r') = Runs-first seen x xs r in
        let (_, p, q) =
          >>=-eq-ok (check_new_key request policy x) _ (sym (visit-new seen x h) ∙ e) in
        (p, subst (λ d. Runs d xs) (cc) r'),
    λ (p, r).
        (Runs-cons seen (set seen x.key_identifier x) x xs
            (visit-new seen x h ∙ ap (λ m. m >> ok (set seen x.key_identifier x)) p)).1
          r,
  )

  Runs-seen :
      (seen : Seen) (x before : Key) (xs : List Key)
      → get seen x.key_identifier ≡ some before
      → Runs seen (x ∷ xs) ↔ ((x ≡ before) × Runs seen xs)
  Runs-seen seen x before xs h = elim (Bool-cases (x == before)) [
    | inl eq ↦
        let go : visit_key request policy seen x ≡ ok seen = visit-seen seen x before h ∙ rw eq in
        let step = Runs-cons seen seen x xs go in
        (λ r. ((key_beq_iff x before).0 eq, step.0 r), λ (_, r). step.1 r)
    | inr ne ↦
        let stop : visit_key request policy seen x ≡ raise ksr_bundle_keys_violation =
          visit-seen seen x before h ∙ rw ne in
        (
          λ r. let (seen', e, _) = Runs-first seen x xs r in absurd (cc),
          λ (same, _). absurd (cc ((key_beq_iff x before).1 same)),
        )
  ]

  -- The loop runs through exactly when all keys still to come are fine.
  pub Runs-iff :
      (seen : Seen) (keys : List Key) → WasChecked seen → Runs seen keys ↔ AreFine seen keys
  Runs-iff seen [] w = (λ _. (tt, tt), λ _. Runs-nil seen)
  Runs-iff seen (x ∷ xs) w =
      cons seen x xs w (Runs-iff seen xs w) (λ seen' w'. Runs-iff seen' xs w')
    where
      cons :
          (seen : Seen) (x : Key) (xs : List Key)
          → WasChecked seen
          → Runs seen xs ↔ AreFine seen xs
          → ((seen' : Seen) → WasChecked seen' → Runs seen' xs ↔ AreFine seen' xs)
          → Runs seen (x ∷ xs) ↔ AreFine seen (x ∷ xs)
      cons seen x xs w here next = elim (Option-cases (get seen x.key_identifier)) [
        | inl new ↦
            let first = Runs-new seen x xs new in
            (
              λ r.
                  let (p, r') = first.0 r in
                  (AreFine-new seen x xs new p).1 ((next _ (WasChecked-set seen x w p)).0 r'),
              λ f.
                  let p = f.0.0.0 in
                  first.1
                    (p, (next _ (WasChecked-set seen x w p)).1 ((AreFine-new seen x xs new p).0 f)),
            )
        | inr (before, old) ↦
            let first = Runs-seen seen x before xs old in
            (
              λ r.
                  let (same, r') = first.0 r in
                  (AreFine-seen seen x xs w (old ∙ ap {B = Option Key} some (sym same))).1
                    (here.0 r'),
              λ f.
                  let same : x ≡ before = sym (subst (λ o. Agrees o x) old f.0.0.1) in
                  first.1 (
                    same,
                    here.1 (
                        (AreFine-seen seen x xs w (old ∙ ap {B = Option Key} some (sym same))).0 f),
                  ),
            )
      ]
