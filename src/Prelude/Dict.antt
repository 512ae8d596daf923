-- ===== src/Prelude/Dict.antt =====
-- Python's `dict` as the list of its entries in the order of insertion, with the keys of a collection
-- indexed one after the other, and lists without repeated keys.
use sam_ken_x_dnssec_keytool.Prelude.Tests.{if◌then◌else◌}
use sam_ken_x_dnssec_keytool.Prelude.Lists.{All, Any}
use sam_ken_x_dnssec_keytool.Prelude.Equal.{Eq, ◌==◌, ==_iff}
use mathlib.Core.Path.{◌≡◌, refl, sym, ◌∙◌, ap}
use mathlib.Core.Logic.{◌≢◌, ◌↔◌, inl, inr}
use mathlib.Core.Bool.{Bool, false, ◌||◌}
use mathlib.Core.Option.{Option, none, some}
use mathlib.Core.List.{List, [], ◌∷◌, ◌++◌, map}
use native.Mathlib.Omega.{arith}

abbrev pub Dict : Type 0 → Type 0 → Type 0
Dict K V = List (K × V)

module _ {K V : Type 0} ⦃e : Eq K⦄ where
  -- `d.get(k)`
  unfoldable pub get : Dict K V → K → Option V
  get [] k = none
  get ((j, v) ∷ d) k = if j == k then some v else get d k

  -- `k in d`
  unfoldable pub has_key : Dict K V → K → Bool
  has_key [] k = false
  has_key ((j, v) ∷ d) k = j == k || has_key d k

  -- `d[k] = v`: an entry that is there keeps its place
  unfoldable pub set : Dict K V → K → V → Dict K V
  set [] k v = (k, v) ∷ []
  set ((j, w) ∷ d) k v = if j == k then (j, v) ∷ d else (j, w) ∷ set d k v

  pub set-fresh :
      (d : Dict K V) (k : K) (v : V) → has_key d k ≡ false → set d k v ≡ d ++ (k, v) ∷ []
  unfolding has_key set
  set-fresh [] k v h = refl
  set-fresh ((j, w) ∷ d) k v h = ground (arith, set-fresh d k v)

  pub has_key-append :
      (d d' : Dict K V) (k : K) → has_key (d ++ d') k ≡ (has_key d k || has_key d' k)
  unfolding has_key
  has_key-append [] d' k = refl
  has_key-append ((j, w) ∷ d) d' k = ground (arith, has_key-append d d' k)

  pub has_key-get : (d : Dict K V) (k : K) → has_key d k ≡ false → get d k ≡ none
  unfolding has_key get
  has_key-get [] k h = refl
  has_key-get ((j, w) ∷ d) k h = ground (arith, has_key-get d k)

  pub get-has_key : (d : Dict K V) (k : K) → get d k ≡ none → has_key d k ≡ false
  unfolding has_key get
  get-has_key [] k h = refl
  get-has_key ((j, w) ∷ d) k h = ground (arith, get-has_key d k)

module _ {K V : Type 0} ⦃e : Eq K⦄ where
  pub get-set :
      (d : Dict K V) (k j : K) (v : V) → get (set d k v) j ≡ (if k == j then some v else get d j)
  unfolding get set
  get-set [] k j v = refl
  get-set ((i, w) ∷ d) k j v = ground (arith, ==_iff i k, ==_iff i j, ==_iff k j, get-set d k j v)

-- No two elements have the same key.
abbrev pub DistinctBy : {A K : Type 0} → (A → K) → List A → Type 0
DistinctBy f [] = Unit
DistinctBy f (x ∷ xs) = All (λ y. f x ≢ f y) xs × DistinctBy f xs

module _ {A K : Type 0} ⦃e : Eq K⦄ (f : A → K) where
  abbrev pub entries : List A → Dict K A
  entries xs = map (λ x. (f x, x)) xs

  pub get-entries :
      (k : K) (a : A) (xs : List A)
      → get (entries xs) k ≡ some a
      → Any (λ x. (x ≡ a) × (f a ≡ k)) xs
  unfolding get
  get-entries k a [] h = absurd (cc)
  get-entries k a (x ∷ xs) h = ground (arith, ==_iff (f x) k, get-entries k a xs)

  All-differ :
      (k : K) (a : A) (xs : List A) → All (λ y. k ≢ f y) xs → Any (λ x. (x ≡ a) × (f a ≡ k)) xs → ⊥
  All-differ k a [] h m = m
  All-differ k a (x ∷ xs) (n, h) (inl (same, key)) = n (sym key ∙ ap f (sym same))
  All-differ k a (x ∷ xs) (n, h) (inr m) = All-differ k a xs h m

  -- With distinct keys, an element is found under its own key.
  pub get-entries_of :
      (k : K) (a : A) (xs : List A)
      → DistinctBy f xs
      → Any (λ x. (x ≡ a) × (f a ≡ k)) xs
      → get (entries xs) k ≡ some a
  unfolding get
  get-entries_of k a [] d m = absurd m
  get-entries_of k a (x ∷ xs) d (inl (same, key)) = ground (arith, ==_iff (f x) k)
  get-entries_of k a (x ∷ xs) (d, ds) (inr m) =
      ground (arith, ==_iff (f x) k, get-entries_of k a xs ds m, All-differ (f x) a xs d)

  pub has_key-entries :
      (k : K) (xs : List A) → (has_key (entries xs) k ≡ false) ↔ All (λ x. f x ≢ k) xs
  unfolding has_key
  has_key-entries k [] = ground arith
  has_key-entries k (x ∷ xs) = ground (arith, ==_iff (f x) k, has_key-entries k xs)
