-- ===== src/Hsm/Settings/Dollars.antt =====
-- Rounds of the interpolation of parse_hsmconfig of misc/hsm.py: the `$` that they remove.
use sam_ken_x_dnssec_keytool.Prelude.{
  ℕ, zero, suc, ◌+◌, ◌-◌, ◌≤◌, ◌<◌, ◌≡◌, inl, inr, refl, subst, Bool, true, false, Option, none,
  some, [], ◌∷◌, ◌++◌, length, is_empty, arith, Bool-cases, if◌then◌else◌,
}
use sam_ken_x_dnssec_keytool.Prelude.Equal.{nat_eq, int_eq, list_eq, contains, ◌==◌}
use sam_ken_x_dnssec_keytool.Outcome.{Result, ok}
use sam_ken_x_dnssec_keytool.Texts.{Text, CharacterTable}
use sam_ken_x_dnssec_keytool.Hsm.Settings.{has_prefix, replace, word, find_variable, usable}

-- How many `$` a text has
abbrev pub dollars : Text → ℕ
dollars [] = 0
dollars (c ∷ s) = if c == b'$' then suc (dollars s) else dollars s

dollars-append : (s t : Text) → dollars (s ++ t) ≡ dollars s + dollars t
dollars-append [] t = omega arith
dollars-append (c ∷ s) t = ground (arith, dollars-append s t)

pub dollars-length : (s : Text) → dollars s ≤ length s
dollars-length [] = omega arith
dollars-length (c ∷ s) = ground (arith, dollars-length s)

no_dollars : (s : Text) → contains s b'$' ≡ false → dollars s ≡ 0
unfolding contains
no_dollars [] h = refl
no_dollars (c ∷ s) h = ground (arith, no_dollars s)

ok-injective : {A : Type 0} {a b : A} → Result.ok a ≡ ok b → a ≡ b
ok-injective h = cc

pub usable-no_dollars :
    (o : Option Text) (val : Text) (c : CharacterTable) (w : ℕ → Bool)
    → usable c w o ≡ ok val
    → dollars val ≡ 0
usable-no_dollars none val c w h = absurd (cc)
usable-no_dollars (some []) val c w h = absurd (cc)
usable-no_dollars (some (x ∷ s)) val c w h = elim (Bool-cases (contains (x ∷ s) b'$')) [
  | inl e ↦ absurd (cc (rw e at h))
  | inr e ↦
      let same : Result.ok (x ∷ s) ≡ ok val = rw e at h in
      subst (λ v. dollars v ≡ 0) (ok-injective same) (no_dollars (x ∷ s) e)
]

replace-dollars :
    (skip : ℕ) (pattern val text : Text)
    → dollars val ≡ 0
    → dollars (replace skip pattern val text) ≤ dollars text
unfolding replace
replace-dollars skip pattern val [] h = ground arith
replace-dollars (suc skip) pattern val (c ∷ s) h =
    ground (arith, replace-dollars skip pattern val s h)
replace-dollars zero pattern val (c ∷ s) h =
    let rest = replace-dollars (length pattern - 1) pattern val s h in
    let other = replace-dollars zero pattern val s h in
    let joined = dollars-append val (replace (length pattern - 1) pattern val s) in
    ground (arith, rest, other, joined)

module _ (characters : CharacterTable) (is_word : ℕ → Bool) where
  has_prefix-word : (s : Text) → has_prefix (word characters is_word s) s ≡ true
  has_prefix-word [] = refl
  has_prefix-word (c ∷ s) = ground (arith, has_prefix-word s)

  -- Where the text does not start with the variable, the variable is further on.
  find_variable-later :
      (key : Text) (c : ℕ) (s : Text)
      → find_variable characters is_word (c ∷ s) ≡ some key
      → has_prefix (b'$' ∷ key) (c ∷ s) ≡ false
      → find_variable characters is_word s ≡ some key
  unfolding find_variable
  find_variable-later key c s found other = elim (Bool-cases (c == b'$')) [
    | inr not_dollar ↦ ground arith
    | inl dollar ↦ elim (Bool-cases (is_empty (word characters is_word s))) [
      | inl none_here ↦ ground arith
      | inr some_here ↦
          let same : word characters is_word s ≡ key = ground arith in
          let here = has_prefix-word s in
          let here' : has_prefix key s ≡ true = subst (λ k. has_prefix k s ≡ true) same here in
          absurd (ground arith)
    ]
  ]

  dollars-here :
      (key : Text) (c : ℕ) (s : Text)
      → has_prefix (b'$' ∷ key) (c ∷ s) ≡ true
      → dollars (c ∷ s) ≡ suc (dollars s)
  dollars-here key c s here = ground arith

  -- A round removes a `$` at least.
  pub replace-removes :
      (key val s : Text)
      → find_variable characters is_word s ≡ some key
      → dollars val ≡ 0
      → dollars (replace zero (b'$' ∷ key) val s) < dollars s
  unfolding find_variable replace
  replace-removes key val [] found h = absurd (cc)
  replace-removes key val (c ∷ s) found h =
      let rest = replace-dollars (length key) (b'$' ∷ key) val s h in
      let joined = dollars-append val (replace (length key) (b'$' ∷ key) val s) in
      elim (Bool-cases (has_prefix (b'$' ∷ key) (c ∷ s))) [
        | inl e ↦ let here = dollars-here key c s e in ground (arith, e, here, rest, joined, h)
        | inr e ↦
            let later = replace-removes key val s (find_variable-later key c s found e) h in
            ground (arith, e, later)
      ]

  pub no_dollars-find_variable :
      (s : Text) → dollars s ≡ 0 → find_variable characters is_word s ≡ none
  unfolding find_variable
  no_dollars-find_variable [] h = refl
  no_dollars-find_variable (c ∷ s) h = ground (arith, no_dollars-find_variable s)
