-- ===== src/Wordlist/Unambiguous.antt =====
-- The PGP words of a list of bytes, and back (common/wordlist.py).
use sam_ken_x_dnssec_keytool.Prelude.{
  ℕ, zero, suc, ◌<◌, ◌≡◌, refl, Bool, true, false, not, some, String, List, [], ◌∷◌, map, arith,
  get_elem?, length, All, if◌then◌else◌, ap,
}
use sam_ken_x_dnssec_keytool.Prelude.Equal.{string_eq, ◌==◌, ==_iff}
use sam_ken_x_dnssec_keytool.Outcome.{ok}
use sam_ken_x_dnssec_keytool.Data.{Bytes}
use sam_ken_x_dnssec_keytool.Wordlist.{
  words, pick, words_from, pgp_wordlist, index_of, column, words_to_bytes,
}
use sam_ken_x_dnssec_keytool.Wordlist.Low.{words_low}
use sam_ken_x_dnssec_keytool.Wordlist.High.{words_high}

-- no word twice
abbrev pub absent : String → List String → Bool
absent w [] = true
absent w (x ∷ xs) = if w == x then false else absent w xs

abbrev pub distinct : List String → Bool
distinct [] = true
distinct (x ∷ xs) = if absent x xs then distinct xs else false

distinct-column : (odd : Bool) → distinct (column odd) ≡ true
unfolding words words_low words_high
distinct-column false = refl
distinct-column true = refl

words-length : length words ≡ 256
unfolding words words_low words_high
words-length = refl

get_elem?-below {ℓ} :
    {A : Type ℓ} (xs : List A) (i : ℕ) → i < length xs → (x : A) × (get_elem? xs i ≡ some x)
get_elem?-below [] i h = absurd (omega arith)
get_elem?-below (x ∷ xs) zero h = (x, refl)
get_elem?-below (x ∷ xs) (suc i) h = get_elem?-below xs i (omega arith)

get_elem?-map {ℓ κ} :
    {A : Type ℓ} {B : Type κ} (f : A → B) (xs : List A) (i : ℕ) {x : A}
    → get_elem? xs i ≡ some x
    → get_elem? (map f xs) i ≡ some (f x)
get_elem?-map f [] i h = absurd (cc)
get_elem?-map f (x ∷ xs) zero h = cc
get_elem?-map f (x ∷ xs) (suc i) h = get_elem?-map f xs i h

absent-at :
    (w x : String) (xs : List String) (i : ℕ)
    → absent w xs ≡ true
    → get_elem? xs i ≡ some x
    → (x == w) ≡ false
absent-at w x [] i h at = absurd (cc)
absent-at w x (y ∷ ys) zero h at = ground (arith, ==_iff x w, ==_iff w y)
absent-at w x (y ∷ ys) (suc i) h at = ground (arith, absent-at w x ys i)

index_of-at :
    (x : String) (xs : List String) (i : ℕ)
    → distinct xs ≡ true
    → get_elem? xs i ≡ some x
    → index_of xs x ≡ some i
index_of-at x [] i h at = absurd (cc)
index_of-at x (y ∷ ys) zero h at = ground (arith, ==_iff x y)
index_of-at x (y ∷ ys) (suc i) h at = ground (arith, absent-at y x ys i, index_of-at x ys i)

index_of-word :
    (odd : Bool) (byte : ℕ) {pair : String × String}
    → get_elem? words byte ≡ some pair
    → index_of (column odd) (pick odd pair) ≡ some byte
unfolding column
index_of-word odd byte at =
    index_of-at (pick odd _) (column odd) byte (distinct-column odd)
      (get_elem?-map (pick odd) words byte at)

words_to_bytes-step :
    (odd : Bool) (w : String) (byte : ℕ) (ws : List String) (bytes : Bytes)
    → index_of (column odd) w ≡ some byte
    → words_to_bytes (not odd) ws ≡ some bytes
    → words_to_bytes odd (w ∷ ws) ≡ some (byte ∷ bytes)
unfolding words_to_bytes
words_to_bytes-step odd w byte ws bytes h h' = rw (h, words_to_bytes) (rw h' refl)

words_from-step :
    (odd : Bool) (byte : ℕ) (bytes : Bytes) (pair : String × String) (ws : List String)
    → get_elem? words byte ≡ some pair
    → words_from (not odd) bytes ≡ ok ws
    → words_from odd (byte ∷ bytes) ≡ ok (pick odd pair ∷ ws)
unfolding words_from
words_from-step odd byte bytes pair ws h h' = rw (h, words_from) (rw h' refl)

-- The words of the bytes from some place on, with what they stand for
words_from-words_to_bytes :
    (odd : Bool) (bytes : Bytes)
    → All (λ b. b < 256) bytes
    → (ws : List String) × (words_from odd bytes ≡ ok ws)
      × (length ws ≡ length bytes)
      × (words_to_bytes odd ws ≡ some bytes)
unfolding words_from words_to_bytes
words_from-words_to_bytes odd [] h = ([], refl, refl, refl)
words_from-words_to_bytes odd (byte ∷ bytes) (b, h) =
    let (pair, at) = get_elem?-below words byte (rw words-length b) in
    let (ws, said, as_long, back) = words_from-words_to_bytes (not odd) bytes h in
    (
      pick odd pair ∷ ws,
      words_from-step odd byte bytes pair ws at said,
      ap suc as_long,
      words_to_bytes-step odd _ byte ws bytes (index_of-word odd byte at) back,
    )

-- Every list of bytes has its words, one for each byte and never an IndexError, and the words say
-- which bytes they stand for: no two lists of bytes sound the same.
pub pgp_wordlist-words_to_bytes :
    (bytes : Bytes)
    → All (λ b. b < 256) bytes
    → (ws : List String) × (pgp_wordlist bytes ≡ ok ws)
      × (length ws ≡ length bytes)
      × (words_to_bytes false ws ≡ some bytes)
unfolding pgp_wordlist
pgp_wordlist-words_to_bytes bytes h = words_from-words_to_bytes false bytes h
