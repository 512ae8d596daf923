-- ===== src/Rrsig/Sorting.antt =====
-- Python's `sorted` on byte strings, which are compared byte by byte, and that its result does not
-- depend on the order of the input.
use mathlib.Core.List.{Permᴰ}
use sam_ken_x_dnssec_keytool.Prelude.{
  ◌≡◌, refl, ◌∙◌, Bool, true, false, List, [], ◌∷◌, arith, ltb, nat_eqb, if◌then◌else◌,
}
use sam_ken_x_dnssec_keytool.Data.{Bytes}

-- `x <= y`
unfoldable pub bytes_le : Bytes → Bytes → Bool
bytes_le [] y = true
bytes_le (a ∷ x) [] = false
bytes_le (a ∷ x) (b ∷ y) =
    let rest = bytes_le x y in if ltb a b then true else if nat_eqb a b then rest else false

insert_sorted : Bytes → List Bytes → List Bytes
insert_sorted x [] = x ∷ []
insert_sorted x (y ∷ ys) =
    let rest = insert_sorted x ys in if bytes_le x y then x ∷ y ∷ ys else y ∷ rest

-- sorted
unfoldable pub sorted : List Bytes → List Bytes
unfolding insert_sorted
sorted [] = []
sorted (x ∷ xs) = insert_sorted x (sorted xs)

bytes_le_antisymm : (x y : Bytes) → bytes_le x y ≡ true → bytes_le y x ≡ true → x ≡ y
unfolding bytes_le
bytes_le_antisymm [] [] h k = refl
bytes_le_antisymm [] (b ∷ y) h k = ground arith
bytes_le_antisymm (a ∷ x) [] h k = ground arith
bytes_le_antisymm (a ∷ x) (b ∷ y) h k = ground (arith, bytes_le_antisymm x y)

bytes_le_total : (x y : Bytes) → bytes_le x y ≡ false → bytes_le y x ≡ true
unfolding bytes_le
bytes_le_total [] y h = ground arith
bytes_le_total (a ∷ x) [] h = ground arith
bytes_le_total (a ∷ x) (b ∷ y) h = ground (arith, bytes_le_total x y)

bytes_le_trans : (x y z : Bytes) → bytes_le x y ≡ true → bytes_le y z ≡ true → bytes_le x z ≡ true
unfolding bytes_le
bytes_le_trans [] y z h k = refl
bytes_le_trans (a ∷ x) [] z h k = ground arith
bytes_le_trans (a ∷ x) (b ∷ y) [] h k = ground arith
bytes_le_trans (a ∷ x) (b ∷ y) (c ∷ z) h k = ground (arith, bytes_le_trans x y z)

-- Two insertions may be exchanged.
insert_sorted_comm :
    (x y : Bytes) (zs : List Bytes)
    → insert_sorted x (insert_sorted y zs) ≡ insert_sorted y (insert_sorted x zs)
unfolding insert_sorted
insert_sorted_comm x y [] =
    ground (arith, bytes_le_antisymm x y, bytes_le_total x y, bytes_le_total y x)
insert_sorted_comm x y (z ∷ zs) = ground (
  arith,
  bytes_le_antisymm x y,
  bytes_le_total x y,
  bytes_le_total y x,
  bytes_le_trans x y z,
  bytes_le_trans y x z,
  insert_sorted_comm x y zs,
)

-- The result of sorting does not depend on the order of the input.
pub sorted-perm : {xs ys : List Bytes} → Permᴰ xs ys → sorted xs ≡ sorted ys
unfolding sorted
sorted-perm Permᴰ.nil = refl
sorted-perm (Permᴰ.cons same p) = cc (sorted-perm p)
sorted-perm (Permᴰ.swap {a = a} {b = b} {l = l} first second) =
    cc (insert_sorted_comm a b (sorted l))
sorted-perm (Permᴰ.trans p q) = sorted-perm p ∙ sorted-perm q
