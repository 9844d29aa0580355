-- ===== src/Usecases/Sorting.antt =====
-- The sorting of the dump: by the byte order of the names, each name as often as before.
use Prim.Native.Nat.compare as compare_ℕ
use Prim.Native.Nat.{Ordering, compare as compare_ℕ}
use Prim.Native.Char.{code}
use Prim.Native.String.compare
use Prim.Native.String as Text
use Prim.Native.String.{compare, then}
use text.Mathlib.Text.{is_le}
use mathlib.Core.List.Perm
use mathlib.Core.List.{Perm}
use go_advanced.Base.{
  ℕ, zero, suc, String, ◌≡◌, refl, sym, ap, ◌∙◌, inl, inr, true, false, List, [], ◌∷◌, arith,
  Bool-cases,
}
use go_advanced.Usecases.{insert_sorted, sort_strings}

-- the order seen from the other side
abbrev flip : Ordering → Ordering
flip Ordering.lt = Ordering.gt
flip Ordering.eq = Ordering.eq
flip Ordering.gt = Ordering.lt

compare_numbers : (m n : ℕ) → compare_ℕ n m ≡ flip (compare_ℕ m n)
compare_numbers zero zero = refl
compare_numbers zero (suc n) = compare_ℕ.suc-zero n ∙ ap flip (sym (compare_ℕ.zero-suc n))
compare_numbers (suc m) zero = compare_ℕ.zero-suc m ∙ ap flip (sym (compare_ℕ.suc-zero m))
compare_numbers (suc m) (suc n) =
    compare_ℕ.suc-suc n m ∙ compare_numbers m n ∙ ap flip (sym (compare_ℕ.suc-suc m n))

then-flip : (o p : Ordering) → then (flip o) (flip p) ≡ flip (then o p)
then-flip Ordering.lt p = refl
then-flip Ordering.eq p = refl
then-flip Ordering.gt p = refl

compare-flip : (s t : String) → compare t s ≡ flip (compare s t)
compare-flip Text.[] Text.[] = compare.nil-nil ∙ ap flip (sym compare.nil-nil)
compare-flip Text.[] (Text.◌∷◌ d t) = compare.cons-nil d t ∙ ap flip (sym (compare.nil-cons d t))
compare-flip (Text.◌∷◌ c s) Text.[] = compare.nil-cons c s ∙ ap flip (sym (compare.cons-nil c s))
compare-flip (Text.◌∷◌ c s) (Text.◌∷◌ d t) =
    compare.cons-cons d c t s
    ∙ rw (compare_numbers (code c) (code d), compare-flip s t)
        (then-flip (compare_ℕ (code c) (code d)) (compare s t))
    ∙ ap flip (sym (compare.cons-cons c d s t))

le_of_flip : (o : Ordering) → is_le o ≡ false → is_le (flip o) ≡ true
le_of_flip Ordering.lt h = absurd (ground arith)
le_of_flip Ordering.eq h = absurd (ground arith)
le_of_flip Ordering.gt h = refl

-- Two names stand in one order or in the other.
total : (k j : String) → is_le (compare k j) ≡ false → is_le (compare j k) ≡ true
total k j h = ap is_le (compare-flip k j) ∙ le_of_flip (compare k j) h

abbrev Above : String → List String → Type 0
Above k [] = Unit
Above k (j ∷ js) = is_le (compare k j) ≡ true

-- Every name but the last is at most the next one.
abbrev pub IsSorted : List String → Type 0
IsSorted [] = Unit
IsSorted (k ∷ ks) = Above k ks × IsSorted ks

insert_sorted-Above :
    (i k : String) (js : List String)
    → is_le (compare i k) ≡ true
    → Above i js
    → Above i (insert_sorted k js)
insert_sorted-Above i k [] le above = le
insert_sorted-Above i k (j ∷ js) le above = elim (Bool-cases (is_le (compare k j))) [
  | inl e ↦ rw e le
  | inr e ↦ rw e above
]

insert_sorted-IsSorted :
    (k : String) (js : List String) → IsSorted js → IsSorted (insert_sorted k js)
insert_sorted-IsSorted k [] sorted = (tt, tt)
insert_sorted-IsSorted k (j ∷ js) sorted = elim (Bool-cases (is_le (compare k j))) [
  | inl e ↦ rw e (e, sorted)
  | inr e ↦
      rw e (insert_sorted-Above j k js (total k j e) sorted.0, insert_sorted-IsSorted k js sorted.1)
]

pub sort_strings-IsSorted : (ks : List String) → IsSorted (sort_strings ks)
unfolding sort_strings
sort_strings-IsSorted [] = tt
sort_strings-IsSorted (k ∷ ks) =
    insert_sorted-IsSorted k (sort_strings ks) (sort_strings-IsSorted ks)

insert_sorted-Perm : (k : String) (js : List String) → Perm (insert_sorted k js) (k ∷ js)
insert_sorted-Perm k [] = Perm.refl (k ∷ [])
insert_sorted-Perm k (j ∷ js) = elim (Bool-cases (is_le (compare k j))) [
  | inl e ↦ rw e (Perm.refl (k ∷ j ∷ js))
  | inr e ↦ rw e (Perm.trans (Perm.cons j (insert_sorted-Perm k js)) (Perm.swap k j js))
]

pub sort_strings-Perm : (ks : List String) → Perm (sort_strings ks) ks
unfolding sort_strings
sort_strings-Perm [] = Perm.refl []
sort_strings-Perm (k ∷ ks) =
    Perm.trans (insert_sorted-Perm k (sort_strings ks)) (Perm.cons k (sort_strings-Perm ks))
