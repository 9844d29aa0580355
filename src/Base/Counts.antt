-- ===== src/Base/Counts.antt =====
-- Counts and flags over a list, when one of its elements changes.
use go_advanced.Base.{
  ℕ, suc, ◌+◌, ◌≡◌, refl, ap, ◌⊎◌, inl, inr, Bool, true, Bool-cases, List, [], ◌∷◌, ◌++◌, arith,
  All, if◌then◌else◌,
}

module _ {ℓ} {A : Type ℓ} where
  -- the number of the elements that a test accepts
  unfoldable pub count : (A → Bool) → List A → ℕ
  count test [] = 0
  count test (x ∷ l) = if test x then suc (count test l) else count test l

  pub count-append :
      (test : A → Bool) (l r : List A) → count test (l ++ r) ≡ count test l + count test r
  unfolding count
  count-append test [] r = omega arith
  count-append test (x ∷ l) r = ground (arith, count-append test l r)

  pub count-middle :
      (test : A → Bool) (l r : List A) (x : A)
      → count test (l ++ x ∷ r) ≡ (if test x then 1 else 0) + (count test l + count test r)
  unfolding count
  count-middle test l r x = ground (arith, count-append test l (x ∷ r))

  pub All-middle :
      (P : A → Type 0) (l r : List A) (x : A) → All P (l ++ x ∷ r) → All P l × P x × All P r
  All-middle P [] r x h = (tt, h.0, h.1)
  All-middle P (y ∷ l) r x h = let (a, b, c) = All-middle P l r x h.1 in ((h.0, a), b, c)

  pub All-replace :
      (P : A → Type 0) (l r : List A) (x : A) → All P l × P x × All P r → All P (l ++ x ∷ r)
  All-replace P [] r x (a, b, c) = (b, c)
  All-replace P (y ∷ l) r x ((d, a), b, c) = (d, All-replace P l r x (a, b, c))

  pub All-mono : (P Q : A → Type 0) (l : List A) → ((x : A) → P x → Q x) → All P l → All Q l
  All-mono P Q [] f h = tt
  All-mono P Q (x ∷ l) f h = (f x h.0, All-mono P Q l f h.1)

  -- either the test accepts none, or there is one
  pub count-cases :
      (test : A → Bool) (l : List A)
      → (count test l ≡ 0) ⊎ ((a b : List A) × (x : A) × (l ≡ a ++ x ∷ b) × (test x ≡ true))
  unfolding count
  count-cases test [] = inl refl
  count-cases test (x ∷ l) = elim (Bool-cases (test x)) [
    | inl e ↦ inr ([], l, x, refl, e)
    | inr e ↦ elim (count-cases test l) [
      | inl none_left ↦ inl (rw e none_left)
      | inr (a, b, y, at, found) ↦ inr (x ∷ a, b, y, ap (λ t. x ∷ t) at, found)
    ]
  ]
