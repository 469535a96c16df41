-- ===== src/HashSet.antt =====
-- std::collections::HashSet: a list in which no element stands twice.
use ctp_system.Prelude.{
  ◌≡◌, Bool, true, false, ◌||◌, List, [], ◌∷◌, arith, Eq, ◌==◌, if◌then◌else◌, Bool-cases, inl, inr,
  subst, elem,
}

abbrev pub HashSet {ℓ} : Type ℓ → Type ℓ
HashSet A = List A

module _ {ℓ} {A : Type ℓ} ⦃e : Eq A⦄ where
  -- The new set, and whether the element was not there before.
  unfoldable pub insert : A → HashSet A → HashSet A × Bool
  insert a s = if elem a s then (s, false) else (a ∷ s, true)

  unfoldable pub remove : A → HashSet A → HashSet A
  remove a [] = []
  remove a (x ∷ s) = let rest = remove a s in if x == a then rest else x ∷ rest

  elem-eq : (a b : A) (s : HashSet A) → a ≡ b → elem a s ≡ true → elem b s ≡ true
  elem-eq a b s p h = subst (λ x. elem x s ≡ true) p h

  pub elem-insert : (a b : A) (s : HashSet A) → elem b (insert a s).0 ≡ ((a == b) || elem b s)
  unfolding insert
  elem-insert a b s = elim (Bool-cases (elem a s)) [
    | inl old ↦ rw old (ground (arith, e.equals_iff a b, elem-eq a b s))
    | inr new ↦ rw new
  ]

  pub elem-remove :
      (a b : A) (s : HashSet A) → elem b (remove a s) ≡ (if a == b then false else elem b s)
  unfolding remove
  elem-remove a b [] = ground arith
  elem-remove a b (x ∷ s) =
      ground (arith, elem-remove a b s, e.equals_iff x a, e.equals_iff x b, e.equals_iff a b)
