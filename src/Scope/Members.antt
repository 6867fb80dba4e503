-- ===== src/Scope/Members.antt =====
-- Which names a scope set holds after each operation.
use sharp_oauth.Prelude.{
  ◌≡◌, refl, ◌∙◌, true, ◌||◌, String, List, [], ◌∷◌, arith, ◌==◌, eq_iff, foldl, all, mem,
  Bool-cases, inl, inr, ◌↔◌,
}
use sharp_oauth.Prelude.Order.{eq_of_lex}
use sharp_oauth.Scope.{ScopeSet, insert, is_subset_of, union, from_iter}

-- Adding a name adds that name and no other.
pub mem-insert : (x y : String) (s : ScopeSet) → mem y (insert x s) ≡ (x == y || mem y s)
unfolding insert
mem-insert x y [] = refl
mem-insert x y (z ∷ s) = ground (arith, eq_of_lex x z, eq_iff x y, eq_iff z y, mem-insert x y s)

pub mem-foldl :
    (y : String) (s : ScopeSet) (xs : List String)
    → mem y (foldl (λ scopes scope. insert scope scopes) s xs) ≡ (mem y s || mem y xs)
unfolding foldl
mem-foldl y s [] = ground arith
mem-foldl y s (x ∷ xs) = mem-foldl y (insert x s) xs ∙ ground (arith, mem-insert x y s)

-- A union holds the names of both sets.
pub mem-union : (y : String) (s t : ScopeSet) → mem y (union s t) ≡ (mem y s || mem y t)
unfolding union
mem-union y s t = mem-foldl y s t

pub mem-from_iter : (y : String) (xs : List String) → mem y (from_iter xs) ≡ mem y xs
unfolding from_iter
mem-from_iter y xs = mem-foldl y [] xs

pub subset-mem :
    (s t : ScopeSet) (x : String) → is_subset_of s t ≡ true → mem x s ≡ true → mem x t ≡ true
unfolding is_subset_of all
subset-mem [] t x h m = cc
subset-mem (y ∷ s) t x h m = elim (Bool-cases (y == x)) [
  | inl same ↦ ground (arith, eq_iff y x)
  | inr other ↦ subset-mem s t x (ground arith) (ground arith)
]

mem-subset :
    (s t : ScopeSet) → ((x : String) → mem x s ≡ true → mem x t ≡ true) → is_subset_of s t ≡ true
unfolding is_subset_of all
mem-subset [] t h = refl
mem-subset (y ∷ s) t h = ground (arith, h y, eq_iff y y, mem-subset s t (λ x m. h x (ground arith)))

-- The subset test says yes exactly when every name of the first set is in the second.
pub is_subset_of_iff :
    (s t : ScopeSet) → (is_subset_of s t ≡ true) ↔ ((x : String) → mem x s ≡ true → mem x t ≡ true)
is_subset_of_iff s t = (λ h x m. subset-mem s t x h m, mem-subset s t)
