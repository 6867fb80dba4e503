-- ===== src/Scope/Canonical.antt =====
-- The list form of a scope set is canonical: ascending, without repetition, and determined by
-- the names that the set holds.
use Prim.Native.Nat.{Ordering}
use sharp_oauth.Prelude.{
  ◌≡◌, refl, ap, ap₂, ◌∙◌, true, false, String, List, [], ◌∷◌, arith, ◌==◌, eq_iff, foldl, mem,
  Bool-cases, inl, inr, ok, all_codes, >>?-eq-ok,
}
use sharp_oauth.Prelude.Order.{lex, lex_refl, lex_flip, lex_trans}
use sharp_oauth.Scope.{
  ScopeSet, insert, collect, is_scope_byte, reject_empty, tokens, parse, union, from_iter,
}
use sharp_oauth.Scope.Members.{mem-union}

-- `x` comes before the first element.
abbrev pub Above : String → ScopeSet → Type 0
Above x [] = Unit
Above x (y ∷ _) = lex x y ≡ Ordering.lt

abbrev pub IsCanonical : ScopeSet → Type 0
IsCanonical [] = Unit
IsCanonical (x ∷ s) = Above x s × IsCanonical s

insert-Above :
    (z x : String) (s : ScopeSet) → Above z s → lex z x ≡ Ordering.lt → Above z (insert x s)
unfolding insert
insert-Above z x [] a h = h
insert-Above z x (y ∷ s) a h = ground arith

pub insert-IsCanonical : (x : String) (s : ScopeSet) → IsCanonical s → IsCanonical (insert x s)
unfolding insert
insert-IsCanonical x [] c = (tt, tt)
insert-IsCanonical x (y ∷ s) c =
    ground (arith, lex_flip x y, insert-IsCanonical x s, insert-Above y x s)

pub foldl-IsCanonical :
    (xs : List String) (s : ScopeSet)
    → IsCanonical s
    → IsCanonical (foldl (λ scopes scope. insert scope scopes) s xs)
unfolding foldl
foldl-IsCanonical [] s c = c
foldl-IsCanonical (x ∷ xs) s c = foldl-IsCanonical xs (insert x s) (insert-IsCanonical x s c)

pub union-IsCanonical : (s t : ScopeSet) → IsCanonical s → IsCanonical (union s t)
unfolding union
union-IsCanonical s t c = foldl-IsCanonical t s c

pub from_iter-IsCanonical : (xs : List String) → IsCanonical (from_iter xs)
unfolding from_iter
from_iter-IsCanonical xs = foldl-IsCanonical xs [] tt

pub collect-IsCanonical :
    (ts : List String) (s r : ScopeSet) → IsCanonical s → collect s ts ≡ ok r → IsCanonical r
unfolding collect
collect-IsCanonical [] s r c e = ground arith
collect-IsCanonical (t ∷ ts) s r c e = elim (Bool-cases (all_codes is_scope_byte t)) [
  | inl good ↦ collect-IsCanonical ts (insert t s) r (insert-IsCanonical t s c) (ground arith)
  | inr bad ↦ absurd (ground arith)
]

pub reject_empty_lem : (s r : ScopeSet) → reject_empty s ≡ ok r → s ≡ r
reject_empty_lem [] r h = cc
reject_empty_lem (x ∷ s) r h = cc

pub parse-IsCanonical : (raw : String) (s : ScopeSet) → parse raw ≡ ok s → IsCanonical s
unfolding parse
parse-IsCanonical raw s e =
    let (c, collected, same) = >>?-eq-ok (collect [] (tokens raw)) reject_empty e in
    collect-IsCanonical (tokens raw) [] s tt (collected ∙ ap ok (reject_empty_lem c s same))

-- Every member comes after what is above the list.
Above-mem :
    (x y : String) (s : ScopeSet)
    → Above x s
    → IsCanonical s
    → mem y s ≡ true
    → lex x y ≡ Ordering.lt
Above-mem x y [] a c m = cc
Above-mem x y (z ∷ s) a c m = elim (Bool-cases (z == y)) [
  | inl same ↦ ground (arith, eq_iff z y)
  | inr other ↦ lex_trans x z y a (Above-mem z y s c.0 c.1 (ground arith))
]

not-mem-Above : (x : String) (s : ScopeSet) → Above x s → IsCanonical s → mem x s ≡ false
not-mem-Above x s a c = elim (Bool-cases (mem x s)) [
  | inl yes' ↦ cc (Above-mem x x s a c yes', lex_refl x)
  | inr no' ↦ no'
]

heads_agree :
    (x y : String) (s t : ScopeSet)
    → IsCanonical (x ∷ s)
    → IsCanonical (y ∷ t)
    → ((z : String) → mem z (x ∷ s) ≡ mem z (y ∷ t))
    → x ≡ y
heads_agree x y s t c d h = elim (Bool-cases (x == y)) [
  | inl same ↦ (eq_iff x y).0 same
  | inr other ↦
      let after_y : lex y x ≡ Ordering.lt =
        Above-mem y x t d.0 d.1 (ground (arith, h x, eq_iff x x, eq_iff y x, eq_iff x y)) in
      let after_x : lex x y ≡ Ordering.lt =
        Above-mem x y s c.0 c.1 (ground (arith, h y, eq_iff y y, eq_iff y x, eq_iff x y)) in
      cc (lex_trans x y x after_x after_y, lex_refl x)
]

-- Two canonical sets with the same names are the same list, so they print alike.
pub canonical_unique :
    (s t : ScopeSet) → IsCanonical s → IsCanonical t → ((z : String) → mem z s ≡ mem z t) → s ≡ t
canonical_unique [] [] c d h = refl
canonical_unique [] (y ∷ t) c d h = cc (h y, (eq_iff y y).1 refl)
canonical_unique (x ∷ s) [] c d h = ground (arith, h x, eq_iff x x)
canonical_unique (x ∷ s) (y ∷ t) c d h =
    let same = heads_agree x y s t c d h in
    ap₂ ◌∷◌ same (
      canonical_unique s t c.1 d.1 (λ z.
        ground
          (arith, same, h z, eq_iff x z, not-mem-Above x s c.0 c.1, not-mem-Above y t d.0 d.1)))

-- A union does not depend on the order of its parts.
union_comm : (s t : ScopeSet) → IsCanonical s → IsCanonical t → union s t ≡ union t s
union_comm s t c d =
    canonical_unique (union s t) (union t s) (union-IsCanonical s t c) (union-IsCanonical t s d)
      (λ z. ground (arith, mem-union z s t, mem-union z t s))
