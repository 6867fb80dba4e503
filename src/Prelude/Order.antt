-- ===== src/Prelude/Order.antt =====
-- The order of texts by code points, which is the order of their UTF-8 bytes: a strict total order.
use Prim.Native.Nat.{compare, Ordering}
use Prim.Native.Char.{code}
use Prim.Native.String.{String, [], ◌∷◌}
use mathlib.Core.Path.{◌≡◌, refl, ap₂}
use native.Mathlib.Omega.{arith}
use text.Mathlib.TextEquality.{Char-path}

unfoldable pub lex : String → String → Ordering
lex [] [] = Ordering.eq
lex [] (_ ∷ _) = Ordering.lt
lex (_ ∷ _) [] = Ordering.gt
lex (a ∷ s) (b ∷ t) = elim (compare (code a) (code b)) [
  | Ordering.lt ↦ Ordering.lt
  | Ordering.eq ↦ lex s t
  | Ordering.gt ↦ Ordering.gt
]

pub lex_refl : (s : String) → lex s s ≡ Ordering.eq
unfolding lex
lex_refl [] = refl
lex_refl (c ∷ s) = ground (arith, lex_refl s)

pub eq_of_lex : (s t : String) → lex s t ≡ Ordering.eq → s ≡ t
unfolding lex
eq_of_lex [] [] h = refl
eq_of_lex [] (_ ∷ _) h = cc
eq_of_lex (_ ∷ _) [] h = cc
eq_of_lex (a ∷ s) (b ∷ t) h =
    ap₂ String.◌∷◌ (Char-path a b (ground arith)) (eq_of_lex s t (ground arith))

pub lex_flip : (s t : String) → lex s t ≡ Ordering.gt → lex t s ≡ Ordering.lt
unfolding lex
lex_flip [] [] h = cc
lex_flip [] (_ ∷ _) h = cc
lex_flip (_ ∷ _) [] h = refl
lex_flip (a ∷ s) (b ∷ t) h = ground (arith, lex_flip s t)

pub lex_trans :
    (s t u : String) → lex s t ≡ Ordering.lt → lex t u ≡ Ordering.lt → lex s u ≡ Ordering.lt
unfolding lex
lex_trans [] [] u h k = cc
lex_trans [] (_ ∷ _) [] h k = cc
lex_trans [] (_ ∷ _) (_ ∷ _) h k = refl
lex_trans (_ ∷ _) [] u h k = cc
lex_trans (_ ∷ _) (_ ∷ _) [] h k = cc
lex_trans (a ∷ s) (b ∷ t) (c ∷ u) h k = ground (arith, lex_trans s t u)

pub lex_flip_lt : (s t : String) → lex s t ≡ Ordering.lt → lex t s ≡ Ordering.gt
unfolding lex
lex_flip_lt [] [] h = cc
lex_flip_lt [] (_ ∷ _) h = refl
lex_flip_lt (_ ∷ _) [] h = cc
lex_flip_lt (a ∷ s) (b ∷ t) h = ground (arith, lex_flip_lt s t)
