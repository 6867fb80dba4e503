-- ===== src/Prelude/Split.antt =====
-- `split` at a space undoes what put its pieces together.
use Prim.Native.Char.{code}
use Prim.Native.String
use Prim.Native.Nat.{ℕ}
use Prim.Native.String.{String}
use text.Mathlib.TextLemmas.{nil-append, cons-append}
use mathlib.Core.Path.{◌≡◌, refl, ap, ◌∙◌}
use mathlib.Core.Logic.{inl, inr}
use mathlib.Core.Bool.{Bool, true, false}
use mathlib.Core.List.{[], ◌∷◌}
use native.Mathlib.Omega.{arith}
use sharp_oauth.Prelude.Tests.{eqb, eqb→eq, Bool-cases}
use sharp_oauth.Prelude.Texts.{all_codes, split}

space-append : (rest : String) → String.◌++◌ " " rest ≡ String.◌∷◌ " " rest
space-append rest = cons-append " " "" rest ∙ ap (String.◌∷◌ " ") (nil-append rest)

-- A piece whose characters pass a test that a space does not.
module _ (p : ℕ → Bool) (off : p b' ' ≡ false) where
  other_code : (n : ℕ) → p n ≡ true → eqb n b' ' ≡ false
  other_code n h = elim (Bool-cases (eqb n b' ')) [
    | inl space ↦ let same = eqb→eq n b' ' space in absurd (ground (arith, off, ap p same))
    | inr differs ↦ differs
  ]

  pub split-part : (x : String) → all_codes p x ≡ true → split b' ' x ≡ x ∷ []
  unfolding split all_codes
  split-part String.[] h = refl
  split-part (String.◌∷◌ c x) h = ground (arith, other_code (code c), split-part x)

  pub split-part-append :
      (x rest : String)
      → all_codes p x ≡ true
      → split b' ' (String.◌++◌ x (String.◌++◌ " " rest)) ≡ x ∷ split b' ' rest
  unfolding split all_codes
  split-part-append String.[] rest h = rw (nil-append, space-append) refl
  split-part-append (String.◌∷◌ c x) rest h =
      rw cons-append (ground (arith, other_code (code c), split-part-append x rest))
