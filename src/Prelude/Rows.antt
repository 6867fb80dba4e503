-- ===== src/Prelude/Rows.antt =====
-- Laws of the searches and updates of a table.
use sharp_oauth.Prelude.Tests.{if◌then◌else◌, Bool-cases}
use mathlib.Core.Path.{◌≡◌, refl, sym, ap}
use mathlib.Core.Logic.{◌⊎◌, inl, inr}
use mathlib.Core.Bool.{Bool, true, false}
use mathlib.Core.Option.{none, some}
use mathlib.Core.List.{List, [], ◌∷◌, ◌++◌}
use native.Mathlib.Omega.{arith}
use sharp_oauth.Prelude.Lists.{find, filter, any, update_where, All}

module _ {A : Type 0} where
  -- The element stands in the list.
  abbrev pub In : A → List A → Type 0
  In a [] = ⊥
  In a (x ∷ xs) = (x ≡ a) ⊎ In a xs

  -- No element passes.
  abbrev pub None : (A → Bool) → List A → Type 0
  None p = All (λ x. p x ≡ false)

  pub find-none : (p : A → Bool) (xs : List A) → find p xs ≡ none → None p xs
  unfolding find
  find-none p [] e = tt
  find-none p (x ∷ xs) e = ground (arith, find-none p xs)

  pub none-find : (p : A → Bool) (xs : List A) → None p xs → find p xs ≡ none
  unfolding find
  none-find p [] h = refl
  none-find p (x ∷ xs) h = ground (arith, none-find p xs h.1)

  pub find-passes : (p : A → Bool) (xs : List A) (a : A) → find p xs ≡ some a → p a ≡ true
  unfolding find
  find-passes p [] a e = cc
  find-passes p (x ∷ xs) a e = ground (arith, find-passes p xs a)

  pub find-In : (p : A → Bool) (xs : List A) (a : A) → find p xs ≡ some a → In a xs
  unfolding find
  find-In p [] a e = cc
  find-In p (x ∷ xs) a e = elim (Bool-cases (p x)) [
    | inl hit ↦ inl (ground arith)
    | inr miss ↦ inr (find-In p xs a (ground arith))
  ]

  -- An update that nothing matches changes nothing.
  pub update_where-none :
      (p : A → Bool) (f : A → A) (xs : List A) → None p xs → update_where p f xs ≡ xs
  unfolding update_where
  update_where-none p f [] h = refl
  update_where-none p f (x ∷ xs) h = ground (arith, update_where-none p f xs h.1)

  -- After an update that turns the test off, nothing matches.
  pub none-update_where :
      (p : A → Bool) (f : A → A) (xs : List A)
      → ((a : A) → p (f a) ≡ false)
      → None p (update_where p f xs)
  unfolding update_where
  none-update_where p f [] off = tt
  none-update_where p f (x ∷ xs) off = ground (arith, off x, none-update_where p f xs off)

  pub none-append : (p : A → Bool) (xs ys : List A) → None p xs → None p ys → None p (xs ++ ys)
  none-append p [] ys h k = k
  none-append p (x ∷ xs) ys h k = (h.0, none-append p xs ys h.1 k)

  -- A row after an update is an updated row, or one that the update passed over.
  pub In-update_where :
      (p : A → Bool) (f : A → A) (xs : List A) (b : A)
      → In b (update_where p f xs)
      → (a : A) × In a xs × (b ≡ (if p a then f a else a))
  unfolding update_where
  In-update_where p f [] b x' = elim x' [ ]
  In-update_where p f (x ∷ xs) b (inl here) = (x, inl refl, sym here)
  In-update_where p f (x ∷ xs) b (inr there) =
      let (a, listed, e) = In-update_where p f xs b there in (a, inr listed, e)

  pub In-any : (p : A → Bool) (xs : List A) (a : A) → In a xs → p a ≡ true → any p xs ≡ true
  unfolding any
  In-any p [] a x' h = elim x' [ ]
  In-any p (x ∷ xs) a (inl here) h = ground (arith, ap p here)
  In-any p (x ∷ xs) a (inr there) h = ground (arith, In-any p xs a there h)

  pub In-append : (xs ys : List A) (a : A) → In a (xs ++ ys) → In a xs ⊎ In a ys
  In-append [] ys a h = inr h
  In-append (x ∷ xs) ys a (inl here) = inl (inl here)
  In-append (x ∷ xs) ys a (inr there) = elim (In-append xs ys a there) [
    | inl left ↦ inl (inr left)
    | inr right ↦ inr right
  ]

  -- An update that turns the test on for no row keeps that nothing matches.
  pub None-update_where :
      (p q : A → Bool) (f : A → A) (xs : List A)
      → ((a : A) → p a ≡ false → p (f a) ≡ false)
      → None p xs
      → None p (update_where q f xs)
  unfolding update_where
  None-update_where p q f [] off h = tt
  None-update_where p q f (x ∷ xs) off h = ground (arith, off x, None-update_where p q f xs off h.1)

  pub None-filter : (p q : A → Bool) (xs : List A) → None p xs → None p (filter q xs)
  unfolding filter
  None-filter p q [] h = tt
  None-filter p q (x ∷ xs) h = elim (Bool-cases (q x)) [
    | inl stays ↦ rw stays (h.0, None-filter p q xs h.1)
    | inr goes ↦ rw goes (None-filter p q xs h.1)
  ]

  pub None-In : (p : A → Bool) (xs : List A) (a : A) → None p xs → In a xs → p a ≡ false
  None-In p [] a h x' = elim x' [ ]
  None-In p (x ∷ xs) a h (inl here) = rw here at h.0
  None-In p (x ∷ xs) a h (inr there) = None-In p xs a h.1 there

  pub all-None : (p : A → Bool) (xs : List A) → ((a : A) → In a xs → p a ≡ false) → None p xs
  all-None p [] h = tt
  all-None p (x ∷ xs) h = (h x (inl refl), all-None p xs (λ a listed. h a (inr listed)))
