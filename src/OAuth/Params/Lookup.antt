-- ===== src/OAuth/Params/Lookup.antt =====
-- What the parameter map answers, in terms of the pairs of the request.
use sharp_oauth.Prelude.{
  ◌≡◌, refl, ◌≢◌, ◌⊎◌, inl, inr, false, String, none, some, [], ◌∷◌, ok, arith, ◌==◌, eq_iff,
  is_empty, All, Bool-cases, Option-cases, ◌↔◌,
}
use sharp_oauth.OAuth.Params.{Pairs, Params, lookup, insert_all, from_pairs, get}

-- The pair stands in the list.
abbrev pub Listed : String → String → Pairs → Type 0
Listed name value [] = ⊥
Listed name value ((k, v) ∷ pairs) = ((k ≡ name) × (v ≡ value)) ⊎ Listed name value pairs

abbrev pub IsFresh : String → Pairs → Type 0
IsFresh name = All (λ pair. pair.0 ≢ name)

-- No name is repeated.
abbrev pub HasDistinctNames : Pairs → Type 0
HasDistinctNames [] = Unit
HasDistinctNames ((k, v) ∷ pairs) = IsFresh k pairs × HasDistinctNames pairs

lookup-IsFresh : (name : String) (pairs : Pairs) → lookup name pairs ≡ none → IsFresh name pairs
unfolding lookup
lookup-IsFresh name [] e = tt
lookup-IsFresh name ((k, v) ∷ pairs) e = ground (arith, eq_iff k name, lookup-IsFresh name pairs)

IsFresh-lookup : (name : String) (pairs : Pairs) → IsFresh name pairs → lookup name pairs ≡ none
unfolding lookup
IsFresh-lookup name [] h = refl
IsFresh-lookup name ((k, v) ∷ pairs) h = ground (arith, eq_iff k name, IsFresh-lookup name pairs)

lookup-Listed :
    (name value : String) (pairs : Pairs) → lookup name pairs ≡ some value → Listed name value pairs
unfolding lookup
lookup-Listed name value [] e = cc
lookup-Listed name value ((k, v) ∷ pairs) e = elim (Bool-cases (k == name)) [
  | inl same ↦ inl ((eq_iff k name).0 same, ground arith)
  | inr other ↦ inr (lookup-Listed name value pairs (ground arith))
]

-- Each pair after the loop's current one clashes with none of those inserted.
abbrev Apart : Pairs → Pairs → Type 0
Apart entries pairs = All (λ pair. lookup pair.0 entries ≡ none) pairs

-- The map after the loop: what it held, and every pair of the input.
insert_all_sound :
    (entries pairs : Pairs) (m : Params) (name value : String)
    → insert_all entries pairs ≡ ok m
    → lookup name m.entries ≡ some value
    → Listed name value pairs ⊎ (lookup name entries ≡ some value)
unfolding insert_all
insert_all_sound entries [] m name value e h = inr (ground arith)
insert_all_sound entries ((k, v) ∷ pairs) m name value e h =
    elim (Option-cases (lookup k entries)) [
      | inl new ↦ elim (insert_all_sound ((k, v) ∷ entries) pairs m name value (ground arith) h) [
        | inl later ↦ inl (inr later)
        | inr held ↦
            unfold lookup in
            elim (Bool-cases (k == name)) [
              | inl same ↦ inl (inl ((eq_iff k name).0 same, ground arith))
              | inr other ↦ inr (ground arith)
            ]
      ]
      | inr (_, old) ↦ absurd (ground arith)
    ]

insert_all-keeps :
    (entries pairs : Pairs) (m : Params) (name value : String)
    → insert_all entries pairs ≡ ok m
    → lookup name entries ≡ some value
    → lookup name m.entries ≡ some value
unfolding insert_all
insert_all-keeps entries [] m name value e h = ground arith
insert_all-keeps entries ((k, v) ∷ pairs) m name value e h =
    elim (Option-cases (lookup k entries)) [
      | inl new ↦
          insert_all-keeps ((k, v) ∷ entries) pairs m name value (ground arith)
            (unfold lookup in ground (arith, eq_iff k name))
      | inr (_, old) ↦ absurd (ground arith)
    ]

insert_all_complete :
    (entries pairs : Pairs) (m : Params) (name value : String)
    → insert_all entries pairs ≡ ok m
    → Listed name value pairs
    → lookup name m.entries ≡ some value
unfolding insert_all
insert_all_complete entries [] m name value e h = absurd h
insert_all_complete entries ((k, v) ∷ pairs) m name value e (inl h) =
    elim (Option-cases (lookup k entries)) [
      | inl new ↦
          insert_all-keeps ((k, v) ∷ entries) pairs m name value (ground arith)
            (unfold lookup in ground (arith, eq_iff k name, h.0, h.1))
      | inr (_, old) ↦ absurd (ground arith)
    ]
insert_all_complete entries ((k, v) ∷ pairs) m name value e (inr h) =
    elim (Option-cases (lookup k entries)) [
      | inl new ↦ insert_all_complete ((k, v) ∷ entries) pairs m name value (ground arith) h
      | inr (_, old) ↦ absurd (ground arith)
    ]

-- A parameter has a value exactly when the accepted request lists it with that value, not empty.
get_iff :
    (pairs : Pairs) (m : Params) (name value : String)
    → from_pairs pairs ≡ ok m
    → (get m name ≡ some value) ↔ (Listed name value pairs × (is_empty value ≡ false))
unfolding from_pairs get
get_iff pairs m name value e = (to, from)
  where
    found : lookup name m.entries ≡ some value → Listed name value pairs
    found h = elim (insert_all_sound [] pairs m name value e h) [
      | inl listed ↦ listed
      | inr held ↦ unfold lookup in absurd (cc held)
    ]

    to : get m name ≡ some value → Listed name value pairs × (is_empty value ≡ false)
    to h = elim (Option-cases (lookup name m.entries)) [
      | inl missing ↦ absurd (ground arith)
      | inr (v, held) ↦ (found (ground arith), ground arith)
    ]

    from : Listed name value pairs × (is_empty value ≡ false) → get m name ≡ some value
    from h = ground (arith, insert_all_complete [] pairs m name value e h.0)

insert_all-ok :
    (entries pairs : Pairs)
    → Apart entries pairs
    → HasDistinctNames pairs
    → (m : Params) × (insert_all entries pairs ≡ ok m)
unfolding insert_all
insert_all-ok entries [] a d = (record { entries = entries }, refl)
insert_all-ok entries ((k, v) ∷ pairs) a d =
    let (m, e) = insert_all-ok ((k, v) ∷ entries) pairs (widen pairs a.1 d.0) d.1 in
    (m, ground (arith, a.0, e))
  where
    widen : (ps : Pairs) → Apart entries ps → IsFresh k ps → Apart ((k, v) ∷ entries) ps
    widen [] _ _ = tt
    widen ((j, w) ∷ ps) b f =
        (unfold lookup in ground (arith, eq_iff k j, b.0, f.0), widen ps b.1 f.1)

insert_all-distinct :
    (entries pairs : Pairs) (m : Params)
    → insert_all entries pairs ≡ ok m
    → Apart entries pairs × HasDistinctNames pairs
unfolding insert_all
insert_all-distinct entries [] m e = (tt, tt)
insert_all-distinct entries ((k, v) ∷ pairs) m e = elim (Option-cases (lookup k entries)) [
  | inl new ↦
      let (apart, distinct) = insert_all-distinct ((k, v) ∷ entries) pairs m (ground arith) in
      ((new, narrow pairs apart), (fresh pairs apart, distinct))
  | inr (_, old) ↦ absurd (ground arith)
]
  where
    narrow : (ps : Pairs) → Apart ((k, v) ∷ entries) ps → Apart entries ps
    narrow [] _ = tt
    narrow ((j, w) ∷ ps) b = (unfold lookup in ground (arith, b.0), narrow ps b.1)

    fresh : (ps : Pairs) → Apart ((k, v) ∷ entries) ps → IsFresh k ps
    fresh [] _ = tt
    fresh ((j, w) ∷ ps) b = (unfold lookup in ground (arith, eq_iff k j, b.0), fresh ps b.1)

nothing_held : (pairs : Pairs) → Apart [] pairs
unfolding lookup
nothing_held [] = tt
nothing_held (pair ∷ pairs) = (refl, nothing_held pairs)

-- A request is accepted exactly when no parameter name is repeated.
from_pairs_iff :
    (pairs : Pairs) → ((m : Params) × (from_pairs pairs ≡ ok m)) ↔ HasDistinctNames pairs
unfolding from_pairs
from_pairs_iff pairs =
    (λ (m, e). (insert_all-distinct [] pairs m e).1, insert_all-ok [] pairs (nothing_held pairs))
