-- ===== src/Scope/Wire.antt =====
-- The wire form of a scope set, printed and read.
use Prim.Native.Nat.{Ordering}
use sharp_oauth.Prelude.{
  ◌≡◌, refl, ap, ◌∙◌, true, false, String, List, [], ◌∷◌, arith, not, Bool-cases, inl, inr, ok,
  all_codes, >>?-eq-ok, is_empty, All, split, filter, ◌++◌, append_assoc,
}
use sharp_oauth.Prelude.Order.{lex, lex_flip_lt, lex_trans}
use sharp_oauth.Prelude.Split.{split-part, split-part-append}
use sharp_oauth.Scope.{
  ScopeSet, insert, collect, is_scope_byte, reject_empty, tokens, parse, to_string,
}
use sharp_oauth.Scope.Canonical.{IsCanonical, parse-IsCanonical, reject_empty_lem}

-- A name that the grammar of RFC 6749 §3.3 allows.
abbrev pub IsToken : String → Type 0
IsToken t = (is_empty t ≡ false) × (all_codes is_scope_byte t ≡ true)

split-to_string :
    (x : String) (s : ScopeSet) → All IsToken (x ∷ s) → split b' ' (to_string (x ∷ s)) ≡ x ∷ s
unfolding to_string
split-to_string x [] h = split-part is_scope_byte refl x h.0.1
split-to_string x (y ∷ s) h =
    split-part-append is_scope_byte refl x (to_string (y ∷ s)) h.0.1
    ∙ ap (◌∷◌ x) (split-to_string y s h.1)

filter-tokens : (s : List String) → All IsToken s → filter (λ token. not (is_empty token)) s ≡ s
unfolding filter
filter-tokens [] h = refl
filter-tokens (x ∷ s) h = ground (arith, filter-tokens s h.1)

below_later :
    (y : String) (ys : List String) (x : String) (s : List String)
    → IsCanonical (y ∷ (ys ++ x ∷ s))
    → lex y x ≡ Ordering.lt
below_later y [] x s c = c.0
below_later y (z ∷ ys) x s c = lex_trans y z x c.0 (below_later z ys x s c.1)

insert_last :
    (ys : List String) (x : String) (s : List String)
    → IsCanonical (ys ++ x ∷ s)
    → insert x ys ≡ ys ++ x ∷ []
unfolding insert
insert_last [] x s c = refl
insert_last (y ∷ ys) x s c =
    ground (arith, lex_flip_lt y x (below_later y ys x s c), insert_last ys x s c.1)

collect_sorted :
    (done s : List String)
    → IsCanonical (done ++ s)
    → All IsToken s
    → collect done s ≡ ok (done ++ s)
unfolding collect
collect_sorted done [] c h = ap ok (append-nil' done)
  where
    append-nil' : (xs : List String) → xs ≡ xs ++ []
    append-nil' [] = refl
    append-nil' (x ∷ xs) = ap (◌∷◌ x) (append-nil' xs)
collect_sorted done (x ∷ s) c h =
    let ih = collect_sorted (done ++ x ∷ []) s (rw append_assoc c) h.1 in
    ground (arith, insert_last done x s c, ih, append_assoc done (x ∷ []) s)

-- What `parse` returns: names of the grammar, ascending, at least one.
pub record IsWire (s : ScopeSet) : Type 0 where
  pub canonical : IsCanonical s
  pub named : All IsToken s
  pub some_name : reject_empty s ≡ ok s

insert-All : (x : String) (s : ScopeSet) → IsToken x → All IsToken s → All IsToken (insert x s)
unfolding insert
insert-All x [] h k = (h, tt)
insert-All x (y ∷ s) h k = ground (arith, insert-All x s h k.1)

abbrev NonEmpty : String → Type 0
NonEmpty t = is_empty t ≡ false

filter-NonEmpty : (ts : List String) → All NonEmpty (filter (λ token. not (is_empty token)) ts)
unfolding filter
filter-NonEmpty [] = tt
filter-NonEmpty (t ∷ ts) = ground (arith, filter-NonEmpty ts)

collect-All :
    (ts : List String) (s r : ScopeSet)
    → All NonEmpty ts
    → All IsToken s
    → collect s ts ≡ ok r
    → All IsToken r
unfolding collect
collect-All [] s r n h e = ground arith
collect-All (t ∷ ts) s r n h e = elim (Bool-cases (all_codes is_scope_byte t)) [
  | inl good ↦ collect-All ts (insert t s) r n.1 (insert-All t s (n.0, good) h) (ground arith)
  | inr bad ↦ absurd (ground arith)
]

reject_empty_twice : (s r : ScopeSet) → reject_empty s ≡ ok r → reject_empty r ≡ ok r
reject_empty_twice [] r h = cc
reject_empty_twice (x ∷ s) [] h = cc
reject_empty_twice (x ∷ s) (y ∷ r) h = refl

-- A parsed set has only names of the grammar, in ascending order, and is not empty.
pub parse-IsWire : (raw : String) (s : ScopeSet) → parse raw ≡ ok s → IsWire s
unfolding parse
parse-IsWire raw s e =
    let (c, collected, same) = >>?-eq-ok (collect [] (tokens raw)) reject_empty e in
    record {
      canonical = parse-IsCanonical raw s e;
      named =
          collect-All (tokens raw) [] s (filter-NonEmpty (split b' ' raw)) tt
            (collected ∙ ap ok (reject_empty_lem c s same));
      some_name = reject_empty_twice c s same;
    }

pub parse-to_string : (s : ScopeSet) → IsWire s → parse (to_string s) ≡ ok s
unfolding parse
parse-to_string [] w = cc w.some_name
parse-to_string (x ∷ s) w =
    rw
      (
        split-to_string x s w.named,
        filter-tokens (x ∷ s) w.named,
        collect_sorted [] (x ∷ s) w.canonical w.named,
      )
      refl

-- Printing a parsed scope and parsing it again gives the same set.
pub parse-to_string-parse :
    (raw : String) (s : ScopeSet) → parse raw ≡ ok s → parse (to_string s) ≡ ok s
parse-to_string-parse raw s e = parse-to_string s (parse-IsWire raw s e)
