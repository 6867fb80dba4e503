-- ===== src/OAuth/Params.antt =====
-- src/oauth/services/params.rs: request parameters, each name at most once.
pub mod Lookup
use sharp_oauth.Prelude.{
  Bool, not, String, Option, none, some, List, [], ◌∷◌, Result, ok, err, ◌==◌, if◌then◌else◌,
  keep_if, is_some, is_empty,
}

abbrev pub Pairs : Type 0
Pairs = List (String × String)

-- The hash map, as the pairs inserted so far, the newest first.
pub record Params : Type 0 where
  pub entries : Pairs

pub data DuplicateParameter : Type 0 where
  duplicate : String → DuplicateParameter

-- `HashMap::get`.
unfoldable pub lookup : String → Pairs → Option String
lookup name [] = none
lookup name ((key, value) ∷ entries) = if key == name then some value else lookup name entries

-- The loop of `from_pairs`.
unfoldable pub insert_all : Pairs → Pairs → Result DuplicateParameter Params
unfolding lookup
insert_all entries [] = ok (record { entries = entries })
insert_all entries ((name, value) ∷ pairs) =
    let rest = insert_all ((name, value) ∷ entries) pairs in
    if is_some (lookup name entries) then err (duplicate name) else rest

unfoldable pub from_pairs : Pairs → Result DuplicateParameter Params
unfolding insert_all
from_pairs pairs = insert_all [] pairs

-- An empty value counts as missing; `take` is the owned form of the same value.
unfoldable pub get : Params → String → Option String
unfolding lookup is_empty
get params name = keep_if (λ value. not (is_empty value)) (lookup name params.entries)
