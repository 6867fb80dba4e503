-- ===== src/Scope.antt =====
-- src/oauth/services/scope.rs: scope names, and the sets of them that requests, clients and
-- consents carry. A `BTreeSet<String>` is the list of its elements in ascending order.
pub mod Members
pub mod Canonical
pub mod Wire
use Prim.Native.Nat.{Ordering}
use sharp_oauth.Prelude.{
  ℕ, ◌||◌, ◌&&◌, not, Bool, String, List, [], ◌∷◌, Result, ok, err, ◌>>?◌, leb, eqb, if◌then◌else◌,
  filter, all, foldl, mem, all_codes, split, is_empty, join,
}
use sharp_oauth.Prelude.Order.{lex}

abbrev pub openid : String
openid = "openid"

abbrev pub profile : String
profile = "profile"

abbrev pub email : String
email = "email"

abbrev pub offline_access : String
offline_access = "offline_access"

abbrev pub ScopeSet : Type 0
ScopeSet = List String

pub data ScopeError : Type 0 where
  empty invalid_characters : ScopeError

-- `BTreeSet::insert`.
unfoldable pub insert : String → ScopeSet → ScopeSet
unfolding lex
insert x [] = x ∷ []
insert x (y ∷ ys) = elim (lex x y) [
  | Ordering.lt ↦ x ∷ y ∷ ys
  | Ordering.eq ↦ y ∷ ys
  | Ordering.gt ↦ y ∷ insert x ys
]

-- Printable ASCII except space, `"` and `\`.
abbrev pub is_scope_byte : ℕ → Bool
is_scope_byte b = eqb b 0x21 || ((leb 0x23 b && leb b 0x5B) || (leb 0x5D b && leb b 0x7E))

-- The loop of `parse`.
unfoldable pub collect : ScopeSet → List String → Result ScopeError ScopeSet
unfolding all_codes insert
collect scopes [] = ok scopes
collect scopes (token ∷ tokens) =
    let rest = collect (insert token scopes) tokens in
    if all_codes is_scope_byte token then rest else err invalid_characters

abbrev pub reject_empty : ScopeSet → Result ScopeError ScopeSet
reject_empty [] = err empty
reject_empty (x ∷ xs) = ok (x ∷ xs)

abbrev pub tokens : String → List String
tokens raw = filter (λ token. not (is_empty token)) (split b' ' raw)

unfoldable pub parse : String → Result ScopeError ScopeSet
unfolding collect filter is_empty split
parse raw = collect [] (tokens raw) >>? reject_empty

abbrev pub contains : ScopeSet → String → Bool
contains scopes scope = mem scope scopes

unfoldable pub is_subset_of : ScopeSet → ScopeSet → Bool
unfolding all
is_subset_of self other = all (contains other) self

unfoldable pub union : ScopeSet → ScopeSet → ScopeSet
unfolding foldl insert
union self other = foldl (λ scopes scope. insert scope scopes) self other

-- `impl FromIterator<String>`.
unfoldable pub from_iter : List String → ScopeSet
unfolding foldl insert
from_iter names = foldl (λ scopes scope. insert scope scopes) [] names

-- `impl Display`: the names joined by single spaces.
unfoldable pub to_string : ScopeSet → String
unfolding join
to_string scopes = join " " scopes
