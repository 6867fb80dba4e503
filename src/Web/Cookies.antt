-- ===== src/Web/Cookies.antt =====
-- src/pkg/cookie_manager.rs
use Prim.Native.String
use sharp_oauth.Prelude.{
  ℕ, ◌/◌, Bool, not, String, Option, none, some, List, [], ◌∷◌, ◌++◌, ◌==◌, if◌then◌else◌, find,
  keep_if, is_empty, split, split_once, show,
}
use sharp_oauth.Platform.{Platform}
use sharp_oauth.Storage.{second}
use sharp_oauth.Web.Http.{Headers}

infixr 5 ◌&◌
abbrev ◌&◌ : String → String → String
a & b = String.◌++◌ a b

abbrev add_pair : Option (String × String) → List (String × String) → List (String × String)
add_pair none pairs = pairs
add_pair (some pair) pairs = pair ∷ pairs

-- `filter_map` over the pieces of one header value.
unfoldable pub pairs_of : Platform → List String → List (String × String)
pairs_of p [] = []
pairs_of p (piece ∷ pieces) = add_pair (split_once b'=' (p.trim piece)) (pairs_of p pieces)

-- The `name=value` pairs of all `Cookie` headers that are text.
unfoldable pub cookie_pairs : Platform → List (Option String) → List (String × String)
unfolding pairs_of
cookie_pairs p [] = []
cookie_pairs p (none ∷ values) = cookie_pairs p values
cookie_pairs p (some value ∷ values) = pairs_of p (split b';' value) ++ cookie_pairs p values

abbrev value_of : Option (String × String) → Option String
value_of none = none
value_of (some (_, value)) = some value

unfoldable pub get : Platform → Headers → String → Option String
unfolding cookie_pairs pairs_of
get p headers name =
    keep_if (λ value. not (is_empty value))
      (value_of (find (λ pair. pair.0 == name) (cookie_pairs p headers.cookies)))

abbrev max_age_text : Option ℕ → String
max_age_text none = ""
max_age_text (some max_age) = "; Max-Age=" & show (max_age / second)

unfoldable pub set : String → String → Option ℕ → Bool → String
set name value max_age secure =
    name
    & "="
    & value
    & "; Path=/; HttpOnly; SameSite=Lax"
    & max_age_text max_age
    & (if secure then "; Secure" else "")

unfoldable pub clear : String → Bool → String
unfolding set
clear name secure = set name "" (some 0) secure
