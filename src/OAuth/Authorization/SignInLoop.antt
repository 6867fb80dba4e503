-- ===== src/OAuth/Authorization/SignInLoop.antt =====
-- The way back from the sign-in page: `without_reauthentication` drops what asked for the sign-in.
use Prim.Native.Char.{Char, code}
use sharp_oauth.Prelude.{
  ℕ, ◌≡◌, refl, ap, ◌∙◌, Bool, true, false, not, String, Option, some, List, [], ◌∷◌, ok, arith,
  Bool-cases, inl, inr, all_codes, eqb, ◌==◌, is_empty, All, split, cons_first, filter, join,
  keep_if, >>?-eq-ok, Option-cases, unwrap_or,
}
use sharp_oauth.Prelude.Split.{split-part, split-part-append}
use sharp_oauth.Storage.{Time, Session}
use sharp_oauth.Storage.Conn.{Conn}
use sharp_oauth.OAuth.Authorization.Prompt
use sharp_oauth.OAuth.Authorization.Prompt.{Prompt, add_value, add_values, reject_combined}
use sharp_oauth.OAuth.Authorization.Request.{
  AuthorizationRequest, drop_login, without_reauthentication,
}
use sharp_oauth.OAuth.Authorization.Validation.{ValidatedRequest, validate}
use sharp_oauth.OAuth.Authorization.Validation.Success.{validate-IsSound}
use sharp_oauth.OAuth.Authorization.Decision.{needs_reauthentication}

abbrev no_space : ℕ → Bool
no_space c = not (eqb c b' ')

abbrev IsPart : String → Type 0
IsPart x = all_codes no_space x ≡ true

cons_first-IsPart :
    (c : Char) (ps : List String)
    → eqb (code c) b' ' ≡ false
    → All IsPart ps
    → All IsPart (cons_first c ps)
unfolding cons_first all_codes
cons_first-IsPart c [] other h = (ground arith, tt)
cons_first-IsPart c (p ∷ ps) other h = (ground (arith, h.0), h.1)

split-join :
    (x : String) (xs : List String) → All IsPart (x ∷ xs) → split b' ' (join " " (x ∷ xs)) ≡ x ∷ xs
unfolding join
split-join x [] h = split-part no_space refl x h.0
split-join x (y ∷ xs) h =
    split-part-append no_space refl x (join " " (y ∷ xs)) h.0 ∙ ap (◌∷◌ x) (split-join y xs h.1)

All-filter :
    (P : String → Type 0) (q : String → Bool) (xs : List String) → All P xs → All P (filter q xs)
unfolding filter
All-filter P q [] h = tt
All-filter P q (x ∷ xs) h = elim (Bool-cases (q x)) [
  | inl stays ↦ rw stays (h.0, All-filter P q xs h.1)
  | inr goes ↦ rw goes (All-filter P q xs h.1)
]

split-IsPart : (s : String) → All IsPart (split b' ' s)
unfolding split all_codes
split-IsPart String.[] = (refl, tt)
split-IsPart (String.◌∷◌ c s) = elim (Bool-cases (eqb (code c) b' ')) [
  | inl space ↦ rw space (refl, split-IsPart s)
  | inr other ↦ rw other (cons_first-IsPart c (split b' ' s) other (split-IsPart s))
]

-- The values of a prompt, and none of them is `login`.
abbrev NotLogin : String → Type 0
NotLogin value = (value == "login") ≡ false

filter-NotLogin : (xs : List String) → All NotLogin (filter (λ value. not (value == "login")) xs)
unfolding filter
filter-NotLogin [] = tt
filter-NotLogin (x ∷ xs) = elim (Bool-cases (x == "login")) [
  | inl login ↦ rw login (filter-NotLogin xs)
  | inr other ↦ rw other (other, filter-NotLogin xs)
]

add_value-login :
    (prompt next : Prompt) (value : String)
    → NotLogin value
    → prompt.login ≡ false
    → add_value prompt value ≡ ok next
    → next.login ≡ false
unfolding add_value
add_value-login prompt next value other off h = ground arith

add_values-login :
    (prompt next : Prompt) (values : List String)
    → All NotLogin values
    → prompt.login ≡ false
    → add_values prompt values ≡ ok next
    → next.login ≡ false
unfolding add_values
add_values-login prompt next [] others off h = ground arith
add_values-login prompt next (value ∷ values) others off h =
    let (one, added, rest) = >>?-eq-ok (add_value prompt value) _ h in
    add_values-login one next values others.1 (add_value-login prompt one value others.0 off added)
      rest

reject_combined_lem : (prompt next : Prompt) → reject_combined prompt ≡ ok next → prompt ≡ next
unfolding reject_combined
reject_combined_lem prompt next h = ground arith

split-join-NotLogin :
    (ps : List String) → All IsPart ps → All NotLogin ps → All NotLogin (split b' ' (join " " ps))
unfolding split join
split-join-NotLogin [] h k = (refl, tt)
split-join-NotLogin (p ∷ ps) h k = rw (split-join p ps h) k

split-drop_login : (s : String) → All NotLogin (split b' ' (drop_login s))
unfolding drop_login
split-drop_login s =
    split-join-NotLogin (filter (λ value. not (value == "login")) (split b' ' s))
      (All-filter IsPart _ (split b' ' s) (split-IsPart s)) (filter-NotLogin (split b' ' s))

kept-NotLogin :
    (s : String)
    → All NotLogin (split b' ' s)
    → All NotLogin (split b' ' (unwrap_or "" (keep_if (λ prompt. not (is_empty prompt)) (some s))))
unfolding split
kept-NotLogin s h = elim (Bool-cases (is_empty s)) [
  | inl blank ↦ rw blank (refl, tt)
  | inr shown ↦ rw shown h
]

parse-login :
    (raw : Option String) (prompt : Prompt)
    → All NotLogin (split b' ' (unwrap_or "" raw))
    → Prompt.parse raw ≡ ok prompt
    → prompt.login ≡ false
unfolding Prompt.parse
parse-login raw prompt others h =
    let (read, added, same) = >>?-eq-ok (add_values Prompt.default _) reject_combined h in
    rw (← reject_combined_lem read prompt same)
      (add_values-login Prompt.default read _ (All-filter NotLogin _ _ others) refl added)

without-NotLogin :
    (request : AuthorizationRequest)
    → All NotLogin (split b' ' (unwrap_or "" (without_reauthentication request).prompt))
unfolding without_reauthentication split
without-NotLogin request = elim (Option-cases request.prompt) [
  | inl missing ↦ rw missing (refl, tt)
  | inr (s, given) ↦ rw given (kept-NotLogin (drop_login s) (split-drop_login s))
]

-- The sign-in loop ends: the request that the browser is sent back with after a sign-in never asks
-- for another one, whatever `prompt` and `max_age` it was first made with, and however old the new
-- session is.
pub signed_in_once :
    (request : AuthorizationRequest) (v : ValidatedRequest) (session : Session) (now : Time)
    (c c' : Conn)
    → validate (without_reauthentication request) c ≡ (ok v, c')
    → needs_reauthentication v session now ≡ false
unfolding needs_reauthentication without_reauthentication
signed_in_once request v session now c c' h =
    let (_, _, _, sound, _) = validate-IsSound (without_reauthentication request) c c' v h in
    let login = parse-login _ v.prompt (without-NotLogin request) sound.prompt in
    ground (arith, login, sound.max_age)
