-- ===== src/Web/Accounts/ReturnTo.antt =====
-- Where the sign-in pages send the browser afterwards.
use Prim.Native.Char.{Char, code}
use text.Mathlib.Text.{starts_with}
use text.Mathlib.TextEquality.{starts_with_iff, Char-path}
use text.Mathlib.TextLemmas.{nil-append, cons-append}
use sharp_oauth.Prelude.{
  ℕ, ◌≡◌, refl, sym, ap, ap₂, ◌∙◌, Bool, true, false, not, ◌&&◌, ◌||◌, String, List, [], ◌∷◌, arith,
  Bool-cases, inl, inr, eqb, eqb→eq, if◌then◌else◌, starts_with_code, any_code,
}
use sharp_oauth.Platform.{Platform}
use sharp_oauth.Web.Accounts.{safe_return_to}

-- The code points that a browser makes of a link: it drops tabs and line ends, and reads `\` as `/`
-- (the URL standard's basic URL parser).
unfoldable pub visible : String → List ℕ
visible String.[] = []
visible (String.◌∷◌ c s) =
    let rest = visible s in
    if eqb (code c) 9 || (eqb (code c) 10 || eqb (code c) 13)
    then rest
    else (if eqb (code c) 92 then b'/' else code c) ∷ rest

-- A path of the same server: one slash, and none right after it, which would start a host.
unfoldable pub is_path : List ℕ → Bool
is_path [] = false
is_path (a ∷ []) = eqb a b'/'
is_path (a ∷ b ∷ codes) = eqb a b'/' && not (eqb b b'/')

-- `char::is_control` holds of tabs and line ends.
abbrev pub KnowsControls : Platform → Type 0
KnowsControls p = (p.is_control 9 ≡ true) × (p.is_control 10 ≡ true) × (p.is_control 13 ≡ true)

-- A text without the characters that a browser drops or replaces.
abbrev IsPlain : String → Type 0
IsPlain s = any_code (λ c. eqb c 9 || (eqb c 10 || (eqb c 13 || eqb c 92))) s ≡ false

abbrev codes : String → List ℕ
codes String.[] = []
codes (String.◌∷◌ c s) = code c ∷ codes s

visible-plain : (s : String) → IsPlain s → visible s ≡ codes s
unfolding visible any_code
visible-plain String.[] h = refl
visible-plain (String.◌∷◌ c s) h = ground (arith, visible-plain s)

not_control :
    (p : Platform) (n k : ℕ) → p.is_control k ≡ true → p.is_control n ≡ false → eqb n k ≡ false
not_control p n k control other = elim (Bool-cases (eqb n k)) [
  | inl same ↦ absurd (ground (arith, control, other, ap p.is_control (eqb→eq n k same)))
  | inr differs ↦ differs
]

plain :
    (p : Platform) (s : String)
    → KnowsControls p
    → any_code (λ c. eqb c 92) s ≡ false
    → any_code p.is_control s ≡ false
    → IsPlain s
unfolding any_code
plain p String.[] controls h k = refl
plain p (String.◌∷◌ c s) (tab, feed, return) h k =
    let other : p.is_control (code c) ≡ false = ground (arith, k) in
    let rest : any_code p.is_control s ≡ false = ground (arith, k) in
    ground (
      arith,
      not_control p (code c) 9 tab other,
      not_control p (code c) 10 feed other,
      not_control p (code c) 13 return other,
      plain p s (tab, feed, return) (ground (arith, h)) rest,
    )

-- Two slashes at the start are what `starts_with` looks for.
starts_host :
    (c d : Char) (s : String)
    → code c ≡ b'/'
    → code d ≡ b'/'
    → starts_with (String.◌∷◌ c (String.◌∷◌ d s)) "//" ≡ true
starts_host c d s first second =
    let c_is = Char-path c "/" first in
    let d_is = Char-path d "/" second in
    (starts_with_iff (String.◌∷◌ c (String.◌∷◌ d s)) "//").1 (
      s,
      cons-append "/" "/" s
          ∙ ap (String.◌∷◌ "/") (cons-append "/" "" s ∙ ap (String.◌∷◌ "/") (nil-append s))
          ∙ ap₂ (λ a b. String.◌∷◌ a (String.◌∷◌ b s)) (sym c_is) (sym d_is),
    )

local_codes :
    (s : String)
    → starts_with_code b'/' s ≡ true
    → starts_with s "//" ≡ false
    → is_path (codes s) ≡ true
unfolding is_path starts_with_code
local_codes String.[] h k = absurd (ground (arith, h))
local_codes (String.◌∷◌ c String.[]) h k = h
local_codes (String.◌∷◌ c (String.◌∷◌ d s)) h k = elim (Bool-cases (eqb (code d) b'/')) [
  | inl slash ↦
      absurd
        (ground (arith, k, starts_host c d s (eqb→eq (code c) b'/' h) (eqb→eq (code d) b'/' slash)))
  | inr other ↦ rw (h, other) refl
]

-- No open redirector: whatever path a request asks to return to, a browser reads the one that it
-- is sent to as a path of this server and not as another host, even after it has dropped tabs and
-- line ends and read backslashes as slashes.
pub safe_return_to-path :
    (p : Platform) (candidate : String)
    → KnowsControls p
    → is_path (visible (safe_return_to p candidate)) ≡ true
unfolding safe_return_to is_path visible
safe_return_to-path p candidate controls =
    elim (Bool-cases (
      starts_with_code b'/' candidate
      && (not (starts_with candidate "//")
          && (not (any_code (λ c. eqb c 92) candidate)
              && not (any_code p.is_control candidate))))) [
                | inr unsafe ↦ rw unsafe refl
                | inl local ↦
                    let is_plain =
                      plain p candidate controls (ground (arith, local)) (ground (arith, local)) in
                    rw (local, visible-plain candidate is_plain)
                      (local_codes candidate (ground (arith, local)) (ground (arith, local)))
              ]
