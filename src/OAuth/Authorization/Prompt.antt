-- ===== src/OAuth/Authorization/Prompt.antt =====
-- The OIDC `prompt` parameter.
use sharp_oauth.Prelude.{
  Bool, true, false, not, ◌&&◌, ◌||◌, String, Option, List, [], ◌∷◌, Result, ok, err, ◌>>?◌, ◌==◌,
  if◌then◌else◌, filter, split, is_empty, unwrap_or,
}

pub record Prompt : Type 0 where
  pub none : Bool
  pub login : Bool
  pub consent : Bool

-- `Prompt::default()`.
abbrev pub default : Prompt
default = record { none = false; login = false; consent = false }

-- One step of the loop of `parse`.
unfoldable pub add_value : Prompt → String → Result (Unit {0}) Prompt
add_value prompt value =
    if value == "none"
    then ok (record prompt { none = true })
    else if value == "login"
    then ok (record prompt { login = true })
    else if value == "consent"
    then ok (record prompt { consent = true })
    else if value == "select_account"
    then ok prompt
    else err tt

unfoldable pub add_values : Prompt → List String → Result (Unit {0}) Prompt
add_values prompt [] = ok prompt
add_values prompt (value ∷ values) = add_value prompt value >>? λ next. add_values next values

-- `none` must not be combined with other values.
unfoldable pub reject_combined : Prompt → Result (Unit {0}) Prompt
reject_combined prompt =
    if prompt.none && (prompt.login || prompt.consent) then err tt else ok prompt

unfoldable pub parse : Option String → Result (Unit {0}) Prompt
parse raw =
    add_values default (filter (λ value. not (is_empty value)) (split b' ' (unwrap_or "" raw)))
    >>? reject_combined
