-- ===== src/Oidc/Discovery.antt =====
-- src/oidc/services/discovery.rs
use sharp_oauth.Prelude.{true, false, String, List, [], ◌∷◌, map}
use sharp_oauth.Error.{AppError, database}
use sharp_oauth.Config.{url}
use sharp_oauth.State.{AppState}
use sharp_oauth.Storage.{ScopeDescription}
use sharp_oauth.Storage.Scopes.{list_all}
use sharp_oauth.Storage.Conn.{M, pure, on_pool, ◌>>=◌}
use sharp_oauth.Oidc.{Object, text, boolean, texts}

abbrev endpoint_methods : List String
endpoint_methods = "client_secret_basic" ∷ "client_secret_post" ∷ "none" ∷ []

abbrev pub metadata : AppState → List String → Object
unfolding url
metadata app scopes =
    ("issuer", text app.config.issuer)
    ∷ ("authorization_endpoint", text (url app.config "/oauth/authorize"))
    ∷ ("token_endpoint", text (url app.config "/oauth/token"))
    ∷ ("userinfo_endpoint", text (url app.config "/oauth/userinfo"))
    ∷ ("revocation_endpoint", text (url app.config "/oauth/revoke"))
    ∷ ("jwks_uri", text (url app.config "/.well-known/jwks.json"))
    ∷ ("response_types_supported", texts ("code" ∷ []))
    ∷ ("response_modes_supported", texts ("query" ∷ []))
    ∷ ("grant_types_supported", texts ("authorization_code" ∷ "refresh_token" ∷ []))
    ∷ ("code_challenge_methods_supported", texts ("S256" ∷ []))
    ∷ ("scopes_supported", texts scopes)
    ∷ ("subject_types_supported", texts ("public" ∷ []))
    ∷ ("id_token_signing_alg_values_supported", texts ("RS256" ∷ []))
    ∷ (
      "claims_supported",
      texts (
          "iss" ∷ "sub" ∷ "aud" ∷ "exp" ∷ "iat" ∷ "auth_time" ∷ "nonce" ∷ "name" ∷ "updated_at"
          ∷ "email" ∷ "email_verified" ∷ []),
    )
    ∷ ("prompt_values_supported", texts ("none" ∷ "login" ∷ "consent" ∷ "select_account" ∷ []))
    ∷ ("token_endpoint_auth_methods_supported", texts endpoint_methods)
    ∷ ("revocation_endpoint_auth_methods_supported", texts endpoint_methods)
    ∷ ("authorization_response_iss_parameter_supported", boolean true)
    ∷ ("request_parameter_supported", boolean false)
    ∷ ("request_uri_parameter_supported", boolean false)
    ∷ ("claims_parameter_supported", boolean false)
    ∷ []

unfoldable pub document : AppState → M AppError Object
document app = do
  scopes ← on_pool database list_all
  pure (metadata app (map (λ (scope : ScopeDescription). scope.name) scopes))
