-- ===== src/OAuth/Consent.antt =====
-- src/oauth/services/consent.rs: the scopes that a user has approved for a client.
pub mod Record
pub mod Ledger
use sharp_oauth.Prelude.{Option, none, some}
use sharp_oauth.Error.{AppError, database}
use sharp_oauth.Scope.{ScopeSet, from_iter, union}
use sharp_oauth.Storage.{Uuid, Time}
use sharp_oauth.Storage.Conn.{M, pure, on_pool, ◌>>=◌, ◌>>◌}
use sharp_oauth.Storage.Consents.{find_active, upsert}

abbrev pub collected : Option ScopeSet → Option ScopeSet
collected none = none
collected (some scopes) = some (from_iter scopes)

unfoldable pub granted_scopes : Uuid → Uuid → M AppError (Option ScopeSet)
granted_scopes user_id client_id = do
  scopes ← on_pool database (find_active user_id client_id)
  pure (collected scopes)

-- What is approved in all, once `scopes` is approved too.
abbrev pub approved_with : ScopeSet → Option ScopeSet → ScopeSet
approved_with scopes none = scopes
approved_with scopes (some existing) = union existing scopes

-- `id` and `now` are drawn.
unfoldable pub grant : Uuid → Uuid → ScopeSet → Uuid → Time → M AppError (Unit {0})
grant user_id client_id scopes id now = do
  granted ← granted_scopes user_id client_id
  on_pool database (upsert id user_id client_id (approved_with scopes granted) now)
  pure tt
