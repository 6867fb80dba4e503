-- ===== src/Oidc/Userinfo/Serves.antt =====
-- The userinfo endpoint serves the tokens that the token endpoint issues.
use sharp_oauth.Prelude.{◌≡◌, some}
use sharp_oauth.Platform.{Platform}
use sharp_oauth.Storage.{Uuid}
use sharp_oauth.Storage.Conn.{Conn}

-- The text form of a UUID reads back.
abbrev pub PrintsUuids : Platform → Type 0
PrintsUuids p = (id : Uuid) → p.parse_uuid (p.uuid_to_string id) ≡ some id
