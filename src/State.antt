-- ===== src/State.antt =====
-- src/lib.rs: what every request handler shares, apart from the database.
use sharp_oauth.Platform.{Platform}
use sharp_oauth.Config.{Config}
use sharp_oauth.Keys.{SigningKeys}

pub record AppState : Type 0 where
  pub platform : Platform
  pub config : Config
  pub signing_keys : SigningKeys
