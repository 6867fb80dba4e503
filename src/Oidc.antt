-- ===== src/Oidc.antt =====
-- src/oidc/services: the claims of the userinfo endpoint and the discovery document.
pub mod Userinfo
pub mod Discovery
use sharp_oauth.Prelude.{ℕ, Bool, String, List}

-- `serde_json::Value`, as far as the endpoints use it.
pub data Json : Type 0 where
  text : String → Json
  number : ℕ → Json
  boolean : Bool → Json
  texts : List String → Json

-- `serde_json::Map`, in the order of the inserts; no key is inserted twice.
abbrev pub Object : Type 0
Object = List (String × Json)
