-- ===== src/Tests/Pages.antt =====
-- Runs of the pages, of the developer portal and of the userinfo endpoint.
use sharp_oauth.Prelude.{
  ℕ, ◌≡◌, ◌*◌, refl, Bool, true, false, String, Option, none, some, List, [], ◌∷◌, Result, ok, ltb,
}
use sharp_oauth.Platform.{Platform}
use sharp_oauth.Storage.{User, Session, OAuthClient, second}
use sharp_oauth.Storage.Conn.{Conn}
use sharp_oauth.OAuth.Client.Registry.{RegisteredClient, ClientDraw}
use sharp_oauth.Developer.Form.{AppForm}
use sharp_oauth.Developer.Apps.{create}
use sharp_oauth.Developer.Apps.Limit.{Created, create-Created}
use sharp_oauth.Web.Http.{Headers, Response, see_other}
use sharp_oauth.Web.Accounts.{SignInForm, safe_return_to, sign_in}
use sharp_oauth.Web.Accounts.ReturnTo.{visible, is_path, safe_return_to-path}
use sharp_oauth.Web.Portal.{PortalDraw}
use sharp_oauth.Web.Portal.Ownership
use sharp_oauth.Tests.World.{
  app, client, user, session, tables, serving, text_a, text_z, platform, platform-ComparesTexts,
  page_draw,
}

abbrev strict : Platform
strict = record platform { is_control = λ c. ltb c 32 }

-- A browser that drops the tab would see another host.
safe_return_to-path_example : is_path (visible (safe_return_to strict "/\t/evil.example")) ≡ true
safe_return_to-path_example = safe_return_to-path strict "/\t/evil.example" (refl, refl, refl)

abbrev browser : Headers
browser = record {
  cookies = some "sharp_csrf=c;sharp_session=AAAAAAAAAAAAAAAAAAAAAAAAAAAAAAAAAAAAAAAAAAA" ∷ [];
  authorization = none;
}

abbrev old_session : Session
old_session = record session { session_token_hash = text_a }

abbrev pub conn : Conn
conn = serving (record (tables [] [] []) {
  sessions = old_session ∷ [];
  clients = (record client { owner_user_id = some 20 }) ∷ [];
  scopes = (record { name = "openid"; description = "" }) ∷ [];
})

abbrev sign_in_form : SignInForm
sign_in_form = record {
  email = "a@b.example";
  password = "pw";
  return_to = some "/developer/apps";
  csrf_token = some "c";
}

abbrev signed_in : Conn
signed_in = (sign_in app "dummy" browser sign_in_form page_draw conn).1

abbrev welcome : Response
welcome = record {
  body = see_other "/developer/apps";
  set_cookies =
      "sharp_session=BBBBBBBBBBBBBBBBBBBBBBBBBBBBBBBBBBBBBBBBBBB; Path=/; HttpOnly; SameSite=Lax; Max-Age=604800; Secure"
      ∷ [];
}

abbrev client_draw : ClientDraw
client_draw = record { now = 20 * second; id = 11; secret_bytes = b'B' ∷ []; id_bytes = b'A' ∷ [] }

abbrev portal_draw : PortalDraw
portal_draw = record { seen_at = 20 * second; csrf_bytes = []; client = client_draw }

abbrev form : AppForm
form = record {
  csrf_token = some "c";
  name = "Other";
  redirect_uris = "https://other.example/cb\r\n\n";
  scopes = "openid" ∷ [];
  client_type = "confidential";
  confirm = false;
}

abbrev made : RegisteredClient
made = record {
  client = record {
    id = 11;
    client_id = "sharp_client_AAAAAAAAAAAAAAAAAAAAAAAA";
    client_secret_hash = some text_z;
    name = "Other";
    redirect_uris = "https://other.example/cb" ∷ [];
    allowed_scopes = "openid" ∷ [];
    created_at = 20 * second;
    updated_at = 20 * second;
    disabled_at = none;
    owner_user_id = some 20;
  };
  client_secret = some "sharp_secret_BBBBBBBBBBBBBBBBBBBBBBBBBBBBBBBBBBBBBBBBBBB";
}

creates :
    create platform user form client_draw conn
    ≡ (ok made, (create platform user form client_draw conn).1)
unfolding sharp_oauth.Developer.Apps.create sharp_oauth.Developer.Apps.create_within
    sharp_oauth.Developer.Form.redirect_uri_list sharp_oauth.Developer.Form.scope_set
    sharp_oauth.Developer.Form.is_public sharp_oauth.Storage.Clients.count_by_owner
    sharp_oauth.OAuth.Client.Details.validate_details
    sharp_oauth.OAuth.Client.Details.validate_redirect_uri_for_registration
    sharp_oauth.OAuth.Client.Details.dedup sharp_oauth.OAuth.Client.Details.check_uris
    sharp_oauth.Storage.Scopes.find_by_names sharp_oauth.Storage.Scopes.by_name
    sharp_oauth.Storage.Scopes.insert_by_name sharp_oauth.Storage.Conn.◌>>=◌
    sharp_oauth.Prelude.filter sharp_oauth.Prelude.any sharp_oauth.Prelude.is_empty
    sharp_oauth.OAuth.Client.Registry.register sharp_oauth.OAuth.Client.Registry.new_client_secret
    sharp_oauth.Storage.Clients.insert sharp_oauth.Secret.generate_token
    sharp_oauth.Secret.hash_token sharp_oauth.Prelude.take_codes sharp_oauth.Prelude.lines
    sharp_oauth.Scope.from_iter
creates = refl

create-Created_example :
    Created platform user form conn.db (create platform user form client_draw conn).1.db made
create-Created_example =
    create-Created platform user form client_draw conn
      (create platform user form client_draw conn).1 made platform-ComparesTexts creates
