-- ===== src/Developer/Apps.antt =====
-- src/developer/services/apps.rs: ownership, the limit of applications, and messages for a person.
pub mod Limit
use Prim.Native.String
use sharp_oauth.Prelude.{ℕ, Bool, true, false, not, String, Option, some, List, leb, join, show}
use sharp_oauth.Error.{DbErr}
use sharp_oauth.Platform.{Platform, Bytes}
use sharp_oauth.Storage.{Time, User, OAuthClient}
use sharp_oauth.Storage.Clients.{list_by_owner, find_owned, count_by_owner}
use sharp_oauth.Storage.Conn.{M, pure, throw, on_pool, convert, ◌>>=◌, ◌>>◌}
use sharp_oauth.OAuth.Client.Details.{
  RegistrationError, empty_name, name_too_long, no_redirect_uris, too_many_redirect_uris, no_scopes,
  invalid_redirect_uri, unknown_scopes, max_name_len, max_redirect_uris,
}
use sharp_oauth.OAuth.Client.Details
use sharp_oauth.OAuth.Client.Registry
use sharp_oauth.OAuth.Client.Registry.{NewClient, RegisteredClient, ClientDraw}
use sharp_oauth.Developer.Form.{AppForm, redirect_uri_list, scope_set, is_public}

abbrev pub max_apps_per_user : ℕ
max_apps_per_user = 25

pub data AppFormError : Type 0 where
  limit_reached : AppFormError
  invalid : String → AppFormError
  database : DbErr → AppFormError

infixr 5 ◌&◌
abbrev ◌&◌ : String → String → String
a & b = String.◌++◌ a b

-- `From<RegistrationError>`.
unfoldable pub from_registration : RegistrationError → AppFormError
from_registration (Details.database e) = database e
from_registration empty_name = invalid "Please enter an application name."
from_registration name_too_long =
    invalid ("The application name must be at most " & show max_name_len & " characters.")
from_registration no_redirect_uris = invalid "Add at least one redirect URL."
from_registration too_many_redirect_uris =
    invalid ("You can register at most " & show max_redirect_uris & " redirect URLs.")
from_registration (invalid_redirect_uri uri reason) =
    invalid ("Redirect URL " & uri & " " & reason & ".")
from_registration no_scopes = invalid "Choose at least one scope."
from_registration (unknown_scopes scopes) = invalid ("Unknown scopes: " & join ", " scopes & ".")

-- The text that the page shows; a database error is not shown, its text is left out.
unfoldable pub message : AppFormError → String
message limit_reached =
    "You can register at most "
    & show max_apps_per_user
    & " applications. Delete one to add another."
message (invalid text) = text
message (database _) = ""

unfoldable pub list : User → M DbErr (List OAuthClient)
list owner = on_pool (λ e. e) (list_by_owner owner.id)

unfoldable pub find : User → String → M DbErr (Option OAuthClient)
find owner client_id = on_pool (λ e. e) (find_owned owner.id client_id)

abbrev pub new_client : Platform → User → AppForm → NewClient
new_client p owner form = record {
  name = form.name;
  redirect_uris = redirect_uri_list p form;
  scopes = scope_set form;
  confidential = not (is_public form);
  owner_user_id = some owner.id;
}

-- The rest of `create`, by whether the limit is reached.
unfoldable pub create_within :
    Platform → User → AppForm → ClientDraw → Bool → M AppFormError RegisteredClient
create_within p owner form draw true = throw limit_reached
create_within p owner form draw false =
    convert from_registration (Registry.register p (new_client p owner form) draw)

unfoldable pub create : Platform → User → AppForm → ClientDraw → M AppFormError RegisteredClient
create p owner form draw = do
  count ← on_pool database (count_by_owner owner.id)
  create_within p owner form draw (leb max_apps_per_user count)

unfoldable pub update : Platform → OAuthClient → AppForm → Time → M AppFormError (Unit {0})
update p app form now = convert from_registration (
    Registry.update_details p app
      (record {
        name = form.name;
        redirect_uris = redirect_uri_list p form;
        scopes = scope_set form;
      })
      now)

unfoldable pub rotate_secret : Platform → OAuthClient → Bytes → Time → M DbErr (Option String)
rotate_secret p app bytes now = Registry.rotate_secret p app bytes now

unfoldable pub delete : OAuthClient → M DbErr (Unit {0})
delete app = Registry.delete app
