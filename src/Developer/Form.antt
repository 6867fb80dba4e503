-- ===== src/Developer/Form.antt =====
-- src/developer/dtos.rs: the create and edit form of an application.
use sharp_oauth.Prelude.{
  Bool, false, not, String, Option, none, some, List, [], ◌∷◌, ◌++◌, map, ◌==◌, is_empty, is_none,
  if◌then◌else◌, filter, foldl, mem, any, join, lines,
}
use sharp_oauth.Platform.{Platform}
use sharp_oauth.Scope.{ScopeSet, from_iter}
use sharp_oauth.Storage.{OAuthClient}
use sharp_oauth.OAuth.Params.{Pairs}
use sharp_oauth.OAuth.Client.Registry.{is_confidential}

pub record AppForm : Type 0 where
  pub csrf_token : Option String
  pub name : String
  pub redirect_uris : String
  pub scopes : List String
  pub client_type : String
  pub confirm : Bool

abbrev pub default_form : AppForm
default_form = record {
  csrf_token = none;
  name = "";
  redirect_uris = "";
  scopes = [];
  client_type = "";
  confirm = false;
}

abbrev add_scope : AppForm → String → AppForm
add_scope form value =
    if mem value form.scopes then form else record form { scopes = form.scopes ++ value ∷ [] }

-- One round of the loop of `from_pairs`.
unfoldable pub read_field : AppForm → String × String → AppForm
read_field form (name, value) =
    if name == "csrf_token"
    then (if is_none form.csrf_token then record form { csrf_token = some value } else form)
    else if name == "name"
    then record form { name = value }
    else if name == "redirect_uris"
    then record form { redirect_uris = value }
    else if name == "scope"
    then add_scope form value
    else if name == "client_type"
    then record form { client_type = value }
    else if name == "confirm"
    then record form { confirm = value == "yes" }
    else form

unfoldable pub from_pairs : Pairs → AppForm
from_pairs pairs = foldl read_field default_form pairs

unfoldable pub from_client : OAuthClient → AppForm
from_client client = record default_form {
  name = client.name;
  redirect_uris = join "\n" client.redirect_uris;
  scopes = client.allowed_scopes;
  client_type = if is_confidential client then "confidential" else "public";
}

unfoldable pub is_public : AppForm → Bool
is_public self = self.client_type == "public"

unfoldable pub has_scope : AppForm → String → Bool
has_scope self scope = any (λ s. s == scope) self.scopes

unfoldable pub redirect_uri_list : Platform → AppForm → List String
redirect_uri_list p self =
    filter (λ line. not (is_empty line)) (map p.trim (lines self.redirect_uris))

unfoldable pub scope_set : AppForm → ScopeSet
scope_set self = from_iter self.scopes
