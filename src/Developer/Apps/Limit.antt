-- ===== src/Developer/Apps/Limit.antt =====
-- How many applications a user ends up with.
use sharp_oauth.Prelude.{
  ℕ, suc, ◌≡◌, ◌≤◌, refl, sym, false, map, any, is_empty, lines, ◌&&◌, eq_iff, ap, ◌∙◌, Bool, true,
  not, String, some, mem, ◌==◌, List, [], ◌∷◌, ◌++◌, Result, ok, arith, Bool-cases, inl, inr,
  eqb_refl, filter, length, leb,
}
use sharp_oauth.Error.{DbErr}
use sharp_oauth.Platform.{Platform, ComparesTexts}
use sharp_oauth.Storage.{Db, User, OAuthClient}
use sharp_oauth.Storage.Clients.{count_by_owner, is_owned_by}
use sharp_oauth.Storage.Conn.{Conn, throw}
use sharp_oauth.Storage.Conn.Steps.{after_pool, convert-ok}
use sharp_oauth.OAuth.Client.Registry
use sharp_oauth.OAuth.Client.Registry.{RegisteredClient, ClientDraw}
use sharp_oauth.OAuth.Client.Registry.Changes.{Registered, register-Registered}
use sharp_oauth.OAuth.Client.Registry.{is_confidential}
use sharp_oauth.Scope.Members.{mem-from_iter}
use sharp_oauth.Developer.Form.{AppForm, redirect_uri_list, scope_set, is_public}
use sharp_oauth.Developer.Apps.{
  from_registration, max_apps_per_user, new_client, create_within, create,
}

-- The stored applications of a user.
abbrev pub apps_of : User → Db → List OAuthClient
apps_of owner d = filter (is_owned_by owner.id) d.clients

length-filter-append :
    {A : Type 0} (q : A → Bool) (xs : List A) (x : A)
    → q x ≡ true
    → length (filter q (xs ++ x ∷ [])) ≡ suc (length (filter q xs))
unfolding filter
length-filter-append q [] x h = rw h refl
length-filter-append q (y ∷ xs) x h = elim (Bool-cases (q y)) [
  | inl hit ↦ rw hit (ap suc (length-filter-append q xs x h))
  | inr miss ↦ rw miss (length-filter-append q xs x h)
]

-- The texts that are left of the trimmed lines without the empty ones.
mem-trimmed :
    (p : Platform) (uri : String) (texts : List String)
    → mem uri (filter (λ line. not (is_empty line)) (map p.trim texts))
      ≡ (not (is_empty uri) && any (λ line. p.trim line == uri) texts)
unfolding filter any
mem-trimmed p uri [] = ground arith
mem-trimmed p uri (text ∷ texts) =
    let rest = mem-trimmed p uri texts in
    elim (Bool-cases (is_empty (p.trim text))) [
      | inl blank ↦ elim (Bool-cases (p.trim text == uri)) [
        | inl same ↦
            let empty : is_empty uri ≡ true =
              ap is_empty (sym ((eq_iff (p.trim text) uri).0 same)) ∙ blank in
            rw (blank, rest, same, empty) refl
        | inr other ↦ rw (blank, rest, other) refl
      ]
      | inr full ↦ elim (Bool-cases (p.trim text == uri)) [
        | inl same ↦
            let stays : is_empty uri ≡ false =
              ap is_empty (sym ((eq_iff (p.trim text) uri).0 same)) ∙ full in
            rw (full, same, stays) refl
        | inr other ↦ rw (full, other, rest) refl
      ]
    ]

-- An application that was created, and the number of them.
pub record Created (p : Platform) (owner : User) (form : AppForm) (before after : Db)
    (r : RegisteredClient) : Type 0 where
  pub name : r.client.name ≡ p.trim form.name
  pub uris :
      (uri : String)
      → mem uri r.client.redirect_uris
        ≡ (not (is_empty uri) && any (λ line. p.trim line == uri) (lines form.redirect_uris))
  pub scopes : (name : String) → mem name r.client.allowed_scopes ≡ mem name form.scopes
  pub owned : r.client.owner_user_id ≡ some owner.id
  pub confidential : is_confidential r.client ≡ not (form.client_type == "public")
  pub registered : Registered p (new_client p owner form) before after r
  pub one_more : length (apps_of owner after) ≡ suc (length (apps_of owner before))
  pub within : length (apps_of owner after) ≤ max_apps_per_user

-- An application that the portal creates belongs to the user and has what the form says: the name
-- without the blanks around it, as redirect URIs exactly the lines of that field that are not blank,
-- each without the blanks around it, exactly the ticked scopes, and a secret unless the form says
-- `public`. The owner then has one application more than before, and at most 25 of them.
pub create-Created :
    (p : Platform) (owner : User) (form : AppForm) (draw : ClientDraw) (c c' : Conn)
    (r : RegisteredClient)
    → ComparesTexts p
    → create p owner form draw c ≡ (ok r, c')
    → Created p owner form c.db c'.db r
unfolding create create_within count_by_owner throw is_public scope_set redirect_uri_list
create-Created p owner form draw c c' r compares h = after_pool _ c _ _ h λ count c₁ run rest.
    elim (Bool-cases (leb max_apps_per_user count)) [
      | inl full ↦ absurd (ground (arith, rw full at rest))
      | inr free ↦
          let same : c₁.db ≡ c.db = ap (λ (o : Result DbErr ℕ × Db). o.1) (sym run) in
          let counted : count ≡ length (apps_of owner c.db) = ground (arith, run) in
          let registers =
            convert-ok from_registration (Registry.register p (new_client p owner form) draw) c₁
              (rw free at rest) in
          let registered =
            rw same at
              (register-Registered p (new_client p owner form) draw c₁ c' r compares registers) in
          let grows : length (apps_of owner c'.db) ≡ suc (length (apps_of owner c.db)) =
            ap (λ (d : Db). length (apps_of owner d)) registered.stored
            ∙ length-filter-append (is_owned_by owner.id) c.db.clients r.client
                (rw registered.owner (eqb_refl owner.id)) in
          record {
            name = registered.name;
            uris = λ uri. registered.uris uri ∙ mem-trimmed p uri (lines form.redirect_uris);
            scopes = λ name.
                ap (λ (s : List String). mem name s) registered.scopes
                ∙ mem-from_iter name form.scopes;
            owned = registered.owner;
            confidential = registered.confidential;
            registered = registered;
            one_more = grows;
            within = ground (arith, grows, counted, free);
          }
    ]
