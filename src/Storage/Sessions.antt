-- ===== src/Storage/Sessions.antt =====
-- src/authentication/repo/sessions.rs
use sharp_oauth.Prelude.{
  Bool, ◌&&◌, ◌||◌, String, Option, some, [], ◌∷◌, ◌++◌, ok, ◌==◌, eqb, ltb, is_none, find, any,
  update_where,
}
use sharp_oauth.Storage.{Time, Stmt, Session, select, insert_unless}

abbrev pub clashes : Session → Session → Bool
clashes session row = eqb row.id session.id || row.session_token_hash == session.session_token_hash

unfoldable pub insert : Session → Stmt (Unit {0})
insert session d =
    insert_unless (any (clashes session) d.sessions) d
      (record d { sessions = d.sessions ++ session ∷ [] })

abbrev pub is_live : String → Time → Session → Bool
is_live hash now row =
    row.session_token_hash == hash && (is_none row.revoked_at && ltb now row.expires_at)

unfoldable pub find_active_by_hash : String → Time → Stmt (Option Session)
find_active_by_hash hash now = select (λ d. find (is_live hash now) d.sessions)

unfoldable pub revoke_by_hash : String → Time → Stmt (Unit {0})
revoke_by_hash hash now d = (
  ok tt,
  record d {
    sessions =
        update_where (λ row. row.session_token_hash == hash && is_none row.revoked_at)
          (λ row. record row { revoked_at = some now }) d.sessions;
  },
)
